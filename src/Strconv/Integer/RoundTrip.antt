-- ===== src/Strconv/Integer/RoundTrip.antt =====
-- A printed number is parsed back, and what is parsed is in range.
use mathlib.Core.List.{cons-ne-nil}
use native.Mathlib.Nat.{div-add-mod', div-lt_self, one-le-pow}
use gcosmos.Base.{
  ℕ, zero, suc, ◌+◌, ◌-◌, ◌*◌, ◌/◌, ◌%◌, ◌^◌, ◌≤◌, ◌<◌, ◌≡◌, ◌≢◌, refl, Option, none, some, [], ◌∷◌,
  Bool, true, false, nat_eq, if◌then◌else◌, arith, Bytes, All,
}
use gcosmos.Strconv.Integer.{
  digit, digit_value, emit, format_uint, scan, parse_uint, parse_int, ℤ, pos, negsuc, positive,
  negative,
}

abbrev pub Lacks : ℕ → Bytes → Type 0
Lacks b = All (λ c. c ≢ b)

pub digit-ne : (d : ℕ) → digit d ≢ b':'
digit-ne d = ground arith

pub digit_value-digit : (d : ℕ) → d < 16 → digit_value (digit d) ≡ d
digit_value-digit d h = ground arith

scan-le : (base max : ℕ) (s : Bytes) (n r : ℕ) → n ≤ max → scan base max s n ≡ some r → r ≤ max
unfolding scan
scan-le base max [] n r h e = ground arith
scan-le base max (c ∷ s) n r h e = ground (arith, scan-le base max s (n * base + digit_value c) r)

pow_pos : (k : ℕ) → 0 < 2 ^ k
pow_pos k = one-le-pow k 2 (omega arith)

-- What `ParseUint` returns fits the width it was given.
pub parse_uint-lt :
    (base bits : ℕ) (s : Bytes) (r : ℕ) → parse_uint base bits s ≡ some r → r < 2 ^ bits
unfolding parse_uint
parse_uint-lt base bits [] r e = cc
parse_uint-lt base bits (c ∷ s) r e =
    omega (arith, pow_pos bits, scan-le base (2 ^ bits - 1) (c ∷ s) 0 r (omega arith) e)

module _ (P : ℕ → Type 0) (holds : (d : ℕ) → P (digit d)) where
  emit-All : (f base n : ℕ) (out : Bytes) → All P out → All P (emit f base n out)
  unfolding emit
  emit-All zero base n out h = h
  emit-All (suc f) base n out h =
      ground (arith, emit-All f base (n / base) (digit (n % base) ∷ out), holds (n % base))

  format_uint-All : (base n : ℕ) → All P (format_uint base n)
  unfolding format_uint
  format_uint-All base n = ground (arith, holds 0, emit-All n base n [])

pub format_uint-Lacks : (base n : ℕ) → Lacks b':' (format_uint base n)
format_uint-Lacks = format_uint-All (λ c. c ≢ b':') digit-ne

emit-ne-nil : (f base n : ℕ) (out : Bytes) → out ≢ [] → emit f base n out ≢ []
unfolding emit
emit-ne-nil zero base n out h = h
emit-ne-nil (suc f) base n out h = ground (
  arith,
  emit-ne-nil f base (n / base) (digit (n % base) ∷ out) (cons-ne-nil (digit (n % base)) out),
)

format_uint-ne-nil : (base n : ℕ) → format_uint base n ≢ []
unfolding format_uint emit
format_uint-ne-nil base zero = ground arith
format_uint-ne-nil base (suc n) = ground (
  arith,
  emit-ne-nil n base (suc n / base) (digit (suc n % base) ∷ [])
      (cons-ne-nil (digit (suc n % base)) []),
)

module _ (base max : ℕ) (low : 1 < base) (high : base ≤ 16) where
  scan_last :
      (n : ℕ) (out : Bytes)
      → n ≤ max
      → scan base max (digit (n % base) ∷ out) (n / base) ≡ scan base max out n
  unfolding scan
  scan_last n out h =
      rw (digit_value-digit (n % base) (omega arith), scan)
        (rw (div-add-mod' n base) (ground arith))

  scan-emit :
      (f n : ℕ) (out : Bytes)
      → n ≤ f
      → n ≤ max
      → scan base max (emit f base n out) 0 ≡ scan base max out n
  unfolding emit
  scan-emit zero n out hf h = ground arith
  scan-emit (suc f) n out hf h = ground (
    arith,
    λ (h : 0 < n). div-lt_self {n = n} {k = base} h low,
    scan_last n out h,
    scan-emit f (n / base) (digit (n % base) ∷ out),
  )

parse_uint-scan :
    (base bits : ℕ) (s : Bytes) → s ≢ [] → parse_uint base bits s ≡ scan base (2 ^ bits - 1) s 0
unfolding parse_uint
parse_uint-scan base bits [] h = absurd (h refl)
parse_uint-scan base bits (c ∷ s) h = refl

-- A number that fits the width is read back from its print in the same base.
pub parse_uint-format_uint :
    (base bits n : ℕ)
    → 1 < base
    → base ≤ 16
    → n < 2 ^ bits
    → parse_uint base bits (format_uint base n) ≡ some n
unfolding format_uint scan
parse_uint-format_uint base bits n low high fits =
    rw (parse_uint-scan base bits _ (format_uint-ne-nil base n))
      (ground (arith, scan-emit base (2 ^ bits - 1) low high n n []))

abbrev IsUnsigned : ℕ → Type 0
IsUnsigned c = (c ≢ b'+') × (c ≢ b'-')

digit-IsUnsigned : (d : ℕ) → IsUnsigned (digit d)
digit-IsUnsigned d = ground arith

parse_int-unsigned :
    (base bits n : ℕ) (s : Bytes)
    → All IsUnsigned s
    → parse_uint base bits s ≡ some n
    → n < 2 ^ (bits - 1)
    → parse_int base bits s ≡ some (pos n)
unfolding parse_int parse_uint
parse_int-unsigned base bits n [] h e fits = cc
parse_int-unsigned base bits n (c ∷ s) h e fits = ground arith

-- `ParseInt` at 32 bits reads the print of a number below 2^31.
pub parse_int-format_uint : (n : ℕ) → n < 2 ^ 31 → parse_int 10 32 (format_uint 10 n) ≡ some (pos n)
parse_int-format_uint n fits =
    parse_int-unsigned 10 32 n _ (format_uint-All IsUnsigned digit-IsUnsigned 10 n)
      (parse_uint-format_uint 10 32 n (omega arith) (omega arith) (omega arith)) fits

-- The range of a signed number of 32 bits.
abbrev pub IsI32 : ℤ → Type 0
IsI32 (pos n) = n < 2 ^ 31
IsI32 (negsuc n) = n < 2 ^ 31

positive-IsI32 : (o : Option ℕ) (z : ℤ) → positive 32 o ≡ some z → IsI32 z
positive-IsI32 none z e = cc
positive-IsI32 (some n) (pos m) e = ground arith
positive-IsI32 (some n) (negsuc m) e = ground arith

negative-IsI32 : (o : Option ℕ) (z : ℤ) → negative 32 o ≡ some z → IsI32 z
negative-IsI32 none z e = cc
negative-IsI32 (some zero) (pos m) e = ground arith
negative-IsI32 (some (suc n)) (pos m) e = ground arith
negative-IsI32 (some zero) (negsuc m) e = ground arith
negative-IsI32 (some (suc n)) (negsuc m) e = ground arith

signed-IsI32 :
    (plus minus : Bool) (p n q : Option ℕ) (z : ℤ)
    → (if plus then positive 32 p else if minus then negative 32 n else positive 32 q) ≡ some z
    → IsI32 z
signed-IsI32 true minus p n q z e = positive-IsI32 p z e
signed-IsI32 false true p n q z e = negative-IsI32 n z e
signed-IsI32 false false p n q z e = positive-IsI32 q z e

pub parse_int-IsI32 : (base : ℕ) (s : Bytes) (z : ℤ) → parse_int base 32 s ≡ some z → IsI32 z
unfolding parse_int
parse_int-IsI32 base [] z e = cc
parse_int-IsI32 base (c ∷ s) z e =
    signed-IsI32 (nat_eq c b'+') (nat_eq c b'-') (parse_uint base 32 s) (parse_uint base 32 s)
      (parse_uint base 32 (c ∷ s)) z e
