-- ===== src/Strconv/Integer.antt =====
-- `strconv.ParseUint`, `strconv.ParseInt`, and the verbs `%d` and `%x` of `fmt` on unsigned numbers.
pub mod RoundTrip
use gcosmos.Base.{
  ℕ, zero, suc, ◌+◌, ◌-◌, ◌*◌, ◌/◌, ◌%◌, ◌^◌, Bool, true, false, ◌&&◌, ◌||◌, Option, none, some, [],
  ◌∷◌, Bytes, ltb, leb, nat_eq, if◌then◌else◌,
}

-- An `int`, `negsuc n` being -(n + 1).
pub data ℤ : Type 0 where
  pos : ℕ → ℤ
  negsuc : ℕ → ℤ

-- The digit for a value below 36, in lower case.
abbrev pub digit : ℕ → ℕ
digit d = if ltb d 10 then b'0' + d else b'a' + (d - 10)

-- The value of a digit or letter of either case; any other byte has a value above every base.
abbrev pub digit_value : ℕ → ℕ
digit_value c =
    if leb b'0' c && leb c b'9'
    then c - b'0'
    else if leb b'a' c && leb c b'z'
    then c - b'a' + 10
    else if leb b'A' c && leb c b'Z'
    then c - b'A' + 10
    else 36

-- Each round divides by the base. `fuel` is at least the number that is left.
unfoldable pub emit : ℕ → ℕ → ℕ → Bytes → Bytes
emit zero base n out = out
emit (suc fuel) base n out =
    let rest = emit fuel base (n / base) (digit (n % base) ∷ out) in
    if nat_eq n 0 then out else rest

-- `%d` at base 10, `%x` at base 16.
unfoldable pub format_uint : ℕ → ℕ → Bytes
unfolding emit
format_uint base n = if nat_eq n 0 then b'0' ∷ [] else emit n base n []

-- The loop of `ParseUint`: a bad digit and a value above `max` are errors.
unfoldable pub scan : ℕ → ℕ → Bytes → ℕ → Option ℕ
scan base max [] n = some n
scan base max (c ∷ s) n =
    let d = digit_value c in
    let m = n * base + d in
    if leb base d then none else if ltb max m then none else scan base max s m

unfoldable pub parse_uint : ℕ → ℕ → Bytes → Option ℕ
unfolding scan
parse_uint base bits [] = none
parse_uint base bits (c ∷ s) = scan base (2 ^ bits - 1) (c ∷ s) 0

abbrev positive : ℕ → Option ℕ → Option ℤ
positive bits none = none
positive bits (some n) = if leb (2 ^ (bits - 1)) n then none else some (pos n)

abbrev negative : ℕ → Option ℕ → Option ℤ
negative bits none = none
negative bits (some zero) = some (pos 0)
negative bits (some (suc n)) = if leb (2 ^ (bits - 1)) n then none else some (negsuc n)

-- A sign may stand in front; the range is that of a signed number of `bits` bits.
pub parse_int : ℕ → ℕ → Bytes → Option ℤ
parse_int base bits [] = none
parse_int base bits (c ∷ s) =
    if nat_eq c b'+'
    then positive bits (parse_uint base bits s)
    else if nat_eq c b'-'
    then negative bits (parse_uint base bits s)
    else positive bits (parse_uint base bits (c ∷ s))
