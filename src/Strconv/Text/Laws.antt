-- ===== src/Strconv/Text/Laws.antt =====
-- How the cuts and the splits read a text that was put together, and hexadecimal there and back.
use gcosmos.Base.{
  ℕ, zero, suc, ◌+◌, ◌/◌, ◌%◌, ◌≡◌, ◌≢◌, refl, ap, Option, none, some, true, false, [], ◌∷◌, ◌++◌,
  arith, Bytes, IsByte, All, length, length-append, Bool, bytes_beq_iff, if◌then◌else◌,
}
use gcosmos.Strconv.Integer.RoundTrip.{Lacks, digit-ne, digit_value-digit}
use gcosmos.Strconv.Text.{cut, split_n, cut_suffix, cut_prefix, hex_encode, hex_decode, cons_some}

module _ (sep : ℕ) where
  cut-append : (p s : Bytes) → Lacks sep p → cut sep (p ++ sep ∷ s) ≡ some (p, s)
  unfolding cut
  cut-append [] s h = ground arith
  cut-append (c ∷ p) s h = ground (arith, cut-append p s h.1)

  cut-Lacks : (p : Bytes) → Lacks sep p → cut sep p ≡ none
  unfolding cut
  cut-Lacks [] h = refl
  cut-Lacks (c ∷ p) h = ground (arith, cut-Lacks p h.1)

  pub split_n-append :
      (n : ℕ) (p s : Bytes)
      → Lacks sep p
      → split_n sep (suc (suc n)) (p ++ sep ∷ s) ≡ p ∷ split_n sep (suc n) s
  unfolding split_n
  split_n-append n p s h = ground (arith, cut-append p s h)

  pub split_n-Lacks : (n : ℕ) (p : Bytes) → Lacks sep p → split_n sep (suc n) p ≡ p ∷ []
  unfolding split_n
  split_n-Lacks zero p h = refl
  split_n-Lacks (suc n) p h = ground (arith, cut-Lacks p h)

pub cut_suffix-append : (p suffix : Bytes) → cut_suffix (p ++ suffix) suffix ≡ some p
unfolding cut_suffix
cut_suffix-append [] [] = refl
cut_suffix-append [] (c ∷ s) = ground (arith, bytes_beq_iff (c ∷ s) (c ∷ s))
cut_suffix-append (c ∷ p) s = ground (
  arith,
  bytes_beq_iff (c ∷ (p ++ s)) s,
  λ (e : c ∷ (p ++ s) ≡ s). ap length e,
  length-append p s,
  cut_suffix-append p s,
)

pub cut_suffix-eq-some : (s suffix p : Bytes) → cut_suffix s suffix ≡ some p → s ≡ p ++ suffix
unfolding cut_suffix
cut_suffix-eq-some [] suffix p h = ground (arith, bytes_beq_iff [] suffix)
cut_suffix-eq-some (c ∷ s) suffix [] h = ground (arith, bytes_beq_iff (c ∷ s) suffix)
cut_suffix-eq-some (c ∷ s) suffix (d ∷ p) h =
    ground (arith, bytes_beq_iff (c ∷ s) suffix, cut_suffix-eq-some s suffix p)

pub cut_prefix-append : (p s : Bytes) → cut_prefix (p ++ s) p ≡ some s
unfolding cut_prefix
cut_prefix-append [] s = refl
cut_prefix-append (c ∷ p) s = ground (arith, cut_prefix-append p s)

pub hex_decode-hex_encode : (bs : Bytes) → All IsByte bs → hex_decode (hex_encode bs) ≡ some bs
unfolding hex_decode hex_encode
hex_decode-hex_encode [] h = refl
hex_decode-hex_encode (b ∷ bs) h =
    rw (digit_value-digit (b / 16) (omega arith), digit_value-digit (b % 16) (omega arith))
      (ground (arith, hex_decode-hex_encode bs h.1))

pub length-hex_encode : (bs : Bytes) → length (hex_encode bs) ≡ length bs + length bs
unfolding hex_encode
length-hex_encode [] = omega arith
length-hex_encode (b ∷ bs) = omega (arith, length-hex_encode bs)

guarded_cons :
    (refused : Bool) (c d : ℕ) (o : Option Bytes) (bs : Bytes)
    → (if refused then none else cons_some c o) ≡ some (d ∷ bs)
    → o ≡ some bs
guarded_cons true c d o bs h = cc
guarded_cons false c d none bs h = cc
guarded_cons false c d (some s) bs h = ground arith

guarded_ne_nil :
    (refused : Bool) (c : ℕ) (o : Option Bytes)
    → (if refused then none else cons_some c o) ≢ some []
guarded_ne_nil true c o h = cc
guarded_ne_nil false c none h = cc
guarded_ne_nil false c (some s) h = cc

pub length-hex_decode : (s bs : Bytes) → hex_decode s ≡ some bs → length bs + length bs ≡ length s
unfolding hex_decode
length-hex_decode [] bs h = ground arith
length-hex_decode (a ∷ []) bs h = ground arith
length-hex_decode (a ∷ b ∷ s) [] h = absurd (guarded_ne_nil _ _ (hex_decode s) h)
length-hex_decode (a ∷ b ∷ s) (c ∷ bs) h =
    omega (arith, length-hex_decode s bs (guarded_cons _ _ c (hex_decode s) bs h))

pub hex_encode-Lacks : (bs : Bytes) → Lacks b':' (hex_encode bs)
unfolding hex_encode
hex_encode-Lacks [] = tt
hex_encode-Lacks (b ∷ bs) = (digit-ne (b / 16), (digit-ne (b % 16), hex_encode-Lacks bs))
