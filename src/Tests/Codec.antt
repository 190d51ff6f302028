-- ===== src/Tests/Codec.antt =====
-- A codec that the documented facts hold of: each byte is raised by one, a 0 ends an item, and two
-- bytes stand in front; compression adds a byte.
use gcosmos.Base.{
  ℕ, zero, suc, ◌≡◌, refl, ap, arith, List, [], ◌∷◌, Option, none, some, Bytes, length,
}
use gcosmos.BlockData.Codecs.{Codecs, IsLawful}
use gcosmos.Strconv.Integer.{pos}

abbrev pub item : Bytes → Bytes → Bytes
item [] s = 0 ∷ s
item (b ∷ x) s = suc b ∷ item x s

abbrev pub body : List Bytes → Bytes
body [] = []
body (x ∷ xs) = item x (body xs)

abbrev cons_head : ℕ → List Bytes → List Bytes
cons_head b [] = (b ∷ []) ∷ []
cons_head b (x ∷ xs) = (b ∷ x) ∷ xs

abbrev parse_items : Bytes → List Bytes
parse_items [] = []
parse_items (zero ∷ s) = [] ∷ parse_items s
parse_items (suc b ∷ s) = cons_head b (parse_items s)

parse_items-item : (x s : Bytes) → parse_items (item x s) ≡ x ∷ parse_items s
parse_items-item [] s = refl
parse_items-item (b ∷ x) s = ap (cons_head b) (parse_items-item x s)

parse_items-body : (xs : List Bytes) → parse_items (body xs) ≡ xs
parse_items-body [] = refl
parse_items-body (x ∷ xs) = rw (parse_items-item x (body xs), parse_items-body xs)

abbrev pub unmarshal : Bytes → Option (List Bytes)
unmarshal [] = none
unmarshal (a ∷ []) = none
unmarshal (a ∷ b ∷ s) = some (parse_items s)

abbrev without_first : Bytes → Option Bytes
without_first [] = none
without_first (c ∷ s) = some s

abbrev length_without_first : Bytes → Option ℕ
length_without_first [] = none
length_without_first (c ∷ s) = some (length s)

abbrev pub codec : Codecs
codec = record {
  snappy_encode = λ b. 0 ∷ b;
  snappy_decode = without_first;
  snappy_decoded_len = length_without_first;
  snappy_max_encoded_len = λ n. pos (suc n);
  json_marshal = λ items. b'[' ∷ b']' ∷ body items;
  json_unmarshal = unmarshal;
}

pub codec-IsLawful : IsLawful codec
codec-IsLawful = record {
  decode_encode = λ b. refl;
  decoded_len_encode = λ b. refl;
  encode_within = λ b m e. ground arith;
  encode_some = λ b. omega arith;
  unmarshal_marshal = λ items. ap some (parse_items-body items);
  marshal_some = λ items. omega arith;
}
