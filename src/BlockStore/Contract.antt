-- ===== src/BlockStore/Contract.antt =====
-- The contract of `BlockDataStore`: a set of entries in which a height and an ID stand once.
use gcosmos.Base.{
  ℕ, ◌≡◌, ◌&&◌, List, [], ◌∷◌, ◌++◌, Option, none, some, Bytes, lookup, nat_key, bytes_key,
  pair_key, nat_eq, bytes_beq, if◌then◌else◌, Result, ok, err,
}
use gcosmos.BlockStore.{
  BlockDataStore, StoreError, already_have_for_height, already_have_for_id, not_found,
}

pub record Entry : Type 0 where
  pub height : ℕ
  pub id : Bytes
  pub payload : Bytes

-- The newest entry comes first.
abbrev pub find_height : ℕ → List Entry → Option Entry
find_height h [] = none
find_height h (e ∷ es) = if nat_eq e.height h then some e else find_height h es

abbrev pub find_id : Bytes → List Entry → Option Entry
find_id id [] = none
find_id id (e ∷ es) = if bytes_beq e.id id then some e else find_id id es

abbrev pub find_pair : ℕ → Bytes → List Entry → Option Entry
find_pair h id [] = none
find_pair h id (e ∷ es) =
    if nat_eq e.height h && bytes_beq e.id id then some e else find_pair h id es

abbrev pub id_of : Option Entry → Option Bytes
id_of none = none
id_of (some e) = some e.id

abbrev pub height_of : Option Entry → Option ℕ
height_of none = none
height_of (some e) = some e.height

abbrev payload_of : Option Entry → Option Bytes
payload_of none = none
payload_of (some e) = some e.payload

-- The three maps of the store hold the entries.
pub record Represents (s : BlockDataStore) (es : List Entry) : Type 0 where
  pub ids : (h : ℕ) → lookup h s.id_by_height ≡ id_of (find_height h es)
  pub heights : (id : Bytes) → lookup id s.height_by_id ≡ height_of (find_id id es)
  pub payloads :
      (h : ℕ) (id : Bytes) → lookup (h, id) s.data_by_height_id ≡ payload_of (find_pair h id es)

-- What the interface promises of a save: which error, or one entry more.
abbrev pub spec_save :
    List Entry → Entry → Option Entry → Option Entry → Result StoreError (List Entry)
spec_save es e (some x) by_id = err (already_have_for_height e.height)
spec_save es e none (some x) = err (already_have_for_id e.id)
spec_save es e none none = ok (e ∷ es)

abbrev pub save : List Entry → Entry → Result StoreError (List Entry)
save es e = spec_save es e (find_height e.height es) (find_id e.id es)

-- What it promises of a load.
abbrev pub answer_id : Bytes → Option Entry → Result StoreError (Bytes × Bytes)
answer_id dst none = err not_found
answer_id dst (some e) = ok (e.id, dst ++ e.payload)

abbrev pub answer_height : Bytes → Option Entry → Result StoreError (ℕ × Bytes)
answer_height dst none = err not_found
answer_height dst (some e) = ok (e.height, dst ++ e.payload)

-- Two results of a save agree: the same error, or states that correspond.
abbrev pub Corresponds : Result StoreError BlockDataStore → Result StoreError (List Entry) → Type 0
Corresponds (ok s) (ok es) = Represents s es
Corresponds (err e) (err f) = e ≡ f
Corresponds _ _ = ⊥
