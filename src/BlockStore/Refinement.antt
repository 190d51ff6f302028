-- ===== src/BlockStore/Refinement.antt =====
-- The memory store against the contract.
use gcosmos.Base.{
  ℕ, ◌≡◌, ◌≢◌, refl, List, [], ◌∷◌, ◌++◌, Option, none, some, arith, Bytes, lookup, put, lookup-put,
  nat_key, bytes_key, pair_key, bytes_beq_iff, Result, ok, err, panic,
}
use gcosmos.BlockStore.{
  BlockDataStore, StoreError, new_block_data_store, store_new, by_id_found, by_height_found,
  save_block_data, load_block_data_by_height, load_block_data_by_id,
}
use gcosmos.BlockStore.Contract.{
  Entry, find_height, find_id, find_pair, id_of, height_of, Represents, spec_save, save, answer_id,
  answer_height, Corresponds,
}

new-Represents : Represents new_block_data_store []
unfolding lookup
new-Represents = record { ids = λ h. refl; heights = λ id. refl; payloads = λ h id. refl }

find_pair-find_height :
    (h : ℕ) (es : List Entry) (e : Entry) → find_height h es ≡ some e → find_pair h e.id es ≡ some e
find_pair-find_height h [] e found = cc
find_pair-find_height h (x ∷ es) e found =
    ground (arith, bytes_beq_iff x.id e.id, find_pair-find_height h es e)

find_pair-find_id :
    (id : Bytes) (es : List Entry) (e : Entry)
    → find_id id es ≡ some e
    → find_pair e.height id es ≡ some e
find_pair-find_id id [] e found = cc
find_pair-find_id id (x ∷ es) e found = ground (arith, find_pair-find_id id es e)

module _ (s : BlockDataStore) (es : List Entry) (r : Represents s es) where
  module _ (h : ℕ) (id payload : Bytes) where
    abbrev entry : Entry
    entry = record { height = h; id = id; payload = payload }

    added : BlockDataStore
    added = record {
      data_by_height_id = put (h, id) payload s.data_by_height_id;
      height_by_id = put id h s.height_by_id;
      id_by_height = put h id s.id_by_height;
    }

    added-Represents : Represents added (entry ∷ es)
    unfolding added
    added-Represents = record {
      ids = λ j. ground (arith, lookup-put h j id s.id_by_height, r.ids j);
      heights = λ j. ground (arith, lookup-put id j h s.height_by_id, r.heights j);
      payloads = λ j k.
          ground (arith, lookup-put (h, id) (j, k) payload s.data_by_height_id, r.payloads j k);
    }

    store_new-Corresponds :
        (a b : Option Entry)
        → Corresponds (store_new s h id payload (id_of a) (height_of b)) (spec_save es entry a b)
    unfolding added
    store_new-Corresponds (some x) b = refl
    store_new-Corresponds none (some x) = refl
    store_new-Corresponds none none = added-Represents

    -- If a store holds some entries, a save does what the contract says of them: it refuses a
    -- height or an ID that is there, with the error for it, and otherwise the new store holds one
    -- entry more and all the others.
    save_block_data_refines : Corresponds (save_block_data s h id payload) (save es entry)
    unfolding save_block_data
    save_block_data_refines =
        rw (r.ids h, r.heights id) (store_new-Corresponds (find_height h es) (find_id id es))

  by_height_answer :
      (h : ℕ) (dst : Bytes) (found : Option Entry)
      → find_height h es ≡ found
      → by_id_found s h dst (id_of found) ≡ answer_id dst found
  by_height_answer h dst none e = refl
  by_height_answer h dst (some x) e =
      ground (arith, r.payloads h x.id, find_pair-find_height h es x e)

  by_id_answer :
      (id dst : Bytes) (found : Option Entry)
      → find_id id es ≡ found
      → by_height_found s id dst (height_of found) ≡ answer_height dst found
  by_id_answer id dst none e = refl
  by_id_answer id dst (some x) e =
      ground (arith, r.payloads x.height id, find_pair-find_id id es x e)

  -- A load by height or by ID answers from the entries, appends the data to `dst`, and does not
  -- panic.
  load_block_data_refines :
      (h : ℕ) (id dst : Bytes)
      → (load_block_data_by_height s h dst ≡ answer_id dst (find_height h es))
        × (load_block_data_by_id s id dst ≡ answer_height dst (find_id id es))
  unfolding load_block_data_by_height load_block_data_by_id
  load_block_data_refines h id dst = (
    rw (r.ids h) (by_height_answer h dst (find_height h es) refl),
    rw (r.heights id) (by_id_answer id dst (find_id id es) refl),
  )

Corresponds-ok :
    (t : BlockDataStore) (es : List Entry) (e : Entry) (a b : Option Entry)
    → Corresponds (ok t) (spec_save es e a b)
    → Represents t (e ∷ es)
Corresponds-ok t es e none none c = c
Corresponds-ok t es e none (some x) c = absurd c
Corresponds-ok t es e (some x) b c = absurd c

save-Represents :
    (s t : BlockDataStore) (es : List Entry) (h : ℕ) (id payload : Bytes)
    → Represents s es
    → save_block_data s h id payload ≡ ok t
    → Represents t (record { height = h; id = id; payload = payload } ∷ es)
save-Represents s t es h id payload r saved =
    Corresponds-ok t es _ (find_height h es) (find_id id es)
      (rw saved at (save_block_data_refines s es r h id payload))

-- If a store holds some entries, data that was saved into it is found under its height and under
-- its ID, and other heights and IDs answer as before the save.
load_after_save :
    (s t : BlockDataStore) (es : List Entry) (h : ℕ) (id payload dst : Bytes)
    → Represents s es
    → save_block_data s h id payload ≡ ok t
    → (load_block_data_by_height t h dst ≡ ok (id, dst ++ payload))
      × (load_block_data_by_id t id dst ≡ ok (h, dst ++ payload))
      × ((j : ℕ) → j ≢ h → load_block_data_by_height t j dst ≡ load_block_data_by_height s j dst)
      × ((k : Bytes) → k ≢ id → load_block_data_by_id t k dst ≡ load_block_data_by_id s k dst)
load_after_save s t es h id payload dst r saved =
    let e : Entry = record { height = h; id = id; payload = payload } in
    let r' : Represents t (e ∷ es) = save-Represents s t es h id payload r saved in
    (
      ground (arith, load_block_data_refines t (e ∷ es) r' h id dst),
      ground (arith, load_block_data_refines t (e ∷ es) r' h id dst, bytes_beq_iff id id),
      λ j ne. ground (
        arith,
        load_block_data_refines t (e ∷ es) r' j id dst,
        load_block_data_refines s es r j id dst,
      ),
      λ k ne. ground (
        arith,
        load_block_data_refines t (e ∷ es) r' h k dst,
        load_block_data_refines s es r h k dst,
        bytes_beq_iff id k,
      ),
    )

-- A history of saves, of which those that fail change nothing.
abbrev kept {ℓ} : {S : Type ℓ} → S → Result StoreError S → S
kept s (ok t) = t
kept s (err e) = s
kept s panic = s

unfoldable pub save_all : BlockDataStore → List Entry → BlockDataStore
save_all s [] = s
save_all s (e ∷ es) = save_all (kept s (save_block_data s e.height e.id e.payload)) es

unfoldable pub entries_after : List Entry → List Entry → List Entry
entries_after es [] = es
entries_after es (e ∷ ops) = entries_after (kept es (save es e)) ops

kept-Represents :
    (s : BlockDataStore) (es : List Entry) (x : Result StoreError BlockDataStore)
    (y : Result StoreError (List Entry))
    → Represents s es
    → Corresponds x y
    → Represents (kept s x) (kept es y)
kept-Represents s es (ok t) (ok fs) r c = c
kept-Represents s es (ok t) (err f) r c = absurd c
kept-Represents s es (ok t) panic r c = absurd c
kept-Represents s es (err e) (ok fs) r c = absurd c
kept-Represents s es (err e) (err f) r c = r
kept-Represents s es (err e) panic r c = absurd c
kept-Represents s es panic (ok fs) r c = absurd c
kept-Represents s es panic (err f) r c = absurd c
kept-Represents s es panic panic r c = absurd c

save_all-Represents :
    (s : BlockDataStore) (es ops : List Entry)
    → Represents s es
    → Represents (save_all s ops) (entries_after es ops)
unfolding save_all entries_after
save_all-Represents s es [] r = r
save_all-Represents s es (e ∷ ops) r =
    save_all-Represents (kept s (save_block_data s e.height e.id e.payload)) (kept es (save es e))
      ops
      (kept-Represents s es _ (save es e) r
        (save_block_data_refines s es r e.height e.id e.payload))

-- After any history of saves, failed ones among them, the store holds the entries that the
-- contract keeps, so each load answers from them and none panics.
pub history_refines :
    (ops : List Entry) (h : ℕ) (id dst : Bytes)
    → let s = save_all new_block_data_store ops in
      let es = entries_after [] ops in
      (load_block_data_by_height s h dst ≡ answer_id dst (find_height h es))
      × (load_block_data_by_id s id dst ≡ answer_height dst (find_id id es))
history_refines ops h id dst =
    load_block_data_refines _ _ (save_all-Represents _ [] ops new-Represents) h id dst
