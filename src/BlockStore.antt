-- ===== src/BlockStore.antt =====
-- gcstore/gcmemstore/blockdatastore.go, gcstore/blockdatastore.go and gcstore/errors.go: block
-- data in memory, found by height or by data ID. The mutex makes every method one step.
pub mod Contract
pub mod Refinement
pub mod Errors
use gcosmos.Base.{
  ℕ, Bool, true, false, ◌||◌, [], ◌++◌, Option, none, some, Bytes, Map, lookup, put, nat_key,
  bytes_key, pair_key, Result, ok, err, panic,
}

pub record BlockDataStore : Type 0 where
  pub data_by_height_id : Map (ℕ × Bytes) Bytes
  pub height_by_id : Map Bytes ℕ
  pub id_by_height : Map ℕ Bytes

abbrev pub new_block_data_store : BlockDataStore
new_block_data_store = record { data_by_height_id = []; height_by_id = []; id_by_height = [] }

-- The error values of the package, others, and those that wrap one with `%w`.
pub data StoreError : Type 0 where
  already_have_for_height : ℕ → StoreError
  already_have_for_id : Bytes → StoreError
  not_found other : StoreError
  wrapped : StoreError → StoreError

-- `errors.As` looks through the wrapped errors.
pub is_already_have_block_data_error : StoreError → Bool
is_already_have_block_data_error (already_have_for_height h) = true
is_already_have_block_data_error (already_have_for_id id) = true
is_already_have_block_data_error not_found = false
is_already_have_block_data_error other = false
is_already_have_block_data_error (wrapped e) = is_already_have_block_data_error e

abbrev store_new :
    BlockDataStore → ℕ → Bytes → Bytes → Option Bytes → Option ℕ → Result StoreError BlockDataStore
store_new s height id data_bytes (some other_id) by_id = err (already_have_for_height height)
store_new s height id data_bytes none (some other_height) = err (already_have_for_id id)
store_new s height id data_bytes none none = ok (record {
  data_by_height_id = put (height, id) data_bytes s.data_by_height_id;
  height_by_id = put id height s.height_by_id;
  id_by_height = put height id s.id_by_height;
})

-- An error leaves the store as it was.
unfoldable pub save_block_data :
    BlockDataStore → ℕ → Bytes → Bytes → Result StoreError BlockDataStore
save_block_data s height id data_bytes =
    store_new s height id data_bytes (lookup height s.id_by_height) (lookup id s.height_by_id)

abbrev appended_id : Bytes → Bytes → Option Bytes → Result StoreError (Bytes × Bytes)
appended_id id dst none = panic
appended_id id dst (some underlying) = ok (id, dst ++ underlying)

abbrev by_id_found : BlockDataStore → ℕ → Bytes → Option Bytes → Result StoreError (Bytes × Bytes)
by_id_found s height dst none = err not_found
by_id_found s height dst (some id) = appended_id id dst (lookup (height, id) s.data_by_height_id)

unfoldable pub load_block_data_by_height :
    BlockDataStore → ℕ → Bytes → Result StoreError (Bytes × Bytes)
load_block_data_by_height s height dst = by_id_found s height dst (lookup height s.id_by_height)

abbrev appended_height : ℕ → Bytes → Option Bytes → Result StoreError (ℕ × Bytes)
appended_height height dst none = panic
appended_height height dst (some underlying) = ok (height, dst ++ underlying)

abbrev by_height_found : BlockDataStore → Bytes → Bytes → Option ℕ → Result StoreError (ℕ × Bytes)
by_height_found s id dst none = err not_found
by_height_found s id dst (some height) =
    appended_height height dst (lookup (height, id) s.data_by_height_id)

pub load_block_data_by_id : BlockDataStore → Bytes → Bytes → Result StoreError (ℕ × Bytes)
load_block_data_by_id s id dst = by_height_found s id dst (lookup id s.height_by_id)
