-- ===== src/BlockStore/Errors.antt =====
-- Which errors are recognised.
use gcosmos.Base.{
  ℕ, zero, suc, ◌≡◌, refl, true, false, arith, Bytes, nat_key, bytes_key, pair_key, err,
}
use gcosmos.BlockStore.{
  BlockDataStore, StoreError, wrapped, save_block_data, load_block_data_by_height,
  is_already_have_block_data_error,
}

-- An error that was wrapped some times.
abbrev wrapped_by : ℕ → StoreError → StoreError
wrapped_by zero e = e
wrapped_by (suc n) e = wrapped (wrapped_by n e)

wrapped_by_lem :
    (n : ℕ) (e : StoreError)
    → is_already_have_block_data_error (wrapped_by n e) ≡ is_already_have_block_data_error e
unfolding is_already_have_block_data_error
wrapped_by_lem zero e = refl
wrapped_by_lem (suc n) e = wrapped_by_lem n e

-- Every error of a save is one that `IsAlreadyHaveBlockDataError` recognises, however often it is
-- wrapped.
save_errors_recognised :
    (s : BlockDataStore) (h : ℕ) (id payload : Bytes) (e : StoreError) (n : ℕ)
    → save_block_data s h id payload ≡ err e
    → is_already_have_block_data_error (wrapped_by n e) ≡ true
unfolding save_block_data is_already_have_block_data_error
save_errors_recognised s h id payload e n failed = rw (wrapped_by_lem n e) (ground arith)

-- The error of a load is not one of them.
load_errors_not_recognised :
    (s : BlockDataStore) (h : ℕ) (dst : Bytes) (e : StoreError) (n : ℕ)
    → load_block_data_by_height s h dst ≡ err e
    → is_already_have_block_data_error (wrapped_by n e) ≡ false
unfolding load_block_data_by_height is_already_have_block_data_error
load_errors_not_recognised s h dst e n failed = rw (wrapped_by_lem n e) (ground arith)
