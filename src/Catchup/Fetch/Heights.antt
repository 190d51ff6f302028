-- ===== src/Catchup/Fetch/Heights.antt =====
-- The heights that `doFetches` asks for.
use gcosmos.Base.{
  ℕ, zero, suc, ◌+◌, ◌<◌, ◌^◌, ◌≡◌, ◌⊎◌, List, [], ◌∷◌, some, arith, take, length, get_elem?,
  if◌then◌else◌,
}
use gcosmos.Catchup.Fetch.{FetchResult, wanted, next_height, do_fetches}

-- How many fetches moved on.
abbrev pub successes : List FetchResult → ℕ
successes [] = 0
successes (res ∷ results) =
    if res.exclude_peer
    then successes results
    else if res.success
    then suc (successes results)
    else successes results

-- The fetch that follows any number of results is for the start height plus the number of
-- successes among them, and below the stop height, if there is one: no height is skipped, and none
-- is given up by a failure. The heights do not wrap around.
pub do_fetches-heights :
    (stop start i k : ℕ) (results : List FetchResult)
    → start + length results < 2 ^ 64
    → get_elem? (do_fetches stop start results) i ≡ some k
    → (k ≡ start + successes (take i results)) × ((stop ≡ 0) ⊎ (k < stop))
unfolding do_fetches wanted next_height
do_fetches-heights stop start i k [] fits e = ground arith
do_fetches-heights stop start zero k (res ∷ results) fits e = ground arith
do_fetches-heights stop start (suc i) k (res ∷ results) fits e = ground (
  arith,
  do_fetches-heights stop start i k results,
  do_fetches-heights stop (suc start) i k results,
)
