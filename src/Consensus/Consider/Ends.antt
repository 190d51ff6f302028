-- ===== src/Consensus/Consider/Ends.antt =====
-- When a round of the loop over the proposed headers ends without a panic.
use gcosmos.Base.{
  ℕ, ◌≡◌, ◌≢◌, refl, Bool, true, false, not, List, [], ◌∷◌, Option, none, some, lookup, nat_key,
  bytes_key, nat_eq, if◌then◌else◌, Result, ok, err, panic, Bool-cases, inl, inr,
}
use gcosmos.DataId.{DataId, ParseError, parse_data_id}
use gcosmos.Requests.{BlockDataRequest, RequestCache, get, pointer}
use gcosmos.Consensus.Consider.{
  AppManager, Annotations, Moment, Verdict, ignored, fetched, is_zero, apply_all, judge, by_id,
  by_pointer, by_request, time_verdict, after_txs,
}

-- An entry of the cache that is a request, with a transaction if it is ready.
abbrev pub IsRequest : {Tx : Type 0} → RequestCache Tx → Option (Option ℕ) → Type 0
IsRequest c none = Unit
IsRequest c (some none) = ⊥
IsRequest {Tx} c (some (some p)) =
    (req : BlockDataRequest Tx) × (lookup p c.heap ≡ some req)
    × (req.ready ≡ true → req.transactions ≢ [])

abbrev pub IsUsable : {Tx : Type 0} → Moment Tx → Type 0
IsUsable m = IsRequest m.cache (lookup m.header.data_id m.cache.rs)

module _ {Tx S : Type 0} (am : AppManager Tx S) (ann : Annotations) (cur_h cur_r : ℕ) where
  abbrev Ends : Result (Unit {0}) Verdict → Type 0
  Ends r = (v : Verdict) × (r ≡ ok v)

  if-Ends :
      (b : Bool) (x y : Result (Unit {0}) Verdict) → Ends x → Ends y → Ends (if b then x else y)
  if-Ends true x y h k = h
  if-Ends false x y h k = k

  after_txs-Ends : (v : Verdict) (txs : List Tx) → txs ≢ [] → Ends (after_txs v (apply_all am txs))
  unfolding apply_all
  after_txs-Ends v [] ne = absurd (ne refl)
  after_txs-Ends v (tx ∷ txs) ne = from _
    where
      from : (b : Bool) → Ends (after_txs v (ok b))
      from true = (v, refl)
      from false = (ignored, refl)

  by_request-Ends :
      (v : Verdict) (req : BlockDataRequest Tx)
      → (req.ready ≡ true → req.transactions ≢ [])
      → Ends (by_request am ann cur_h cur_r v (some req))
  by_request-Ends v req h = elim (Bool-cases req.ready) [
    | inl is_ready ↦ rw is_ready (after_txs-Ends v req.transactions (h is_ready))
    | inr is_not ↦ rw is_not (ignored, refl)
  ]

  by_pointer-Ends :
      (c : RequestCache Tx) (v : Verdict) (o : Option (Option ℕ))
      → IsRequest c o
      → Ends (by_pointer am ann cur_h cur_r c v (pointer o))
  by_pointer-Ends c v none h = (fetched, refl)
  by_pointer-Ends c v (some none) h = absurd h
  by_pointer-Ends c v (some (some p)) (req, at, full) = rw at (by_request-Ends v req full)

  by_id-Ends :
      (m : Moment Tx) (r : Result ParseError DataId)
      → IsUsable m
      → Ends (by_id am ann cur_h cur_r m r)
  unfolding get
  by_id-Ends m panic h = (ignored, refl)
  by_id-Ends m (err x) h = (ignored, refl)
  by_id-Ends m (ok d) h =
      if-Ends (not (nat_eq d.height cur_h)) _ _ (ignored, refl)
        (if-Ends (not (nat_eq d.round cur_r)) _ _ (ignored, refl)
          (if-Ends (is_zero d.n_txs) _ _ (time_verdict am ann cur_h cur_r m, refl)
            (by_pointer-Ends m.cache (time_verdict am ann cur_h cur_r m)
              (lookup m.header.data_id m.cache.rs) h)))

  pub judge-Ends : (m : Moment Tx) → IsUsable m → Ends (judge am ann cur_h cur_r m)
  unfolding judge
  judge-Ends m h =
      if-Ends (not (nat_eq m.header.height cur_h)) _ _ (ignored, refl)
        (if-Ends (not (nat_eq m.header.round cur_r)) _ _ (ignored, refl)
          (by_id-Ends m (parse_data_id m.header.data_id) h))
