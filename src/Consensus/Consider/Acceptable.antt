-- ===== src/Consensus/Consider/Acceptable.antt =====
-- Which proposed headers may be voted for, and that one round of the loop accepts exactly those.
use gcosmos.Base.{
  ℕ, ◌≤◌, ◌≡◌, refl, Bool, true, false, not, Option, none, some, arith, lookup, nat_key, bytes_key,
  nat_eq, if◌then◌else◌, Result, ok, err, panic, Bool-cases, nat_eq_iff, inl, inr, ◌⊎◌,
}
use gcosmos.Strconv.Integer.{ℤ, pos, negsuc}
use gcosmos.DataId.{DataId, ParseError, parse_data_id}
use gcosmos.Requests.{BlockDataRequest, RequestCache, get, request_at, behind, pointer}
use gcosmos.Consensus.Consider.{
  AppManager, Annotations, Moment, Verdict, ignored, accepted, is_zero, block_time, apply_all,
  judge, by_id, by_pointer, by_request, time_verdict, not_future, after_txs,
}
use gcosmos.Consensus.Consider.Runs.{Runs, apply_all-Runs, Runs-apply_all}

module _ {Tx S : Type 0} (am : AppManager Tx S) (ann : Annotations) (cur_h cur_r : ℕ) where
  -- The request under the ID is complete, and its transactions run.
  abbrev DataRuns : Moment Tx → Type 0
  DataRuns m =
      (req : BlockDataRequest Tx) × (request_at m.cache m.header.data_id ≡ some req)
      × (req.ready ≡ true)
      × Runs am req.transactions

  abbrev NotFuture : Moment Tx → Type 0
  NotFuture m = (t : ℕ) × (block_time ann m.header.header_annotation ≡ some t) × (t ≤ m.now)

  -- A proposed header that may be voted for in the current round.
  pub record IsAcceptable (m : Moment Tx) : Type 0 where
    pub height_is : m.header.height ≡ cur_h
    pub round_is : m.header.round ≡ cur_r
    pub id : DataId
    pub parsed : parse_data_id m.header.data_id ≡ ok id
    pub id_height : id.height ≡ cur_h
    pub id_round : id.round ≡ cur_r
    pub txs_run : (id.n_txs ≡ pos 0) ⊎ DataRuns m
    pub not_future : NotFuture m

  not_future-accepted :
      (now : ℕ) (o : Option ℕ) → not_future now o ≡ accepted → (t : ℕ) × (o ≡ some t) × (t ≤ now)
  not_future-accepted now none e = cc
  not_future-accepted now (some t) e = (t, refl, ground arith)

  after_txs-accepted :
      (v : Verdict) (r : Result (Unit {0}) Bool)
      → after_txs v r ≡ ok accepted
      → (r ≡ ok true) × (v ≡ accepted)
  after_txs-accepted v panic e = cc
  after_txs-accepted v (err x) e = cc
  after_txs-accepted v (ok true) e = (refl, cc)
  after_txs-accepted v (ok false) e = cc

  abbrev Found : RequestCache Tx → Verdict → Option (BlockDataRequest Tx) → Type 0
  Found cache v o =
      ((req : BlockDataRequest Tx) × (o ≡ some req) × (req.ready ≡ true) × Runs am req.transactions)
      × (v ≡ accepted)

  by_request-accepted :
      (cache : RequestCache Tx) (v : Verdict) (o : Option (BlockDataRequest Tx))
      → by_request am ann cur_h cur_r v o ≡ ok accepted
      → Found cache v o
  by_request-accepted cache v none e = cc
  by_request-accepted cache v (some req) e =
      let (is_ready, rest) = if_ready req.ready (after_txs v (apply_all am req.transactions)) e in
      let (ran, is) = after_txs-accepted v (apply_all am req.transactions) rest in
      ((req, refl, is_ready, apply_all-Runs am req.transactions ran), is)
    where
      if_ready :
          (b : Bool) (x : Result (Unit {0}) Verdict)
          → (if b then x else ok ignored) ≡ ok accepted
          → (b ≡ true) × (x ≡ ok accepted)
      if_ready true x e = (refl, e)
      if_ready false x e = cc

  by_pointer-accepted :
      (cache : RequestCache Tx) (v : Verdict) (o : Option (Option ℕ))
      → by_pointer am ann cur_h cur_r cache v (pointer o) ≡ ok accepted
      → Found cache v (behind cache o)
  by_pointer-accepted cache v none e = cc
  by_pointer-accepted cache v (some none) e = cc
  by_pointer-accepted cache v (some (some p)) e =
      by_request-accepted cache v (lookup p cache.heap) e

  unless :
      (b : Bool) (x : Result (Unit {0}) Verdict)
      → (if not b then ok ignored else x) ≡ ok accepted
      → (b ≡ true) × (x ≡ ok accepted)
  unless true x e = (refl, e)
  unless false x e = cc

  is_zero-pos : (z : ℤ) → is_zero z ≡ true → z ≡ pos 0
  is_zero-pos (pos n) e = ground arith
  is_zero-pos (negsuc n) e = cc

  abbrev ById : Moment Tx → Result ParseError DataId → Type 0
  ById m r =
      (id : DataId) × (r ≡ ok id)
      × (id.height ≡ cur_h)
      × (id.round ≡ cur_r)
      × ((id.n_txs ≡ pos 0) ⊎ DataRuns m)
      × NotFuture m

  by_data-accepted :
      (m : Moment Tx) (z : ℤ)
      → (if is_zero z
          then ok (time_verdict am ann cur_h cur_r m)
          else by_pointer am ann cur_h cur_r m.cache
              (time_verdict am ann cur_h cur_r m)
              (get m.header.data_id m.cache))
        ≡ ok accepted
      → ((z ≡ pos 0) ⊎ DataRuns m) × NotFuture m
  unfolding get
  by_data-accepted m z e = elim (Bool-cases (is_zero z)) [
    | inl zero_txs ↦ (inl (is_zero-pos z zero_txs), not_future-accepted m.now _ (ground arith))
    | inr some_txs ↦
        let (runs, in_time) =
          by_pointer-accepted m.cache (time_verdict am ann cur_h cur_r m)
            (lookup m.header.data_id m.cache.rs) (rw some_txs at e) in
        (inr runs, not_future-accepted m.now _ in_time)
  ]

  by_id-accepted :
      (m : Moment Tx) (r : Result ParseError DataId)
      → by_id am ann cur_h cur_r m r ≡ ok accepted
      → ById m r
  by_id-accepted m panic e = cc
  by_id-accepted m (err x) e = cc
  by_id-accepted m (ok id) e =
      let (same_h, e₁) = unless (nat_eq id.height cur_h) _ e in
      let (same_r, e₂) = unless (nat_eq id.round cur_r) _ e₁ in
      let (data_runs, in_time) = by_data-accepted m id.n_txs e₂ in
      (id, refl, (nat_eq_iff _ _).0 same_h, (nat_eq_iff _ _).0 same_r, data_runs, in_time)

  pub judge-IsAcceptable :
      (m : Moment Tx) → judge am ann cur_h cur_r m ≡ ok accepted → IsAcceptable m
  unfolding judge
  judge-IsAcceptable m e =
      let (same_h, e₁) = unless (nat_eq m.header.height cur_h) _ e in
      let (same_r, e₂) = unless (nat_eq m.header.round cur_r) _ e₁ in
      let (id, parsed, id_h, id_r, data_runs, in_time) =
        by_id-accepted m (parse_data_id m.header.data_id) e₂ in
      record {
        height_is = (nat_eq_iff _ _).0 same_h;
        round_is = (nat_eq_iff _ _).0 same_r;
        id = id;
        parsed = parsed;
        id_height = id_h;
        id_round = id_r;
        txs_run = data_runs;
        not_future = in_time;
      }

  by_pointer-Runs :
      (cache : RequestCache Tx) (o : Option (Option ℕ)) (req : BlockDataRequest Tx)
      → behind cache o ≡ some req
      → req.ready ≡ true
      → Runs am req.transactions
      → by_pointer am ann cur_h cur_r cache accepted (pointer o) ≡ ok accepted
  by_pointer-Runs cache none req e is_ready runs = cc
  by_pointer-Runs cache (some none) req e is_ready runs = cc
  by_pointer-Runs cache (some (some p)) req e is_ready runs =
      rw (e, is_ready, Runs-apply_all am req.transactions runs)

  by_data-runs :
      (m : Moment Tx) (z : ℤ)
      → (z ≡ pos 0) ⊎ DataRuns m
      → (if is_zero z
          then ok accepted
          else by_pointer am ann cur_h cur_r m.cache accepted (get m.header.data_id m.cache))
        ≡ ok accepted
  unfolding get
  by_data-runs m z (inl e) = rw e
  by_data-runs m z (inr (req, at, is_ready, runs)) =
      ground
        (arith, by_pointer-Runs m.cache (lookup m.header.data_id m.cache.rs) req at is_ready runs)

  pub IsAcceptable-judge :
      (m : Moment Tx) → IsAcceptable m → judge am ann cur_h cur_r m ≡ ok accepted
  unfolding judge
  IsAcceptable-judge m a =
      let (t, at, in_time) = a.not_future in
      let passes : time_verdict am ann cur_h cur_r m ≡ accepted = ground arith in
      rw
        (
          (nat_eq_iff m.header.height cur_h).1 a.height_is,
          (nat_eq_iff m.header.round cur_r).1 a.round_is,
          a.parsed,
          (nat_eq_iff a.id.height cur_h).1 a.id_height,
          (nat_eq_iff a.id.round cur_r).1 a.id_round,
          passes,
        )
        (by_data-runs m a.id.n_txs a.txs_run)
