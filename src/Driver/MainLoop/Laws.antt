-- ===== src/Driver/MainLoop/Laws.antt =====
-- What the engine is told by a run of the driver.
use gcosmos.Base.{
  ℕ, suc, ◌≡◌, inl, inr, refl, ap, sym, ◌∙◌, Bool, true, false, List, [], ◌∷◌, ◌++◌, arith, Bytes,
  take, map, append_assoc, append-nil, nat_eq, Bool-cases,
}
use gcosmos.Consensus.Consider.{Annotations}
use gcosmos.Driver.Finalize.{
  Sdk, FinalizeBlockRequest, FinalizeBlockResponse, Driver, Waiting, initial_height,
  handle_finalization,
}
use gcosmos.Driver.Finalize.Answers.{handle_finalization-Answers}
use gcosmos.Driver.Finalize.Done.{handle_finalization-Executed, handle_finalization-initial}
use gcosmos.Driver.Steps.{Step, go, halt, crash, continue}
use gcosmos.Driver.MainLoop.{
  LagStatus, initializing, assumed_behind, known_missing, up_to_date, unknown_status, Loop, Event,
  context_done, finalize_block, lag_state, send_command, handle_lag_state_update, in_loop,
  main_loop, FetchCommand,
}
use gcosmos.Tx.{TxApi}
use gcosmos.Base.{nat_eq_iff}

-- What a response answers, and what a request asks for.
abbrev pub answered : FinalizeBlockResponse → ℕ × (ℕ × Bytes)
answered r = (r.height, (r.round, r.block_hash))

abbrev pub asked : FinalizeBlockRequest → ℕ × (ℕ × Bytes)
asked req = (req.height, (req.round, req.hash))

abbrev pub requests : {Tx : Type 0} → List (Event Tx) → List (ℕ × (ℕ × Bytes))
requests [] = []
requests (context_done ∷ events) = requests events
requests (finalize_block req wait ∷ events) = asked req ∷ requests events
requests (lag_state ls taken ∷ events) = requests events

map-append {ℓ κ} :
    {A : Type ℓ} {B : Type κ} (f : A → B) (xs ys : List A) → map f (xs ++ ys) ≡ map f xs ++ map f ys
map-append f [] ys = refl
map-append f (x ∷ xs) ys = ap (◌∷◌ (f x)) (map-append f xs ys)

module _ {Tx S C R W : Type 0} (sdk : Sdk Tx S C R W) (api : TxApi Tx) (ann : Annotations)
    (is_valid : Bytes → Bool) (chain_id : Bytes) where
  -- A finalization that goes on has answered.
  go_answers :
      (wait : Waiting Tx) (req : FinalizeBlockRequest) (d d' : Driver Tx R W)
      → handle_finalization sdk api ann is_valid chain_id wait req d ≡ (go tt, d')
      → map answered d'.responses ≡ map answered d.responses ++ asked req ∷ []
  go_answers wait req d d' e = elim (Bool-cases (nat_eq req.height initial_height)) [
    | inl first ↦
        let (app_hash, w, committed, is) =
          handle_finalization-initial sdk api ann is_valid chain_id wait req d d'
            (ground (arith, nat_eq_iff req.height initial_height)) e in
        ap (λ x. map answered x.responses) is ∙ map-append answered d.responses _
    | inr later ↦
        let done =
          handle_finalization-Executed sdk api ann is_valid chain_id wait req d d'
            (ground (arith, nat_eq_iff req.height initial_height)) e in
        ap (map answered) done.answered ∙ map-append answered d.responses _
  ]

  -- The responses of a run, by the number of requests that were answered.
  abbrev Told : List FinalizeBlockResponse → List (ℕ × (ℕ × Bytes)) → Loop Tx R W → Type 0
  Told before reqs l =
      (n : ℕ) × (map answered l.driver.responses ≡ map answered before ++ take n reqs)

  stopped_answers :
      (wait : Waiting Tx) (req : FinalizeBlockRequest) (reqs : List (ℕ × (ℕ × Bytes)))
      (d d' : Driver Tx R W) (s : Step (Unit {0}))
      → handle_finalization sdk api ann is_valid chain_id wait req d ≡ (s, d')
      → (n : ℕ) × (map answered d'.responses
          ≡ map answered d.responses ++ take n (asked req ∷ reqs))
  stopped_answers wait req reqs d d' s e =
      elim (handle_finalization-Answers sdk api ann is_valid chain_id wait req d) [
        | inl silent ↦ (
          0,
          ap (map answered) (sym (ap (λ q. q.1.responses) e) ∙ silent)
              ∙ sym (append-nil (map answered d.responses)),
        )
        | inr (vals, app_hash, told) ↦ (
          1,
          ap (map answered) (sym (ap (λ q. q.1.responses) e) ∙ told)
              ∙ map-append answered d.responses _,
        )
      ]

  send_command-driver :
      (cmd : FetchCommand) (taken : Bool) (l : Loop Tx R W)
      → (send_command cmd taken l).1.driver ≡ l.driver
  send_command-driver cmd true l = refl
  send_command-driver cmd false l = refl

  lag-driver :
      (status : LagStatus) (committing need : ℕ) (taken : Bool) (l : Loop Tx R W)
      → (handle_lag_state_update
          (record { status = status; committing_height = committing; need_height = need })
          taken
          l).1.driver
        ≡ l.driver
  unfolding handle_lag_state_update
  lag-driver initializing committing need taken l = send_command-driver _ taken l
  lag-driver assumed_behind committing need taken l = send_command-driver _ taken l
  lag-driver known_missing committing need taken l = send_command-driver _ taken l
  lag-driver up_to_date committing need taken l = send_command-driver _ taken l
  lag-driver (unknown_status n) committing need taken l = refl

  -- The rest of a run, from any state.
  abbrev Rest : List (Event Tx) → Type 0
  Rest events =
      (l : Loop Tx R W)
      → Told l.driver.responses (requests events)
          (main_loop sdk api ann is_valid chain_id events l).1

  after_lag :
      (events : List (Event Tx)) (l l' : Loop Tx R W) (s : Step (Unit {0}))
      → l'.driver ≡ l.driver
      → Rest events
      → Told l.driver.responses
          (requests events)
          (continue (s, l') (λ _. main_loop sdk api ann is_valid chain_id events)).1
  after_lag events l l' (go u) same rest =
      let (n, told) = rest l' in
      (n, told ∙ ap (λ d. map answered d.responses ++ take n (requests events)) same)
  after_lag events l l' halt same rest = (
    0,
    ap (λ d. map answered d.responses) same ∙ sym (append-nil (map answered l.driver.responses)),
  )
  after_lag events l l' crash same rest = (
    0,
    ap (λ d. map answered d.responses) same ∙ sym (append-nil (map answered l.driver.responses)),
  )

  after_finalization :
      (events : List (Event Tx)) (wait : Waiting Tx) (req : FinalizeBlockRequest) (l : Loop Tx R W)
      (q : Step (Unit {0}) × Driver Tx R W)
      → handle_finalization sdk api ann is_valid chain_id wait req l.driver ≡ q
      → Rest events
      → Told l.driver.responses
          (asked req ∷ requests events)
          (continue
            (in_loop sdk api ann is_valid chain_id l q)
            (λ _. main_loop sdk api ann is_valid chain_id events)).1
  after_finalization events wait req l (go u, d') e rest =
      let (n, told) = rest (record l { driver = d' }) in
      (
        suc n,
        told
            ∙ ap (λ x. x ++ take n (requests events)) (go_answers wait req l.driver d' e)
            ∙ append_assoc (map answered l.driver.responses) (asked req ∷ [])
                (take n (requests events)),
      )
  after_finalization events wait req l (halt, d') e rest =
      stopped_answers wait req (requests events) l.driver d' halt e
  after_finalization events wait req l (crash, d') e rest =
      stopped_answers wait req (requests events) l.driver d' crash e

  -- The engine gets answers to its finalization requests in the order in which it made them: the heights,
  -- rounds and hashes of the responses that a run adds are those of the first so many requests, none
  -- skipped, repeated or answered after a later one, wherever the run stops.
  pub main_loop-answers :
      (events : List (Event Tx)) (l : Loop Tx R W)
      → (n : ℕ) × (map answered
            (main_loop sdk api ann is_valid chain_id events l).1.driver.responses
          ≡ map answered l.driver.responses ++ take n (requests events))
  unfolding main_loop
  main_loop-answers [] l = (0, sym (append-nil (map answered l.driver.responses)))
  main_loop-answers (context_done ∷ events) l =
      (0, sym (append-nil (map answered l.driver.responses)))
  main_loop-answers (lag_state ls taken ∷ events) l =
      after_lag events l (handle_lag_state_update ls taken l).1
        (handle_lag_state_update ls taken l).0
        (lag-driver ls.status ls.committing_height ls.need_height taken l)
        (λ l'. main_loop-answers events l')
  main_loop-answers (finalize_block req wait ∷ events) l =
      after_finalization events wait req l
        (handle_finalization sdk api ann is_valid chain_id wait req l.driver) refl
        (λ l'. main_loop-answers events l')
