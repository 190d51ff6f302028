-- ===== src/Server/Http/Statuses.antt =====
-- The statuses with which the handlers of the HTTP server answer, on every path.
use gcosmos.Base.{
  ◌≡◌, refl, ◌⊎◌, inl, inr, ◌>>=◌, ◌>>◌, List, [], ◌∷◌, Option, none, some, Bytes, codes, Result,
  ok, err, panic,
}
use gcosmos.Server.Http.{
  Response, or_answer, read_body, no_error, encoded, submit, handle_blocks_watermark,
  handle_validators, handle_simulate_tx, handle_pending_txs, handle_account_balance, marshal_txs,
}
use gcosmos.Server.Node.{Node, TxResult}

abbrev pub IsStatus : Response → Type 0
IsStatus r = (r.status ≡ 200) ⊎ (r.status ≡ 400) ⊎ (r.status ≡ 500)

-- Every response that a handler ends in, early or not, has one of these statuses; `P` is what a value has
-- with which it goes on.
abbrev pub Ends : {A : Type 0} → (A → Type 0) → Result Response A → Type 0
Ends P (ok a) = P a
Ends P (err r) = IsStatus r
Ends P panic = Unit

abbrev Any : {A : Type 0} → A → Type 0
Any a = Unit

>>=-Ends :
    {A C : Type 0} (P : C → Type 0) (m : Result Response A) (next : A → Result Response C)
    → Ends Any m
    → ((a : A) → Ends P (next a))
    → Ends P (m >>= next)
>>=-Ends P (ok a) next h k = k a
>>=-Ends P (err r) next h k = h
>>=-Ends P panic next h k = tt

-- A call whose error is answered, and what follows it.
or_answer-Ends :
    {A C : Type 0} (P : C → Type 0) (m : Result Bytes A) (answer : Bytes → Response)
    (next : A → Result Response C)
    → ((e : Bytes) → IsStatus (answer e))
    → ((a : A) → Ends P (next a))
    → Ends P (or_answer m answer >>= next)
or_answer-Ends P (ok a) answer next h k = k a
or_answer-Ends P (err e) answer next h k = h e
or_answer-Ends P panic answer next h k = tt

read_body-Ends : (body : Option Bytes) → Ends Any (read_body body)
read_body-Ends none = inr (inl refl)
read_body-Ends (some b) = tt

no_error-Ends :
    {C : Type 0} (P : C → Type 0) (msg : Bytes) (e : Option Bytes) (next : Result Response C)
    → Ends P next
    → Ends P (no_error msg e >> next)
no_error-Ends P msg none next h = h
no_error-Ends P msg (some e) next h = inr (inl refl)

encoded-IsStatus : (o : Option Bytes) → IsStatus (encoded o)
encoded-IsStatus none = inl refl
encoded-IsStatus (some j) = inl refl

-- The handlers that leave the buffer alone.
module _ {Tx B Q V : Type 0} (node : Node Tx B Q V) where
  pub handle_blocks_watermark-Ends : Ends IsStatus (handle_blocks_watermark node)
  unfolding handle_blocks_watermark
  handle_blocks_watermark-Ends =
      or_answer-Ends IsStatus node.network_height_round _ _ (λ e. inr (inr refl)) (λ hr. inl refl)

  pub handle_validators-Ends : Ends IsStatus (handle_validators node)
  unfolding handle_validators
  handle_validators-Ends =
      or_answer-Ends IsStatus node.network_height_round _ _ (λ e. inr (inr refl))
        λ hr.
          or_answer-Ends IsStatus (node.load_finalization_by_height hr.committing_height) _ _
            (λ e. inr (inr refl)) (λ vals. inl refl)

  pub handle_account_balance-Ends : (id : Bytes) → Ends IsStatus (handle_account_balance node id)
  unfolding handle_account_balance
  handle_account_balance-Ends id =
      or_answer-Ends IsStatus (node.query_balance id _) _ _ (λ e. inr (inl refl))
        λ msg.
          or_answer-Ends IsStatus (node.marshal_answer msg) _ _ (λ e. inr (inr refl))
            (λ j. inl refl)

  module _ (encode_result : TxResult → Option Bytes) (encode_raw : List Bytes → Option Bytes) where
    pub handle_simulate_tx-Ends :
        (body : Option Bytes)
        → Ends IsStatus (handle_simulate_tx node encode_result encode_raw body)
    unfolding handle_simulate_tx
    handle_simulate_tx-Ends body = >>=-Ends IsStatus (read_body body) _ (read_body-Ends body) λ raw.
        or_answer-Ends IsStatus (node.decode_json raw) _ _ (λ e. inr (inl refl))
          λ tx.
            or_answer-Ends IsStatus (node.simulate tx) _ _ (λ e. inr (inr refl))
              λ res.
                no_error-Ends IsStatus (codes "transaction simulation failed: ") res.error _
                  (encoded-IsStatus (encode_result res))

    marshal_txs-Ends : (txs : List Tx) → Ends Any (marshal_txs node encode_result encode_raw txs)
    unfolding marshal_txs
    marshal_txs-Ends [] = tt
    marshal_txs-Ends (tx ∷ txs) =
        or_answer-Ends Any (node.marshal_tx tx) _ _ (λ e. inr (inr refl))
          λ j.
            >>=-Ends Any (marshal_txs node encode_result encode_raw txs) _ (marshal_txs-Ends txs)
              (λ js. tt)

    pub handle_pending_txs-Ends :
        (b : B) → Ends IsStatus (handle_pending_txs node encode_result encode_raw b)
    unfolding handle_pending_txs
    handle_pending_txs-Ends b =
        >>=-Ends IsStatus (marshal_txs node encode_result encode_raw (node.buffered b)) _
          (marshal_txs-Ends (node.buffered b)) (λ js. encoded-IsStatus (encode_raw js))

    pub submit-Ends :
        (b : B) (body : Option Bytes)
        → Ends (λ p. IsStatus p.0) (submit node encode_result encode_raw b body)
    submit-Ends b body =
        >>=-Ends (λ p. IsStatus p.0) (read_body body) _ (read_body-Ends body)
          λ raw.
            or_answer-Ends (λ p. IsStatus p.0) (node.decode_json raw) _ _ (λ e. inr (inl refl))
              λ tx.
                or_answer-Ends (λ p. IsStatus p.0) (node.validate_tx tx) _ _ (λ e. inr (inr refl))
                  λ res.
                    no_error-Ends (λ p. IsStatus p.0) (codes "transaction validation failed: ")
                      res.error _
                      (or_answer-Ends (λ p. IsStatus p.0) (node.add_tx b tx) _ _
                        (λ e. inr (inl refl)) λ b'. encoded-IsStatus (encode_result res))
