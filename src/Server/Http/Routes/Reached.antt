-- ===== src/Server/Http/Routes/Reached.antt =====
-- Which handlers a request can reach, and what they answer.
use gcosmos.Base.{
  ◌≡◌, refl, ◌⊎◌, inl, inr, Bool, true, false, not, ◌&&◌, bytes_beq, List, [], ◌∷◌, Option, none,
  some, Bytes, codes, arith, nat_eq, Result, ok, err, panic, Option-cases,
}
use gcosmos.Server.Http.{
  Response, written, submit, handle_blocks_watermark, handle_validators, handle_submit_tx,
  handle_simulate_tx, handle_pending_txs, handle_account_balance,
}
use gcosmos.Server.Http.Routes.{
  Route, Request, Handler, blocks_watermark, get_validators, submit_tx, simulate_tx, pending_txs,
  account_balance, compat, keeping, new_mux, handle, serve,
}
use gcosmos.Server.Http.Statuses.{
  IsStatus, Ends, handle_blocks_watermark-Ends, handle_validators-Ends, handle_account_balance-Ends,
  handle_simulate_tx-Ends, handle_pending_txs-Ends, submit-Ends,
}
use gcosmos.Server.Node.{Node, TxResult}

abbrev pub begins_with_slash : Bytes → Bool
begins_with_slash [] = false
begins_with_slash (c ∷ s) = nat_eq c b'/'

abbrev pub Among : Route → List Route → Type 0
Among r [] = ⊥
Among r (q ∷ rs) = (r ≡ q) ⊎ Among r rs

-- What gorilla/mux documents: a request goes to a registered route for its method, and a template has to
-- begin with a slash.
pub record IsRouter (select : List Route → Request → Option (Route × Bytes)) : Type 0 where
  pub registered :
      (rs : List Route) (req : Request) (r : Route) (id : Bytes)
      → select rs req ≡ some (r, id)
      → Among r rs
  pub for_method :
      (rs : List Route) (req : Request) (r : Route) (id : Bytes)
      → select rs req ≡ some (r, id)
      → r.method ≡ req.method
  pub from_root :
      (rs : List Route) (req : Request) (r : Route) (id : Bytes)
      → select rs req ≡ some (r, id)
      → begins_with_slash r.template ≡ true

abbrev is_compat : Handler → Bool
is_compat (compat e) = true
is_compat _ = false

abbrev is_post : Bytes → Bool
is_post m = bytes_beq m (codes "POST")

-- A route to a CometBFT handler has no slash in front, and the one for submitting takes only a POST.
abbrev is_closed : Handler → Bool → Bool → Bool
is_closed (compat e) slash post = not slash
is_closed submit_tx slash post = post
is_closed _ slash post = true

abbrev all_closed : List Route → Bool
all_closed [] = true
all_closed (r ∷ rs) =
    is_closed r.handler (begins_with_slash r.template) (is_post r.method) && all_closed rs

Among-closed :
    (r : Route) (rs : List Route)
    → Among r rs
    → all_closed rs ≡ true
    → is_closed r.handler (begins_with_slash r.template) (is_post r.method) ≡ true
Among-closed r [] m h = absurd m
Among-closed r (q ∷ rs) (inl e) h = rw e (ground arith)
Among-closed r (q ∷ rs) (inr m) h = Among-closed r rs m (ground arith)

new_mux-closed : all_closed new_mux ≡ true
unfolding new_mux
new_mux-closed = refl

-- What a request ends in: a response with one of the statuses, and a change of the buffer only where
-- `changes` says so.
abbrev Served : {B : Type 0} → B → Bool → Result (Unit {0}) (Response × B) → Type 0
Served b changes (ok (r, b')) = IsStatus r × (changes ≡ false → b' ≡ b)
Served b changes (err e) = Unit
Served b changes panic = Unit

keeping-Served :
    {B : Type 0} (b : B) (changes : Bool) (m : Result Response Response)
    → Ends IsStatus m
    → Served b changes (keeping b m)
keeping-Served b changes (ok r) h = (h, λ _. refl)
keeping-Served b changes (err r) h = (h, λ _. refl)
keeping-Served b changes panic h = tt

written-Served :
    {B : Type 0} (b : B) (m : Result Response (Response × B))
    → Ends (λ p. IsStatus p.0) m
    → Served b true (written b m)
written-Served b (ok (r, b')) h = (h, λ c. cc)
written-Served b (err r) h = (h, λ c. cc)
written-Served b panic h = tt

module _ {Tx B Q V : Type 0} (node : Node Tx B Q V) (encode_result : TxResult → Option Bytes)
    (encode_raw : List Bytes → Option Bytes)
    (select : List Route → Request → Option (Route × Bytes)) (unmatched : Request → Response) where
  handle-Served :
      (b : B) (h : Handler) (id : Bytes) (body : Option Bytes) (post : Bool)
      → is_closed h true post ≡ true
      → Served b post (handle node encode_result encode_raw select unmatched b h id body)
  unfolding handle handle_submit_tx
  handle-Served b blocks_watermark id body post c =
      keeping-Served b post (handle_blocks_watermark node) (handle_blocks_watermark-Ends node)
  handle-Served b get_validators id body post c =
      keeping-Served b post (handle_validators node) (handle_validators-Ends node)
  handle-Served b submit_tx id body post c = rw c (
      written-Served b (submit node encode_result encode_raw b body)
        (submit-Ends node encode_result encode_raw b body))
  handle-Served b simulate_tx id body post c =
      keeping-Served b post (handle_simulate_tx node encode_result encode_raw body)
        (handle_simulate_tx-Ends node encode_result encode_raw body)
  handle-Served b pending_txs id body post c =
      keeping-Served b post (handle_pending_txs node encode_result encode_raw b)
        (handle_pending_txs-Ends node encode_result encode_raw b)
  handle-Served b account_balance id body post c =
      keeping-Served b post (handle_account_balance node id) (handle_account_balance-Ends node id)
  handle-Served b (compat e) id body post c = cc

  -- A request that the router gives to a route is answered with status 200, 400 or 500, if the
  -- handler does not panic, so that no client sees the 501 of the CometBFT endpoints; and one whose
  -- method is not POST leaves the transaction buffer as it was. A request that it gives to none gets the
  -- router's own answer and leaves the buffer. The router gives requests only to registered routes, for
  -- their method, whose template begins with a slash.
  pub serve-Served :
      (b b' : B) (req : Request) (r : Response)
      → IsRouter select
      → serve node encode_result encode_raw select unmatched b req ≡ ok (r, b')
      → ((select new_mux req ≡ none) × (r ≡ unmatched req) × (b' ≡ b))
        ⊎ ((q : Route) × (id : Bytes) × (select new_mux req ≡ some (q, id))
            × IsStatus r
            × (bytes_beq req.method (codes "POST") ≡ false → b' ≡ b))
  unfolding serve
  serve-Served b b' req r router e = elim (Option-cases (select new_mux req)) [
    | inl unrouted ↦ inl (unrouted, cc, cc)
    | inr ((q, id), chosen) ↦
        let closed =
          Among-closed q new_mux (router.registered new_mux req q id chosen) new_mux-closed in
        let open_to_post : is_closed q.handler true (is_post req.method) ≡ true =
          rw (router.from_root new_mux req q id chosen, router.for_method new_mux req q id chosen)
            at closed in
        let served : Served b (is_post req.method)
            (serve node encode_result encode_raw select unmatched b req) =
          rw chosen (handle-Served b q.handler id req.body (is_post req.method) open_to_post) in
        let (status, kept) = rw e at served in inr (q, id, chosen, status, kept)
  ]
