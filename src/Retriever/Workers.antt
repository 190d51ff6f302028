-- ===== src/Retriever/Workers.antt =====
-- What a worker brings.
use gcosmos.Base.{◌≡◌, ◌⊎◌, Bool, false, List, ◌∷◌, ◌++◌, Option, some, Bytes, All, Result, ok}
use gcosmos.BlockData.Codecs.{Codecs}
use gcosmos.BlockData.Decoder.{BlockDataDecoder, decode}
use gcosmos.Retriever.{WorkerResult, Fetch, not_done, stopped, sent}
use gcosmos.Tx.{TxApi}

-- What `io.TeeReader` documents: it keeps what is read, which is a beginning of the stream, and what a reader
-- makes of a stream depends on nothing that it has not read.
pub record IsTee (c : Codecs) {Tx : Type 0} (api : TxApi Tx)
    (tee : BlockDataDecoder → Bytes → Bytes) : Type 0 where
  pub beginning : (dec : BlockDataDecoder) (s : Bytes) → (rest : Bytes) × (s ≡ tee dec s ++ rest)
  pub enough :
      (dec : BlockDataDecoder) (s : Bytes) (txs : List Tx)
      → decode c api dec s ≡ ok txs
      → decode c api dec (tee dec s) ≡ ok txs

module _ (c : Codecs) {A Tx : Type 0} (api : TxApi Tx) (stream : A → Option Bytes)
    (tee : BlockDataDecoder → Bytes → Bytes) (live taken : A → Bool) where
  -- The host sends data that decodes to the transactions.
  abbrev Serves : BlockDataDecoder → List Tx → A → Bytes → Type 0
  Serves dec txs addr s = (stream addr ≡ some s) × (decode c api dec s ≡ ok txs)

  -- No transactions can be had from the host.
  abbrev Useless : BlockDataDecoder → A → Type 0
  Useless dec addr = (s : Bytes) (txs : List Tx) → ¬ Serves dec txs addr s

  -- Where a result comes from: its bytes are a beginning of what the host sent, and decode to the result's
  -- transactions themselves.
  abbrev Brought : Bytes → BlockDataDecoder → A → WorkerResult Tx → Type 0
  Brought id dec addr res =
      (s : Bytes) × (rest : Bytes) × Serves dec res.txs addr s
      × (res.data_id ≡ id)
      × (s ≡ res.encoded_txs ++ rest)
      × (decode c api dec res.encoded_txs ≡ ok res.txs)

  -- Why a worker stops at a host: the context was cancelled when the attempt had failed, or before
  -- the result was taken.
  abbrev Interrupted : BlockDataDecoder → A → Type 0
  Interrupted dec addr =
      (Useless dec addr × (live addr ≡ false))
      ⊎ ((s : Bytes) × (txs : List Tx) × Serves dec txs addr s × (taken addr ≡ false))

  -- The first of the hosts that is not useless, and what is true of it.
  pub data At (dec : BlockDataDecoder) (P : A → Type 0) : List A → Type 0 where
    here : (addr : A) (addrs : List A) → P addr → At dec P (addr ∷ addrs)
    later :
        (addr : A) (addrs : List A) → Useless dec addr → At dec P addrs → At dec P (addr ∷ addrs)

  -- What an outcome of a fetch says of the hosts.
  abbrev pub Explains : Bytes → BlockDataDecoder → List A → Fetch Tx → Type 0
  Explains id dec addrs not_done = All (Useless dec) addrs
  Explains id dec addrs stopped = At dec (Interrupted dec) addrs
  Explains id dec addrs (sent res) = At dec (λ addr. Brought id dec addr res) addrs

  -- What that of an attempt says of its host.
  abbrev OneExplains : Bytes → BlockDataDecoder → A → Fetch Tx → Type 0
  OneExplains id dec addr not_done = Useless dec addr
  OneExplains id dec addr stopped = Interrupted dec addr
  OneExplains id dec addr (sent res) = Brought id dec addr res

  abbrev OneExplained : Bytes → BlockDataDecoder → A → Result (Unit {0}) (Fetch Tx) → Type 0
  OneExplained id dec addr r = (o : Fetch Tx) × (r ≡ ok o) × OneExplains id dec addr o

  abbrev Explained : Bytes → BlockDataDecoder → List A → Result (Unit {0}) (Fetch Tx) → Type 0
  Explained id dec addrs r = (o : Fetch Tx) × (r ≡ ok o) × Explains id dec addrs o
