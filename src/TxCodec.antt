-- ===== src/TxCodec.antt =====
-- gccodec/tx_decode.go: the transaction codec of the node over the SDK's transaction configuration.
use gcosmos.Base.{Option, none, some, Bytes, codes, ◌++◌, Result, ok, err, panic, ◌>>=◌}

-- The SDK's decoders, whose transactions are of a type `A`; `assert_type` is the type assertion to
-- `T`, and the last two are the names of types for messages.
pub record TxConfig (A T : Type 0) : Type 0 where
  pub tx_decoder : Bytes → Result Bytes A
  pub tx_json_decoder : Bytes → Result Bytes A
  pub assert_type : A → Option T
  pub type_of : A → Bytes
  pub type_for : Bytes

module _ {A T : Type 0} where
  -- `NewTxDecoder`, where a nil configuration panics.
  unfoldable new_tx_decoder : Option (TxConfig A T) → Result Bytes (TxConfig A T)
  new_tx_decoder none = panic
  new_tx_decoder (some config) = ok config

  abbrev converted : TxConfig A T → A → Option T → Result Bytes T
  converted t tx (some out) = ok out
  converted t tx none =
      err
        (codes "failed to convert decoded type " ++ (t.type_of tx ++ (codes " to " ++ t.type_for)))

  unfoldable pub decode : TxConfig A T → Bytes → Result Bytes T
  decode t bz = do tx ← t.tx_decoder bz; converted t tx (t.assert_type tx)

  unfoldable pub decode_json : TxConfig A T → Bytes → Result Bytes T
  decode_json t bz = do tx ← t.tx_json_decoder bz; converted t tx (t.assert_type tx)
