-- ===== src/Provider.antt =====
-- gserver/internal/gsbd/libp2p.go and provider.go: the proposer serves its block data on a stream
-- protocol that is named after the data ID, and a client fetches it.
pub mod RoundTrip
use gcosmos.Base.{
  ℕ, ◌%◌, ◌^◌, List, [], ◌∷◌, ◌++◌, Option, none, some, Bytes, codes, Map, lookup, put, bytes_key,
  Result, ok, err, panic, ◌>>=◌, or_fail,
}
use gcosmos.BlockData.Codecs.{Codecs}
use gcosmos.BlockData.Encoder.{encode_block_data}
use gcosmos.BlockData.Decoder.{BlockDataDecoder, new_block_data_decoder, decode}
use gcosmos.DataId.{data_id}
use gcosmos.Tx.{TxApi}

abbrev pub proposed_block_data_v1_prefix : Bytes
proposed_block_data_v1_prefix = codes "/gordian/proposed_blockdata/v1/"

pub data Scheme : Type 0 where
  invalid_scheme libp2p_scheme : Scheme
  unknown_scheme : ℕ → Scheme

pub record Location : Type 0 where
  pub scheme : Scheme
  pub addr : Bytes

pub record ProvideResult : Type 0 where
  pub data_id : Bytes
  pub addrs : List Location
  pub encoded : Bytes

-- The stream handlers that a host has set, by protocol: each writes its data and closes. The JSON of
-- the host's own address may fail to be made.
pub record Host : Type 0 where
  pub handlers : Map Bytes Bytes
  pub marshalled_info : Option Bytes

pub data ProvideError : Type 0 where
  marshal_failed : ProvideError

pub data RetrieveError : Type 0 where
  bad_data_id connect_failed no_stream decode_failed : RetrieveError

abbrev lifted {ℓ} : {E F : Type 0} {A : Type ℓ} → F → Result E A → Result F A
lifted f (ok a) = ok a
lifted f (err e) = err f
lifted f panic = panic

module _ (c : Codecs) {Tx : Type 0} (api : TxApi Tx) where
  abbrev pub locations : Bytes → List Location
  locations jai = record { scheme = libp2p_scheme; addr = jai } ∷ []

  -- The handler stays set if the address cannot be marshalled. `uint32(sz)` cuts the size.
  abbrev pub publish : Host → Bytes → Bytes → Result ProvideError ProvideResult × Host
  publish h id encoded = (
    or_fail h.marshalled_info marshal_failed >>= λ jai.
        ok (record { data_id = id; addrs = locations jai; encoded = encoded }),
    record h { handlers = put (proposed_block_data_v1_prefix ++ id) encoded h.handlers },
  )

  abbrev pub named :
      Host → Bytes → Result (Unit {0}) Bytes → Result ProvideError ProvideResult × Host
  named h encoded (ok id) = publish h id encoded
  named h encoded (err e) = (panic, h)
  named h encoded panic = (panic, h)

  abbrev pub provide_encoded :
      Host
      → ℕ
      → ℕ
      → List Tx
      → Result (Unit {0}) (Bytes × ℕ)
      → Result ProvideError ProvideResult × Host
  provide_encoded h height round txs (ok (encoded, size)) =
      named h encoded (data_id api height round (size % 2 ^ 32) txs)
  provide_encoded h height round txs (err e) = (panic, h)
  provide_encoded h height round txs panic = (panic, h)

  unfoldable pub provide : Host → ℕ → ℕ → List Tx → Result ProvideError ProvideResult × Host
  provide h height round txs = provide_encoded h height round txs (encode_block_data c api txs)

  -- `remote` is the host at the other end, if a connection can be made.
  pub retrieve : Option Host → Bytes → Result RetrieveError (List Tx)
  retrieve remote id = do
    d ← lifted bad_data_id (new_block_data_decoder id)
    h ← or_fail remote connect_failed
    stream ← or_fail (lookup (proposed_block_data_v1_prefix ++ id) h.handlers) no_stream
    lifted decode_failed (decode c api d stream)
