-- ===== src/Commands.antt =====
-- gserver/commands.go: `newSeedCommand` and `newPrintValPubKeyCommand`.
pub mod Seeded
pub mod Shim
use gcosmos.Base.{
  ℕ, Bool, true, false, List, [], ◌∷◌, ◌++◌, Option, none, some, Bytes, codes, Result, ok, err,
  panic, ◌>>=◌, ◌>>◌, or_fail, if◌then◌else◌,
}

pub data CommandError : Type 0 where
  no_host no_dht no_p2p_addrs write_failed no_sdk_key no_json : CommandError

-- `if err != nil { return err }` of a call without a result.
abbrev pub checked : Bool → CommandError → Result CommandError (Unit {0})
checked true e = ok tt
checked false e = err e

abbrev pub join_rest : List Bytes → Bytes
join_rest [] = []
join_rest (a ∷ addrs) = codes "\n" ++ (a ++ join_rest addrs)

-- `strings.Join(addrs, "\n")`
pub join_lines : List Bytes → Bytes
join_lines [] = []
join_lines (a ∷ addrs) = a ++ join_rest addrs

-- What libp2p and the file system answer.
pub record SeedEnv : Type 0 where
  pub new_host : Bool
  pub new_dht : Bool
  pub addr_info_to_p2p_addrs : Option (List Bytes)
  pub write_file : Bytes → Bool

-- What the seed writes into the file of its argument before it waits for its end.
unfoldable pub seed_command : SeedEnv → Bytes → Result CommandError (Bytes × Bytes)
unfolding join_lines
seed_command env path = do
  checked env.new_host no_host
  checked env.new_dht no_dht
  host_addrs ← or_fail env.addr_info_to_p2p_addrs no_p2p_addrs
  checked (env.write_file path) write_failed
  ok (path, join_lines host_addrs ++ codes "\n")

-- What the SDK and the configuration answer; `K` is a key of CometBFT and `S` one of the SDK.
pub record KeyEnv (K S : Type 0) : Type 0 where
  pub root_dir : Bytes
  pub home_flag : Option Bytes
  pub load_file_pv : Bytes → K
  pub from_cmt_pub_key : K → Option S
  pub marshal_interface_json : S → Option Bytes

abbrev or_home : Option Bytes → Bytes → Result CommandError Bytes
or_home none [] = panic
or_home (some home) [] = ok home
or_home home (c ∷ root) = ok (c ∷ root)

-- The line that is printed: the key of the home directory as JSON.
unfoldable print_val_pub_key : {K S : Type 0} → KeyEnv K S → Result CommandError Bytes
print_val_pub_key env = do
  root ← or_home env.home_flag env.root_dir
  sdk_pk ← or_fail (env.from_cmt_pub_key (env.load_file_pv root)) no_sdk_key
  j ← or_fail (env.marshal_interface_json sdk_pk) no_json
  ok (j ++ codes "\n")
