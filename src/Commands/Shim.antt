-- ===== src/Commands/Shim.antt =====
-- `shimGordianClient` of internal/gci/command.go and `NewClient` of gserver/cmtclient.go: which
-- client a command of the SDK gets.
use gcosmos.Base.{Bool, true, false, [], ◌∷◌, Option, Bytes, Result, ok, err, ◌>>=◌, ◌>>◌, or_fail}

pub data ShimError : Type 0 where
  pre_run_failed no_client context_not_set : ShimError

-- What cobra, gRPC and the SDK answer. `grpc_addr` and `grpc_insecure` are the flags, empty and
-- false if they are not there; `dial` takes the address and whether it is dialled with insecure
-- credentials.
pub record ShimEnv (C : Type 0) : Type 0 where
  pub orig_persistent_pre_run : Bool
  pub grpc_addr : Bytes
  pub grpc_insecure : Bool
  pub dial : Bytes → Bool → Option C
  pub set_cmd_client_context : Bool

abbrev checked : Bool → ShimError → Result ShimError (Unit {0})
checked true e = ok tt
checked false e = err e

module _ {C : Type 0} (env : ShimEnv C) where
  unfoldable new_client : Bytes → Bool → Result ShimError C
  new_client grpc_address grpc_insecure = or_fail (env.dial grpc_address grpc_insecure) no_client

  -- The client of the command's context after its pre-run, where `own` is the one that it had.
  abbrev shimmed : C → Bytes → Result ShimError C
  shimmed own [] = ok own
  shimmed own (c ∷ addr) = do
    client_shim ← new_client (c ∷ addr) env.grpc_insecure
    checked env.set_cmd_client_context context_not_set
    ok client_shim

  unfoldable shim_gordian_client : C → Result ShimError C
  unfolding new_client
  shim_gordian_client own = do
    checked env.orig_persistent_pre_run pre_run_failed
    shimmed own env.grpc_addr
