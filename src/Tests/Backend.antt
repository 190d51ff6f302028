-- ===== src/Tests/Backend.antt =====
-- A node behind the servers.
use gcosmos.Base.{
  none, some, List, [], ◌∷◌, Option, Bytes, codes, bytes_beq, bytes_key, if◌then◌else◌, ok,
}
use gcosmos.Server.Node.{Node, TxResult}

-- A transaction without an event that used 5 of 9 units of gas, and one that failed.
abbrev fine : TxResult
fine = record { events = []; gas_wanted = 9; gas_used = 5; error = none }

abbrev pub broke : TxResult
broke = record { events = []; gas_wanted = 9; gas_used = 5; error = some (codes "broke") }

-- The JSON of a transaction is the transaction, and one that begins with `x` is not valid.
abbrev pub checked : Bytes → TxResult
checked [] = fine
checked (c ∷ s) = if bytes_beq (c ∷ []) (codes "x") then broke else fine

abbrev pub node : Node Bytes (List Bytes) Bytes Bytes
node = record {
  network_height_round =
      ok (record {
        voting_height = 8;
        voting_round = 1;
        committing_height = 7;
        committing_round = 0;
      });
  load_finalization_by_height = λ h. ok (record { pub_key = codes "Man"; power = 10 } ∷ []);
  marshal_key = λ k. k;
  decode_json = λ b. ok b;
  validate_tx = λ t. ok (checked t);
  simulate = λ t. ok (checked t);
  query_balance = λ address denom. ok address;
  marshal_answer = λ q. ok q;
  unmarshal_answer = λ b. ok b;
  add_tx = λ b t. ok (t ∷ b);
  buffered = λ b. b;
  marshal_tx = λ t. ok t;
}

abbrev pub no_json : TxResult → Option Bytes
no_json res = none

abbrev pub first_json : List Bytes → Option Bytes
first_json js = none
