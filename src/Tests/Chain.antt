-- ===== src/Tests/Chain.antt =====
-- The driver.
use gcosmos.Base.{
  ℕ, suc, ◌≡◌, refl, sym, inl, inr, length-map, none, some, List, [], ◌∷◌, ◌++◌, Bytes, codes, Bool,
  true, lookup, bytes_key, take, map, put, remove, nat_key,
}
use gcosmos.Tests.Fixtures.{api, two_txs, two_id, ann}
use gcosmos.BlockStore.{new_block_data_store, save_block_data}
use gcosmos.Consensus.Consider.{block_time}
use gcosmos.Consensus.Proposer.{Validator}
use gcosmos.DataId.{is_zero_tx_data_id}
use gcosmos.Driver.Finalize.{
  finalize_initial, deliver, Sdk, FinalizeBlockRequest, Driver, Waiting, handle_finalization,
  finalize_later, commit, send_response, await_block_data, save_data, block_txs, rebase,
  save_results,
}
use gcosmos.Driver.Finalize.Answers.{Answers, handle_finalization-Answers}
use gcosmos.Driver.Finalize.Completes.{IsWilling, HasData, handle_finalization-completes}
use gcosmos.Driver.Finalize.Done.{Executed, handle_finalization-Executed}
use gcosmos.Driver.MainLoop.{
  Loop, Event, finalize_block, context_done, lag_state, assumed_behind, main_loop,
}
use gcosmos.Driver.MainLoop.Laws.{answered, requests, main_loop-answers}
use gcosmos.Driver.Steps.{go}
use gcosmos.Driver.Validators.{
  update_validators, collect, assign, delete_zero, new_validators, sorted_keys,
}
use gcosmos.Requests.{BlockDataRequest, get}
use gcosmos.Strconv.Integer.{pos}
use gcosmos.TxStore.{save_block_result, save_loop}

abbrev alice : Validator
alice = record { pub_key = codes "a"; power = 10 }

abbrev bob : Validator
bob = record { pub_key = codes "b"; power = 20 }

abbrev pub any_key : Bytes → Bool
any_key k = true

-- The state counts the commits; a block's state is its height.
abbrev pub sdk : Sdk Bytes ℕ ℕ ℕ ℕ
sdk = record {
  last_commit_hash = λ w. some (w ∷ []);
  deliver_block = λ b w. some (
    record {
      validator_updates = record { pub_key = codes "b"; power = pos 7 } ∷ [];
      tx_results = map (λ tx. 1) b.txs;
    },
    b.height,
    w,
  );
  rebase = λ s txs w. some w;
  state_changes = λ s. some s;
  empty_changes = 0;
  commit = λ version changes w. some (version ∷ changes ∷ [], suc w);
}

abbrev pub req : FinalizeBlockRequest
req = record {
  height = 5;
  round = 1;
  hash = codes "h";
  data_id = two_id;
  annotation = 8 ∷ [];
  next_validators = alice ∷ bob ∷ [];
}

abbrev two_ready : BlockDataRequest Bytes
two_ready = record { ready = true; transactions = two_txs; encoded_transactions = 7 ∷ [] }

abbrev before : Driver Bytes ℕ ℕ
before = record {
  world = 4;
  cache = record { rs = (two_id, some 0) ∷ []; heap = (0, two_ready) ∷ []; next = 1 };
  block_data = new_block_data_store;
  tx_store = [];
  responses = [];
}

abbrev after : Driver Bytes ℕ ℕ
after = record {
  world = 5;
  cache = before.cache;
  block_data = record {
    data_by_height_id = ((5, two_id), 7 ∷ []) ∷ [];
    height_by_id = (two_id, 5) ∷ [];
    id_by_height = (5, two_id) ∷ [];
  };
  tx_store =
      (codes "c", record { height = 5; tx_bytes = codes "c"; result = 1 })
      ∷ (codes "ab", record { height = 5; tx_bytes = codes "ab"; result = 1 })
      ∷ [];
  responses =
      record {
        height = 5;
        round = 1;
        block_hash = codes "h";
        validators = alice ∷ record { pub_key = codes "b"; power = 7 } ∷ [];
        app_state_hash = 5 ∷ 5 ∷ [];
      }
      ∷ [];
}

abbrev pub taken : Waiting Bytes
taken = record { cache_when_ready = none; response_taken = true }

finalized :
    handle_finalization sdk api ann any_key (codes "chain") taken req before ≡ (go tt, after)
unfolding handle_finalization finalize_later deliver commit send_response await_block_data save_data
    block_txs rebase save_results block_time is_zero_tx_data_id gcosmos.Strconv.Text.has_suffix
    gcosmos.Strconv.Text.cut_suffix get lookup put remove save_block_data update_validators collect
    assign delete_zero new_validators sorted_keys save_block_result save_loop
finalized = refl

handle_finalization-Executed_example :
    Executed sdk api ann any_key (codes "chain") taken req before after
handle_finalization-Executed_example =
    handle_finalization-Executed sdk api ann any_key (codes "chain") taken req before after
      (λ e. cc) finalized

pub sdk-IsWilling : IsWilling sdk
sdk-IsWilling = record {
  knows_last = λ w. (w ∷ [], refl);
  delivers = λ b w. (_, _, _, refl, sym (length-map (λ tx. 1) b.txs));
  rebases = λ s txs w. (w, refl);
  changes = λ s. (s, refl);
  commits = λ version c w. (_, _, refl);
}

-- The data is in the cache, ready, and the store is empty.
two-HasData : HasData sdk api ann any_key (codes "chain") taken req before
unfolding is_zero_tx_data_id gcosmos.Strconv.Text.has_suffix gcosmos.Strconv.Text.cut_suffix get
    lookup
two-HasData = inr (0, refl, refl, (two_ready, refl, inl refl), refl, refl)

pub time_is_8 : block_time ann req.annotation ≡ some 8
unfolding block_time
time_is_8 = refl

handle_finalization-completes_example :
    (d' : Driver Bytes ℕ ℕ) × (handle_finalization sdk api ann any_key
        (codes "chain")
        taken
        req
        before
      ≡ (go tt, d'))
    × Executed sdk api ann any_key (codes "chain") taken req before d'
handle_finalization-completes_example =
    handle_finalization-completes sdk api ann any_key (codes "chain") taken req before 8 (λ e. cc)
      sdk-IsWilling time_is_8 refl two-HasData

handle_finalization-Answers_example :
    Answers sdk api ann any_key
      (codes "chain")
      taken
      req
      []
      (handle_finalization sdk api ann any_key (codes "chain") taken req before).1
handle_finalization-Answers_example =
    handle_finalization-Answers sdk api ann any_key (codes "chain") taken req before

abbrev events : List (Event Bytes)
events =
    lag_state (record { status = assumed_behind; committing_height = 4; need_height = 9 }) true
    ∷ finalize_block req taken
    ∷ context_done
    ∷ []

abbrev loop : Loop Bytes ℕ ℕ
loop = record { driver = before; commands = [] }

main_loop-answers_example :
    (n : ℕ) × (map answered
        (main_loop sdk api ann any_key (codes "chain") events loop).1.driver.responses
      ≡ [] ++ take n (requests events))
main_loop-answers_example = main_loop-answers sdk api ann any_key (codes "chain") events loop

abbrev first_req : FinalizeBlockRequest
first_req = record req { height = 1 }

abbrev after_first : Driver Bytes ℕ ℕ
after_first = record before {
  world = 5;
  responses =
      record {
        height = 1;
        round = 1;
        block_hash = codes "h";
        validators = alice ∷ bob ∷ [];
        app_state_hash = 1 ∷ 0 ∷ [];
      }
      ∷ [];
}

first_finalized :
    handle_finalization sdk api ann any_key (codes "chain") taken first_req before
    ≡ (go tt, after_first)
unfolding handle_finalization finalize_initial commit send_response
first_finalized = refl
