-- ===== src/Run/Tests.antt =====
-- The theorems on runs and on the runtime, at a call of an application that writes its global state.
use algorand_builder.Base.{◌≡◌, refl, true, false, List, [], ◌∷◌, none, some, replicate}
use algorand_builder.Base.Int.{pos, ◌+ℤ◌, ◌-ℤ◌}
use algorand_builder.Base.Equality.{same, string_eq, nat_eq}
use algorand_builder.Ledger.Dict.{lookup, insert}
use algorand_builder.Ledger.Data.{State, StateValue, AccountStore, SscAttributes, SscSchema}
use algorand_builder.Ledger.Encoded.{TxValue, Txn, field_of}
use algorand_builder.Ledger.Monad as Ledger
use algorand_builder.Ledger.Tx.{TxKind, TxParam}
use algorand_builder.Ledger.AppState.{set_global_state, assert_valid_schema, num_uint, byte_slices}
use algorand_builder.Ledger.Context.{
  get_account, get_app, get_app_creator, on_account, deduct_fee, assert_acc_bal_above_min,
}
use algorand_builder.Ledger.Context.Transfers.{total_algos}
use algorand_builder.Ledger.Frame.{without_values}
use algorand_builder.Ledger.Transactions.{
  process_transactions, process_one, dispatch, outside_rounds,
}
use algorand_builder.Run.Runtime.{Runtime, store_of, execute_tx}
use algorand_builder.Ledger.Group.{fees}
use algorand_builder.LogicSig.{Crypto}
use algorand_builder.Teal.Op.{Op, Encoding}
use algorand_builder.Teal.Library.{Library}
use algorand_builder.Teal.Machine as Teal
use algorand_builder.Teal.Machine.{Machine, ok, fail}
use algorand_builder.Teal.Execute.{execute}
use algorand_builder.Run.{Settings, Program, host, run, run_parsed, loaded}
use algorand_builder.Teal.Moves.{over}
use algorand_builder.Teal.AppOps.{app_global_get}
use algorand_builder.Teal.KeyValues.{app_global_get-app_global_put}
use algorand_builder.Teal.Machine.{uint64, bytes}
use algorand_builder.Base.{arith}
use algorand_builder.Run.Frame.{execute-keeps_ledger}
use algorand_builder.Base.Equality
use algorand_builder.Teal.AppOps
use algorand_builder.Teal.Checks
use algorand_builder.Teal.Constants
use algorand_builder.Teal.Execute
use algorand_builder.Teal.Global
use algorand_builder.Teal.Query
use algorand_builder.Teal.Stack
use algorand_builder.Ledger.Encoded
use algorand_builder.Run.Group.{run-conserves}

abbrev library : Library
library = record {
  encode_uint64 = λ z. some (replicate 8 0);
  decode_uint64 = λ b. some (pos 0);
  sha256_digest = λ b. [];
  sha512_256_digest = λ b. [];
  keccak256_digest = λ b. [];
  utf8_text = λ b. b;
  verify_bytes = λ t s k. some false;
  encode_address = λ b. some "alice";
  decode_address = λ s. some (replicate 32 0);
  is_valid_address = λ s. false;
  buffer_from = λ e s. [];
}

abbrev crypto : Crypto
crypto = record {
  encode_address = λ k. "alice";
  public_key = λ s. [];
  key_of_secret = λ k. k;
  sign_bytes = λ b k. k;
  verify_bytes = λ b s a. true;
  multisig_address = λ v t addrs. none;
  string_to_bytes = λ s. [];
  convert_to_string = λ b. "";
}

-- The program writes 5 at the empty key of its global state, and accepts.
abbrev writer : Program
writer = record {
  ops = Op.byte "" Encoding.utf8 ∷ Op.int (pos 5) ∷ Op.app_global_put ∷ Op.int (pos 1) ∷ [];
  arrays = [];
  version = 2;
}

abbrev call : Txn
call = record {
  fields = ("apid", TxValue.number (pos 1)) ∷ ("snd", TxValue.buffer []) ∷ [];
  apar = none;
  apgs = none;
  apls = none;
}

abbrev settings : Settings
settings = record {
  library = library;
  crypto = crypto;
  parser = λ mode args arrays text. some writer;
  gtxs = call ∷ [];
  signatures = [];
  first_args = [];
  round = 5;
  timestamp = 1;
  zero_address = 0;
  zero_byte = 0;
  loaded_assets_defs = [];
}

abbrev schema : SscSchema
schema = record { num_uint = 1; num_byte_slice = 0 }

abbrev application : SscAttributes
application = record {
  approval_program = "writer";
  clear_state_program = "writer";
  creator = "alice";
  global_state = [];
  global_state_schema = schema;
  local_state_schema = schema;
}

abbrev alice : AccountStore
alice = record {
  min_balance = pos 228500;
  assets = [];
  amount = pos 1000000;
  apps_local_state = [];
  created_apps = (1, application) ∷ [];
  created_assets = [];
}

abbrev ledger : State
ledger = record {
  accounts = ("alice", alice) ∷ [];
  asset_defs = [];
  asset_counter = 0;
  global_apps = (1, "alice") ∷ [];
  app_counter = 1;
  heap = [];
}

abbrev runtime : Runtime
runtime = record { ctx_state = ledger; own_store = none; round = 5; timestamp = 1 }

abbrev group : List TxParam
group =
    record {
      from = "alice";
      close_remainder_to = "";
      by_logic_signature = false;
      kind = TxKind.call_no_op_ssc 1;
      fee = 1000;
      first_valid = 1;
      last_valid = 9;
    }
    ∷ []

abbrev charged : State
charged = record ledger { accounts = ("alice", record alice { amount = pos 999000 }) ∷ [] }

abbrev machine : Machine
machine = loaded settings 0 charged writer

abbrev written : State
written = record charged {
  accounts =
      (
        "alice",
        record alice {
          amount = pos 999000;
          created_apps =
              (1, record application { global_state = ("", StateValue.number (pos 5)) ∷ [] }) ∷ [];
        },
      )
      ∷ [];
}

abbrev final : Machine
final = record machine {
  instruction_index = 4;
  heap = [] ∷ [];
  ctx = record (machine.ctx) { state = written };
}

execute-keeps_ledger_example : without_values written ≡ without_values charged
unfolding execute Execute.run_loop Execute.round Execute.next_round Execute.execute_op Global.byte
    Teal.◌>>=◌ Stack.push_elem Constants.int AppOps.app_global_put Checks.assert_min_stack_len
    Stack.pop_elem AppOps.pop_key Checks.pop_bytes Checks.assert_bytes Query.current_app_id
    Query.current_tx Query.tx_at Query.on_ledger AppOps.write_global Ledger.◌>>=◌ get_app_creator
    lookup nat_eq field_of string_eq on_account get_account set_global_state assert_valid_schema
    num_uint insert byte_slices Execute.verdict Execute.accepts Query.key_text
execute-keeps_ledger_example = execute-keeps_ledger library machine (ok tt final) refl

abbrev called : Runtime
called = record runtime { ctx_state = record written { heap = [] ∷ [] } }

run-conserves_example : total_algos (store_of called) +ℤ pos (fees group) ≡ total_algos ledger
unfolding string_eq execute_tx store_of Ledger.◌>>=◌ outside_rounds process_transactions process_one
    deduct_fee on_account get_account lookup assert_acc_bal_above_min insert ◌-ℤ◌ dispatch get_app
    get_app_creator Equality.nat_eq host run run_parsed execute Execute.run_loop Execute.round
    Execute.next_round Execute.execute_op Global.byte Teal.◌>>=◌ Stack.push_elem Constants.int
    AppOps.app_global_put Checks.assert_min_stack_len Stack.pop_elem AppOps.pop_key Checks.pop_bytes
    Checks.assert_bytes Query.current_app_id Query.current_tx Query.tx_at Query.on_ledger
    AppOps.write_global field_of set_global_state assert_valid_schema num_uint byte_slices
    Execute.verdict Execute.accepts Query.key_text
run-conserves_example = run-conserves settings group runtime called (refl, tt) refl

-- The machine whose heap holds the key, before the write and after it.
abbrev keyed : Machine
keyed = record machine { heap = [] ∷ [] }

abbrev put : Machine
put = record keyed { ctx = record (keyed.ctx) { state = written } }

app_global_get-app_global_put_example :
    app_global_get (over put (bytes 0 ∷ [])) ≡ ok tt (over put (uint64 (pos 5) ∷ []))
unfolding AppOps.app_global_put Teal.◌>>=◌ Checks.assert_min_stack_len Stack.pop_elem AppOps.pop_key
    Checks.pop_bytes Checks.assert_bytes Query.current_app_id Query.current_tx Query.tx_at
    Query.on_ledger AppOps.write_global Ledger.◌>>=◌ get_app_creator lookup nat_eq Encoded.field_of
    string_eq on_account get_account set_global_state assert_valid_schema num_uint insert
    byte_slices Query.key_text
app_global_get-app_global_put_example =
    app_global_get-app_global_put keyed put (uint64 (pos 5)) 0 [] (omega arith) refl
