-- ===== src/Run/Runtime/Tests.antt =====
-- The theorems on the runtime's store, at a group of transactions that fails after its fee is paid.
use algorand_builder.Base.{none, ◌≡◌, refl, false, List, [], ◌∷◌, arith}
use algorand_builder.Base.Int.{ℤ, pos}
use algorand_builder.Base.Equality.{string_eq}
use algorand_builder.Ledger.Data.{SscSchema, SscAttributes, State, TxError, AccountStore, AssetDef}
use algorand_builder.Ledger.Monad.{Outcome, done, thrown}
use algorand_builder.Ledger.Account.Charged.{after}
use algorand_builder.Ledger.Tx.{TxKind, TxParam}
use algorand_builder.Ledger.Context as Ctx
use algorand_builder.Ledger.Programs.{Host}
use algorand_builder.Ledger.Transactions as Ledger
use algorand_builder.Ledger.Transactions.{process_transactions}
use algorand_builder.Run.Runtime.{Runtime, store_of, new_runtime, execute_tx, opt_into_asa}
use algorand_builder.Base.Equality
use algorand_builder.Base.Int
use algorand_builder.Ledger.Account
use algorand_builder.Ledger.Dict
use algorand_builder.Ledger.Monad
use algorand_builder.Run.Runtime
use algorand_builder.Ledger.Dict.{lookup}
use algorand_builder.Run.Runtime.Commit.{failed_group-leaks}

abbrev idle : Host
idle = record {
  run = λ program s. done tt s;
  validate_lsig_and_run = λ from s. done tt s;
  loaded_assets_defs = [];
}

abbrev gold : AssetDef
gold = record {
  creator = "bob";
  total = pos 10;
  decimals = 0;
  default_frozen = false;
  unit_name = "";
  name = "gold";
  url = "";
  metadata_hash = "";
  manager = "";
  reserve = "";
  freeze = "";
  clawback = "";
}

abbrev alice : AccountStore
alice = record {
  min_balance = pos 100000;
  assets = [];
  amount = pos 1000000;
  apps_local_state = [];
  created_apps = [];
  created_assets = [];
}

-- The creator of the asset 7.
abbrev bob : AccountStore
bob = record alice { created_assets = (7, gold) ∷ [] }

abbrev fresh : Runtime
unfolding new_runtime
fresh = new_runtime (("alice", alice) ∷ ("bob", bob) ∷ [])

-- Alice pays bob more than she has, after a fee that she can pay.
abbrev overdrawn : List TxParam
overdrawn =
    record {
      from = "alice";
      close_remainder_to = "";
      by_logic_signature = false;
      kind = TxKind.transfer_algo "bob" (pos 5000000);
      fee = 1000;
      first_valid = 1;
      last_valid = 9;
    }
    ∷ []

abbrev failed : Runtime
failed = after (execute_tx (λ i. idle) overdrawn fresh)

abbrev opted_in : Runtime
opted_in = after (opt_into_asa 7 "bob" failed)

failed_group-leaks_example :
    (s : State) × (process_transactions (λ i. idle) 0 overdrawn (store_of fresh)
      ≡ thrown TxError.insufficient_account_balance s)
    × (Ctx.opt_into_asa 7 "bob" s ≡ done tt (store_of opted_in))
unfolding Ledger.outside_rounds fresh execute_tx Monad.◌>>=◌ process_transactions Ledger.process_one
    Ctx.deduct_fee Ctx.on_account Ctx.get_account Dict.lookup store_of Runtime.initialize_accounts
    Dict.insert string_eq Ctx.assert_acc_bal_above_min Int.◌-ℤ◌ Ledger.dispatch Ctx.transfer_algo
    opt_into_asa Runtime.on_ctx Ctx.opt_into_asa Ctx.get_asset_def Ctx.get_asset_creator
    Runtime.set_creators Equality.nat_eq Account.opt_in_to_asa Dict.has Account.opt_in_new_asa
    Int.◌+ℤ◌
failed_group-leaks_example =
    failed_group-leaks (λ i. idle) overdrawn fresh failed opted_in
      TxError.insufficient_account_balance 7 "bob" (omega arith) refl refl refl

-- Every program rejects.
abbrev rejecting : Host
rejecting = record idle { run = λ program s. thrown TxError.program_error s }

abbrev schema : SscSchema
schema = record { num_uint = 1; num_byte_slice = 0 }

abbrev application : SscAttributes
application = record {
  approval_program = "reject";
  clear_state_program = "reject";
  creator = "bob";
  global_state = [];
  global_state_schema = schema;
  local_state_schema = schema;
}

-- Bob has created the application 3, and the store is the state of the context.
abbrev shared : Runtime
shared = record {
  ctx_state = record {
    accounts = ("alice", alice) ∷ ("bob", record bob { created_apps = (3, application) ∷ [] }) ∷ [];
    asset_defs = [];
    asset_counter = 0;
    global_apps = (3, "bob") ∷ [];
    app_counter = 3;
    heap = [];
  };
  own_store = none;
  round = 2;
  timestamp = 1;
}
