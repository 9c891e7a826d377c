-- ===== src/Ledger/Tests.antt =====
-- The theorems on the ledger, at two accounts and an asset.
use algorand_builder.Base.{
  ◌↔◌, some, suc, ◌+◌, ◌≤◌, ◌≡◌, refl, List, [], ◌∷◌, some, false, length, All,
}
use algorand_builder.Base.Int.{ℤ, pos, ◌+ℤ◌, ◌-ℤ◌}
use algorand_builder.Base.Equality.{nat_eq, string_eq}
use algorand_builder.Ledger.Dict.{lookup, insert, sum}
use algorand_builder.Ledger.Data.{
  AssetHolding, StateValue, AppLocalState, AccountStore, State, TxError,
}
use algorand_builder.Ledger.Monad.{done, ◌>>=◌}
use algorand_builder.Ledger.Account.{new_account, close_asset, opt_in_to_asa}
use algorand_builder.Ledger.Account.Charged.{charge, IsCharged, after}
use algorand_builder.Ledger.Account.Reachable.{Reachable, Reachable-IsCharged}
use algorand_builder.Ledger.AppState.{
  set_local_state, get_local_state, Fits, set_local_state-lem, assert_valid_schema, num_uint,
  byte_slices,
}
use algorand_builder.Ledger.Context.{
  transfer_algo, close_algo, deduct_fee, move_asset, get_account, on_account,
  assert_acc_bal_above_min, get_asset_holding, add_holding, sub_holding,
}
use algorand_builder.Ledger.Context.Transfers.{
  total_algos, transfer_algo-keeps_total, close_algo-to_self,
}
use algorand_builder.Ledger.Context.Assets.{total_units, move_asset-keeps_units}
use algorand_builder.Ledger.Programs.{Host, delete_holdings}
use algorand_builder.Ledger.Overcharge.{delete_holdings-overcharges}
use algorand_builder.Ledger.Tx.{TxKind, TxParam}
use algorand_builder.Ledger.Transactions.{
  process_transactions, process_one, dispatch, outside_rounds,
}
use algorand_builder.Run.Runtime.{Runtime, store_of, execute_tx}
use algorand_builder.Ledger.Conservation.Dispatch.{KeepsAlgos}
use algorand_builder.Ledger.Group.{
  fees, InRounds, execute_tx-conserves, execute_tx-atomic, execute_tx-InRounds,
}

-- Every program is accepted and changes nothing.
abbrev idle : Host
idle = record {
  run = λ program s. done tt s;
  validate_lsig_and_run = λ from s. done tt s;
  loaded_assets_defs = [];
}

idle-KeepsAlgos : KeepsAlgos idle
idle-KeepsAlgos = record { run_keeps = λ program s. refl; lsig_keeps = λ from s. refl }

abbrev holding : ℤ → AssetHolding
holding z = record { amount = z; asset_id = 7; creator = "alice"; is_frozen = false }

-- An account that holds units of the asset 7.
abbrev holder : ℤ → AccountStore
holder z = record {
  min_balance = pos 200000;
  assets = (7, holding z) ∷ [];
  amount = pos 1000000;
  apps_local_state =
      (3, record { id = 3; key_value = []; schema = record { num_uint = 1; num_byte_slice = 0 } })
      ∷ [];
  created_apps = [];
  created_assets = [];
}

abbrev plain : ℤ → AccountStore
plain z = record (holder z) { apps_local_state = [] }

abbrev ledger : State
ledger = record {
  accounts = ("alice", holder (pos 10)) ∷ ("bob", plain (pos 0)) ∷ [];
  asset_defs = (7, "alice") ∷ [];
  asset_counter = 7;
  global_apps = [];
  app_counter = 0;
  heap = [];
}

-- What a transfer of 1000 microalgos that closes alice's account to bob's leaves.
abbrev transferred : State
unfolding transfer_algo close_algo on_account get_account assert_acc_bal_above_min ◌>>=◌ lookup
    insert string_eq ◌+ℤ◌ ◌-ℤ◌
transferred = after (transfer_algo "alice" "bob" (pos 1000) "bob" ledger)

transfer_algo-keeps_total_example : total_algos transferred ≡ total_algos ledger
unfolding transfer_algo close_algo on_account get_account assert_acc_bal_above_min ◌>>=◌ lookup
    insert string_eq ◌+ℤ◌ ◌-ℤ◌ transferred
transfer_algo-keeps_total_example =
    transfer_algo-keeps_total "alice" "bob" (pos 1000) "bob" ledger transferred refl refl

close_algo-to_self_example :
    (s' : State) × (close_algo "bob" "bob" ledger ≡ done tt s')
    × (total_algos s' +ℤ pos 1000000 ≡ total_algos ledger)
unfolding lookup string_eq
close_algo-to_self_example = close_algo-to_self "bob" (plain (pos 0)) ledger refl

abbrev charged : State
unfolding deduct_fee on_account get_account assert_acc_bal_above_min ◌>>=◌ lookup insert string_eq
    ◌-ℤ◌
charged = after (deduct_fee "alice" 1000 ledger)

abbrev moved : State
unfolding move_asset get_asset_holding add_holding sub_holding on_account get_account ◌>>=◌ lookup
    insert string_eq nat_eq ◌+ℤ◌ ◌-ℤ◌
moved = after (move_asset 7 "alice" "bob" (pos 4) ledger)

move_asset-keeps_units_example : total_units 7 moved ≡ total_units 7 ledger
unfolding move_asset get_asset_holding add_holding sub_holding on_account get_account ◌>>=◌ lookup
    insert string_eq nat_eq ◌+ℤ◌ ◌-ℤ◌ moved
move_asset-keeps_units_example = move_asset-keeps_units 7 "alice" "bob" (pos 4) ledger moved refl

delete_holdings-overcharges_example :
    (b : AccountStore) × (lookup "bob" (delete_holdings 7 ledger.accounts) ≡ some b)
    × (suc (length b.assets) ≡ 1)
    × (b.min_balance ≡ pos (charge b + 100000))
unfolding lookup string_eq nat_eq charge sum
delete_holdings-overcharges_example =
    delete_holdings-overcharges 7 "bob" (plain (pos 0)) (holding (pos 0)) ledger.accounts refl refl
      refl

abbrev stored : AccountStore
unfolding set_local_state assert_valid_schema num_uint byte_slices ◌>>=◌ lookup insert string_eq
    nat_eq
stored = after (set_local_state 3 "votes" (StateValue.number (pos 1)) (holder (pos 10)))

set_local_state-lem_example :
    (app : AppLocalState) × (lookup 3 stored.apps_local_state ≡ some app)
    × Fits app.key_value app.schema
    × (get_local_state 3 "votes" stored ≡ some (StateValue.number (pos 1)))
unfolding set_local_state assert_valid_schema num_uint byte_slices ◌>>=◌ lookup insert string_eq
    nat_eq stored
set_local_state-lem_example =
    set_local_state-lem 3 "votes" (StateValue.number (pos 1)) (holder (pos 10)) stored refl

-- A new account that opts in to an asset and closes it.
Reachable-IsCharged_example :
    IsCharged
      (after (close_asset 7 (after (opt_in_to_asa 7 (holding (pos 0)) (new_account (pos 500000))))))
Reachable-IsCharged_example =
    Reachable-IsCharged
      (after (close_asset 7 (after (opt_in_to_asa 7 (holding (pos 0)) (new_account (pos 500000))))))
      (Reachable.asset_closed (after (opt_in_to_asa 7 (holding (pos 0)) (new_account (pos 500000))))
        7
        (Reachable.asset_opted_in (new_account (pos 500000)) 7 (holding (pos 0))
          (Reachable.opened (pos 500000))))

-- Alice pays bob, whose account then is closed to hers.
abbrev group : List TxParam
group =
    record {
      from = "alice";
      close_remainder_to = "";
      by_logic_signature = false;
      kind = TxKind.transfer_algo "bob" (pos 5000);
      fee = 1000;
      first_valid = 1;
      last_valid = 9;
    }
    ∷ record {
      from = "bob";
      close_remainder_to = "alice";
      by_logic_signature = false;
      kind = TxKind.transfer_algo "alice" (pos 1);
      fee = 2000;
      first_valid = 1;
      last_valid = 9;
    }
    ∷ []

abbrev runtime : Runtime
runtime = record { ctx_state = ledger; own_store = some ledger; round = 5; timestamp = 1 }

abbrev executed : Runtime
unfolding execute_tx process_transactions process_one dispatch outside_rounds deduct_fee
    transfer_algo close_algo on_account get_account assert_acc_bal_above_min ◌>>=◌ lookup insert
    string_eq ◌+ℤ◌ ◌-ℤ◌ store_of
executed = after (execute_tx (λ _. idle) group runtime)

execute_tx-conserves_example :
    total_algos (store_of executed) +ℤ pos (fees group) ≡ total_algos ledger
unfolding execute_tx process_transactions process_one dispatch outside_rounds deduct_fee
    transfer_algo close_algo on_account get_account assert_acc_bal_above_min ◌>>=◌ lookup insert
    string_eq ◌+ℤ◌ ◌-ℤ◌ executed store_of
execute_tx-conserves_example =
    execute_tx-conserves (λ _. idle) group runtime executed (λ _. idle-KeepsAlgos)
      (refl, (refl, tt)) refl

execute_tx-InRounds_example : (length group ≤ 16) × All (InRounds 5) group
unfolding execute_tx process_transactions process_one dispatch outside_rounds deduct_fee
    transfer_algo close_algo on_account get_account assert_acc_bal_above_min ◌>>=◌ lookup insert
    string_eq ◌+ℤ◌ ◌-ℤ◌ executed store_of
execute_tx-InRounds_example = execute_tx-InRounds (λ _. idle) group runtime executed refl

-- Alice pays bob more than she has, after a fee that she can pay.
abbrev overdrawn : List TxParam
overdrawn =
    record {
      from = "alice";
      close_remainder_to = "";
      by_logic_signature = false;
      kind = TxKind.transfer_algo "bob" (pos 5000000);
      fee = 1000;
      first_valid = 1;
      last_valid = 9;
    }
    ∷ []

abbrev failed : Runtime
unfolding execute_tx process_transactions process_one dispatch outside_rounds deduct_fee
    transfer_algo close_algo on_account get_account assert_acc_bal_above_min ◌>>=◌ lookup insert
    string_eq ◌+ℤ◌ ◌-ℤ◌ store_of
failed = after (execute_tx (λ _. idle) overdrawn runtime)

execute_tx-atomic_example :
    (store_of failed ≡ ledger)
    × (failed.round ≡ 5)
    × (failed.timestamp ≡ 1)
    × ((execute_tx (λ _. idle) group failed ≡ done tt executed)
        ↔ (execute_tx (λ _. idle) group runtime ≡ done tt executed))
unfolding execute_tx process_transactions process_one dispatch outside_rounds deduct_fee
    transfer_algo close_algo on_account get_account assert_acc_bal_above_min ◌>>=◌ lookup insert
    string_eq ◌+ℤ◌ ◌-ℤ◌ failed executed store_of
execute_tx-atomic_example =
    execute_tx-atomic (λ _. idle) (λ _. idle) overdrawn group runtime failed executed
      TxError.insufficient_account_balance refl
