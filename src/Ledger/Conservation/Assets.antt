-- ===== src/Ledger/Conservation/Assets.antt =====
-- packages/runtime/src/ctx.ts: the queries, and the operations on assets, keep the Algos of all
-- accounts together.
use algorand_builder.Base.{ℕ}
use algorand_builder.Base.Int.{ℤ}
use algorand_builder.Base.Equality.{string_eq, nat_eq}
use algorand_builder.Ledger.Dict.{lookup}
use algorand_builder.Ledger.Data.{TxError, Address}
use algorand_builder.Ledger.Context.{
  assert_asset_not_frozen, get_asset_creator, get_asset_def, get_app_creator, get_app,
  assert_acc_bal_above_min, move_asset, opt_into_asa, close_holding, before_transfer,
  transfer_asset,
}
use algorand_builder.Ledger.Conservation.{
  Keeps, Keeps-Shifts, Keeps-Reads, Keeps-bind, Keeps-if, Keeps-throw_if, Keeps-pure, Keeps-defined,
  Keeps-get_account, Keeps-get_asset_holding,
}
use algorand_builder.Ledger.Conservation.Methods.{Keeps-on_account, amounts}

pub ruleset keeps_rules = (
  amounts, Keeps-on_account, Keeps-bind, Keeps-if, Keeps-throw_if, Keeps-pure, Keeps-defined,
  Keeps-get_account, Keeps-get_asset_holding,
)

pub get_asset_creator-Keeps : (id : ℕ) → Keeps (get_asset_creator id)
unfolding get_asset_creator
get_asset_creator-Keeps id = record {
  at = λ s a s' e. (Keeps-defined TxError.asset_not_found (lookup id s.asset_defs)).at s a s' e;
}

pub get_app_creator-Keeps : (id : ℕ) → Keeps (get_app_creator id)
unfolding get_app_creator
get_app_creator-Keeps id = record {
  at = λ s a s' e. (Keeps-defined TxError.app_not_found (lookup id s.global_apps)).at s a s' e;
}

pub get_asset_def-Keeps : (id : ℕ) → Keeps (get_asset_def id)
unfolding get_asset_def
get_asset_def-Keeps id = search (keeps_rules, get_asset_creator-Keeps) depth 8

pub get_app-Keeps : (id : ℕ) → Keeps (get_app id)
unfolding get_app
get_app-Keeps id = search (keeps_rules, get_app_creator-Keeps) depth 8

pub assert_acc_bal_above_min-Keeps : (address : Address) → Keeps (assert_acc_bal_above_min address)
unfolding assert_acc_bal_above_min
assert_acc_bal_above_min-Keeps address = search keeps_rules depth 8

pub assert_asset_not_frozen-Keeps :
    (id : ℕ) (address : Address) → Keeps (assert_asset_not_frozen id address)
unfolding assert_asset_not_frozen
assert_asset_not_frozen-Keeps id address = search keeps_rules depth 8

pub ruleset queries = (
  keeps_rules, get_asset_creator-Keeps, get_app_creator-Keeps, get_asset_def-Keeps, get_app-Keeps,
  assert_acc_bal_above_min-Keeps, assert_asset_not_frozen-Keeps,
)

pub opt_into_asa-Keeps : (id : ℕ) (address : Address) → Keeps (opt_into_asa id address)
unfolding opt_into_asa
opt_into_asa-Keeps id address = search queries depth 12

pub move_asset-Keeps :
    (id : ℕ) (from to : Address) (amount : ℤ) → Keeps (move_asset id from to amount)
unfolding move_asset
move_asset-Keeps id from to amount = search queries depth 12

pub close_holding-Keeps : (id : ℕ) (from close : Address) → Keeps (close_holding id from close)
unfolding close_holding
close_holding-Keeps id from close = search queries depth 12

pub before_transfer-Keeps :
    (id : ℕ) (from to : Address) (amount : ℤ) → Keeps (before_transfer id from to amount)
unfolding before_transfer
before_transfer-Keeps id from to amount = search (queries, opt_into_asa-Keeps) depth 12

pub transfer_asset-Keeps :
    (id : ℕ) (from to : Address) (amount : ℤ) (close : Address)
    → Keeps (transfer_asset id from to amount close)
unfolding transfer_asset
transfer_asset-Keeps id from to amount close =
    search (queries, before_transfer-Keeps, move_asset-Keeps, close_holding-Keeps) depth 12
