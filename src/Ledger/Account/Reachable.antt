-- ===== src/Ledger/Account/Reachable.antt =====
-- The accounts that the methods of `AccountStore` produce.
use Prim.Native.String.{String}
use algorand_builder.Base.{ℕ, ◌≡◌, refl, Bool, none}
use algorand_builder.Base.Int.{ℤ}
use algorand_builder.Base.Equality.{nat_eq}
use algorand_builder.Ledger.Dict.{lookup, sum}
use algorand_builder.Ledger.Data.{
  AssetHolding, AsaDef, AssetModFields, SscAttributes, SscDeploymentFlags, StateValue, AccountStore,
  Address,
}
use algorand_builder.Ledger.Account.{
  new_account, add_asset, close_asset, set_freeze_state, destroy_asset, add_app, opt_in_to_app,
  opt_in_to_asa, delete_app, close_app,
}
use algorand_builder.Ledger.AppState.{set_local_state, set_global_state}
use algorand_builder.Ledger.Programs.{modify_account_asset}
use algorand_builder.Ledger.Account.Charged.{
  charge, IsCharged, after, add_asset-Charges, opt_in_to_asa-Charges, close_asset-Charges,
  set_freeze_state-Charges, destroy_asset-Charges, add_app-Charges, opt_in_to_app-Charges,
  delete_app-Charges, close_app-Charges,
}
use algorand_builder.Ledger.Account.Writes.{
  set_local_state-Charges, set_global_state-Charges, modify_account_asset-Charges,
}

-- A new account, or what a method leaves of a reachable one, returning or throwing. A new asset or
-- application has an id that the account does not know.
pub data Reachable : AccountStore → Type 0 where
  opened : (balance : ℤ) → Reachable (new_account balance)
  asset_added :
      (a : AccountStore) (address : Address) (id : ℕ) (name : String) (def : AsaDef)
      → Reachable a
      → lookup id a.assets ≡ none
      → Reachable (after (add_asset address id name def a))
  asset_opted_in :
      (a : AccountStore) (id : ℕ) (holding : AssetHolding)
      → Reachable a
      → Reachable (after (opt_in_to_asa id holding a))
  asset_closed : (a : AccountStore) (id : ℕ) → Reachable a → Reachable (after (close_asset id a))
  asset_frozen :
      (a : AccountStore) (id : ℕ) (state : Bool)
      → Reachable a
      → Reachable (after (set_freeze_state id state a))
  asset_modified :
      (a : AccountStore) (id : ℕ) (fields : AssetModFields)
      → Reachable a
      → Reachable (after (modify_account_asset id fields a))
  asset_destroyed :
      (a : AccountStore) (id : ℕ) → Reachable a → Reachable (after (destroy_asset id a))
  app_added :
      (a : AccountStore) (id : ℕ) (params : SscDeploymentFlags) (approval clear : String)
      → Reachable a
      → lookup id a.created_apps ≡ none
      → Reachable (after (add_app id params approval clear a))
  app_opted_in :
      (a : AccountStore) (id : ℕ) (app : SscAttributes)
      → Reachable a
      → Reachable (after (opt_in_to_app id app a))
  app_deleted : (a : AccountStore) (id : ℕ) → Reachable a → Reachable (after (delete_app id a))
  app_closed : (a : AccountStore) (id : ℕ) → Reachable a → Reachable (after (close_app id a))
  local_written :
      (a : AccountStore) (id : ℕ) (key : String) (value : StateValue)
      → Reachable a
      → Reachable (after (set_local_state id key value a))
  global_written :
      (a : AccountStore) (id : ℕ) (key : String) (value : StateValue)
      → Reachable a
      → Reachable (after (set_global_state id key value a))

new_account-IsCharged : (balance : ℤ) → IsCharged (new_account balance)
unfolding new_account charge sum
new_account-IsCharged balance = refl

-- In every account that the constructor and the methods of AccountStore produce, returning or
-- throwing, the minimum balance is the base,
-- the fee of each asset holding, and the cost by schema of each application created or opted in
-- to; new assets and applications have fresh ids.
pub Reachable-IsCharged : (a : AccountStore) → Reachable a → IsCharged a
Reachable-IsCharged _ (Reachable.opened balance) = new_account-IsCharged balance
Reachable-IsCharged _ (Reachable.asset_added a address id name def r fresh) =
    add_asset-Charges address id name def a (Reachable-IsCharged a r) fresh
Reachable-IsCharged _ (Reachable.asset_opted_in a id holding r) =
    opt_in_to_asa-Charges id holding a (Reachable-IsCharged a r)
Reachable-IsCharged _ (Reachable.asset_closed a id r) =
    close_asset-Charges id a (Reachable-IsCharged a r)
Reachable-IsCharged _ (Reachable.asset_frozen a id state r) =
    set_freeze_state-Charges id state a (Reachable-IsCharged a r)
Reachable-IsCharged _ (Reachable.asset_destroyed a id r) =
    destroy_asset-Charges id a (Reachable-IsCharged a r)
Reachable-IsCharged _ (Reachable.app_added a id params approval clear r fresh) =
    add_app-Charges id params approval clear a (Reachable-IsCharged a r) fresh
Reachable-IsCharged _ (Reachable.app_opted_in a id app r) =
    opt_in_to_app-Charges id app a (Reachable-IsCharged a r)
Reachable-IsCharged _ (Reachable.app_deleted a id r) =
    delete_app-Charges id a (Reachable-IsCharged a r)
Reachable-IsCharged _ (Reachable.app_closed a id r) =
    close_app-Charges id a (Reachable-IsCharged a r)
Reachable-IsCharged _ (Reachable.asset_modified a id fields r) =
    modify_account_asset-Charges id fields a (Reachable-IsCharged a r)
Reachable-IsCharged _ (Reachable.local_written a id key value r) =
    set_local_state-Charges id key value a (Reachable-IsCharged a r)
Reachable-IsCharged _ (Reachable.global_written a id key value r) =
    set_global_state-Charges id key value a (Reachable-IsCharged a r)
