-- ===== src/Ledger/Account/Charged.antt =====
-- The minimum balance of an account against what the account holds.
use Prim.Native.String.{String}
use algorand_builder.Base.{
  ℕ, ◌+◌, ◌*◌, ◌≡◌, Bool, false, none, [], length, arith, Option-cases, inl, inr,
}
use algorand_builder.Base.Int.{pos, ◌+ℤ◌, ◌-ℤ◌}
use algorand_builder.Base.Equality.{nat_eq}
use algorand_builder.Ledger.Dict.{
  lookup, has, sum, sum-insert_fresh, sum-erase, length-insert_fresh, length-insert_old,
  length-erase,
}
use algorand_builder.Ledger.Data.{
  AssetHolding, AsaDef, SscSchema, AppLocalState, SscAttributes, SscDeploymentFlags, AccountStore,
  Address, algorand_account_min_balance, asset_creation_fee, app_cost,
}
use algorand_builder.Ledger.Monad.{Outcome, done, thrown, ◌>>=◌}
use algorand_builder.Ledger.Account.{
  new_app, add_asset, close_asset, set_freeze_state, destroy_asset, add_app, opt_in_new,
  opt_in_to_app, opt_in_new_asa, opt_in_to_asa, delete_app, close_app,
}

abbrev pub schema_cost : SscSchema → ℕ
schema_cost s = app_cost s.num_uint s.num_byte_slice

-- What the account's holdings, opted-in applications and created applications cost, over the base.
unfoldable pub charge : AccountStore → ℕ
charge a =
    algorand_account_min_balance
    + asset_creation_fee * length a.assets
    + sum (λ app. schema_cost app.schema) a.apps_local_state
    + sum (λ app. schema_cost app.global_state_schema) a.created_apps

-- The minimum balance is that charge.
abbrev pub IsCharged : AccountStore → Type 0
IsCharged a = a.min_balance ≡ pos (charge a)

-- The state that an outcome leaves.
abbrev pub after : {S A : Type 0} → Outcome S A → S
after (done _ s) = s
after (thrown _ s) = s

abbrev pub Charges : {A : Type 0} → Outcome AccountStore A → Type 0
Charges o = IsCharged (after o)

local_cost : AppLocalState → ℕ
local_cost app = schema_cost app.schema

pub add_asset-Charges :
    (address : Address) (id : ℕ) (name : String) (def : AsaDef) (a : AccountStore)
    → IsCharged a
    → lookup id a.assets ≡ none
    → Charges (add_asset address id name def a)
unfolding add_asset ◌>>=◌ charge ◌+ℤ◌
add_asset-Charges address id name def a h fresh = ground (
  arith,
  h,
  length-insert_fresh id
      (record { amount = def.total; asset_id = id; creator = address; is_frozen = false }) a.assets
      fresh,
)

pub opt_in_to_asa-Charges :
    (id : ℕ) (holding : AssetHolding) (a : AccountStore)
    → IsCharged a
    → Charges (opt_in_to_asa id holding a)
unfolding opt_in_to_asa opt_in_new_asa has ◌>>=◌ charge ◌+ℤ◌
opt_in_to_asa-Charges id holding a h = elim (Option-cases (lookup id a.assets)) [
  | inl fresh ↦ ground (arith, h, length-insert_fresh id holding a.assets fresh)
  | inr (w, old) ↦ ground (arith, h)
]

pub close_asset-Charges : (id : ℕ) (a : AccountStore) → IsCharged a → Charges (close_asset id a)
unfolding close_asset has ◌>>=◌ charge ◌-ℤ◌
close_asset-Charges id a h = elim (Option-cases (lookup id a.assets)) [
  | inl fresh ↦ ground (arith, h)
  | inr (w, old) ↦ ground (arith, h, length-erase id w a.assets old)
]

pub set_freeze_state-Charges :
    (id : ℕ) (state : Bool) (a : AccountStore) → IsCharged a → Charges (set_freeze_state id state a)
unfolding set_freeze_state ◌>>=◌ charge
set_freeze_state-Charges id state a h = elim (Option-cases (lookup id a.assets)) [
  | inl fresh ↦ ground (arith, h)
  | inr (w, old) ↦
      ground (arith, h, length-insert_old id (record w { is_frozen = state }) w a.assets old)
]

pub destroy_asset-Charges : (id : ℕ) (a : AccountStore) → IsCharged a → Charges (destroy_asset id a)
unfolding destroy_asset ◌>>=◌ charge ◌-ℤ◌
destroy_asset-Charges id a h = elim (Option-cases (lookup id a.assets)) [
  | inl fresh ↦ ground (arith, h)
  | inr (w, old) ↦ ground (arith, h, length-erase id w a.assets old)
]

pub add_app-Charges :
    (id : ℕ) (params : SscDeploymentFlags) (approval clear : String) (a : AccountStore)
    → IsCharged a
    → lookup id a.created_apps ≡ none
    → Charges (add_app id params approval clear a)
unfolding add_app new_app ◌>>=◌ charge ◌+ℤ◌
add_app-Charges id params approval clear a h fresh = ground (
  arith,
  h,
  sum-insert_fresh (λ app. schema_cost app.global_state_schema) id (new_app params approval clear)
      a.created_apps fresh,
)

pub opt_in_to_app-Charges :
    (id : ℕ) (app : SscAttributes) (a : AccountStore)
    → IsCharged a
    → Charges (opt_in_to_app id app a)
unfolding opt_in_to_app opt_in_new has ◌>>=◌ charge ◌+ℤ◌
opt_in_to_app-Charges id app a h = elim (Option-cases (lookup id a.apps_local_state)) [
  | inl fresh ↦ ground (
    arith,
    h,
    sum-insert_fresh (λ app. schema_cost app.schema) id
        (record { id = id; key_value = []; schema = app.local_state_schema }) a.apps_local_state
        fresh,
  )
  | inr (w, old) ↦ ground (arith, h)
]

pub delete_app-Charges : (id : ℕ) (a : AccountStore) → IsCharged a → Charges (delete_app id a)
unfolding delete_app ◌>>=◌ charge ◌-ℤ◌
delete_app-Charges id a h = elim (Option-cases (lookup id a.created_apps)) [
  | inl fresh ↦ ground (arith, h)
  | inr (w, old) ↦
      ground
        (arith, h, sum-erase (λ app. schema_cost app.global_state_schema) id w a.created_apps old)
]

pub close_app-Charges : (id : ℕ) (a : AccountStore) → IsCharged a → Charges (close_app id a)
unfolding close_app ◌>>=◌ charge ◌-ℤ◌
close_app-Charges id a h = elim (Option-cases (lookup id a.apps_local_state)) [
  | inl fresh ↦ ground (arith, h)
  | inr (w, old) ↦
      ground (arith, h, sum-erase (λ app. schema_cost app.schema) id w a.apps_local_state old)
]
