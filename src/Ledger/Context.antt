-- ===== src/Ledger/Context.antt =====
-- packages/runtime/src/ctx.ts: the queries of `Ctx` and its transfers of Algos and assets. The state
-- is the context's copy of the store; accounts are shared by reference there, so every read looks
-- the account up again.
pub mod Totals
pub mod Transfers
pub mod Assets
use Prim.Native.String.{String}
use algorand_builder.Base.{
  ℕ, suc, ◌+◌, Bool, true, false, not, ◌&&◌, ◌||◌, Option, none, some, List, [], ◌∷◌, ◌==◌,
  if◌then◌else◌,
}
use algorand_builder.Base.Int.{ℤ, pos, ◌+ℤ◌, ◌-ℤ◌, ltb_ℤ, eqb_ℤ}
use algorand_builder.Base.Equality.{Eq, same, nat_eq, string_eq}
use algorand_builder.Ledger.Dict.{Dict, lookup, has, insert, erase}
use algorand_builder.Ledger.Data.{
  AssetHolding, AssetDef, AsaDef, AssetModFields, SscSchema, StateValue, AppLocalState,
  SscAttributes, SscDeploymentFlags, AccountStore, State, TxError, Address, KeyValue,
  algorand_account_min_balance, application_base_fee, asset_creation_fee, ssc_key_byte_slice,
  ssc_value_uint, ssc_value_bytes, max_algorand_account_assets, max_algorand_account_apps, app_cost,
}
use algorand_builder.Ledger.Monad.{
  Outcome, Act, done, thrown, pure, throw, throw_if, defined, get, put, ◌>>=◌, ◌>>◌,
}
use algorand_builder.Ledger.Account.{
  or_else, new_account, new_asset, new_app, raise, lower, set_asset, delete_asset,
  set_created_asset, set_created_app, set_local_app, add_asset, close_asset, set_freeze_state,
  destroy_asset, add_app, opt_in_new, opt_in_to_app, opt_in_new_asa, opt_in_to_asa, delete_app,
  close_app,
}

unfoldable pub get_account : Address → Act State AccountStore
get_account address s = defined TxError.account_does_not_exist (lookup address s.accounts) s

-- A change of an account that is there.
unfoldable pub set_account : Address → AccountStore → Act State (Unit {0})
set_account address a s = done tt (record s { accounts = insert address a s.accounts })

unfoldable pub assert_acc_bal_above_min : Address → Act State (Unit {0})
assert_acc_bal_above_min address = do
  account ← get_account address
  throw_if (ltb_ℤ account.amount account.min_balance) TxError.insufficient_account_balance

unfoldable pub get_asset_holding : ℕ → Address → Act State AssetHolding
get_asset_holding asset_index address = do
  account ← get_account address
  defined TxError.asa_not_optin (lookup asset_index account.assets)

unfoldable pub assert_asset_not_frozen : ℕ → Address → Act State (Unit {0})
assert_asset_not_frozen asset_index address = do
  holding ← get_asset_holding asset_index address
  throw_if holding.is_frozen TxError.account_asset_frozen

unfoldable pub get_asset_creator : ℕ → Act State Address
get_asset_creator asset_id s = defined TxError.asset_not_found (lookup asset_id s.asset_defs) s

unfoldable pub get_asset_def : ℕ → Act State AssetDef
get_asset_def asset_id = do
  creator ← get_asset_creator asset_id
  account ← get_account creator
  defined TxError.asset_not_found (lookup asset_id account.created_assets)

-- The address whose account has the application.
unfoldable pub get_app_creator : ℕ → Act State Address
get_app_creator app_id s = defined TxError.app_not_found (lookup app_id s.global_apps) s

unfoldable pub get_app : ℕ → Act State SscAttributes
get_app app_id = do
  creator ← get_app_creator app_id
  account ← get_account creator
  defined TxError.app_not_found (lookup app_id account.created_apps)

-- A method of an account, on the account of an address.
abbrev pub kept : {A : Type 0} → Address → State → Outcome AccountStore A → Outcome State A
kept address s (done x a) = done x (record s { accounts = insert address a s.accounts })
kept address s (thrown e a) = thrown e (record s { accounts = insert address a s.accounts })

unfoldable pub on_account : {A : Type 0} → Address → Act AccountStore A → Act State A
on_account address act = do account ← get_account address; λ s. kept address s (act account)

-- `account.amount += x`
abbrev pub add_amount : ℤ → Act AccountStore (Unit {0})
add_amount x a = done tt (record a { amount = a.amount +ℤ x })

-- `account.amount -= x`
abbrev pub sub_amount : ℤ → Act AccountStore (Unit {0})
sub_amount x a = done tt (record a { amount = a.amount -ℤ x })

-- The transfer of what is left to the account of `close_remainder_to`, whose empty text is falsy.
unfoldable pub close_algo : Address → Address → Act State (Unit {0})
close_algo from close_to = do
  _ ← get_account close_to
  sender ← get_account from
  on_account close_to (add_amount sender.amount)
  on_account from (λ a. done tt (record a { amount = pos 0 }))

unfoldable pub transfer_algo : Address → Address → ℤ → Address → Act State (Unit {0})
transfer_algo from to amount close_remainder_to = do
  _ ← get_account from
  _ ← get_account to
  on_account from (sub_amount amount)
  on_account to (add_amount amount)
  assert_acc_bal_above_min from
  if same close_remainder_to "" then pure tt else close_algo from close_remainder_to

unfoldable pub deduct_fee : Address → ℕ → Act State (Unit {0})
deduct_fee sender fee = do on_account sender (sub_amount (pos fee)); assert_acc_bal_above_min sender

-- `holding.amount += x` and `holding.amount -= x`, of a holding that is there
unfoldable pub add_holding : ℕ → ℤ → Act AccountStore (Unit {0})
add_holding asset_id x = do
  a ← get
  h ← defined TxError.asa_not_optin (lookup asset_id a.assets)
  set_asset asset_id (record h { amount = h.amount +ℤ x })

unfoldable pub sub_holding : ℕ → ℤ → Act AccountStore (Unit {0})
sub_holding asset_id x = do
  a ← get
  h ← defined TxError.asa_not_optin (lookup asset_id a.assets)
  set_asset asset_id (record h { amount = h.amount -ℤ x })

-- The holdings of two accounts after `amount` units went from one to the other.
unfoldable pub move_asset : ℕ → Address → Address → ℤ → Act State (Unit {0})
move_asset asset_id from to amount = do
  from_holding ← get_asset_holding asset_id from
  _ ← get_asset_holding asset_id to
  throw_if (ltb_ℤ (from_holding.amount -ℤ amount) (pos 0)) TxError.insufficient_account_assets
  on_account from (sub_holding asset_id amount)
  on_account to (add_holding asset_id amount)

unfoldable pub opt_into_asa : ℕ → Address → Act State (Unit {0})
opt_into_asa asset_index address = do
  asset_def ← get_asset_def asset_index
  on_account address (
      opt_in_to_asa asset_index (record {
        amount = pos 0;
        asset_id = asset_index;
        creator = asset_def.creator;
        is_frozen = asset_def.default_frozen;
      }))
  assert_acc_bal_above_min address

-- The transfer of what is left of an asset, and the removal of the sender's holding.
unfoldable pub close_holding : ℕ → Address → Address → Act State (Unit {0})
close_holding asset_id from close_to = do
  from_holding ← get_asset_holding asset_id from
  throw_if (same from from_holding.creator) TxError.cannot_close_asset_by_creator
  assert_asset_not_frozen asset_id close_to
  on_account close_to (add_holding asset_id from_holding.amount)
  on_account from (close_asset asset_id)

-- The first test of `transferAsset`: an opt-in, or a transfer between holdings that are not frozen.
unfoldable pub before_transfer : ℕ → Address → Address → ℤ → Act State (Unit {0})
before_transfer asset_id from to amount =
    let thaw = assert_asset_not_frozen asset_id from >> assert_asset_not_frozen asset_id to in
    let moving = if not (eqb_ℤ amount (pos 0)) then thaw else pure tt in
    if eqb_ℤ amount (pos 0) && same from to then opt_into_asa asset_id from else moving

unfoldable pub transfer_asset : ℕ → Address → Address → ℤ → Address → Act State (Unit {0})
transfer_asset asset_id from to amount close_remainder_to = do
  before_transfer asset_id from to amount
  move_asset asset_id from to amount
  if same close_remainder_to "" then pure tt else close_holding asset_id from close_remainder_to

unfoldable pub revoke_asset : Address → ℕ → Address → ℤ → Act State (Unit {0})
revoke_asset recipient asset_id revocation_target amount =
    move_asset asset_id revocation_target recipient amount
