-- ===== src/Ledger/Account.antt =====
-- packages/runtime/src/account.ts: the methods of `AccountStore`. `minBalance` and the amounts are
-- integers; a warning on the console is no step of the model.
use Prim.Native.String.{String}
pub mod Charged
pub mod Writes
pub mod Reachable
use algorand_builder.Base.{
  ℕ, suc, ◌+◌, Bool, true, false, not, ◌&&◌, ◌||◌, Option, none, some, List, [], ◌∷◌, length, ltb,
  ◌==◌, if◌then◌else◌,
}
use algorand_builder.Base.Int.{ℤ, pos, ◌+ℤ◌, ◌-ℤ◌, eqb_ℤ}
use algorand_builder.Base.Equality.{Eq, same, nat_eq, string_eq}
use algorand_builder.Ledger.Dict.{Dict, lookup, has, insert, erase}
use algorand_builder.Ledger.Data.{
  AssetHolding, AssetDef, AsaDef, AssetModFields, SscSchema, StateValue, AppLocalState,
  SscAttributes, SscDeploymentFlags, AccountStore, State, TxError, Address, KeyValue,
  algorand_account_min_balance, application_base_fee, asset_creation_fee, ssc_key_byte_slice,
  ssc_value_uint, ssc_value_bytes, max_algorand_account_assets, max_algorand_account_apps, app_cost,
}
use algorand_builder.Ledger.Monad.{
  Outcome, Act, done, thrown, pure, throw, throw_if, defined, get, put, ◌>>=◌, ◌>>◌,
}

-- `value ?? fallback`
abbrev pub or_else : {A : Type 0} → Option A → A → A
or_else none fallback = fallback
or_else (some a) _ = a

-- `new AccountStore(balance)`
unfoldable pub new_account : ℤ → AccountStore
new_account balance = record {
  min_balance = pos algorand_account_min_balance;
  assets = [];
  amount = balance;
  apps_local_state = [];
  created_apps = [];
  created_assets = [];
}

-- `new Asset(assetId, def, creator, assetName).definitions`
unfoldable pub new_asset : AsaDef → Address → String → AssetDef
new_asset def creator asset_name = record {
  creator = creator;
  total = def.total;
  decimals = def.decimals;
  default_frozen = or_else def.default_frozen false;
  unit_name = def.unit_name;
  name = asset_name;
  url = or_else def.url "";
  metadata_hash = or_else def.metadata_hash "";
  manager = or_else def.manager "";
  reserve = or_else def.reserve "";
  freeze = or_else def.freeze "";
  clawback = or_else def.clawback "";
}

-- `new App(appID, params, approvalProgram, clearProgram).attributes`
unfoldable pub new_app : SscDeploymentFlags → String → String → SscAttributes
new_app params approval_program clear_program = record {
  approval_program = approval_program;
  clear_state_program = clear_program;
  creator = params.sender;
  global_state = [];
  global_state_schema = record {
    num_uint = params.global_ints;
    num_byte_slice = params.global_bytes;
  };
  local_state_schema = record { num_uint = params.local_ints; num_byte_slice = params.local_bytes };
}

-- `this.minBalance += fee` and `this.minBalance -= fee`
abbrev pub raise : ℕ → Act AccountStore (Unit {0})
raise fee a = done tt (record a { min_balance = a.min_balance +ℤ pos fee })

abbrev pub lower : ℕ → Act AccountStore (Unit {0})
lower fee a = done tt (record a { min_balance = a.min_balance -ℤ pos fee })

abbrev pub set_asset : ℕ → AssetHolding → Act AccountStore (Unit {0})
set_asset id h a = done tt (record a { assets = insert id h a.assets })

abbrev pub delete_asset : ℕ → Act AccountStore (Unit {0})
delete_asset id a = done tt (record a { assets = erase id a.assets })

abbrev pub set_created_asset : ℕ → AssetDef → Act AccountStore (Unit {0})
set_created_asset id d a = done tt (record a { created_assets = insert id d a.created_assets })

abbrev pub set_created_app : ℕ → SscAttributes → Act AccountStore (Unit {0})
set_created_app id app a = done tt (record a { created_apps = insert id app a.created_apps })

abbrev pub set_local_app : ℕ → AppLocalState → Act AccountStore (Unit {0})
set_local_app id app a = done tt (record a { apps_local_state = insert id app a.apps_local_state })

unfoldable pub add_asset : Address → ℕ → String → AsaDef → Act AccountStore AssetDef
add_asset address asset_id name asa_def = do
  a ← get
  throw_if (length a.created_assets == max_algorand_account_assets) TxError.max_limit_assets
  raise asset_creation_fee
  let asset = new_asset asa_def address name
  set_created_asset asset_id asset
  set_asset asset_id
      (record { amount = asa_def.total; asset_id = asset_id; creator = address; is_frozen = false })
  pure asset

unfoldable pub close_asset : ℕ → Act AccountStore (Unit {0})
close_asset asset_id = do
  a ← get
  if has asset_id a.assets then lower asset_creation_fee >> delete_asset asset_id else pure tt

unfoldable pub set_freeze_state : ℕ → Bool → Act AccountStore (Unit {0})
set_freeze_state asset_id state = do
  a ← get
  holding ← defined TxError.asa_not_optin (lookup asset_id a.assets)
  set_asset asset_id (record holding { is_frozen = state })

unfoldable pub destroy_asset : ℕ → Act AccountStore (Unit {0})
destroy_asset asset_id = do
  a ← get
  holding ← defined TxError.asset_not_found (lookup asset_id a.assets)
  asset ← defined TxError.asset_not_found (lookup asset_id a.created_assets)
  throw_if (not (eqb_ℤ holding.amount asset.total)) TxError.asset_total_error
  lower asset_creation_fee
  b ← get
  put (record b { created_assets = erase asset_id b.created_assets })
  delete_asset asset_id

unfoldable pub add_app : ℕ → SscDeploymentFlags → String → String → Act AccountStore (Unit {0})
add_app app_id params approval_program clear_program = do
  a ← get
  throw_if (length a.created_apps == max_algorand_account_apps) TxError.max_limit_apps
  raise (app_cost params.global_ints params.global_bytes)
  set_created_app app_id (new_app params approval_program clear_program)

-- The branch of `optInToApp` for an account that has not opted in.
unfoldable pub opt_in_new : ℕ → SscAttributes → Act AccountStore (Unit {0})
opt_in_new app_id app = do
  a ← get
  throw_if (length a.apps_local_state == 10) TxError.maximum_opt_in
  raise (app_cost app.local_state_schema.num_uint app.local_state_schema.num_byte_slice)
  set_local_app app_id (record { id = app_id; key_value = []; schema = app.local_state_schema })

unfoldable pub opt_in_to_app : ℕ → SscAttributes → Act AccountStore (Unit {0})
opt_in_to_app app_id app = do
  a ← get
  if has app_id a.apps_local_state then pure tt else opt_in_new app_id app

-- The branch of `optInToASA` for an account that has no holding.
unfoldable pub opt_in_new_asa : ℕ → AssetHolding → Act AccountStore (Unit {0})
opt_in_new_asa asset_id holding = do
  a ← get
  throw_if (length a.created_assets + length a.assets == max_algorand_account_assets)
      TxError.max_limit_assets
  raise asset_creation_fee
  set_asset asset_id holding

unfoldable pub opt_in_to_asa : ℕ → AssetHolding → Act AccountStore (Unit {0})
opt_in_to_asa asset_id holding = do
  a ← get
  if has asset_id a.assets then pure tt else opt_in_new_asa asset_id holding

unfoldable pub delete_app : ℕ → Act AccountStore (Unit {0})
delete_app app_id = do
  a ← get
  app ← defined TxError.app_not_found (lookup app_id a.created_apps)
  lower (app_cost app.global_state_schema.num_uint app.global_state_schema.num_byte_slice)
  b ← get
  put (record b { created_apps = erase app_id b.created_apps })

unfoldable pub close_app : ℕ → Act AccountStore (Unit {0})
close_app app_id = do
  a ← get
  app ← defined TxError.app_not_found (lookup app_id a.apps_local_state)
  lower (app_cost app.schema.num_uint app.schema.num_byte_slice)
  b ← get
  put (record b { apps_local_state = erase app_id b.apps_local_state })
