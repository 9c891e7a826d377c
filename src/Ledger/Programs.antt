-- ===== src/Ledger/Programs.antt =====
-- packages/runtime/src/ctx.ts: the operations of `Ctx` that create, change and remove assets and
-- applications. `Host` is what the context asks of the runtime: the run of a program, which may
-- change the state and throws when the program is rejected, the check of a logic signature, and the
-- loaded definitions of assets. Names, transaction ids and timestamps are left out of the state.
use Prim.Native.String.{String}
use algorand_builder.Base.{
  ℕ, suc, Bool, false, not, ◌&&◌, Option, none, some, [], ◌∷◌, if◌then◌else◌,
}
use algorand_builder.Base.Equality.{same, nat_eq, string_eq}
use algorand_builder.Ledger.Dict.{Dict, lookup, insert, erase}
use algorand_builder.Ledger.Data.{
  AssetDef, AsaDef, AssetModFields, SscDeploymentFlags, AccountStore, State, TxError, Address,
}
use algorand_builder.Ledger.Monad.{
  Outcome, Act, done, thrown, pure, throw_if, defined, get, ◌>>=◌, ◌>>◌,
}
use algorand_builder.Ledger.Account.{
  set_created_app, add_asset, set_freeze_state, destroy_asset, add_app, opt_in_to_app, delete_app,
  close_app,
}
use algorand_builder.Ledger.Context.{
  get_account, assert_acc_bal_above_min, get_asset_creator, get_app, get_app_creator, on_account,
}

pub record Host : Type 0 where
  -- `runtime.run(program, ExecutionMode.APPLICATION)`
  pub run : String → Act State (Unit {0})
  -- `runtime.validateLsigAndRun`, for the sender of the transaction
  pub validate_lsig_and_run : Address → Act State (Unit {0})
  pub loaded_assets_defs : Dict String AsaDef

-- `isDefined(value)`
abbrev pub is_defined : Option Address → Bool
is_defined none = false
is_defined (some value) = not (same value "")

-- One round of the loop of `checkAndSetASAFields`: the field after it, or an error.
unfoldable pub check_field : Option Address → Address → Option Address
check_field none asa_field = some asa_field
check_field (some custom) asa_field =
    let set = if is_defined (some asa_field) then some custom else some asa_field in
    if is_defined (some custom) && not (is_defined (some asa_field)) then none else set

unfoldable pub checked : (AssetDef → Address → AssetDef) → Option Address → Act AssetDef (Unit {0})
checked store none def = thrown TxError.blank_address_error def
checked store (some value) def = done tt (store def value)

-- `checkAndSetASAFields(fields, asset)` of packages/runtime/src/lib/asa.ts; fields set before an
-- error stay set.
unfoldable pub check_and_set_asa_fields : AssetModFields → Act AssetDef (Unit {0})
check_and_set_asa_fields fields = do
  a ← get
  checked (λ d v. record d { manager = v }) (check_field fields.manager a.manager)
  b ← get
  checked (λ d v. record d { reserve = v }) (check_field fields.reserve b.reserve)
  c ← get
  checked (λ d v. record d { freeze = v }) (check_field fields.freeze c.freeze)
  d ← get
  checked (λ d v. record d { clawback = v }) (check_field fields.clawback d.clawback)

-- A change of a created asset, on its account.
abbrev pub kept_def :
    ℕ → AccountStore → Outcome AssetDef (Unit {0}) → Outcome AccountStore (Unit {0})
kept_def id a (done u d) = done u (record a { created_assets = insert id d a.created_assets })
kept_def id a (thrown e d) = thrown e (record a { created_assets = insert id d a.created_assets })

-- `AccountStore.modifyAsset`
unfoldable pub modify_account_asset : ℕ → AssetModFields → Act AccountStore (Unit {0})
modify_account_asset asset_id fields = do
  a ← get
  asset ← defined TxError.asset_not_found (lookup asset_id a.created_assets)
  λ b. kept_def asset_id b (check_and_set_asa_fields fields asset)

unfoldable pub modify_asset : ℕ → AssetModFields → Act State (Unit {0})
modify_asset asset_id fields = do
  creator ← get_asset_creator asset_id
  on_account creator (modify_account_asset asset_id fields)

unfoldable pub freeze_asset : ℕ → Address → Bool → Act State (Unit {0})
freeze_asset asset_id freeze_target freeze_state =
    on_account freeze_target (set_freeze_state asset_id freeze_state)

-- `accounts.forEach(value => value.assets.delete(assetId))`
unfoldable pub delete_holdings : ℕ → Dict Address AccountStore → Dict Address AccountStore
delete_holdings asset_id [] = []
delete_holdings asset_id ((address, a) ∷ accounts) =
    (address, record a { assets = erase asset_id a.assets }) ∷ delete_holdings asset_id accounts

unfoldable pub destroy_everywhere : ℕ → Act State (Unit {0})
destroy_everywhere asset_id s =
    done tt (record s { accounts = delete_holdings asset_id s.accounts })

unfoldable pub destroy_ctx_asset : ℕ → Act State (Unit {0})
destroy_ctx_asset asset_id = do
  creator ← get_asset_creator asset_id
  on_account creator (destroy_asset asset_id)
  destroy_everywhere asset_id

-- `++this.state.assetCounter`
abbrev pub next_asset_id : Act State ℕ
next_asset_id s = done (suc s.asset_counter) (record s { asset_counter = suc s.asset_counter })

abbrev pub next_app_id : Act State ℕ
next_app_id s = done (suc s.app_counter) (record s { app_counter = suc s.app_counter })

abbrev pub set_asset_creator : ℕ → Address → Act State (Unit {0})
set_asset_creator id address s = done tt (record s { asset_defs = insert id address s.asset_defs })

abbrev pub set_app_creator : ℕ → Address → Act State (Unit {0})
set_app_creator id address s = done tt (record s { global_apps = insert id address s.global_apps })

abbrev pub delete_global_app : ℕ → Act State (Unit {0})
delete_global_app id s = done tt (record s { global_apps = erase id s.global_apps })

abbrev pub erase_created_app : ℕ → Act AccountStore (Unit {0})
erase_created_app id a = done tt (record a { created_apps = erase id a.created_apps })

unfoldable pub delete_ctx_app : ℕ → Act State (Unit {0})
delete_ctx_app app_id = do
  address ← get_app_creator app_id
  on_account address (delete_app app_id)
  delete_global_app app_id

unfoldable pub close_ctx_app : Address → ℕ → Act State (Unit {0})
close_ctx_app sender app_id = do
  _ ← get_account sender
  _ ← get_app app_id
  on_account sender (close_app app_id)

module _ (host : Host) where
  unfoldable pub add_ctx_asset : String → Address → Act State ℕ
  add_ctx_asset name from = do
    _ ← get_account from
    id ← next_asset_id
    def ← defined TxError.library_error (lookup name host.loaded_assets_defs)
    _ ← on_account from (add_asset from id name def)
    assert_acc_bal_above_min from
    set_asset_creator id from
    pure id

  -- The application has the id 0 while its approval program runs.
  unfoldable pub add_ctx_app : Address → SscDeploymentFlags → String → String → Act State ℕ
  add_ctx_app from flags approval_program clear_program = do
    _ ← get_account from
    throw_if (same approval_program "") TxError.invalid_approval_program
    throw_if (same clear_program "") TxError.invalid_clear_program
    on_account from (add_app 0 flags approval_program clear_program)
    assert_acc_bal_above_min from
    set_app_creator 0 from
    host.run approval_program
    id ← next_app_id
    set_app_creator id from
    attributes ← get_app 0
    on_account from (erase_created_app 0)
    delete_global_app 0
    on_account from (set_created_app id attributes)
    pure id

  unfoldable pub opt_in_ctx_app : Address → ℕ → Act State (Unit {0})
  opt_in_ctx_app address app_id = do
    app ← get_app app_id
    on_account address (opt_in_to_app app_id app)
    assert_acc_bal_above_min address
    host.run app.approval_program

  unfoldable pub update_app : ℕ → String → String → Act State (Unit {0})
  update_app app_id approval_program clear_program = do
    throw_if (same approval_program "") TxError.invalid_approval_program
    throw_if (same clear_program "") TxError.invalid_clear_program
    app ← get_app app_id
    host.run app.approval_program
    updated ← get_app app_id
    creator ← get_app_creator app_id
    on_account creator (
        set_created_app app_id (record updated {
          approval_program = approval_program;
          clear_state_program = clear_program;
        }))
