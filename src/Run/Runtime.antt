-- ===== src/Run/Runtime.antt =====
-- packages/runtime/src/runtime.ts: the class `Runtime`. After an operation that succeeds, the store is
-- the very object that the context has as its state, so that a later write to the one is a write to
-- the other; before that, and after a group of transactions that throws, they are two objects. What
-- the context asks of the runtime, a `Host`, is given to the operations: it holds the transaction that
-- each of them makes.
pub mod Commit
pub mod Rejected
mod Tests
use Prim.Native.String.{String}
use algorand_builder.Base.{
  ℕ, List, [], ◌∷◌, Option, none, some, Bool, true, false, ltb, length, if◌then◌else◌,
}
use algorand_builder.Base.Int.{ℤ, pos, ◌-ℤ◌, ltb_ℤ}
use algorand_builder.Base.Equality.{same, nat_eq, string_eq}
use algorand_builder.Ledger.Dict.{Dict, lookup, insert}
use algorand_builder.Ledger.Data.{
  State, TxError, Address, AccountStore, AssetHolding, AssetDef, SscAttributes, SscDeploymentFlags,
  StateValue,
}
use algorand_builder.Ledger.Monad.{
  Outcome, Act, done, thrown, pure, throw_if, defined, get, ◌>>=◌, ◌>>◌,
}
use algorand_builder.Ledger.Tx.{TxParam}
use algorand_builder.Ledger.Account.{new_account}
use algorand_builder.Ledger.AppState.{get_local_state, get_global_state}
use algorand_builder.Ledger.Context as Ctx
use algorand_builder.Ledger.Programs as Ops
use algorand_builder.Ledger.Programs.{Host}
use algorand_builder.Ledger.Transactions.{process_transactions, outside_rounds}

pub record Runtime : Type 0 where
  -- `this.ctx.state`
  pub ctx_state : State
  -- `this.store`, where it is another object than the context's state
  pub own_store : Option State
  pub round : ℕ
  pub timestamp : ℕ

unfoldable pub store_of : Runtime → State
store_of r = elim r.own_store [ none ↦ r.ctx_state | some s ↦ s ]

-- The loops over the keys of `acc.createdApps` and of `acc.createdAssets`.
unfoldable pub set_creators : {V : Type 0} → Address → Dict ℕ V → Dict ℕ Address → Dict ℕ Address
set_creators address [] creators = creators
set_creators address ((id, v) ∷ created) creators =
    set_creators address created (insert id address creators)

-- `initializeAccounts`
unfoldable pub initialize_accounts : List (Address × AccountStore) → State → State
initialize_accounts [] s = s
initialize_accounts ((address, acc) ∷ accounts) s = initialize_accounts accounts (record s {
  accounts = insert address acc s.accounts;
  global_apps = set_creators address acc.created_apps s.global_apps;
  asset_defs = set_creators address acc.created_assets s.asset_defs;
})

abbrev pub empty_store : State
empty_store = record {
  accounts = [];
  asset_defs = [];
  asset_counter = 0;
  global_apps = [];
  app_counter = 0;
  heap = [];
}

-- The constructor: the context has a copy of the store.
unfoldable pub new_runtime : List (Address × AccountStore) → Runtime
new_runtime accounts = record {
  ctx_state = initialize_accounts accounts empty_store;
  own_store = some (initialize_accounts accounts empty_store);
  round = 2;
  timestamp = 1;
}

unfoldable pub set_round_and_timestamp : ℕ → ℕ → Act Runtime (Unit {0})
set_round_and_timestamp round timestamp r =
    done tt (record r { round = round; timestamp = timestamp })

-- A query of the store, which is not changed.
abbrev pub answered : {A : Type 0} → Runtime → Outcome State A → Outcome Runtime A
answered r (done a s) = done a r
answered r (thrown e s) = thrown e r

unfoldable pub query : {A : Type 0} → Act State A → Act Runtime A
query act r = answered r (act (store_of r))

unfoldable pub get_app : ℕ → Act Runtime SscAttributes
get_app app_id = query (Ctx.get_app app_id)

unfoldable pub get_account : Address → Act Runtime AccountStore
get_account address = query (Ctx.get_account address)

unfoldable pub global_value : ℕ → String → Act State (Option StateValue)
global_value app_id key = do
  address ← Ctx.get_app_creator app_id
  account ← Ctx.get_account address
  pure (get_global_state app_id key account)

-- `getGlobalState`
unfoldable pub get_global_value : ℕ → String → Act Runtime (Option StateValue)
get_global_value app_id key = query (global_value app_id key)

-- `getLocalState`
unfoldable pub get_local_value : ℕ → Address → String → Act Runtime (Option StateValue)
get_local_value app_id address key = do
  account ← get_account address
  pure (get_local_state app_id key account)

-- `getAssetAccount`
unfoldable pub get_asset_account : ℕ → Act Runtime Address
get_asset_account asset_id = query (Ctx.get_asset_creator asset_id)

unfoldable pub get_asset_def : ℕ → Act Runtime AssetDef
get_asset_def asset_id = query (Ctx.get_asset_def asset_id)

unfoldable pub get_asset_holding : ℕ → Address → Act Runtime AssetHolding
get_asset_holding asset_id address = do
  account ← get_account address
  defined TxError.asa_not_optin (lookup asset_id account.assets)

unfoldable pub assert_min_balance : ℤ → Address → Act Runtime (Unit {0})
assert_min_balance amt address = do
  account ← get_account address
  throw_if (ltb_ℤ (account.amount -ℤ amt) account.min_balance) TxError.insufficient_account_balance

-- `this.store = this.ctx.state`, unless an exception has left the method before; what was written in
-- the context's state stays there.
abbrev pub assigned : {A : Type 0} → Runtime → Outcome State A → Outcome Runtime A
assigned r (done a s) = done a (record r { ctx_state = s; own_store = none })
assigned r (thrown e s) = thrown e (record r { ctx_state = s })

-- An operation on the context that the runtime has.
unfoldable pub on_ctx : {A : Type 0} → Act State A → Act Runtime A
on_ctx act r = assigned r (act r.ctx_state)

unfoldable pub opt_into_asa : ℕ → Address → Act Runtime (Unit {0})
opt_into_asa asset_id address = on_ctx (Ctx.opt_into_asa asset_id address)

-- The methods that set the transaction of the context first; `host` holds it.
module _ (host : Host) where
  unfoldable pub add_asset : String → Address → Act Runtime ℕ
  add_asset name creator = do
    _ ← on_ctx (Ops.add_ctx_asset host name creator)
    r ← get
    pure (store_of r).asset_counter

  unfoldable pub add_app : SscDeploymentFlags → String → String → Act Runtime ℕ
  add_app flags approval_program clear_program = do
    _ ← on_ctx (Ops.add_ctx_app host flags.sender flags approval_program clear_program)
    r ← get
    pure (store_of r).app_counter

  unfoldable pub opt_in_to_app : Address → ℕ → Act Runtime (Unit {0})
  opt_in_to_app address app_id = on_ctx (Ops.opt_in_ctx_app host address app_id)

  unfoldable pub update_app : ℕ → String → String → Act Runtime (Unit {0})
  update_app app_id approval_program clear_program =
      on_ctx (Ops.update_app host app_id approval_program clear_program)

-- A write to `this.store`, which may be the context's state.
abbrev pub write_store : (State → State) → Runtime → Runtime
write_store f r = elim r.own_store [
  | none ↦ record r { ctx_state = f r.ctx_state }
  | some s ↦ record r { own_store = some (f s) }
]

-- `getLogicSig`: the new account of a logic signature, at the address that was generated for it
unfoldable pub add_lsig_account : Address → Act Runtime (Unit {0})
add_lsig_account address r =
    done tt
      (write_store (λ s. record s { accounts = insert address (new_account (pos 0)) s.accounts }) r)

unfoldable pub get_logic_sig : String → Address → Act Runtime (Unit {0})
get_logic_sig program address = do
  throw_if (same program "") TxError.program_error
  add_lsig_account address

-- The new context of `executeTx` starts from a copy of the store.
abbrev pub committed : Runtime → Outcome State (Unit {0}) → Outcome Runtime (Unit {0})
committed r (done u s) = done u (record r { ctx_state = s; own_store = none })
committed r (thrown e s) = thrown e (record r { ctx_state = s; own_store = some (store_of r) })

-- `executeTx`
unfoldable pub execute_tx : (ℕ → Host) → List TxParam → Act Runtime (Unit {0})
execute_tx hosts txs = do
  r ← get
  throw_if (ltb 16 (length txs)) TxError.group_too_large
  throw_if (outside_rounds r.round txs) TxError.invalid_round
  λ r'. committed r' (process_transactions hosts 0 txs (store_of r'))
