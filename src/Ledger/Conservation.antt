-- ===== src/Ledger/Conservation.antt =====
-- Rules for what keeps the Algos of all accounts together. No transaction of a group makes or loses Algos, but for its fee.
pub mod Methods
pub mod Assets
pub mod Dispatch
use Prim.Native.String.{String}
use algorand_builder.Base.{
  ℕ, suc, ◌+◌, ◌≡◌, ◌≢◌, refl, ap, sym, ◌∙◌, Bool, true, false, not, Option, none, some, List, [],
  ◌∷◌, arith, if◌then◌else◌, Option-cases, Bool-cases, inl, inr,
}
use algorand_builder.Base.Int.{ℤ, pos, ◌+ℤ◌, ◌-ℤ◌, pos_part, neg_part, +ℤ_parts, eq_of_parts}
use algorand_builder.Base.Equality.{same, string_eq, nat_eq}
use algorand_builder.Ledger.Dict.{Dict, lookup, has, insert, erase, total}
use algorand_builder.Ledger.Data.{
  AssetHolding, AssetDef, AsaDef, AssetModFields, SscSchema, StateValue, AppLocalState,
  SscAttributes, SscDeploymentFlags, AccountStore, State, TxError, Address, KeyValue,
  algorand_account_min_balance, application_base_fee, asset_creation_fee, ssc_key_byte_slice,
  ssc_value_uint, ssc_value_bytes, max_algorand_account_assets, max_algorand_account_apps, app_cost,
}
use algorand_builder.Ledger.Monad.{
  Outcome, Act, done, thrown, bind, pure, throw, throw_if, defined, get, put, ◌>>=◌,
}
use algorand_builder.Ledger.Account.{
  or_else, new_account, new_asset, new_app, raise, lower, set_asset, delete_asset,
  set_created_asset, set_created_app, set_local_app, add_asset, close_asset, set_freeze_state,
  destroy_asset, add_app, opt_in_new, opt_in_to_app, opt_in_new_asa, opt_in_to_asa, delete_app,
  close_app,
}
use algorand_builder.Ledger.Context.{
  get_account, get_asset_holding, assert_asset_not_frozen, get_asset_creator, get_asset_def,
  get_app_creator, get_app, assert_acc_bal_above_min, on_account, add_holding, sub_holding,
  move_asset, opt_into_asa, close_holding, before_transfer, transfer_asset, revoke_asset,
  transfer_algo, deduct_fee,
}
use algorand_builder.Ledger.Account.Charged.{after}
use algorand_builder.Ledger.Context.Totals.{
  total_of, Shifts, Shifts-bind, Shifts-Reads, Reads, get_account-Reads, throw_if-Reads, pure-Reads,
  on_account-Shifts,
}
use algorand_builder.Ledger.Context.Transfers.{
  algos, total_algos, add_zero, cancel, transfer_algo-keeps_total, deduct_fee-total,
}
use algorand_builder.Ledger.Context.Assets.{Reads-bind, defined-Reads, get_asset_holding-Reads}
use algorand_builder.Ledger.Programs.{
  Host, modify_asset, modify_account_asset, kept_def, check_and_set_asa_fields, freeze_asset,
  delete_holdings, destroy_everywhere, destroy_ctx_asset, delete_ctx_app, close_ctx_app,
  add_ctx_asset, add_ctx_app, opt_in_ctx_app, update_app, next_asset_id, next_app_id,
  set_asset_creator, set_app_creator, delete_global_app, erase_created_app,
}
use algorand_builder.Ledger.Tx.{TxKind, TxParam}
use algorand_builder.Ledger.Transactions.{
  attempt, authorized, dispatch, process_one, process_transactions, outside_rounds,
}

-- Where `act` returns, the Algos of all accounts are as many as before.
pub record Keeps {A : Type 0} (act : Act State A) : Type 0 where
  pub at : (s : State) (a : A) (s' : State) → act s ≡ done a s' → total_algos s' ≡ total_algos s

pub Keeps-Shifts : {A : Type 0} (act : Act State A) → Shifts algos (pos 0) (pos 0) act → Keeps act
Keeps-Shifts act h = record { at = λ s a s' e. cancel _ _ (pos 0) (h.at s a s' e) }

pub Keeps-Reads : {A : Type 0} (act : Act State A) → Reads act → Keeps act
Keeps-Reads act h = record { at = λ s a s' e. rw (h.at s a s' e) refl }

module _ {A B : Type 0} where
  bind-Keeps :
      (next : A → Act State B) (s : State) (o : Outcome State A) (b : B) (s' : State)
      → ((a : A) (t : State) → o ≡ done a t → total_algos t ≡ total_algos s)
      → ((a : A) → Keeps (next a))
      → bind o next ≡ done b s'
      → total_algos s' ≡ total_algos s
  bind-Keeps next s (done a t) b s' h k e = (k a).at t b s' e ∙ h a t refl
  bind-Keeps next s (thrown err t) b s' h k e = cc

  pub Keeps-bind :
      (act : Act State A) (next : A → Act State B)
      → Keeps act
      → ((a : A) → Keeps (next a))
      → Keeps (act >>= next)
  unfolding ◌>>=◌
  Keeps-bind act next h k = record {
    at = λ s b s' e. bind-Keeps next s (act s) b s' (λ a t. h.at s a t) k e;
  }

pub Keeps-if :
    {A : Type 0} (test : Bool) (yes_act no_act : Act State A)
    → Keeps yes_act
    → Keeps no_act
    → Keeps (if test then yes_act else no_act)
Keeps-if true y n h k = h
Keeps-if false y n h k = k

pub Keeps-throw_if : (test : Bool) (e : TxError) → Keeps (throw_if test e)
Keeps-throw_if test e = Keeps-Reads _ (throw_if-Reads test e)

pub Keeps-pure : {A : Type 0} (a : A) → Keeps {A = A} (pure a)
Keeps-pure a = Keeps-Reads _ (pure-Reads a)

pub Keeps-defined : {A : Type 0} (e : TxError) (o : Option A) → Keeps (defined e o)
Keeps-defined e o = Keeps-Reads _ (defined-Reads e o)

pub Keeps-get_account : (address : Address) → Keeps (get_account address)
Keeps-get_account address = Keeps-Reads _ (get_account-Reads address)

pub Keeps-get_asset_holding : (id : ℕ) (address : Address) → Keeps (get_asset_holding id address)
Keeps-get_asset_holding id address = Keeps-Reads _ (get_asset_holding-Reads id address)
