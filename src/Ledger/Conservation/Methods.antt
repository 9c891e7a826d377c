-- ===== src/Ledger/Conservation/Methods.antt =====
-- packages/runtime/src/account.ts: the methods of an account keep its Algos.
use Prim.Native.String.{String}
use algorand_builder.Base.{ℕ, ◌≡◌, refl, ap, sym, ◌∙◌, Bool, arith, Option-cases, inl, inr}
use algorand_builder.Base.Int.{ℤ, pos, ◌+ℤ◌}
use algorand_builder.Base.Equality.{string_eq, nat_eq}
use algorand_builder.Ledger.Dict.{lookup, has}
use algorand_builder.Ledger.Data.{
  AssetHolding, AssetDef, AsaDef, AssetModFields, SscAttributes, SscDeploymentFlags, AccountStore,
  Address,
}
use algorand_builder.Ledger.Monad.{Outcome, Act, done, thrown, ◌>>=◌}
use algorand_builder.Ledger.Account.{
  set_created_app, add_asset, close_asset, set_freeze_state, destroy_asset, add_app, opt_in_new,
  opt_in_to_app, opt_in_new_asa, opt_in_to_asa, delete_app, close_app,
}
use algorand_builder.Ledger.Context.{on_account, add_holding, sub_holding}
use algorand_builder.Ledger.Account.Charged.{after}
use algorand_builder.Ledger.Context.Totals.{on_account-Shifts}
use algorand_builder.Ledger.Context.Transfers.{algos}
use algorand_builder.Ledger.Programs.{
  modify_account_asset, kept_def, check_and_set_asa_fields, erase_created_app,
}
use algorand_builder.Ledger.Conservation.{Keeps, Keeps-Shifts}

-- A method of an account keeps the account's Algos.
pub record KeepsAmount {A : Type 0} (act : Act AccountStore A) : Type 0 where
  pub at : (c : AccountStore) (a : A) (b : AccountStore) → act c ≡ done a b → b.amount ≡ c.amount

pub Keeps-on_account :
    {A : Type 0} (address : Address) (act : Act AccountStore A)
    → KeepsAmount act
    → Keeps (on_account address act)
Keeps-on_account address act h = Keeps-Shifts _ (
    on_account-Shifts algos address act (pos 0) (pos 0)
      λ c a b e. ap (λ z. z +ℤ pos 0) (h.at c a b e))

pub from_after :
    {A : Type 0} (act : Act AccountStore A)
    → ((c : AccountStore) → (after (act c)).amount ≡ c.amount)
    → KeepsAmount act
from_after {A} act h = record {
  at = λ c a b e. ap (λ (o : Outcome AccountStore A). algos (after o)) (sym e) ∙ h c;
}

pub add_asset-amount :
    (address : Address) (id : ℕ) (name : String) (def : AsaDef)
    → KeepsAmount (add_asset address id name def)
unfolding add_asset ◌>>=◌
add_asset-amount address id name def = from_after (add_asset address id name def) λ c. ground arith

pub opt_in_to_asa-amount : (id : ℕ) (h : AssetHolding) → KeepsAmount (opt_in_to_asa id h)
unfolding opt_in_to_asa opt_in_new_asa has ◌>>=◌
opt_in_to_asa-amount id h = from_after (opt_in_to_asa id h) λ c. ground arith

pub close_asset-amount : (id : ℕ) → KeepsAmount (close_asset id)
unfolding close_asset has ◌>>=◌
close_asset-amount id = from_after (close_asset id) λ c. ground arith

pub set_freeze_state-amount : (id : ℕ) (state : Bool) → KeepsAmount (set_freeze_state id state)
unfolding set_freeze_state ◌>>=◌
set_freeze_state-amount id state = from_after (set_freeze_state id state) λ c. ground arith

pub destroy_asset-amount : (id : ℕ) → KeepsAmount (destroy_asset id)
unfolding destroy_asset ◌>>=◌
destroy_asset-amount id = from_after (destroy_asset id) λ c. ground arith

pub add_app-amount :
    (id : ℕ) (params : SscDeploymentFlags) (approval clear : String)
    → KeepsAmount (add_app id params approval clear)
unfolding add_app ◌>>=◌
add_app-amount id params approval clear =
    from_after (add_app id params approval clear) λ c. ground arith

pub opt_in_to_app-amount : (id : ℕ) (app : SscAttributes) → KeepsAmount (opt_in_to_app id app)
unfolding opt_in_to_app opt_in_new has ◌>>=◌
opt_in_to_app-amount id app = from_after (opt_in_to_app id app) λ c. ground arith

pub delete_app-amount : (id : ℕ) → KeepsAmount (delete_app id)
unfolding delete_app ◌>>=◌
delete_app-amount id = from_after (delete_app id) λ c. ground arith

pub close_app-amount : (id : ℕ) → KeepsAmount (close_app id)
unfolding close_app ◌>>=◌
close_app-amount id = from_after (close_app id) λ c. ground arith

pub add_holding-amount : (id : ℕ) (x : ℤ) → KeepsAmount (add_holding id x)
unfolding add_holding ◌>>=◌
add_holding-amount id x = from_after (add_holding id x) λ c. ground arith

pub sub_holding-amount : (id : ℕ) (x : ℤ) → KeepsAmount (sub_holding id x)
unfolding sub_holding ◌>>=◌
sub_holding-amount id x = from_after (sub_holding id x) λ c. ground arith

kept_def-amount :
    (id : ℕ) (a : AccountStore) (o : Outcome AssetDef (Unit {0}))
    → (after (kept_def id a o)).amount ≡ a.amount
kept_def-amount id a (done u d) = refl
kept_def-amount id a (thrown e d) = refl

pub modify_account_asset-amount :
    (id : ℕ) (fields : AssetModFields) → KeepsAmount (modify_account_asset id fields)
unfolding modify_account_asset ◌>>=◌
modify_account_asset-amount id fields = from_after (modify_account_asset id fields) λ c.
    elim (Option-cases (lookup id c.created_assets)) [
      | inl p ↦ rw p refl
      | inr (d, p) ↦ rw p (kept_def-amount id c (check_and_set_asa_fields fields d))
    ]

pub erase_created_app-amount : (id : ℕ) → KeepsAmount (erase_created_app id)
erase_created_app-amount id = from_after (erase_created_app id) λ c. refl

pub set_created_app-amount : (id : ℕ) (app : SscAttributes) → KeepsAmount (set_created_app id app)
set_created_app-amount id app = from_after (set_created_app id app) λ c. refl

pub ruleset amounts = (
  add_asset-amount, opt_in_to_asa-amount, close_asset-amount, set_freeze_state-amount,
  destroy_asset-amount, add_app-amount, opt_in_to_app-amount, delete_app-amount, close_app-amount,
  add_holding-amount, sub_holding-amount, modify_account_asset-amount, erase_created_app-amount,
  set_created_app-amount,
)
