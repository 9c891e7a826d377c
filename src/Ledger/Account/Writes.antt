-- ===== src/Ledger/Account/Writes.antt =====
-- packages/runtime/src/account.ts: the methods that write a state or an asset's definition charge
-- nothing.
use Prim.Native.String.{String}
use algorand_builder.Base.{ℕ, ◌≡◌, refl, Bool, true, false, some, arith, Option-cases, inl, inr}
use algorand_builder.Base.Equality.{nat_eq, string_eq}
use algorand_builder.Ledger.Dict.{Dict, lookup, insert, sum, sum-insert_old}
use algorand_builder.Ledger.Data.{
  AssetModFields, AssetDef, SscSchema, StateValue, AccountStore, KeyValue, TxError,
}
use algorand_builder.Ledger.Monad.{Outcome, done, thrown, throw_if, ◌>>=◌}
use algorand_builder.Ledger.Account.Charged.{schema_cost, charge, IsCharged, Charges}
use algorand_builder.Ledger.AppState.{set_local_state, set_global_state, assert_valid_schema}
use algorand_builder.Ledger.Programs.{modify_account_asset, kept_def, check_and_set_asa_fields}

-- A value that is replaced by one of the same measure keeps the sum.
sum-replaced :
    {V : Type 0} (f : V → ℕ) (id : ℕ) (v w : V) (d : Dict ℕ V)
    → lookup id d ≡ some w
    → f v ≡ f w
    → sum f (insert id v d) ≡ sum f d
sum-replaced f id v w d p q = let e = sum-insert_old f id v w d p in omega (arith, e, q)

-- The test of the schema writes nothing.
checked-Charges :
    (key_value : KeyValue) (schema : SscSchema) (a : AccountStore)
    → IsCharged a
    → Charges (assert_valid_schema key_value schema a)
unfolding assert_valid_schema
checked-Charges key_value schema a h = go _
  where
    go : (b : Bool) → Charges (throw_if b TxError.invalid_schema a)
    go true = h
    go false = h

pub set_local_state-Charges :
    (id : ℕ) (key : String) (value : StateValue) (a : AccountStore)
    → IsCharged a
    → Charges (set_local_state id key value a)
unfolding set_local_state ◌>>=◌ charge
set_local_state-Charges id key value a h = elim (Option-cases (lookup id a.apps_local_state)) [
  | inl p ↦ rw p h
  | inr (app, p) ↦
      let updated = record app { key_value = insert key value app.key_value } in
      let same_sum =
        sum-replaced (λ s. schema_cost s.schema) id updated app a.apps_local_state p refl in
      rw p (
        checked-Charges (insert key value app.key_value) app.schema
          (record a { apps_local_state = insert id updated a.apps_local_state }) (rw same_sum h))
]

pub set_global_state-Charges :
    (id : ℕ) (key : String) (value : StateValue) (a : AccountStore)
    → IsCharged a
    → Charges (set_global_state id key value a)
unfolding set_global_state ◌>>=◌ charge
set_global_state-Charges id key value a h = elim (Option-cases (lookup id a.created_apps)) [
  | inl p ↦ rw p h
  | inr (app, p) ↦
      let updated = record app { global_state = insert key value app.global_state } in
      let same_sum =
        sum-replaced (λ s. schema_cost s.global_state_schema) id updated app a.created_apps p
          refl in
      rw p (
        checked-Charges (insert key value app.global_state) app.global_state_schema
          (record a { created_apps = insert id updated a.created_apps }) (rw same_sum h))
]

kept_def-Charges :
    (id : ℕ) (a : AccountStore) (o : Outcome AssetDef (Unit {0}))
    → IsCharged a
    → Charges (kept_def id a o)
unfolding charge
kept_def-Charges id a (done u d) h = h
kept_def-Charges id a (thrown e d) h = h

pub modify_account_asset-Charges :
    (id : ℕ) (fields : AssetModFields) (a : AccountStore)
    → IsCharged a
    → Charges (modify_account_asset id fields a)
unfolding modify_account_asset ◌>>=◌
modify_account_asset-Charges id fields a h = elim (Option-cases (lookup id a.created_assets)) [
  | inl p ↦ rw p h
  | inr (asset, p) ↦ rw p (kept_def-Charges id a (check_and_set_asa_fields fields asset) h)
]
