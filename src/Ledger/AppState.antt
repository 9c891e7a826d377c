-- ===== src/Ledger/AppState.antt =====
-- packages/runtime/src/account.ts and packages/runtime/src/lib/stateful.ts: the key-value states of
-- applications. A key is the text of its bytes, `keyToBytes(key).toString()`.
use Prim.Native.String.{String}
use algorand_builder.Base.{
  ℕ, suc, ◌≤◌, ◌≡◌, ◌||◌, Option, none, some, [], ◌∷◌, ltb, arith, Option-cases, inl, inr,
}
use algorand_builder.Base.Equality.{nat_eq, string_eq}
use algorand_builder.Ledger.Dict.{lookup, insert, lookup-insert_self}
use algorand_builder.Ledger.Data.{
  SscSchema, StateValue, AppLocalState, SscAttributes, AccountStore, TxError, KeyValue,
}
use algorand_builder.Ledger.Monad.{Act, done, throw_if, defined, get, ◌>>=◌, ◌>>◌}
use algorand_builder.Ledger.Account.{set_local_app, set_created_app}

-- The two counters of `assertValidSchema`.
unfoldable pub num_uint : KeyValue → ℕ
num_uint [] = 0
num_uint ((k, StateValue.number z) ∷ d) = suc (num_uint d)
num_uint ((k, StateValue.array b) ∷ d) = num_uint d

unfoldable pub byte_slices : KeyValue → ℕ
byte_slices [] = 0
byte_slices ((k, StateValue.number z) ∷ d) = byte_slices d
byte_slices ((k, StateValue.array b) ∷ d) = suc (byte_slices d)

unfoldable pub assert_valid_schema : KeyValue → SscSchema → Act AccountStore (Unit {0})
assert_valid_schema key_value schema =
    throw_if
      (ltb schema.num_uint (num_uint key_value)
        || ltb schema.num_byte_slice (byte_slices key_value))
      TxError.invalid_schema

-- The value of a key in a state that may be missing.
abbrev pub value_of : {S : Type 0} → (S → KeyValue) → String → Option S → Option StateValue
value_of state key none = none
value_of state key (some s) = lookup key (state s)

unfoldable pub get_local_state : ℕ → String → AccountStore → Option StateValue
get_local_state app_id key a = value_of (λ s. s.key_value) key (lookup app_id a.apps_local_state)

unfoldable pub get_global_state : ℕ → String → AccountStore → Option StateValue
get_global_state app_id key a = value_of (λ s. s.global_state) key (lookup app_id a.created_apps)

-- The new value is written before the schema is checked.
unfoldable pub set_local_state : ℕ → String → StateValue → Act AccountStore (Unit {0})
set_local_state app_id key value = do
  a ← get
  app ← defined TxError.app_not_found (lookup app_id a.apps_local_state)
  let updated = insert key value app.key_value
  set_local_app app_id (record app { key_value = updated })
  assert_valid_schema updated app.schema

unfoldable pub set_global_state : ℕ → String → StateValue → Act AccountStore (Unit {0})
set_global_state app_id key value = do
  a ← get
  app ← defined TxError.app_not_found (lookup app_id a.created_apps)
  let updated = insert key value app.global_state
  set_created_app app_id (record app { global_state = updated })
  assert_valid_schema updated app.global_state_schema

-- A state within its schema.
abbrev pub Fits : KeyValue → SscSchema → Type 0
Fits d schema = (num_uint d ≤ schema.num_uint) × (byte_slices d ≤ schema.num_byte_slice)

-- A write to a local state that succeeds leaves a state within the application's schema, in
-- which the key has the new value.
pub set_local_state-lem :
    (id : ℕ) (key : String) (value : StateValue) (a b : AccountStore)
    → set_local_state id key value a ≡ done tt b
    → (app : AppLocalState) × (lookup id b.apps_local_state ≡ some app)
      × Fits app.key_value app.schema
      × (get_local_state id key b ≡ some value)
unfolding set_local_state get_local_state assert_valid_schema ◌>>=◌
set_local_state-lem id key value a b e = elim (Option-cases (lookup id a.apps_local_state)) [
  | inl p ↦ absurd (ground arith)
  | inr (app, p) ↦
      let updated = record app { key_value = insert key value app.key_value } in
      let found = lookup-insert_self id updated a.apps_local_state in
      let b_eq : b ≡ record a { apps_local_state = insert id updated a.apps_local_state } =
        ground arith in
      (
        updated,
        rw b_eq found,
        ground arith,
        rw (b_eq, found) (lookup-insert_self key value app.key_value),
      )
]

pub set_global_state-lem :
    (id : ℕ) (key : String) (value : StateValue) (a b : AccountStore)
    → set_global_state id key value a ≡ done tt b
    → (app : SscAttributes) × (lookup id b.created_apps ≡ some app)
      × Fits app.global_state app.global_state_schema
      × (lookup key app.global_state ≡ some value)
unfolding set_global_state assert_valid_schema ◌>>=◌
set_global_state-lem id key value a b e = elim (Option-cases (lookup id a.created_apps)) [
  | inl p ↦ absurd (ground arith)
  | inr (app, p) ↦
      let updated = record app { global_state = insert key value app.global_state } in
      let found = lookup-insert_self id updated a.created_apps in
      let b_eq : b ≡ record a { created_apps = insert id updated a.created_apps } = ground arith in
      (updated, rw b_eq found, ground arith, lookup-insert_self key value app.global_state)
]
