-- ===== src/Teal/KeyValues.antt =====
-- packages/runtime/src/interpreter/opcode-list.ts, `AppGlobalPut` and `AppGlobalGet`: what is written to
-- the global state of an application is read back.
use Prim.Native.String.{String}
use algorand_builder.Base.{
  ℕ, zero, suc, ◌<◌, ◌≡◌, refl, Option, none, some, List, ◌∷◌, length, get_elem?, Option-cases, inl,
  inr, arith,
}
use algorand_builder.Base.Int.{pos, negsuc}
use algorand_builder.Base.Equality.{nat_eq, string_eq}
use algorand_builder.Ledger.Dict.{lookup, insert, lookup-insert_self}
use algorand_builder.Ledger.Data.{State, StateValue, AccountStore, SscAttributes, Address}
use algorand_builder.Ledger.Monad as Ledger
use algorand_builder.Ledger.AppState.{set_global_state, set_global_state-lem}
use algorand_builder.Ledger.Context.{get_app, get_app_creator, get_account, on_account, kept}
use algorand_builder.Teal.Op.{Ref}
use algorand_builder.Ledger.Encoded.{Txn, field_of}
use algorand_builder.Teal.Machine.{Machine, StackElem, uint64, bytes, ok, bytes_at}
use algorand_builder.Teal.Checks.{steps}
use algorand_builder.Teal.Query.{
  or_zero, as_id, key_text, lifted, on_ledger, current_tx, tx_at, current_app_id, query_app,
  query_global_state,
}
use algorand_builder.Teal.AppOps.{
  value_of_elem, truthy_value, push_value_or_zero, pop_key, write_global, app_global_put,
  app_global_get,
}
use algorand_builder.Teal.Moves.{over}

-- The state of the account that has the application, after a write.
kept-get_app :
    (id : ℕ) (key : String) (value : StateValue) (address : Address) (s s' : State)
    (o : Ledger.Outcome AccountStore (Unit {0}))
    → lookup id s.global_apps ≡ some address
    → ((b : AccountStore)
        → o ≡ Ledger.done tt b
        → (app : SscAttributes) × (lookup id b.created_apps ≡ some app)
          × (lookup key app.global_state ≡ some value))
    → kept address s o ≡ Ledger.done tt s'
    → (app : SscAttributes) × (get_app id s' ≡ Ledger.done app s')
      × (lookup key app.global_state ≡ some value)
unfolding get_app get_app_creator get_account Ledger.◌>>=◌
kept-get_app id key value address s s' (Ledger.thrown e b) creator h e' = cc
kept-get_app id key value address s s' (Ledger.done u b) creator h e =
    let (app, found, written) = h b refl in
    let s_eq : s' ≡ record s { accounts = insert address b s.accounts } = ground arith in
    (app, rw (s_eq, creator, lookup-insert_self address b s.accounts, found) refl, written)

-- A write that succeeded is read back by the application's queries.
write_global-get_app :
    (id : ℕ) (key : String) (value : StateValue) (s s' : State)
    → write_global id key value s ≡ Ledger.done tt s'
    → (app : SscAttributes) × (get_app id s' ≡ Ledger.done app s')
      × (lookup key app.global_state ≡ some value)
unfolding write_global get_app_creator on_account get_account Ledger.◌>>=◌
write_global-get_app id key value s s' e = elim (Option-cases (lookup id s.global_apps)) [
  | inl p ↦ let f = rw p at e in cc
  | inr (address, p) ↦ elim (Option-cases (lookup address s.accounts)) [
    | inl q ↦ let f = rw (p, q) at e in cc
    | inr (a, q) ↦
        kept-get_app id key value address s s' (set_global_state id key value a) p
          (λ b f.
            let (app, found, fits, written) = set_global_state-lem id key value a b f in
            (app, found, written))
          (rw (p, q) at e)
  ]
]

lifted-done :
    (m m' : Machine) (o : Ledger.Outcome State (Unit {0}))
    → lifted m o ≡ ok tt m'
    → (s' : State) × (o ≡ Ledger.done tt s')
      × (m' ≡ record m { ctx = record (m.ctx) { state = s' } })
lifted-done m m' (Ledger.done u s) e = (s, refl, ground arith)
lifted-done m m' (Ledger.thrown err s) e = cc

-- The number of the current application, where the current transaction is there.
current_id : (m : Machine) → Option ℕ
current_id m = elim (get_elem? m.ctx.gtxs m.ctx.tx_index) [
  | none ↦ none
  | some tx ↦ some (or_zero (as_id (field_of "apid" tx)))
]

-- `app_global_get` pushes the value of the key, as it is.
push_value-pushes :
    (value : StackElem) (m : Machine) (rest : List StackElem)
    → length rest < 1000
    → push_value_or_zero (truthy_value (some (value_of_elem value))) (over m rest)
      ≡ ok tt (over m (value ∷ rest))
unfolding steps push_value_or_zero truthy_value
push_value-pushes (uint64 (pos zero)) m rest room = ground arith
push_value-pushes (uint64 (pos (suc n))) m rest room = ground arith
push_value-pushes (uint64 (negsuc n)) m rest room = ground arith
push_value-pushes (bytes r) m rest room = ground arith

put-found :
    (m m' : Machine) (value : StackElem) (k : Ref) (rest : List StackElem)
    → app_global_put (over m (value ∷ bytes k ∷ rest)) ≡ ok tt m'
    → (tx : Txn) × (get_elem? m.ctx.gtxs m.ctx.tx_index ≡ some tx)
      × (lifted (over m rest) (
            write_global
              (or_zero (as_id (field_of "apid" tx)))
              (key_text (bytes_at m.heap k))
              (value_of_elem value)
              m.ctx.state)
          ≡ ok tt m')
unfolding steps app_global_put pop_key current_app_id current_tx tx_at on_ledger
put-found m m' value k rest e = elim (Option-cases (get_elem? m.ctx.gtxs m.ctx.tx_index)) [
  | inl p ↦ absurd (ground arith)
  | inr (tx, p) ↦ (tx, p, ground arith)
]

get-pushes :
    (m : Machine) (tx : Txn) (app : SscAttributes) (value : StackElem) (k : Ref)
    (rest : List StackElem)
    → length rest < 999
    → get_elem? m.ctx.gtxs m.ctx.tx_index ≡ some tx
    → get_app (or_zero (as_id (field_of "apid" tx))) m.ctx.state ≡ Ledger.done app m.ctx.state
    → lookup (key_text (bytes_at m.heap k)) app.global_state ≡ some (value_of_elem value)
    → app_global_get (over m (bytes k ∷ rest)) ≡ ok tt (over m (value ∷ rest))
unfolding steps app_global_get pop_key current_app_id current_tx tx_at on_ledger query_global_state
    query_app
get-pushes m tx app value k rest room found got stored =
    let pushes = push_value-pushes value m rest (omega arith) in
    ground (arith, found, got, stored, pushes)

-- A value that `app_global_put` stores is what `app_global_get` then pushes for the same key, be
-- it a number or an array, with less than 999 elements under the operands.
pub app_global_get-app_global_put :
    (m m' : Machine) (value : StackElem) (k : Ref) (rest : List StackElem)
    → length rest < 999
    → app_global_put (over m (value ∷ bytes k ∷ rest)) ≡ ok tt m'
    → app_global_get (over m' (bytes k ∷ rest)) ≡ ok tt (over m' (value ∷ rest))
app_global_get-app_global_put m m' value k rest room e =
    let (tx, found, f) = put-found m m' value k rest e in
    let id = or_zero (as_id (field_of "apid" tx)) in
    let key = key_text (bytes_at m.heap k) in
    let (s', written, m_eq) = lifted-done (over m rest) m' _ f in
    let (app, got, stored) =
      write_global-get_app id key (value_of_elem value) m.ctx.state s' written in
    rw m_eq (
      get-pushes (record m { stack = rest; ctx = record (m.ctx) { state = s' } }) tx app value k
        rest room found got stored)
