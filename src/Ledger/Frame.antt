-- ===== src/Ledger/Frame.antt =====
-- packages/runtime/src/account.ts: what a write to the state of an application leaves alone. A ledger
-- without its values forgets the key-value states and the arrays, and nothing else.
use Prim.Native.String.{String}
use algorand_builder.Base.{
  ℕ, ◌≡◌, refl, ap, sym, ◌∙◌, Bool, true, false, Option, none, some, [], ◌∷◌, arith, Bool-cases,
  Option-cases, inl, inr,
}
use algorand_builder.Base.Int.{◌+ℤ◌}
use algorand_builder.Base.Equality.{Eq, same, nat_eq, string_eq}
use algorand_builder.Ledger.Dict.{Dict, lookup, insert, total}
use algorand_builder.Ledger.Data.{
  StateValue, AppLocalState, SscAttributes, AccountStore, State, TxError, Address,
}
use algorand_builder.Ledger.Monad.{Outcome, Act, done, thrown, bind, ◌>>=◌, defined, throw_if}
use algorand_builder.Ledger.AppState.{set_local_state, set_global_state, assert_valid_schema}
use algorand_builder.Ledger.Context.{get_account, get_app_creator, get_app, on_account, kept}
use algorand_builder.Ledger.Context.Totals.{total_of}
use algorand_builder.Ledger.Context.Transfers.{algos, total_algos}

abbrev pub map_values : {K V W : Type 0} → (V → W) → Dict K V → Dict K W
map_values f [] = []
map_values f ((k, v) ∷ d) = (k, f v) ∷ map_values f d

abbrev pub without_local : AppLocalState → AppLocalState
without_local app = record app { key_value = [] }

abbrev pub without_global : SscAttributes → SscAttributes
without_global app = record app { global_state = [] }

abbrev pub account_without_values : AccountStore → AccountStore
account_without_values a = record a {
  apps_local_state = map_values without_local a.apps_local_state;
  created_apps = map_values without_global a.created_apps;
}

unfoldable pub without_values : State → State
without_values s = record s { accounts = map_values account_without_values s.accounts; heap = [] }

-- A value that is replaced by one with the same image.
pub map_values-insert :
    {K V W : Type 0} ⦃e : Eq K⦄ (f : V → W) (k : K) (v w : V) (d : Dict K V)
    → lookup k d ≡ some v
    → f w ≡ f v
    → map_values f (insert k w d) ≡ map_values f d
unfolding lookup insert
map_values-insert f k v w [] h p = cc
map_values-insert f k v w ((j, u) ∷ d) h p = elim (Bool-cases (same k j)) [
  | inl q ↦ ground (arith, ap f (some_inj (rw (lookup, q) at h)))
  | inr q ↦
      rw (insert, q) (ap (λ l. (j, f u) ∷ l) (map_values-insert f k v w d (rw (lookup, q) at h) p))
]
  where
    some_inj : {A : Type 0} {x y : A} → some x ≡ some y → x ≡ y
    some_inj q = cc

-- `f` of the state is the same after `act`, returning or throwing.
abbrev pub Same : {S T A : Type 0} → (S → T) → S → Outcome S A → Type 0
Same f s (done a s') = f s' ≡ f s
Same f s (thrown e s') = f s' ≡ f s

pub record Frames {S T A : Type 0} (f : S → T) (act : Act S A) : Type 0 where
  pub at : (s : S) → Same f s (act s)

onward :
    {S T B : Type 0} (f : S → T) (s t : S) (o : Outcome S B) → f t ≡ f s → Same f t o → Same f s o
onward f s t (done b u) p q = q ∙ p
onward f s t (thrown e u) p q = q ∙ p

module _ {S T : Type 0} (f : S → T) where
  frame_outcome :
      {A B : Type 0} (s : S) (next : A → Act S B) (o : Outcome S A)
      → Same f s o
      → ((a : A) → Frames f (next a))
      → Same f s (bind o next)
  frame_outcome s next (done a t) h k = onward f s t (next a t) h ((k a).at t)
  frame_outcome s next (thrown e t) h k = h

  pub Frames-bind :
      {A B : Type 0} (act : Act S A) (next : A → Act S B)
      → Frames f act
      → ((a : A) → Frames f (next a))
      → Frames f (act >>= next)
  unfolding ◌>>=◌
  Frames-bind act next h k = record { at = λ s. frame_outcome s next (act s) (h.at s) k }

  pub Frames-defined : {A : Type 0} (e : TxError) (o : Option A) → Frames f (defined e o)
  Frames-defined e none = record { at = λ s. refl }
  Frames-defined e (some a) = record { at = λ s. refl }

pub get_account-Frames : (a : Address) → Frames without_values (get_account a)
unfolding get_account
get_account-Frames a = record {
  at = λ s. (Frames-defined without_values _ (lookup a s.accounts)).at s;
}

pub get_app_creator-Frames : (id : ℕ) → Frames without_values (get_app_creator id)
unfolding get_app_creator
get_app_creator-Frames id = record {
  at = λ s. (Frames-defined without_values _ (lookup id s.global_apps)).at s;
}

pub get_app-Frames : (id : ℕ) → Frames without_values (get_app id)
unfolding get_app
get_app-Frames id = Frames-bind without_values _ _ (get_app_creator-Frames id) λ creator.
    Frames-bind without_values _ _ (get_account-Frames creator)
      λ account. Frames-defined without_values _ _

kept-Same :
    {A : Type 0} (address : Address) (s : State) (a : AccountStore) (o : Outcome AccountStore A)
    → lookup address s.accounts ≡ some a
    → Same account_without_values a o
    → Same without_values s (kept address s o)
unfolding without_values
kept-Same address s a (done x b) p h =
    ap (λ l. record (without_values s) { accounts = l })
      (map_values-insert account_without_values address a b s.accounts p h)
kept-Same address s a (thrown e b) p h =
    ap (λ l. record (without_values s) { accounts = l })
      (map_values-insert account_without_values address a b s.accounts p h)

pub on_account-Frames :
    {A : Type 0} (address : Address) (act : Act AccountStore A)
    → Frames account_without_values act
    → Frames without_values (on_account address act)
unfolding on_account get_account ◌>>=◌
on_account-Frames address act h = record {
  at = λ s. elim (Option-cases (lookup address s.accounts)) [
    | inl p ↦ rw p refl
    | inr (a, p) ↦ rw p (kept-Same address s a (act a) p (h.at a))
  ];
}

-- The local and the global state of an application that is there.
pub with_local :
    (id : ℕ) (app new : AppLocalState) (a : AccountStore)
    → lookup id a.apps_local_state ≡ some app
    → without_local new ≡ without_local app
    → account_without_values (record a { apps_local_state = insert id new a.apps_local_state })
      ≡ account_without_values a
with_local id app new a p h =
    ap (λ l. record (account_without_values a) { apps_local_state = l })
      (map_values-insert without_local id app new a.apps_local_state p h)

pub with_global :
    (id : ℕ) (app new : SscAttributes) (a : AccountStore)
    → lookup id a.created_apps ≡ some app
    → without_global new ≡ without_global app
    → account_without_values (record a { created_apps = insert id new a.created_apps })
      ≡ account_without_values a
with_global id app new a p h =
    ap (λ l. record (account_without_values a) { created_apps = l })
      (map_values-insert without_global id app new a.created_apps p h)

checked-Same :
    (a b : AccountStore) (test : Bool) (e : TxError)
    → account_without_values b ≡ account_without_values a
    → Same account_without_values a (throw_if test e b)
checked-Same a b true e h = h
checked-Same a b false e h = h

pub set_local_state-Frames :
    (id : ℕ) (key : String) (value : StateValue)
    → Frames account_without_values (set_local_state id key value)
unfolding set_local_state assert_valid_schema ◌>>=◌
set_local_state-Frames id key value = record {
  at = λ a. elim (Option-cases (lookup id a.apps_local_state)) [
    | inl p ↦ rw p refl
    | inr (app, p) ↦
        let new = record app { key_value = insert key value app.key_value } in
        rw p (checked-Same a _ _ _ (with_local id app new a p refl))
  ];
}

pub set_global_state-Frames :
    (id : ℕ) (key : String) (value : StateValue)
    → Frames account_without_values (set_global_state id key value)
unfolding set_global_state assert_valid_schema ◌>>=◌
set_global_state-Frames id key value = record {
  at = λ a. elim (Option-cases (lookup id a.created_apps)) [
    | inl p ↦ rw p refl
    | inr (app, p) ↦
        let new = record app { global_state = insert key value app.global_state } in
        rw p (checked-Same a _ _ _ (with_global id app new a p refl))
  ];
}

total-without :
    (d : Dict Address AccountStore)
    → total algos (map_values account_without_values d) ≡ total algos d
unfolding total
total-without [] = refl
total-without ((k, a) ∷ d) = ap (λ t. a.amount +ℤ t) (total-without d)

-- Two ledgers that differ in their values alone have as many Algos.
pub total_algos-without :
    (s t : State) → without_values t ≡ without_values s → total_algos t ≡ total_algos s
unfolding total_of without_values
total_algos-without s t h =
    sym (total-without t.accounts)
    ∙ ap (λ (u : State). total algos u.accounts) h
    ∙ total-without s.accounts
