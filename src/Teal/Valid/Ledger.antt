-- ===== src/Teal/Valid/Ledger.antt =====
-- `Sound size act Q`: code of the ledger keeps a well-formed ledger, returning or throwing, and what it
-- returns satisfies `Q`; and the rules to show it.
use Prim.Native.String.{String}
use algorand_builder.Base.{ℕ, ◌≡◌, refl, Bool, true, false, Option, none, some}
use algorand_builder.Base.Equality.{nat_eq, string_eq}
use algorand_builder.Ledger.Dict.{lookup}
use algorand_builder.Ledger.Data.{
  State, StateValue, AccountStore, AppLocalState, SscAttributes, TxError, Address,
}
use algorand_builder.Ledger.Monad.{
  Outcome, Act, done, thrown, bind, ◌>>=◌, pure, throw_if, defined, get,
}
use algorand_builder.Ledger.Account.{set_local_app, set_created_app}
use algorand_builder.Ledger.AppState.{set_local_state, set_global_state, assert_valid_schema}
use algorand_builder.Ledger.Context.{get_account, get_app_creator, get_app, on_account, kept}
use algorand_builder.Teal.AppOps.{
  write_global, delete_global, delete_global_key, delete_local_of, delete_local_key,
}
use algorand_builder.Teal.Valid.{AllValues, IsValue, IsAccount, IsLedger}
use algorand_builder.Teal.Valid.Contexts.{AllValues-lookup, AllValues-insert, AllValues-erase}

-- `Q` of what is returned, and `I` of the state in any case.
abbrev pub LedgerPost : {S A : Type 0} → (S → Type 0) → (A → Type 0) → Outcome S A → Type 0
LedgerPost I Q (done a s) = I s × Q a
LedgerPost I Q (thrown e s) = I s

pub record Sound {S A : Type 0} (I : S → Type 0) (act : Act S A) (Q : A → Type 0) : Type 0 where
  pub at : (s : S) → I s → LedgerPost I Q (act s)

abbrev pub Any : {A : Type 0} → A → Type 0
Any _ = Unit

module _ {S : Type 0} {I : S → Type 0} where
  sound_outcome :
      {A B : Type 0} {R : B → Type 0} (Q : A → Type 0) (next : A → Act S B) (o : Outcome S A)
      → LedgerPost I Q o
      → ((a : A) → Q a → Sound I (next a) R)
      → LedgerPost I R (bind o next)
  sound_outcome Q next (done a s) h k = (k a h.1).at s h.0
  sound_outcome Q next (thrown e s) h k = h

  pub Sound-bind :
      {A B : Type 0} {Q : A → Type 0} {R : B → Type 0} (act : Act S A) (next : A → Act S B)
      → Sound I act Q
      → ((a : A) → Q a → Sound I (next a) R)
      → Sound I (act >>= next) R
  unfolding ◌>>=◌
  Sound-bind {Q = Q} act next h k = record { at = λ s i. sound_outcome Q next (act s) (h.at s i) k }

  pub Sound-pure : {A : Type 0} {Q : A → Type 0} (a : A) → Q a → Sound I (pure a) Q
  Sound-pure a q = record { at = λ s i. (i, q) }

  Sound-get : Sound I (get {S = S}) I
  Sound-get = record { at = λ s i. (i, i) }

  pub Sound-defined :
      {A : Type 0} (Q : A → Type 0) (e : TxError) (o : Option A)
      → ((a : A) → o ≡ some a → Q a)
      → Sound I (defined e o) Q
  Sound-defined Q e none h = record { at = λ s i. i }
  Sound-defined Q e (some a) h = record { at = λ s i. (i, h a refl) }

  pub Sound-throw_if : (b : Bool) (e : TxError) → Sound I (throw_if b e) Any
  Sound-throw_if true e = record { at = λ s i. i }
  Sound-throw_if false e = record { at = λ s i. (i, tt) }

kept-Post :
    {A : Type 0} (size : ℕ) (Q : A → Type 0) (address : Address) (s : State)
    (o : Outcome AccountStore A)
    → IsLedger size s
    → LedgerPost (IsAccount size) Q o
    → LedgerPost (IsLedger size) Q (kept address s o)
kept-Post size Q address s (done x a) i h =
    (AllValues-insert (IsAccount size) address a s.accounts h.0 i, h.1)
kept-Post size Q address s (thrown e a) i h =
    AllValues-insert (IsAccount size) address a s.accounts h i

module _ {size : ℕ} where
  found-Post :
      (o : Option AccountStore) (s : State)
      → IsLedger size s
      → ((a : AccountStore) → o ≡ some a → IsAccount size a)
      → LedgerPost (IsLedger size) (IsAccount size) (defined TxError.account_does_not_exist o s)
  found-Post none s i h = i
  found-Post (some a) s i h = (i, h a refl)

  pub get_account-Sound : (a : Address) → Sound (IsLedger size) (get_account a) (IsAccount size)
  unfolding get_account
  get_account-Sound a = record {
    at = λ s i.
        found-Post (lookup a s.accounts) s i
          (λ acc e. AllValues-lookup (IsAccount size) a s.accounts i e);
  }

  get_app_creator-Sound : (id : ℕ) → Sound (IsLedger size) (get_app_creator id) Any
  unfolding get_app_creator
  get_app_creator-Sound id = record { at = λ s i. go (lookup id s.global_apps) s i }
    where
      go :
          (o : Option Address) (s : State)
          → IsLedger size s
          → LedgerPost (IsLedger size) Any (defined TxError.app_not_found o s)
      go none s i = i
      go (some a) s i = (i, tt)

  pub get_app-Sound :
      (id : ℕ)
      → Sound (IsLedger size) (get_app id) (λ app. AllValues (IsValue size) app.global_state)
  unfolding get_app
  get_app-Sound id = Sound-bind _ _ (get_app_creator-Sound id) λ creator _.
      Sound-bind _ _ (get_account-Sound creator) λ account v. Sound-defined _ _ _ (λ app e.
        AllValues-lookup (λ (p : SscAttributes). AllValues (IsValue size) p.global_state) id
          account.created_apps v.global_states_valid e)

  pub on_account-Sound :
      {A : Type 0} {Q : A → Type 0} (address : Address) (act : Act AccountStore A)
      → Sound (IsAccount size) act Q
      → Sound (IsLedger size) (on_account address act) Q
  unfolding on_account
  on_account-Sound {Q = Q} address act h = Sound-bind _ _ (get_account-Sound address) λ account v.
      record { at = λ s i. kept-Post size Q address s (act account) i (h.at account v) }

  set_local_app-Sound :
      (id : ℕ) (app : AppLocalState)
      → AllValues (IsValue size) app.key_value
      → Sound (IsAccount size) (set_local_app id app) Any
  set_local_app-Sound id app v = record {
    at = λ a h. (
      record {
        amount_valid = h.amount_valid;
        min_balance_valid = h.min_balance_valid;
        holdings_valid = h.holdings_valid;
        local_states_valid =
            AllValues-insert (λ (p : AppLocalState). AllValues (IsValue size) p.key_value) id app
              a.apps_local_state v h.local_states_valid;
        global_states_valid = h.global_states_valid;
        defs_valid = h.defs_valid;
      },
      tt,
    );
  }

  set_created_app-Sound :
      (id : ℕ) (app : SscAttributes)
      → AllValues (IsValue size) app.global_state
      → Sound (IsAccount size) (set_created_app id app) Any
  set_created_app-Sound id app v = record {
    at = λ a h. (
      record {
        amount_valid = h.amount_valid;
        min_balance_valid = h.min_balance_valid;
        holdings_valid = h.holdings_valid;
        local_states_valid = h.local_states_valid;
        global_states_valid =
            AllValues-insert (λ (p : SscAttributes). AllValues (IsValue size) p.global_state) id app
              a.created_apps v h.global_states_valid;
        defs_valid = h.defs_valid;
      },
      tt,
    );
  }

  found_local :
      (id : ℕ) (a : AccountStore)
      → IsAccount size a
      → (app : AppLocalState) → lookup id a.apps_local_state ≡ some app
      → AllValues (IsValue size) app.key_value
  found_local id a v app e =
      AllValues-lookup (λ (p : AppLocalState). AllValues (IsValue size) p.key_value) id
        a.apps_local_state v.local_states_valid e

  found_global :
      (id : ℕ) (a : AccountStore)
      → IsAccount size a
      → (app : SscAttributes) → lookup id a.created_apps ≡ some app
      → AllValues (IsValue size) app.global_state
  found_global id a v app e =
      AllValues-lookup (λ (p : SscAttributes). AllValues (IsValue size) p.global_state) id
        a.created_apps v.global_states_valid e

  pub set_local_state-Sound :
      (id : ℕ) (key : String) (value : StateValue)
      → IsValue size value
      → Sound (IsAccount size) (set_local_state id key value) Any
  unfolding set_local_state assert_valid_schema
  set_local_state-Sound id key value v = Sound-bind _ _ Sound-get λ a h.
      Sound-bind _ _ (Sound-defined _ _ _ (found_local id a h)) λ app w.
        Sound-bind _ _
          (set_local_app-Sound id _ (AllValues-insert (IsValue size) key value app.key_value v w))
          λ _ _. Sound-throw_if _ _

  set_global_state-Sound :
      (id : ℕ) (key : String) (value : StateValue)
      → IsValue size value
      → Sound (IsAccount size) (set_global_state id key value) Any
  unfolding set_global_state assert_valid_schema
  set_global_state-Sound id key value v = Sound-bind _ _ Sound-get λ a h.
      Sound-bind _ _ (Sound-defined _ _ _ (found_global id a h)) λ app w.
        Sound-bind _ _
          (set_created_app-Sound id _
            (AllValues-insert (IsValue size) key value app.global_state v w))
          λ _ _. Sound-throw_if _ _

  pub write_global-Sound :
      (id : ℕ) (key : String) (value : StateValue)
      → IsValue size value
      → Sound (IsLedger size) (write_global id key value) Any
  unfolding write_global
  write_global-Sound id key value v =
      Sound-bind _ _ (get_app_creator-Sound id)
        λ address _. on_account-Sound address _ (set_global_state-Sound id key value v)

  delete_global_key-Sound :
      (id : ℕ) (key : String) → Sound (IsAccount size) (delete_global_key id key) Any
  unfolding delete_global_key
  delete_global_key-Sound id key = Sound-bind _ _ Sound-get λ a h.
      Sound-bind _ _ (Sound-defined _ _ _ (found_global id a h))
        λ app w. set_created_app-Sound id _ (AllValues-erase (IsValue size) key app.global_state w)

  pub delete_global-Sound :
      (id : ℕ) (key : String) → Sound (IsLedger size) (delete_global id key) Any
  unfolding delete_global
  delete_global-Sound id key =
      Sound-bind _ _ (get_app_creator-Sound id)
        λ address _. on_account-Sound address _ (delete_global_key-Sound id key)

  delete_local_of-Sound :
      (id : ℕ) (key : String) (o : Option AppLocalState)
      → ((app : AppLocalState) → o ≡ some app → AllValues (IsValue size) app.key_value)
      → Sound (IsAccount size) (delete_local_of id key o) Any
  unfolding delete_local_of
  delete_local_of-Sound id key none h = Sound-pure tt tt
  delete_local_of-Sound id key (some app) h =
      set_local_app-Sound id _ (AllValues-erase (IsValue size) key app.key_value (h app refl))

  pub delete_local_key-Sound :
      (id : ℕ) (key : String) → Sound (IsAccount size) (delete_local_key id key) Any
  unfolding delete_local_key
  delete_local_key-Sound id key =
      Sound-bind _ _ Sound-get
        λ a h. delete_local_of-Sound id key (lookup id a.apps_local_state) (found_local id a h)
