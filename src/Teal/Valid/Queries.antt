-- ===== src/Teal/Valid/Queries.antt =====
-- What an interpreter's queries of its runtime return is well-formed.
use algorand_builder.Base.{
  ℕ, zero, suc, ◌<◌, ◌^◌, ◌≡◌, refl, Option, none, some, List, All, All-get, length,
  lt_of_get_elem?, arith,
}
use algorand_builder.Base.Int.{ℤ, pos, negsuc}
use algorand_builder.Base.Equality.{nat_eq, string_eq}
use algorand_builder.Ledger.Data.{State, AssetDef, Address}
use algorand_builder.Ledger.Encoded.{Txn as TxnObject}
use algorand_builder.Ledger.Monad.{Outcome, Act, done, thrown}
use algorand_builder.Teal.Library.{Library}
use algorand_builder.Teal.Machine.{
  Machine, Context, Error, Outcome as MachineOutcome, M, ok, fail, gets,
}
use algorand_builder.Teal.Checks.{check_index_bound}
use algorand_builder.Teal.Query
use algorand_builder.Teal.Query.{require, as_id, or_zero}
use algorand_builder.Teal.Valid.{
  AllValues, IsUint64, IsValue, IsAccount, IsLedger, IsTxn, IsContext, IsValidAt, IsValid,
}
use algorand_builder.Teal.Valid.Triples.{
  Post, Gives, Keeps, forget, Gives-pure, Gives-throw_if, Keeps-of-Gives,
}
use algorand_builder.Teal.Valid.Rules.{Gives-bind}
use algorand_builder.Teal.Valid.Scratch.{Gives-throw}
use algorand_builder.Teal.Valid.Contexts.{AllValues-lookup}
use algorand_builder.Teal.Valid.Ledger.{LedgerPost, Sound, Any, get_account-Sound, get_app-Sound}

with_ledger :
    {size : ℕ} (m : Machine) (s : State)
    → IsLedger size s
    → IsValidAt size m
    → IsValidAt size (record m { ctx = record (m.ctx) { state = s } })
with_ledger m s l h = record {
  heap_size = h.heap_size;
  stack_fits = h.stack_fits;
  stack_valid = h.stack_valid;
  scratch_size = h.scratch_size;
  scratch_valid = h.scratch_valid;
  bytecblock_valid = h.bytecblock_valid;
  intcblock_valid = h.intcblock_valid;
  heap_valid = h.heap_valid;
  ctx_valid = record {
    ledger_valid = l;
    gtxs_valid = h.ctx_valid.gtxs_valid;
    gtxs_fit = h.ctx_valid.gtxs_fit;
    tx_index_fits = h.ctx_valid.tx_index_fits;
    round_fits = h.ctx_valid.round_fits;
    timestamp_fits = h.ctx_valid.timestamp_fits;
    zero_address_valid = h.ctx_valid.zero_address_valid;
    zero_byte_valid = h.ctx_valid.zero_byte_valid;
  };
}

lifted-Post :
    {A : Type 0} (size : ℕ) (Q : A → Type 0) (m : Machine) (o : Outcome State A)
    → IsValidAt size m
    → LedgerPost (IsLedger size) Q o
    → Post IsValid (λ a m'. IsValidAt size m' × Q a) (Query.lifted m o)
lifted-Post size Q m (done a s) h p = (with_ledger m s p.0 h, p.1)
lifted-Post size Q m (thrown e s) h p = forget (with_ledger m s p h)

-- A value, if there is one, satisfies `P`.
abbrev pub OptionIs : {A : Type 0} → (A → Type 0) → Option A → Type 0
OptionIs P none = Unit
OptionIs P (some a) = P a

abbrev pub IsDef : AssetDef → Type 0
IsDef d = IsUint64 d.total × (d.decimals < 2 ^ 64)

pub found :
    {A : Type 0} (P : A → Type 0) (o : Option A) → ((a : A) → o ≡ some a → P a) → OptionIs P o
found P none h = tt
found P (some a) h = h a refl

weaker :
    {A : Type 0} (size : ℕ) (Q R : A → Type 0) (o : MachineOutcome A)
    → ((a : A) → Q a → R a)
    → Post IsValid (λ a m'. IsValidAt size m' × Q a) o
    → Post IsValid (λ a m'. IsValidAt size m' × R a) o
weaker size Q R (ok a m) f h = (h.0, f a h.1)
weaker size Q R (fail e m) f h = h

pub Gives-weaken :
    {A : Type 0} {size : ℕ} {Q R : A → Type 0} (act : M A)
    → Gives size act Q
    → ((a : A) → Q a → R a)
    → Gives size act R
Gives-weaken {size = size} {Q = Q} {R = R} act g f = record {
  at = λ m v. weaker size Q R (act m) f (g.at m v);
}

module _ {size : ℕ} where
  pub Gives-on_ledger :
      {A : Type 0} {Q : A → Type 0} (act : Act State A)
      → Sound (IsLedger size) act Q
      → Gives size (Query.on_ledger act) Q
  unfolding Query.on_ledger
  Gives-on_ledger {Q = Q} act h = record {
    at =
        λ m v. lifted-Post size Q m (act m.ctx.state) v (h.at m.ctx.state v.ctx_valid.ledger_valid);
  }

  pub Keeps-on_ledger :
      {A : Type 0} (act : Act State A)
      → Sound (IsLedger size) act Any
      → Keeps size (Query.on_ledger act)
  Keeps-on_ledger act h = Keeps-of-Gives _ (Gives-on_ledger act h)

  -- A part of the context.
  pub Gives-ctx :
      {A : Type 0} {Q : A → Type 0} (f : Context → A)
      → ((c : Context) → IsContext size c → Q (f c))
      → Gives size (gets (λ m. f m.ctx)) Q
  Gives-ctx f h = record { at = λ m v. (v, h m.ctx v.ctx_valid) }

  pub Gives-version : Gives size (gets (λ m. m.teal_version)) Any
  Gives-version = record { at = λ m v. (v, tt) }

  pub Gives-require :
      {A : Type 0} {Q : A → Type 0} (e : Error) (o : Option A)
      → ((a : A) → o ≡ some a → Q a)
      → Gives size (require e o) Q
  Gives-require e none h = Gives-throw e
  Gives-require e (some a) h = Gives-pure a (h a refl)

  pub Gives-element :
      {A : Type 0} {Q : A → Type 0} (arr : List A) (i : ℕ)
      → All Q arr
      → Gives size (Query.element arr i) Q
  unfolding Query.element check_index_bound
  Gives-element {Q = Q} arr i h =
      Gives-bind _ _ (Gives-throw_if _ _) λ _ _. Gives-require _ _ (λ a e. All-get Q arr i h e)

  Gives-item : {A : Type 0} (arr : List A) (i : ℕ) → Gives size (Query.element arr i) Any
  unfolding Query.element check_index_bound
  Gives-item arr i = Gives-bind _ _ (Gives-throw_if _ _) λ _ _. Gives-require _ _ (λ a e. tt)

  pub Gives-element_at :
      {A : Type 0} (arr : Option (List A)) (i : ℤ) → Gives size (Query.element_at arr i) Any
  unfolding Query.element_at
  Gives-element_at arr (negsuc i) = Gives-throw _
  Gives-element_at none (pos i) = Gives-throw _
  Gives-element_at (some arr) (pos i) = Gives-item arr i

  -- A transaction of the group, and its position.
  pub Gives-tx_at : (i : ℕ) → Gives size (Query.tx_at i) (λ tx. IsTxn tx × (i < 2 ^ 64))
  unfolding Query.tx_at
  Gives-tx_at i =
      Gives-bind _ _
        (Gives-ctx {Q = λ l. All IsTxn l × (length l < 2 ^ 64)} (λ c. c.gtxs)
          (λ c h. (h.gtxs_valid, h.gtxs_fit)))
        λ gtxs h. Gives-require _ _ (λ tx e.
          (All-get IsTxn gtxs i h.0 e, let inside = lt_of_get_elem? gtxs i e in omega (arith, h.1)))

  pub Gives-current_tx : Gives size Query.current_tx (λ tx. IsTxn tx)
  unfolding Query.current_tx
  Gives-current_tx =
      Gives-bind _ _ (Gives-ctx {Q = Any} (λ c. c.tx_index) (λ c h. tt))
        λ i _. Gives-weaken _ (Gives-tx_at i) (λ tx h. h.0)

  pub Gives-current_app_id : Gives size Query.current_app_id Any
  unfolding Query.current_app_id
  Gives-current_app_id = Gives-bind _ _ Gives-current_tx λ tx _. Gives-pure _ tt

  pub Gives-query_account : (a : Address) → Gives size (Query.query_account a) (IsAccount size)
  unfolding Query.query_account
  Gives-query_account a = Gives-on_ledger _ (get_account-Sound a)

  pub Gives-query_app :
      (id : ℕ) → Gives size (Query.query_app id) (λ app. AllValues (IsValue size) app.global_state)
  unfolding Query.query_app
  Gives-query_app id = Gives-on_ledger _ (get_app-Sound id)

  pub Gives-query_global_state :
      (id : ℕ) (key : List ℕ)
      → Gives size (Query.query_global_state id key) (OptionIs (IsValue size))
  unfolding Query.query_global_state
  Gives-query_global_state id key = Gives-bind _ _ (Gives-query_app id) λ app h.
      Gives-pure _ (found (IsValue size) _ (λ v e. AllValues-lookup (IsValue size) _ _ h e))

  asset_def_of-Gives :
      (id : ℕ) (o : Option Address) → Gives size (Query.asset_def_of id o) (OptionIs IsDef)
  unfolding Query.asset_def_of
  asset_def_of-Gives id none = Gives-pure none tt
  asset_def_of-Gives id (some a) =
      Gives-bind _ _ (Gives-query_account a) λ account h.
        Gives-pure _ (found IsDef _ (λ d e. AllValues-lookup IsDef id _ h.defs_valid e))

  pub Gives-query_asset_def : (id : ℕ) → Gives size (Query.query_asset_def id) (OptionIs IsDef)
  unfolding Query.query_asset_def
  Gives-query_asset_def id =
      Gives-bind _ _ (Gives-ctx {Q = Any} (λ c. c.state.asset_defs) (λ c h. tt))
        λ defs _. asset_def_of-Gives id _

  module _ (lib : Library) where
    encoded-Gives : (o : Option (List ℕ)) → Gives size (Query.encoded lib o) Any
    unfolding Query.encoded
    encoded-Gives none = Gives-throw _
    encoded-Gives (some pk) = Gives-require _ _ (λ a e. tt)

    account_address-Gives :
        (z : ℤ) (tx : TxnObject) → Gives size (Query.account_address lib z tx) Any
    unfolding Query.account_address
    account_address-Gives (pos zero) tx = encoded-Gives _
    account_address-Gives (pos (suc i)) tx =
        Gives-bind _ _ (Gives-element_at _ _) λ pk _. encoded-Gives _
    account_address-Gives (negsuc i) tx = Gives-throw _

    pub Gives-query_address : (z : ℤ) → Gives size (Query.query_address lib z) Any
    unfolding Query.query_address
    Gives-query_address z = Gives-bind _ _ Gives-current_tx λ tx _. account_address-Gives z tx
