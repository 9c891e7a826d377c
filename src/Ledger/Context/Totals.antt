-- ===== src/Ledger/Context/Totals.antt =====
-- A measure summed over all accounts, and what the operations of a context do to the sum.
use algorand_builder.Base.{◌≡◌, refl, ap, Bool, true, false, some, arith, Option-cases, inl, inr}
use algorand_builder.Base.Int.{ℤ, pos, pos_part, neg_part, ◌+ℤ◌, +ℤ_parts, eq_of_parts}
use algorand_builder.Base.Equality.{string_eq, nat_eq}
use algorand_builder.Ledger.Dict.{lookup, insert, total, total-insert}
use algorand_builder.Ledger.Data.{AccountStore, State, TxError, Address}
use algorand_builder.Ledger.Monad.{Outcome, Act, done, thrown, bind, pure, throw_if, ◌>>=◌}
use algorand_builder.Ledger.Context.{get_account, on_account, kept}

-- A measure of the accounts, summed over all of them.
unfoldable pub total_of : (AccountStore → ℤ) → State → ℤ
total_of f s = total f s.accounts

-- Where `act` returns, it adds `x` to the sum and takes `y` away.
pub record Shifts {A : Type 0} (f : AccountStore → ℤ) (x y : ℤ) (act : Act State A) : Type 0 where
  pub at :
      (s : State) (a : A) (s' : State) → act s ≡ done a s' → total_of f s' +ℤ y ≡ total_of f s +ℤ x

shift_twice :
    (f g h x y u v : ℤ) → g +ℤ y ≡ f +ℤ x → h +ℤ v ≡ g +ℤ u → h +ℤ (y +ℤ v) ≡ f +ℤ (x +ℤ u)
shift_twice f g h x y u v p q = eq_of_parts _ _ (
    omega (
      arith,
      ap pos_part p,
      ap neg_part p,
      ap pos_part q,
      ap neg_part q,
      +ℤ_parts g y,
      +ℤ_parts f x,
      +ℤ_parts h v,
      +ℤ_parts g u,
      +ℤ_parts y v,
      +ℤ_parts x u,
      +ℤ_parts h (y +ℤ v),
      +ℤ_parts f (x +ℤ u),
    ))

module _ {A B : Type 0} (f : AccountStore → ℤ) where
  bind_outcome :
      (x y u v : ℤ) (next : A → Act State B) (s : State) (o : Outcome State A) (b : B) (s' : State)
      → ((a : A) (t : State) → o ≡ done a t → total_of f t +ℤ y ≡ total_of f s +ℤ x)
      → ((a : A) → Shifts f u v (next a))
      → bind o next ≡ done b s'
      → total_of f s' +ℤ (y +ℤ v) ≡ total_of f s +ℤ (x +ℤ u)
  bind_outcome x y u v next s (done a t) b s' h g e =
      shift_twice (total_of f s) (total_of f t) (total_of f s') x y u v (h a t refl)
        ((g a).at t b s' e)
  bind_outcome x y u v next s (thrown err t) b s' h g e = cc

  pub Shifts-bind :
      {x y u v : ℤ} (act : Act State A) (next : A → Act State B)
      → Shifts f x y act
      → ((a : A) → Shifts f u v (next a))
      → Shifts f (x +ℤ u) (y +ℤ v) (act >>= next)
  unfolding ◌>>=◌
  Shifts-bind {x} {y} {u} {v} act next h g = record {
    at = λ s b s' e. bind_outcome x y u v next s (act s) b s' (λ a t. h.at s a t) g e;
  }

-- The state is the one that was there.
pub record Reads {A : Type 0} (act : Act State A) : Type 0 where
  pub at : (s : State) (a : A) (s' : State) → act s ≡ done a s' → s' ≡ s

pub Shifts-Reads :
    {A : Type 0} (f : AccountStore → ℤ) (act : Act State A)
    → Reads act
    → Shifts f (pos 0) (pos 0) act
Shifts-Reads f act r = record { at = λ s a s' e. rw (r.at s a s' e) refl }

pub get_account-Reads : (address : Address) → Reads (get_account address)
unfolding get_account
get_account-Reads address = record {
  at = λ s a s' e. elim (Option-cases (lookup address s.accounts)) [
    | inl p ↦ ground arith
    | inr (b, p) ↦ ground arith
  ];
}

pub throw_if-Reads : (test : Bool) (err : TxError) → Reads (throw_if test err)
throw_if-Reads true err = record { at = λ s a s' e. cc }
throw_if-Reads false err = record { at = λ s a s' e. ground arith }

pub pure-Reads : {A : Type 0} (a : A) → Reads {A = A} (pure a)
pure-Reads a = record { at = λ s a s' e. ground arith }

-- A change of one account's Algos.
add_total : (t a b x y : ℤ) (u : ℤ) → u +ℤ a ≡ t +ℤ b → b +ℤ y ≡ a +ℤ x → u +ℤ y ≡ t +ℤ x
add_total t a b x y u p q = eq_of_parts _ _ (
    omega (
      arith,
      ap pos_part p,
      ap neg_part p,
      ap pos_part q,
      ap neg_part q,
      +ℤ_parts u a,
      +ℤ_parts t b,
      +ℤ_parts b y,
      +ℤ_parts a x,
      +ℤ_parts u y,
      +ℤ_parts t x,
    ))

kept_total :
    {A : Type 0} (f : AccountStore → ℤ) (address : Address) (act : Act AccountStore A) (x y : ℤ)
    (s : State) (account : AccountStore)
    → lookup address s.accounts ≡ some account
    → (o : Outcome AccountStore A)
    → ((a : A) (b : AccountStore) → o ≡ done a b → f b +ℤ y ≡ f account +ℤ x)
    → (a : A) (s' : State) → kept address s o ≡ done a s'
    → total_of f s' +ℤ y ≡ total_of f s +ℤ x
unfolding total_of
kept_total f address act x y s account found (done a' b) h a s' e =
    let same_state : s' ≡ record s { accounts = insert address b s.accounts } = ground arith in
    rw same_state (
      add_total (total f s.accounts) (f account) (f b) x y (total f (insert address b s.accounts))
        (total-insert f address b account s.accounts found) (h a' b refl))
kept_total f address act x y s account found (thrown err b) h a s' e = cc

pub on_account-Shifts :
    {A : Type 0} (f : AccountStore → ℤ) (address : Address) (act : Act AccountStore A) (x y : ℤ)
    → ((c : AccountStore) (a : A) (b : AccountStore) → act c ≡ done a b → f b +ℤ y ≡ f c +ℤ x)
    → Shifts f x y (on_account address act)
unfolding on_account get_account ◌>>=◌
on_account-Shifts f address act x y h = record {
  at = λ s a s' e. elim (Option-cases (lookup address s.accounts)) [
    | inl p ↦ absurd (ground arith)
    | inr (c, p) ↦ kept_total f address act x y s c p (act c) (h c) a s' (rw p at e)
  ];
}
