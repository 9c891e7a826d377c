-- ===== src/Ledger/Context/Assets.antt =====
-- Transfers and revocations keep the units of an asset.
use algorand_builder.Base.{ℕ, ◌≡◌, refl, ◌∙◌, Option, none, some, arith, Option-cases, inl, inr}
use algorand_builder.Base.Int.{ℤ, pos, ◌+ℤ◌, ◌-ℤ◌, ltb_ℤ}
use algorand_builder.Base.Equality.{string_eq, nat_eq}
use algorand_builder.Ledger.Dict.{lookup, insert, lookup-insert_self}
use algorand_builder.Ledger.Data.{AssetHolding, AccountStore, State, TxError, Address}
use algorand_builder.Ledger.Monad.{Outcome, Act, done, thrown, bind, defined, ◌>>=◌}
use algorand_builder.Ledger.Context.{get_asset_holding, add_holding, sub_holding, move_asset}
use algorand_builder.Ledger.Context.Totals.{
  total_of, Shifts-bind, Shifts-Reads, Reads, get_account-Reads, throw_if-Reads, on_account-Shifts,
}
use algorand_builder.Ledger.Context.Transfers.{zero_add, add_zero, sub_add, cancel}

-- The units that an account holds.
abbrev pub held : Option AssetHolding → ℤ
held none = pos 0
held (some h) = h.amount

abbrev pub units : ℕ → AccountStore → ℤ
units id a = held (lookup id a.assets)

-- The units of an asset in all accounts together.
abbrev pub total_units : ℕ → State → ℤ
total_units id = total_of (units id)

add_holding-units :
    (id : ℕ) (x : ℤ) (a b : AccountStore) (u : Unit {0})
    → add_holding id x a ≡ done u b
    → units id b +ℤ pos 0 ≡ units id a +ℤ x
unfolding add_holding ◌>>=◌
add_holding-units id x a b u e = elim (Option-cases (lookup id a.assets)) [
  | inl p ↦ absurd (ground arith)
  | inr (h, p) ↦
      let run : b ≡ record a { assets = insert id (record h { amount = h.amount +ℤ x }) a.assets } =
        ground arith in
      rw (run, p, lookup-insert_self id (record h { amount = h.amount +ℤ x }) a.assets) (add_zero _)
]

sub_holding-units :
    (id : ℕ) (x : ℤ) (a b : AccountStore) (u : Unit {0})
    → sub_holding id x a ≡ done u b
    → units id b +ℤ x ≡ units id a +ℤ pos 0
unfolding sub_holding ◌>>=◌
sub_holding-units id x a b u e = elim (Option-cases (lookup id a.assets)) [
  | inl p ↦ absurd (ground arith)
  | inr (h, p) ↦
      let run : b ≡ record a { assets = insert id (record h { amount = h.amount -ℤ x }) a.assets } =
        ground arith in
      rw (run, p, lookup-insert_self id (record h { amount = h.amount -ℤ x }) a.assets)
        (sub_add h.amount x)
]

pub Reads-bind :
    {A B : Type 0} (act : Act State A) (next : A → Act State B)
    → Reads act
    → ((a : A) → Reads (next a))
    → Reads (act >>= next)
unfolding ◌>>=◌
Reads-bind {A} {B} act next r k = record {
  at = λ s b s' e. go s (act s) b s' (λ a t. r.at s a t) e;
}
  where
    go :
        (s : State) (o : Outcome State A) (b : B) (s' : State)
        → ((a : A) (t : State) → o ≡ done a t → t ≡ s)
        → bind o next ≡ done b s'
        → s' ≡ s
    go s (done a t) b s' h e = (k a).at t b s' e ∙ h a t refl
    go s (thrown err t) b s' h e = cc

pub defined-Reads : {A : Type 0} (err : TxError) (o : Option A) → Reads (defined err o)
defined-Reads err none = record { at = λ s a s' e. cc }
defined-Reads err (some b) = record { at = λ s a s' e. ground arith }

pub get_asset_holding-Reads : (id : ℕ) (address : Address) → Reads (get_asset_holding id address)
unfolding get_asset_holding
get_asset_holding-Reads id address =
    Reads-bind _ _ (get_account-Reads address) λ a. defined-Reads _ _

-- Where units of an asset move from one account to another, by a transfer that closes no
-- holding or by a revocation, their total stays, also when the two accounts are the same.
pub move_asset-keeps_units :
    (id : ℕ) (from to : Address) (amount : ℤ) (s s' : State)
    → move_asset id from to amount s ≡ done tt s'
    → total_units id s' ≡ total_units id s
unfolding move_asset
move_asset-keeps_units id from to amount s s' e =
    let f = units id in
    let shifts = Shifts-bind f _ _ (Shifts-Reads f _ (get_asset_holding-Reads id from)) λ h.
      Shifts-bind f _ _ (Shifts-Reads f _ (get_asset_holding-Reads id to)) λ _.
        Shifts-bind f _ _
          (Shifts-Reads f _ (
            throw_if-Reads (ltb_ℤ (h.amount -ℤ amount) (pos 0))
              TxError.insufficient_account_assets))
          λ _.
            Shifts-bind f _ _
              (on_account-Shifts f from (sub_holding id amount) (pos 0) amount
                λ a u b. sub_holding-units id amount a b u)
              λ _.
                on_account-Shifts f to (add_holding id amount) amount (pos 0)
                  λ a u b. add_holding-units id amount a b u in
    cancel (total_units id s) (total_units id s') amount
      (simp (zero_add, add_zero) at shifts.at s tt s' e)
