-- ===== src/Base/Equality.antt =====
-- Types with a Boolean test of equality: what a JavaScript `Map` asks of its keys.
use Prim.Native.String.{String}
use Prim.Native.Nat.{ℕ}
use text.Mathlib.Text.{◌==◌ as str_eq}
use text.Mathlib.TextEquality.{eq_iff}
use mathlib.Core.Path.{◌≡◌, refl}
use mathlib.Core.Logic.{◌≢◌, ◌↔◌}
use mathlib.Core.Bool.{Bool, true, false}
use algorand_builder.Base.Tests.{==_iff, ◌==◌}

pub record Eq (A : Type 0) : Type 0 where
  pub eqb : A → A → Bool
  pub eqb_iff : (a b : A) → (eqb a b ≡ true) ↔ (a ≡ b)

module _ {A : Type 0} ⦃e : Eq A⦄ where
  abbrev pub same : A → A → Bool
  same a b = e.eqb a b

  pub same_self : (a : A) → same a a ≡ true
  same_self a = (e.eqb_iff a a).1 refl

  pub same_of : (a b : A) → same a b ≡ true → a ≡ b
  same_of a b h = (e.eqb_iff a b).0 h

  pub same-false : (a b : A) → same a b ≡ false → a ≢ b
  same-false a b h p = let t = (e.eqb_iff a b).1 p in cc

instance unfoldable pub nat_eq : Eq ℕ
nat_eq = record { eqb = ◌==◌; eqb_iff = ==_iff }

instance unfoldable pub string_eq : Eq String
string_eq = record { eqb = str_eq; eqb_iff = eq_iff }
