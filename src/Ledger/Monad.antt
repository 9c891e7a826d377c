-- ===== src/Ledger/Monad.antt =====
-- Code that changes a state and may throw. An exception leaves what was written before it.
use algorand_builder.Base.{Bool, true, false, Option, none, some}
use algorand_builder.Ledger.Data.{TxError}

pub data Outcome (S A : Type 0) : Type 0 where
  done : A → S → Outcome S A
  thrown : TxError → S → Outcome S A

abbrev pub Act : Type 0 → Type 0 → Type 0
Act S A = S → Outcome S A

module _ {S : Type 0} where
  abbrev pub pure : {A : Type 0} → A → Act S A
  pure a s = done a s

  abbrev pub throw : {A : Type 0} → TxError → Act S A
  throw e s = thrown e s

  abbrev pub bind : {A B : Type 0} → Outcome S A → (A → Act S B) → Outcome S B
  bind (done a s) next = next a s
  bind (thrown e s) next = thrown e s

  infixl 5 ◌>>=◌ ◌>>◌
  unfoldable pub ◌>>=◌ : {A B : Type 0} → Act S A → (A → Act S B) → Act S B
  ◌>>=◌ act next s = bind (act s) next

  abbrev pub ◌>>◌ : {B : Type 0} → Act S (Unit {0}) → Act S B → Act S B
  act >> next = act >>= λ _. next

  abbrev pub throw_if : Bool → TxError → Act S (Unit {0})
  throw_if true e s = thrown e s
  throw_if false e s = done tt s

  -- A value that must be there.
  abbrev pub defined : {A : Type 0} → TxError → Option A → Act S A
  defined e none s = thrown e s
  defined e (some a) s = done a s

  abbrev pub get : Act S S
  get s = done s s

  abbrev pub put : S → Act S (Unit {0})
  put t s = done tt t
