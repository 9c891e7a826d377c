-- ===== src/Run/Frame.antt =====
-- packages/runtime/src/interpreter/interpreter.ts and packages/runtime/src/runtime.ts: what a run of a
-- program leaves alone of the ledger.
use Prim.Native.String.{String}
use algorand_builder.Base.{
  ℕ, zero, suc, ◌≡◌, refl, ◌∙◌, Bool, true, false, Option, none, some, List, [], ◌∷◌, get_elem?,
  arith, Option-cases, inl, inr,
}
use algorand_builder.Base.Int.{pos, negsuc}
use algorand_builder.Ledger.Data.{State, TxError, Address}
use algorand_builder.Ledger.Monad.{Outcome, done, thrown, throw_if}
use algorand_builder.Ledger.Frame.{
  without_values, Same, Frames, Frames-bind, Frames-defined, total_algos-without,
}
use algorand_builder.Ledger.Context.Transfers.{total_algos}
use algorand_builder.Ledger.Account.Charged.{after}
use algorand_builder.Ledger.Conservation.Dispatch.{KeepsAlgos}
use algorand_builder.Teal.Machine as Teal
use algorand_builder.Teal.Machine.{Machine, StackElem, uint64, bytes, ok, fail}
use algorand_builder.Teal.Library.{Library}
use algorand_builder.Teal.Execute.{
  execute_op, next_round, round, run_loop, accepts, verdict, enough_fuel, finish, execute,
}
use algorand_builder.Teal.Forward.{Forward, After}
use algorand_builder.Teal.Forward.Opcodes.{execute_op-Advances}
use algorand_builder.Teal.Sentence.{Mode}
use algorand_builder.Run.{
  Settings, Program, settle, loaded, run_parsed, run, validate_lsig_and_run, host,
}

-- The ledger of a machine is `s`, but for values.
abbrev Holds : State → Machine → Type 0
Holds s m = without_values m.ctx.state ≡ without_values s

module _ (lib : Library) (s : State) where
  next_round-Holds :
      (loop : Machine → Option (Teal.Outcome (Unit {0})))
      → ((m : Machine) (o : Teal.Outcome (Unit {0}))
          → Holds s m
          → loop m ≡ some o
          → After (Holds s) o)
      → (m : Machine) → Holds s m
      → (o o' : Teal.Outcome (Unit {0})) → After (Forward m) o
      → next_round lib loop o ≡ some o'
      → After (Holds s) o'
  unfolding next_round
  next_round-Holds loop rec m h (fail err m') o' f e = ground (arith, f.ledger_kept ∙ h)
  next_round-Holds loop rec m h (ok _ m') o' f e =
      rec (record m' { instruction_index = suc m'.instruction_index }) o' (f.ledger_kept ∙ h) e

  run_loop-Holds :
      (fuel : ℕ) (m : Machine) (o : Teal.Outcome (Unit {0}))
      → Holds s m
      → run_loop lib fuel m ≡ some o
      → After (Holds s) o
  unfolding run_loop round
  run_loop-Holds zero m o h e = cc
  run_loop-Holds (suc fuel) m o h e =
      elim (Option-cases (get_elem? m.instructions m.instruction_index)) [
        | inl none_left ↦ ground (arith, h)
        | inr (op, found) ↦
            next_round-Holds (run_loop lib fuel) (run_loop-Holds fuel) m h (execute_op lib op m) o
              ((execute_op-Advances lib op).at m) (rw (found, round) at e)
      ]

accepts-Holds :
    (s : State) (l : List StackElem) (m : Machine) → Holds s m → After (Holds s) (accepts l m)
unfolding accepts
accepts-Holds s [] m h = h
accepts-Holds s (uint64 (pos zero) ∷ []) m h = h
accepts-Holds s (uint64 (pos (suc n)) ∷ []) m h = h
accepts-Holds s (uint64 (negsuc n) ∷ []) m h = h
accepts-Holds s (bytes r ∷ []) m h = h
accepts-Holds s (uint64 (pos zero) ∷ e ∷ l) m h = h
accepts-Holds s (uint64 (pos (suc n)) ∷ e ∷ l) m h = h
accepts-Holds s (uint64 (negsuc n) ∷ e ∷ l) m h = h
accepts-Holds s (bytes r ∷ e ∷ l) m h = h

verdict-Holds :
    (s : State) (o : Teal.Outcome (Unit {0})) → After (Holds s) o → After (Holds s) (verdict o)
unfolding verdict
verdict-Holds s (ok _ m) h = accepts-Holds s m.stack m h
verdict-Holds s (fail e m) h = h

finish-Holds :
    (s : State) (r : Option (Teal.Outcome (Unit {0})))
    → ((o : Teal.Outcome (Unit {0})) → r ≡ some o → After (Holds s) o)
    → (o : Teal.Outcome (Unit {0})) → finish r ≡ some o
    → After (Holds s) o
finish-Holds s none h o e = cc
finish-Holds s (some r) h o e = ground (arith, verdict-Holds s r (h r refl))

-- Interpreter.execute changes nothing of the ledger but the values of applications' states,
-- whether it accepts or throws: balances, minimum balances, holdings, definitions, ids and
-- schemas stay.
pub execute-keeps_ledger :
    (lib : Library) (m : Machine) (o : Teal.Outcome (Unit {0}))
    → execute lib m ≡ some o
    → After (λ m'. without_values m'.ctx.state ≡ without_values m.ctx.state) o
unfolding execute
execute-keeps_ledger lib m o e =
    finish-Holds m.ctx.state (run_loop lib (enough_fuel m) m)
      (λ r p. run_loop-Holds lib m.ctx.state (enough_fuel m) m r refl p) o e

settle-Same :
    (s : State) (r : Option (Teal.Outcome (Unit {0})))
    → ((o : Teal.Outcome (Unit {0})) → r ≡ some o → After (Holds s) o)
    → Same without_values s (settle s r)
unfolding without_values
settle-Same s none h = refl
settle-Same s (some (ok _ m)) h = h (ok tt m) refl
settle-Same s (some (fail e m)) h = h (fail e m) refl

module _ (st : Settings) where
  run_parsed-Same :
      (idx : ℕ) (s : State) (p : Option Program) → Same without_values s (run_parsed st idx s p)
  unfolding run_parsed
  run_parsed-Same idx s none = refl
  run_parsed-Same idx s (some p) =
      settle-Same s (execute st.library (loaded st idx s p))
        (λ o e. execute-keeps_ledger st.library (loaded st idx s p) o e)

  pub run-Frames :
      (idx : ℕ) (mode : Mode) (text : String) → Frames without_values (run st idx mode text)
  unfolding run
  run-Frames idx mode text = record { at = λ s. run_parsed-Same idx s _ }

  throw_if-Frames : (b : Bool) (e : TxError) → Frames without_values (throw_if b e)
  throw_if-Frames true e = record { at = λ s. refl }
  throw_if-Frames false e = record { at = λ s. refl }

  lsig-Frames :
      (idx : ℕ) (from : Address) → Frames without_values (validate_lsig_and_run st idx from)
  unfolding validate_lsig_and_run
  lsig-Frames idx from = Frames-bind without_values _ _ (Frames-defined without_values _ _) λ lsig.
      Frames-bind without_values _ _ (throw_if-Frames _ _) λ _.
        Frames-bind without_values _ _ (throw_if-Frames _ _) λ _. run-Frames idx Mode.signature _

  after-Same :
      (s : State) (o : Outcome State (Unit {0}))
      → Same without_values s o
      → total_algos (after o) ≡ total_algos s
  after-Same s (done u t) h = total_algos-without s t h
  after-Same s (thrown e t) h = total_algos-without s t h

  -- The interpreter meets what the conservation of Algos asks of programs.
  pub host-KeepsAlgos : (idx : ℕ) → KeepsAlgos (host st idx)
  unfolding host
  host-KeepsAlgos idx = record {
    run_keeps = λ text s.
        after-Same s (run st idx Mode.application text s)
          ((run-Frames idx Mode.application text).at s);
    lsig_keeps =
        λ from s. after-Same s (validate_lsig_and_run st idx from s) ((lsig-Frames idx from).at s);
  }
