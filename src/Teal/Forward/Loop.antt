-- ===== src/Teal/Forward/Loop.antt =====
-- The loop of `execute` ends: branches only go forward.
use algorand_builder.Base.{
  ℕ, zero, suc, ◌-◌, ◌<◌, ◌≡◌, refl, Option, some, length, get_elem?, lt_of_get_elem?, arith, ap,
  Option-cases, inl, inr,
}
use algorand_builder.Teal.Library.{Library}
use algorand_builder.Teal.Machine.{Machine, Outcome, ok, fail}
use algorand_builder.Teal.Execute.{
  execute_op, next_round, round, run_loop, verdict, enough_fuel, execute,
}
use algorand_builder.Teal.Forward.{Forward, After}
use algorand_builder.Teal.Forward.Opcodes.{execute_op-Advances}

module _ (lib : Library) where
  round-total :
      (loop : Machine → Option (Outcome (Unit {0}))) (fuel : ℕ) (m : Machine)
      → ((m' : Machine)
          → length m'.instructions - m'.instruction_index < fuel
          → (o : Outcome (Unit {0})) × (loop m' ≡ some o))
      → m.instruction_index < length m.instructions
      → length m.instructions - m.instruction_index < suc fuel
      → (o : Outcome (Unit {0})) → After (Forward m) o
      → (o' : Outcome (Unit {0})) × (next_round lib loop o ≡ some o')
  unfolding next_round
  round-total loop fuel m rec inside h (fail err m') f = (fail err m', refl)
  round-total loop fuel m rec inside h (ok _ m') f =
      let same : length m'.instructions ≡ length m.instructions = ap length f.program_kept in
      let (up, fits) = f.index_grows (omega arith) in
      rec (record m' { instruction_index = suc m'.instruction_index }) (omega arith)

  -- Fuel above the number of instructions ahead is enough.
  pub run_loop-total :
      (fuel : ℕ) (m : Machine)
      → length m.instructions - m.instruction_index < fuel
      → (o : Outcome (Unit {0})) × (run_loop lib fuel m ≡ some o)
  unfolding run_loop round
  run_loop-total zero m h = absurd (omega arith)
  run_loop-total (suc fuel) m h =
      elim (Option-cases (get_elem? m.instructions m.instruction_index)) [
        | inl e ↦ (ok tt m, rw (run_loop, round, e))
        | inr (op, e) ↦
            let (o, p) =
              round-total (run_loop lib fuel) fuel m (run_loop-total fuel)
                (lt_of_get_elem? m.instructions m.instruction_index e) h (execute_op lib op m)
                ((execute_op-Advances lib op).at m) in
            (o, rw (run_loop, round, e) p)
      ]

  -- The loop of Interpreter.execute ends on every parsed program from every state.
  pub execute-total : (m : Machine) → (o : Outcome (Unit {0})) × (execute lib m ≡ some o)
  unfolding execute
  execute-total m =
      let (o, p) = run_loop-total (enough_fuel m) m (omega arith) in (verdict o, rw (execute, p))
