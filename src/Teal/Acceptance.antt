-- ===== src/Teal/Acceptance.antt =====
-- packages/runtime/src/interpreter/interpreter.ts: when a program is accepted.
use algorand_builder.Base.{
  ℕ, zero, suc, ◌≤◌, ◌≡◌, ◌↔◌, refl, List, [], ◌∷◌, none, some, true, length, get_elem?, arith,
}
use algorand_builder.Base.Int.{pos}
use algorand_builder.Teal.Op.{Op}
use algorand_builder.Teal.Library.{Library}
use algorand_builder.Teal.Machine.{Machine, StackElem, uint64, ok}
use algorand_builder.Teal.Checks.{steps}
use algorand_builder.Teal.Flow
use algorand_builder.Teal.Compare
use algorand_builder.Teal.Execute.{run_loop, round, next_round, accepts, verdict, finish}
use algorand_builder.Teal.Moves.{over}

get_elem?-end : (ops : List Op) (k : ℕ) → length ops ≤ k → get_elem? ops k ≡ none
get_elem?-end [] k h = refl
get_elem?-end (op ∷ ops) zero h = absurd (omega arith)
get_elem?-end (op ∷ ops) (suc k) h = get_elem?-end ops k (omega arith)

-- `return` ends the program at once: a positive number on top accepts, whatever lies under it
-- and whatever follows in the program.
pub return-accepts :
    (lib : Library) (m : Machine) (n fuel : ℕ) (rest : List StackElem)
    → finish (
        next_round lib
          (run_loop lib (suc fuel))
          (Flow.return_op (over m (uint64 (pos (suc n)) ∷ rest))))
      ≡ some (ok tt (record m { stack = []; instruction_index = suc (length m.instructions) }))
unfolding steps Flow.return_op Flow.clear_stack Flow.end_execution next_round run_loop round verdict
    accepts
return-accepts lib m n fuel rest =
    ground (arith, get_elem?-end m.instructions (suc (length m.instructions)) (omega arith))

-- Two arrays compare as equal if and only if they hold the same bytes.
pub compare_array_iff : (a b : List ℕ) → (Compare.compare_array a b ≡ true) ↔ (a ≡ b)
unfolding Compare.compare_array
compare_array_iff [] [] = (λ e. refl, λ e. refl)
compare_array_iff [] (y ∷ b) = (λ e. cc, λ e. cc)
compare_array_iff (x ∷ a) [] = (λ e. cc, λ e. cc)
compare_array_iff (x ∷ a) (y ∷ b) = ground (arith, compare_array_iff a b)
