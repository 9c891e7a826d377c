-- ===== src/Teal/Flow.antt =====
-- packages/runtime/src/interpreter: labels and branches (`jumpForward` of interpreter.ts, and the
-- classes of opcode-list.ts that call it), and `Return`.
use Prim.Native.String.{String}
use text.Mathlib.Text.{◌==◌ as str_eq}
use algorand_builder.Base.{
  ℕ, suc, List, [], ◌∷◌, Option, none, some, Bool, true, false, not, length, drop, if◌then◌else◌,
}
use algorand_builder.Base.Int.{pos, eqb_ℤ}
use algorand_builder.Teal.Op.{Op}
use algorand_builder.Teal.Machine.{Error, M, ok, fail, pure, throw, ◌>>=◌, ◌>>◌}
use algorand_builder.Teal.Stack.{push_elem, pop_elem}
use algorand_builder.Teal.Checks.{assert_min_stack_len, pop_bigint}

-- `instruction instanceof Label`
abbrev pub is_label : Op → Bool
is_label (Op.label _) = true
is_label _ = false

-- `instruction instanceof Label && instruction.label === label`
abbrev pub is_label_of : String → Op → Bool
is_label_of name (Op.label l) = str_eq l name
is_label_of name _ = false

-- The inner loop: past the labels that follow position `i`, whose successors are given.
unfoldable pub skip_labels : List Op → ℕ → ℕ
skip_labels [] i = i
skip_labels (op ∷ ops) i = if is_label op then skip_labels ops (suc i) else i

-- The outer loop, over the instructions from position `i` on.
unfoldable pub find_label : String → List Op → ℕ → Option ℕ
find_label name [] i = none
find_label name (op ∷ ops) i =
    if is_label_of name op then some (skip_labels ops i) else find_label name ops (suc i)

unfoldable pub jumped : Option ℕ → M (Unit {0})
jumped none m = fail Error.label_not_found (record m { instruction_index = length m.instructions })
jumped (some i) m = ok tt (record m { instruction_index = i })

unfoldable pub jump_forward : String → M (Unit {0})
jump_forward name m =
    let next = suc m.instruction_index in jumped (find_label name (drop next m.instructions) next) m

unfoldable pub branch : String → M (Unit {0})
branch name = jump_forward name

unfoldable pub branch_if_zero : String → M (Unit {0})
branch_if_zero name = do
  assert_min_stack_len 1
  last ← pop_bigint
  if eqb_ℤ last (pos 0) then jump_forward name else pure tt

unfoldable pub branch_if_not_zero : String → M (Unit {0})
branch_if_not_zero name = do
  assert_min_stack_len 1
  last ← pop_bigint
  if not (eqb_ℤ last (pos 0)) then jump_forward name else pure tt

-- `while (stack.length()) { stack.pop(); }`
unfoldable pub clear_stack : M (Unit {0})
clear_stack m = ok tt (record m { stack = [] })

-- `this.interpreter.instructionIndex = this.interpreter.instructions.length`
unfoldable pub end_execution : M (Unit {0})
end_execution m = ok tt (record m { instruction_index = length m.instructions })

-- `Return`
unfoldable pub return_op : M (Unit {0})
return_op = do assert_min_stack_len 1; last ← pop_elem; clear_stack; push_elem last; end_execution

-- `Err`
unfoldable pub err_op : M (Unit {0})
err_op = throw Error.teal_encountered_err
