-- ===== src/Teal/Shuffle.antt =====
-- packages/runtime/src/interpreter/opcode-list.ts: the opcodes that move stack elements around.
use algorand_builder.Base.{ℕ, zero, suc, ◌+◌, List, [], ◌∷◌, Option, none, some, not, if◌then◌else◌}
use algorand_builder.Base.Int.{pos, eqb_ℤ}
use algorand_builder.Teal.Machine.{StackElem, Error, M, throw, throw_if, pure, ◌>>=◌, ◌>>◌}
use algorand_builder.Teal.Stack.{push, push_elem, pop_elem}
use algorand_builder.Teal.Checks.{assert_min_stack_len, pop_bigint}

-- `Pop`
unfoldable pub pop_op : M (Unit {0})
pop_op = do assert_min_stack_len 1; _ ← pop_elem; pure tt

unfoldable pub dup : M (Unit {0})
dup = do assert_min_stack_len 1; last_value ← pop_elem; push_elem last_value; push_elem last_value

unfoldable pub dup2 : M (Unit {0})
dup2 = do
  assert_min_stack_len 2
  last_value_a ← pop_elem
  last_value_b ← pop_elem
  push_elem last_value_b
  push_elem last_value_a
  push_elem last_value_b
  push_elem last_value_a

unfoldable pub swap : M (Unit {0})
swap = do assert_min_stack_len 2; a ← pop_elem; b ← pop_elem; push_elem a; push_elem b

unfoldable pub select : M (Unit {0})
select = do
  assert_min_stack_len 3
  to_check ← pop_bigint
  not_zero_selection ← pop_elem
  is_zero_selection ← pop_elem
  if not (eqb_ℤ to_check (pos 0)) then push_elem not_zero_selection else push_elem is_zero_selection

abbrev pub pushed_temp : Option (List StackElem) → M (List StackElem)
pushed_temp none = throw Error.stack_overflow
pushed_temp (some temp) = pure temp

-- `tempStack.push(target)`
abbrev pub push_temp : ℕ → StackElem → List StackElem → M (List StackElem)
push_temp limit e temp = pushed_temp (push limit e temp)

-- `for (let i = 0; i <= this.depth; ++i) { target = stack.pop(); tempStack.push(target); }`, with
-- the rounds left, the capacity of `tempStack` and its content
unfoldable pub pop_to_temp : ℕ → ℕ → List StackElem → M (List StackElem)
pop_to_temp zero limit temp = pure temp
pop_to_temp (suc rounds) limit temp = do
  target ← pop_elem
  temp' ← push_temp limit target temp
  pop_to_temp rounds limit temp'

-- `while (tempStack.length()) { stack.push(tempStack.pop()); }`
unfoldable pub push_back : List StackElem → M (Unit {0})
push_back [] = pure tt
push_back (e ∷ temp) = do push_elem e; push_back temp

-- `target` is what the first loop popped last, the top of `tempStack`; the loop runs at least once.
unfoldable pub push_target : List StackElem → M (Unit {0})
push_target [] = throw Error.js_error
push_target (target ∷ temp) = push_elem target

unfoldable pub dig : ℕ → M (Unit {0})
dig depth = do
  assert_min_stack_len (depth + 1)
  temp ← pop_to_temp (suc depth) (depth + 1) []
  push_back temp
  push_target temp

unfoldable pub assert : M (Unit {0})
assert = do
  assert_min_stack_len 1
  top ← pop_bigint
  throw_if (eqb_ℤ top (pos 0)) Error.teal_encountered_err
