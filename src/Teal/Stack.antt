-- ===== src/Teal/Stack.antt =====
-- packages/runtime/src/lib/stack.ts: the stack with a capacity. `push` and `pop` here are the two
-- methods on a list, last pushed first; `push_elem` and `pop_elem` are the calls on the
-- interpreter's stack, whose capacity is the default of the constructor.
use Prim.Native.Nat.{min}
use algorand_builder.Base.{ℕ, List, [], ◌∷◌, Option, none, some, length, take, ◌==◌, if◌then◌else◌}
use algorand_builder.Teal.Machine.{StackElem, Error, M, ok, fail}

abbrev pub capacity : ℕ
capacity = 1000

module _ {ℓ} {A : Type ℓ} where
  -- `none` is the exception "Stack overflow"
  abbrev pub push : ℕ → A → List A → Option (List A)
  push limit item items = if length items == limit then none else some (item ∷ items)

  -- `none` is the exception "pop from empty stack"
  abbrev pub pop : List A → Option (A × List A)
  pop [] = none
  pop (item ∷ items) = some (item, items)

  -- The top elements, at most `depth` of them.
  pub debug : ℕ → List A → List A
  debug depth items = take (min depth (length items)) items

abbrev pub pushed : Option (List StackElem) → M (Unit {0})
pushed none m = fail Error.stack_overflow m
pushed (some s) m = ok tt (record m { stack = s })

-- `stack.push(item)`
unfoldable pub push_elem : StackElem → M (Unit {0})
push_elem e m = pushed (push capacity e m.stack) m

abbrev pub popped : Option (StackElem × List StackElem) → M StackElem
popped none m = fail Error.empty_stack m
popped (some (e, s)) m = ok e (record m { stack = s })

-- `stack.pop()`
unfoldable pub pop_elem : M StackElem
pop_elem m = popped (pop m.stack) m
