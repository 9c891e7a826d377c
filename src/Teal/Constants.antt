-- ===== src/Teal/Constants.antt =====
-- packages/runtime/src/interpreter/opcode-list.ts: constants and the scratch space. A bad index has
-- been refused before an element is fetched.
use algorand_builder.Base.{ℕ, List, Option, none, some, get_elem?, set}
use algorand_builder.Base.Int.{ℤ}
use algorand_builder.Teal.Op.{Ref}
use algorand_builder.Teal.Machine.{
  StackElem, uint64, bytes, Error, M, ok, pure, throw, gets, ◌>>=◌, ◌>>◌,
}
use algorand_builder.Teal.Stack.{push_elem, pop_elem}
use algorand_builder.Teal.Checks.{assert_min_stack_len, check_index_bound, assert_arr_length}

-- An element of an array; JavaScript's `undefined` fails the assertion on its type.
abbrev pub fetch : {A : Type 0} → Option A → M A
fetch none = throw Error.invalid_type
fetch (some a) = pure a

-- `Arg`: the constructor has found the array.
unfoldable pub arg : Ref → M (Unit {0})
arg r = do push_elem (bytes r)

unfoldable pub set_bytecblock : List Ref → M (Unit {0})
set_bytecblock block m = ok tt (record m { bytecblock = block })

unfoldable pub bytecblock : List Ref → M (Unit {0})
bytecblock block = do assert_arr_length block; set_bytecblock block

unfoldable pub bytec : Option ℕ → M (Unit {0})
bytec none = throw Error.index_out_of_bound
bytec (some index) = do
  block ← gets (λ m. m.bytecblock)
  check_index_bound index block
  r ← fetch (get_elem? block index)
  push_elem (bytes r)

unfoldable pub set_intcblock : List ℤ → M (Unit {0})
set_intcblock block m = ok tt (record m { intcblock = block })

unfoldable pub intcblock : List ℤ → M (Unit {0})
intcblock block = do assert_arr_length block; set_intcblock block

unfoldable pub intc : Option ℕ → M (Unit {0})
intc none = throw Error.index_out_of_bound
intc (some index) = do
  block ← gets (λ m. m.intcblock)
  check_index_bound index block
  z ← fetch (get_elem? block index)
  push_elem (uint64 z)

unfoldable pub set_scratch : ℕ → StackElem → M (Unit {0})
set_scratch index e m = ok tt (record m { scratch = set m.scratch index e })

unfoldable pub store : ℕ → M (Unit {0})
store index = do
  check_index_bound index (← gets (λ m. m.scratch))
  assert_min_stack_len 1
  top ← pop_elem
  set_scratch index top

unfoldable pub load : ℕ → M (Unit {0})
load index = do
  scratch ← gets (λ m. m.scratch)
  check_index_bound index scratch
  e ← fetch (get_elem? scratch index)
  push_elem e

-- `Int` and `PushInt`: the constructor has parsed and checked the number.
unfoldable pub int : ℤ → M (Unit {0})
int z = do push_elem (uint64 z)
