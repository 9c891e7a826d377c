-- ===== src/Teal/Compare.antt =====
-- packages/runtime/src/interpreter/opcode-list.ts: comparisons and logical connectives. Arrays are
-- compared by `compareArray` of packages/runtime/src/lib/compare.ts.
use algorand_builder.Base.{
  ℕ, List, [], ◌∷◌, Bool, true, false, not, ◌&&◌, ◌||◌, ◌==◌, if◌then◌else◌,
}
use algorand_builder.Base.Int.{ℤ, pos, ltb_ℤ, leb_ℤ, eqb_ℤ}
use algorand_builder.Teal.Machine.{StackElem, uint64, bytes, Error, M, throw, read, ◌>>=◌, ◌>>◌}
use algorand_builder.Teal.Stack.{push_elem, pop_elem}
use algorand_builder.Teal.Checks.{assert_min_stack_len, pop_bigint, push_boolean_check}

-- `if (check) { push(1n) } else { push(0n) }`, as the opcodes write it out
abbrev pub push_test : Bool → M (Unit {0})
push_test check = push_elem (uint64 (if check then pos 1 else pos 0))

unfoldable pub less_than : M (Unit {0})
less_than = do
  assert_min_stack_len 2
  last ← pop_bigint
  prev ← pop_bigint
  push_test (ltb_ℤ prev last)

unfoldable pub greater_than : M (Unit {0})
greater_than = do
  assert_min_stack_len 2
  last ← pop_bigint
  prev ← pop_bigint
  push_test (ltb_ℤ last prev)

unfoldable pub less_than_equal_to : M (Unit {0})
less_than_equal_to = do
  assert_min_stack_len 2
  last ← pop_bigint
  prev ← pop_bigint
  push_test (leb_ℤ prev last)

unfoldable pub greater_than_equal_to : M (Unit {0})
greater_than_equal_to = do
  assert_min_stack_len 2
  last ← pop_bigint
  prev ← pop_bigint
  push_test (leb_ℤ last prev)

-- A `bigint` counts as true unless it is zero.
abbrev pub truthy : ℤ → Bool
truthy z = not (eqb_ℤ z (pos 0))

unfoldable pub and : M (Unit {0})
and = do
  assert_min_stack_len 2
  last ← pop_bigint
  prev ← pop_bigint
  push_test (truthy last && truthy prev)

unfoldable pub or : M (Unit {0})
or = do
  assert_min_stack_len 2
  last ← pop_bigint
  prev ← pop_bigint
  push_test (truthy prev || truthy last)

-- `Not`
unfoldable pub not_op : M (Unit {0})
not_op = do assert_min_stack_len 1; last ← pop_bigint; push_test (eqb_ℤ last (pos 0))

-- The `Uint8Array` case of `compareArray`.
unfoldable pub compare_array : List ℕ → List ℕ → Bool
compare_array [] [] = true
compare_array [] (y ∷ ys) = false
compare_array (x ∷ xs) [] = false
compare_array (x ∷ xs) (y ∷ ys) = x == y && compare_array xs ys

-- The two branches of `EqualTo` and `NotEqualTo` on the type of the elements; `flip` is the negation
-- that the second applies.
unfoldable pub compare_elems : (Bool → Bool) → StackElem → StackElem → M (Unit {0})
compare_elems flip (uint64 last) (uint64 prev) = push_boolean_check (flip (eqb_ℤ last prev))
compare_elems flip (bytes last) (bytes prev) = do
  a ← read last
  b ← read prev
  push_boolean_check (flip (compare_array a b))
compare_elems flip (uint64 _) (bytes _) = throw Error.invalid_type
compare_elems flip (bytes _) (uint64 _) = throw Error.invalid_type

unfoldable pub equal_to : M (Unit {0})
equal_to = do
  assert_min_stack_len 2
  last ← pop_elem
  prev ← pop_elem
  compare_elems (λ b. b) last prev

unfoldable pub not_equal_to : M (Unit {0})
not_equal_to = do
  assert_min_stack_len 2
  last ← pop_elem
  prev ← pop_elem
  compare_elems not last prev
