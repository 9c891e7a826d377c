-- ===== src/Teal/Arith.antt =====
-- packages/runtime/src/interpreter/opcode-list.ts: the opcodes on two numbers, and the wide ones.
use algorand_builder.Base.{if◌then◌else◌}
use algorand_builder.Base.Int.{pos, ◌+ℤ◌, ◌-ℤ◌, ◌*ℤ◌, ◌/ℤ◌, ◌%ℤ◌, ltb_ℤ, eqb_ℤ}
use algorand_builder.Base.Bits.{not_ℤ, and_ℤ, or_ℤ, xor_ℤ, shift_right}
use algorand_builder.Teal.Machine.{uint64, Error, M, throw_if, ◌>>=◌, ◌>>◌}
use algorand_builder.Teal.Stack.{push_elem}
use algorand_builder.Teal.Checks.{
  max_uint64, assert_min_stack_len, check_overflow, check_underflow, pop_bigint,
}

unfoldable pub add : M (Unit {0})
add = do
  assert_min_stack_len 2
  last ← pop_bigint
  prev ← pop_bigint
  let result = prev +ℤ last
  check_overflow result
  push_elem (uint64 result)

unfoldable pub sub : M (Unit {0})
sub = do
  assert_min_stack_len 2
  last ← pop_bigint
  prev ← pop_bigint
  let result = prev -ℤ last
  check_underflow result
  push_elem (uint64 result)

unfoldable pub div : M (Unit {0})
div = do
  assert_min_stack_len 2
  last ← pop_bigint
  prev ← pop_bigint
  throw_if (eqb_ℤ last (pos 0)) Error.zero_div
  push_elem (uint64 (prev /ℤ last))

unfoldable pub mul : M (Unit {0})
mul = do
  assert_min_stack_len 2
  last ← pop_bigint
  prev ← pop_bigint
  let result = prev *ℤ last
  check_overflow result
  push_elem (uint64 result)

-- `Mod`
unfoldable pub modulo : M (Unit {0})
modulo = do
  assert_min_stack_len 2
  last ← pop_bigint
  prev ← pop_bigint
  throw_if (eqb_ℤ last (pos 0)) Error.zero_div
  push_elem (uint64 (prev %ℤ last))

unfoldable pub bitwise_or : M (Unit {0})
bitwise_or = do
  assert_min_stack_len 2
  last ← pop_bigint
  prev ← pop_bigint
  push_elem (uint64 (or_ℤ prev last))

unfoldable pub bitwise_and : M (Unit {0})
bitwise_and = do
  assert_min_stack_len 2
  last ← pop_bigint
  prev ← pop_bigint
  push_elem (uint64 (and_ℤ prev last))

unfoldable pub bitwise_xor : M (Unit {0})
bitwise_xor = do
  assert_min_stack_len 2
  last ← pop_bigint
  prev ← pop_bigint
  push_elem (uint64 (xor_ℤ prev last))

unfoldable pub bitwise_not : M (Unit {0})
bitwise_not = do assert_min_stack_len 1; last ← pop_bigint; push_elem (uint64 (not_ℤ last))

unfoldable pub addw : M (Unit {0})
addw = do
  assert_min_stack_len 2
  value_a ← pop_bigint
  value_b ← pop_bigint
  let value_c = value_a +ℤ value_b
  let carried =
      push_elem (uint64 (pos 1)) >> push_elem (uint64 (value_c -ℤ pos max_uint64 -ℤ pos 1))
  let plain = push_elem (uint64 (pos 0)) >> push_elem (uint64 value_c)
  if ltb_ℤ (pos max_uint64) value_c then carried else plain

unfoldable pub mulw : M (Unit {0})
mulw = do
  assert_min_stack_len 2
  value_a ← pop_bigint
  value_b ← pop_bigint
  let result = value_a *ℤ value_b
  let low = and_ℤ result (pos max_uint64)
  check_overflow low
  let high = shift_right result 64
  check_overflow high
  push_elem (uint64 high)
  push_elem (uint64 low)
