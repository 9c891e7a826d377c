-- ===== src/Teal/Valid/Opcodes.antt =====
-- The opcodes on numbers and those that move elements keep the state well-formed.
use algorand_builder.Base.{ℕ, Bool, true, false}
use algorand_builder.Teal.Machine.{StackElem, uint64, bytes, pure}
use algorand_builder.Teal.Checks.{check_overflow, check_underflow, push_boolean_check}
use algorand_builder.Teal.Arith
use algorand_builder.Teal.Compare
use algorand_builder.Teal.Shuffle
use algorand_builder.Teal.Valid.Triples.{Keeps, Keeps-throw, forget}
use algorand_builder.Teal.Valid.Rules.{keeps_rules}
use algorand_builder.Teal.Valid.Numbers.{
  add_fits, sub_fits, mul_fits, carry_fits, div_fits, mod_fits, or_fits, and_fits, xor_fits,
  low_fits, high_fits, test_fits,
}

module _ {size : ℕ} where
  pub add-Keeps : Keeps size Arith.add
  unfolding Arith.add check_overflow
  add-Keeps = search (keeps_rules, add_fits) depth 12

  pub sub-Keeps : Keeps size Arith.sub
  unfolding Arith.sub check_underflow
  sub-Keeps = search (keeps_rules, sub_fits) depth 12

  pub div-Keeps : Keeps size Arith.div
  unfolding Arith.div
  div-Keeps = search (keeps_rules, div_fits) depth 12

  pub mul-Keeps : Keeps size Arith.mul
  unfolding Arith.mul check_overflow
  mul-Keeps = search (keeps_rules, mul_fits) depth 12

  pub modulo-Keeps : Keeps size Arith.modulo
  unfolding Arith.modulo
  modulo-Keeps = search (keeps_rules, mod_fits) depth 12

  pub bitwise_or-Keeps : Keeps size Arith.bitwise_or
  unfolding Arith.bitwise_or
  bitwise_or-Keeps = search (keeps_rules, or_fits) depth 12

  pub bitwise_and-Keeps : Keeps size Arith.bitwise_and
  unfolding Arith.bitwise_and
  bitwise_and-Keeps = search (keeps_rules, and_fits) depth 12

  pub bitwise_xor-Keeps : Keeps size Arith.bitwise_xor
  unfolding Arith.bitwise_xor
  bitwise_xor-Keeps = search (keeps_rules, xor_fits) depth 12

  pub addw-Keeps : Keeps size Arith.addw
  unfolding Arith.addw
  addw-Keeps = search (keeps_rules, test_fits false, test_fits true, carry_fits, add_fits) depth 12

  pub mulw-Keeps : Keeps size Arith.mulw
  unfolding Arith.mulw check_overflow
  mulw-Keeps = search (keeps_rules, low_fits, high_fits) depth 14

  pub less_than-Keeps : Keeps size Compare.less_than
  unfolding Compare.less_than
  less_than-Keeps = search (keeps_rules, test_fits) depth 12

  pub greater_than-Keeps : Keeps size Compare.greater_than
  unfolding Compare.greater_than
  greater_than-Keeps = search (keeps_rules, test_fits) depth 12

  pub less_than_equal_to-Keeps : Keeps size Compare.less_than_equal_to
  unfolding Compare.less_than_equal_to
  less_than_equal_to-Keeps = search (keeps_rules, test_fits) depth 12

  pub greater_than_equal_to-Keeps : Keeps size Compare.greater_than_equal_to
  unfolding Compare.greater_than_equal_to
  greater_than_equal_to-Keeps = search (keeps_rules, test_fits) depth 12

  pub and-Keeps : Keeps size Compare.and
  unfolding Compare.and
  and-Keeps = search (keeps_rules, test_fits) depth 12

  pub or-Keeps : Keeps size Compare.or
  unfolding Compare.or
  or-Keeps = search (keeps_rules, test_fits) depth 12

  pub not_op-Keeps : Keeps size Compare.not_op
  unfolding Compare.not_op
  not_op-Keeps = search (keeps_rules, test_fits) depth 12

  compare_elems-Keeps :
      (flip : Bool → Bool) (last prev : StackElem)
      → Keeps size (Compare.compare_elems flip last prev)
  unfolding Compare.compare_elems push_boolean_check
  compare_elems-Keeps flip (uint64 a) (uint64 b) = search (keeps_rules, test_fits)
  compare_elems-Keeps flip (bytes a) (bytes b) = search (keeps_rules, test_fits) depth 8
  compare_elems-Keeps flip (uint64 a) (bytes b) = Keeps-throw _
  compare_elems-Keeps flip (bytes a) (uint64 b) = Keeps-throw _

  pub equal_to-Keeps : Keeps size Compare.equal_to
  unfolding Compare.equal_to
  equal_to-Keeps = search (keeps_rules, compare_elems-Keeps) depth 8

  pub not_equal_to-Keeps : Keeps size Compare.not_equal_to
  unfolding Compare.not_equal_to
  not_equal_to-Keeps = search (keeps_rules, compare_elems-Keeps) depth 8

  pub pure-Keeps : Keeps size (pure tt)
  pure-Keeps = record { at = λ m h. forget h }

  pub pop_op-Keeps : Keeps size Shuffle.pop_op
  unfolding Shuffle.pop_op
  pop_op-Keeps = search (keeps_rules, pure-Keeps) depth 8

  pub dup-Keeps : Keeps size Shuffle.dup
  unfolding Shuffle.dup
  dup-Keeps = search keeps_rules depth 10

  pub dup2-Keeps : Keeps size Shuffle.dup2
  unfolding Shuffle.dup2
  dup2-Keeps = search keeps_rules depth 14

  pub swap-Keeps : Keeps size Shuffle.swap
  unfolding Shuffle.swap
  swap-Keeps = search keeps_rules depth 10

  pub select-Keeps : Keeps size Shuffle.select
  unfolding Shuffle.select
  select-Keeps = search keeps_rules depth 12

  pub assert-Keeps : Keeps size Shuffle.assert
  unfolding Shuffle.assert
  assert-Keeps = search keeps_rules depth 12
