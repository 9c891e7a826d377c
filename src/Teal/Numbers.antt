-- ===== src/Teal/Numbers.antt =====
-- What the opcodes on two numbers answer, against arithmetic on the naturals.
use Prim.Native.Nat.{bit_and, bit_or, bit_xor}
use algorand_builder.Base.{
  ℕ, zero, suc, ◌+◌, ◌-◌, ◌*◌, ◌/◌, ◌%◌, ◌^◌, ◌<◌, ◌≡◌, List, ◌∷◌, Option, none, some, Bool, true,
  false, not, ◌&&◌, ◌||◌, length, ltb, leb, ◌==◌, arith, if◌then◌else◌,
}
use algorand_builder.Base.Int.{pos, ◌+ℤ◌, ◌-ℤ◌, ◌*ℤ◌, ◌/ℤ◌, ◌%ℤ◌}
use algorand_builder.Teal.Op.{Op}
use algorand_builder.Teal.Library.{Library}
use algorand_builder.Teal.Machine.{Machine, StackElem, uint64, Error, Outcome, ok, fail}
use algorand_builder.Teal.Checks.{steps}
use algorand_builder.Teal.Execute.{execute_op}
use algorand_builder.Teal.Arith
use algorand_builder.Teal.Compare

-- The answer of an opcode on two numbers: a number, or an error.
pub data Answer : Type 0 where
  number : ℕ → Answer
  error : Error → Answer

-- A truth value.
abbrev pub bit : Bool → ℕ
bit test = if test then 1 else 0

-- An exact result, if it is an unsigned 64 bit integer.
abbrev pub in_range : ℕ → Answer
in_range n = if ltb n (2 ^ 64) then Answer.number n else Answer.error Error.uint64_overflow

-- A result that a zero divisor makes undefined.
abbrev pub divided : ℕ → ℕ → Answer
divided zero n = Answer.error Error.zero_div
divided (suc _) n = Answer.number n

-- What the opcode with the operands `a` and `b`, the second on top, is to answer; `none` for the
-- opcodes that do not take two numbers.
unfoldable pub answer : Op → ℕ → ℕ → Option Answer
answer Op.add a b = some (in_range (a + b))
answer Op.mul a b = some (in_range (a * b))
answer Op.sub a b =
    some (if leb b a then Answer.number (a - b) else Answer.error Error.uint64_underflow)
answer Op.div a b = some (divided b (a / b))
answer Op.modulo a b = some (divided b (a % b))
answer Op.bitwise_and a b = some (Answer.number (bit_and a b))
answer Op.bitwise_or a b = some (Answer.number (bit_or a b))
answer Op.bitwise_xor a b = some (Answer.number (bit_xor a b))
answer Op.less_than a b = some (Answer.number (bit (ltb a b)))
answer Op.greater_than a b = some (Answer.number (bit (ltb b a)))
answer Op.less_than_equal_to a b = some (Answer.number (bit (leb a b)))
answer Op.greater_than_equal_to a b = some (Answer.number (bit (leb b a)))
answer Op.equal_to a b = some (Answer.number (bit (a == b)))
answer Op.not_equal_to a b = some (Answer.number (bit (if a == b then false else true)))
answer Op.and a b = some (Answer.number (bit (not (a == 0) && not (b == 0))))
answer Op.or a b = some (Answer.number (bit (not (a == 0) || not (b == 0))))
answer _ a b = none

-- The operands, the second on top, over the rest of a stack.
abbrev pub on : Machine → ℕ → ℕ → List StackElem → Machine
on m a b rest = record m { stack = uint64 (pos b) ∷ uint64 (pos a) ∷ rest }

-- The outcome that an answer describes: it replaces the operands, or both are gone at the exception.
abbrev pub answered : Answer → Machine → List StackElem → Outcome (Unit {0})
answered (Answer.number n) m rest = ok tt (record m { stack = uint64 (pos n) ∷ rest })
answered (Answer.error e) m rest = fail e (record m { stack = rest })

-- On two naturals, with less than 999 elements under them, each of the 16 opcodes on two
-- numbers answers as exact arithmetic says: the result, overflow, underflow or a zero divisor.
pub execute_op-answers :
    (lib : Library) (op : Op) (a b : ℕ) (m : Machine) (rest : List StackElem) (r : Answer)
    → length rest < 999
    → answer op a b ≡ some r
    → execute_op lib op (on m a b rest) ≡ answered r m rest
unfolding steps answer execute_op ◌+ℤ◌ ◌-ℤ◌ ◌*ℤ◌ ◌/ℤ◌ ◌%ℤ◌ Arith.add Arith.sub Arith.mul Arith.div
    Arith.modulo Arith.bitwise_and Arith.bitwise_or Arith.bitwise_xor Compare.less_than
    Compare.greater_than Compare.less_than_equal_to Compare.greater_than_equal_to Compare.and
    Compare.or Compare.equal_to Compare.not_equal_to Compare.compare_elems
execute_op-answers lib Op.add a b m rest r h e = ground arith
execute_op-answers lib Op.sub a b m rest r h e = ground arith
execute_op-answers lib Op.mul a b m rest r h e = ground arith
execute_op-answers lib Op.div a b m rest r h e = ground arith
execute_op-answers lib Op.modulo a b m rest r h e = ground arith
execute_op-answers lib Op.bitwise_and a b m rest r h e = ground arith
execute_op-answers lib Op.bitwise_or a b m rest r h e = ground arith
execute_op-answers lib Op.bitwise_xor a b m rest r h e = ground arith
execute_op-answers lib Op.less_than a b m rest r h e = ground arith
execute_op-answers lib Op.greater_than a b m rest r h e = ground arith
execute_op-answers lib Op.less_than_equal_to a b m rest r h e = ground arith
execute_op-answers lib Op.greater_than_equal_to a b m rest r h e = ground arith
execute_op-answers lib Op.equal_to a b m rest r h e = ground arith
execute_op-answers lib Op.not_equal_to a b m rest r h e = ground arith
execute_op-answers lib Op.and a b m rest r h e = ground arith
execute_op-answers lib Op.or a b m rest r h e = ground arith
execute_op-answers lib _ a b m rest r h e = cc
