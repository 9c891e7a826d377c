-- ===== src/Teal/Wide.antt =====
-- The 128 bit results of the opcodes `addw` and `mulw`.
use algorand_builder.Base.{ℕ, ◌+◌, ◌*◌, ◌/◌, ◌%◌, ◌^◌, ◌<◌, ◌≡◌, refl, List, ◌∷◌, length, arith}
use algorand_builder.Base.Int.{pos, ◌+ℤ◌, ◌-ℤ◌, pos-mul}
use algorand_builder.Base.Bits.Bounds.{bit_and_mask}
use algorand_builder.Teal.Machine.{Machine, StackElem, uint64, M, ok}
use algorand_builder.Teal.Checks.{steps, max_uint64}
use algorand_builder.Teal.Arith
use algorand_builder.Teal.Numbers.{on}

-- The opcode leaves the number `n` in two words, the low one on top.
pub record InWords (act : M (Unit {0})) (n : ℕ) (a b : ℕ) (m : Machine) (rest : List StackElem)
    : Type 0 where
  pub high : ℕ
  pub low : ℕ
  pub high_fits : high < 2 ^ 64
  pub low_fits : low < 2 ^ 64
  pub exact : high * 2 ^ 64 + low ≡ n
  pub left :
      act (on m a b rest) ≡ ok tt (record m { stack = uint64 (pos low) ∷ uint64 (pos high) ∷ rest })

-- On two unsigned 64 bit integers, with less than 999 elements under them, `addw` leaves their
-- exact sum in two unsigned 64 bit words, the low one on top.
pub addw-exact :
    (a b : ℕ) (m : Machine) (rest : List StackElem)
    → a < 2 ^ 64
    → b < 2 ^ 64
    → length rest < 999
    → InWords Arith.addw (a + b) a b m rest
unfolding steps Arith.addw ◌+ℤ◌ ◌-ℤ◌
addw-exact a b m rest p q h = record {
  high = (a + b) / 2 ^ 64;
  low = (a + b) % 2 ^ 64;
  high_fits = omega arith;
  low_fits = omega arith;
  exact = omega arith;
  left = ground arith;
}

product-lt : (a b : ℕ) → a < 2 ^ 64 → b < 2 ^ 64 → a * b < 2 ^ 64 * 2 ^ 64
product-lt a b p q = grind arith

mulw-left :
    (a b : ℕ) (m : Machine) (rest : List StackElem)
    → a < 2 ^ 64
    → b < 2 ^ 64
    → length rest < 999
    → Arith.mulw (on m a b rest)
      ≡ ok tt (record m {
        stack = uint64 (pos (a * b % 2 ^ 64)) ∷ uint64 (pos (a * b / 2 ^ 64)) ∷ rest;
      })
unfolding steps Arith.mulw
mulw-left a b m rest p q h =
    ground (arith, pos-mul b a, product-lt a b p q, bit_and_mask (b * a) max_uint64 64 refl)

-- On two unsigned 64 bit integers, with less than 999 elements under them, `mulw` leaves their
-- exact product in two unsigned 64 bit words, the low one on top.
pub mulw-exact :
    (a b : ℕ) (m : Machine) (rest : List StackElem)
    → a < 2 ^ 64
    → b < 2 ^ 64
    → length rest < 999
    → InWords Arith.mulw (a * b) a b m rest
mulw-exact a b m rest p q h = record {
  high = a * b / 2 ^ 64;
  low = a * b % 2 ^ 64;
  high_fits = omega (arith, product-lt a b p q);
  low_fits = omega arith;
  exact = omega arith;
  left = mulw-left a b m rest p q h;
}
