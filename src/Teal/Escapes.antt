-- ===== src/Teal/Escapes.antt =====
-- packages/runtime/src/interpreter/opcode-list.ts: opcodes that do not keep to unsigned 64 bit
-- integers.
use algorand_builder.Base.{ℕ, ◌<◌, ◌^◌, ◌≡◌, List, ◌∷◌, length, arith}
use algorand_builder.Base.Int.{ℤ, pos, negsuc}
use algorand_builder.Teal.Machine.{Machine, StackElem, uint64, Error, ok, fail}
use algorand_builder.Teal.Checks.{steps}
use algorand_builder.Teal.Arith
use algorand_builder.Teal.BitOps
use algorand_builder.Teal.Binary.{bigint_to_binary}
use algorand_builder.Teal.Binary.Value.{length-to_binary}
use algorand_builder.Teal.Valid.{IsUint64}
use algorand_builder.Teal.Moves.{over}

-- `~` of every natural number leaves a number that is no unsigned 64 bit integer, with less
-- than 1000 elements under it.
pub bitwise_not-escapes :
    (m : Machine) (n : ℕ) (rest : List StackElem)
    → length rest < 1000
    → (z : ℤ) × (Arith.bitwise_not (over m (uint64 (pos n) ∷ rest))
        ≡ ok tt (over m (uint64 z ∷ rest)))
      × (IsUint64 z → ⊥)
unfolding steps Arith.bitwise_not
bitwise_not-escapes m n rest h = (negsuc n, ground arith, λ v. v)

-- `getbit` of a number throws at every index from 1 to 63 at or above the number's highest bit,
-- where a bit is zero.
pub get_bit-throws :
    (m : Machine) (n k : ℕ) (rest : List StackElem)
    → 0 < k
    → k < 64
    → n < 2 ^ k
    → BitOps.get_bit (over m (uint64 (pos k) ∷ uint64 (pos n) ∷ rest))
      ≡ fail Error.js_error (over m rest)
unfolding steps BitOps.get_bit BitOps.get_bit_of BitOps.char_of_bit BitOps.push_digit
    bigint_to_binary
get_bit-throws m n k rest p q h = ground (arith, length-to_binary n k p h)
