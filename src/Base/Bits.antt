-- ===== src/Base/Bits.antt =====
-- The bit operators of TypeScript's `bigint`, which act on an infinite two's complement: `~n` is
-- `-n - 1`, so an operator on a negative operand is one on the complements, and a right shift
-- rounds down.
pub mod Bounds
use Prim.Native.Nat.{ℕ, ◌-◌, ◌/◌, ◌^◌, bit_and, bit_or, bit_xor}
use algorand_builder.Base.Int.{ℤ, pos, negsuc}

-- `~a`
abbrev pub not_ℤ : ℤ → ℤ
not_ℤ (pos a) = negsuc a
not_ℤ (negsuc a) = pos a

-- a & ~b, on naturals
abbrev pub and_not : ℕ → ℕ → ℕ
and_not a b = a - bit_and a b

-- `a & b`
abbrev pub and_ℤ : ℤ → ℤ → ℤ
and_ℤ (pos a) (pos b) = pos (bit_and a b)
and_ℤ (pos a) (negsuc b) = pos (and_not a b)
and_ℤ (negsuc a) (pos b) = pos (and_not b a)
and_ℤ (negsuc a) (negsuc b) = negsuc (bit_or a b)

-- `a | b`
abbrev pub or_ℤ : ℤ → ℤ → ℤ
or_ℤ (pos a) (pos b) = pos (bit_or a b)
or_ℤ (pos a) (negsuc b) = negsuc (and_not b a)
or_ℤ (negsuc a) (pos b) = negsuc (and_not a b)
or_ℤ (negsuc a) (negsuc b) = negsuc (bit_and a b)

-- `a ^ b`
abbrev pub xor_ℤ : ℤ → ℤ → ℤ
xor_ℤ (pos a) (pos b) = pos (bit_xor a b)
xor_ℤ (pos a) (negsuc b) = negsuc (bit_xor a b)
xor_ℤ (negsuc a) (pos b) = negsuc (bit_xor a b)
xor_ℤ (negsuc a) (negsuc b) = pos (bit_xor a b)

-- `a >> k`
abbrev pub shift_right : ℤ → ℕ → ℤ
shift_right (pos a) k = pos (a / 2 ^ k)
shift_right (negsuc a) k = negsuc (a / 2 ^ k)
