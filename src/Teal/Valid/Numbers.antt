-- ===== src/Teal/Valid/Numbers.antt =====
-- The numbers that the opcodes compute are unsigned 64 bit integers.
use Prim.Native.Nat.{bit_and}
use native.Mathlib.Nat.{div-le_self}
use algorand_builder.Base.{ℕ, ◌*◌, ◌^◌, ◌<◌, ◌≡◌, Bool, true, false, arith, if◌then◌else◌}
use algorand_builder.Base.Int.{ℤ, pos, negsuc, ◌+ℤ◌, ◌-ℤ◌, ◌*ℤ◌, ◌/ℤ◌, ◌%ℤ◌, ltb_ℤ, eqb_ℤ, pos-mul}
use algorand_builder.Base.Bits.{and_ℤ, or_ℤ, xor_ℤ, shift_right}
use algorand_builder.Base.Bits.Bounds.{bit_and-lt, bit_or-lt, bit_xor-lt}
use algorand_builder.Teal.Checks.{max_uint64}
use algorand_builder.Teal.Valid.{IsUint64}

module _ (a b : ℤ) (p : IsUint64 a) (q : IsUint64 b) where
  pub add_fits : ltb_ℤ (pos max_uint64) (a +ℤ b) ≡ false → IsUint64 (a +ℤ b)
  unfolding ◌+ℤ◌
  add_fits h = ground arith

  pub sub_fits : ltb_ℤ (a -ℤ b) (pos 0) ≡ false → IsUint64 (a -ℤ b)
  unfolding ◌-ℤ◌
  sub_fits h = ground arith

  pub mul_fits : ltb_ℤ (pos max_uint64) (a *ℤ b) ≡ false → IsUint64 (a *ℤ b)
  unfolding ◌*ℤ◌
  mul_fits h = ground arith

  pub carry_fits :
      ltb_ℤ (pos max_uint64) (a +ℤ b) ≡ true → IsUint64 (a +ℤ b -ℤ pos max_uint64 -ℤ pos 1)
  unfolding ◌+ℤ◌ ◌-ℤ◌
  carry_fits h = ground arith

pub div_fits : (a b : ℤ) → IsUint64 a → IsUint64 b → IsUint64 (a /ℤ b)
unfolding ◌/ℤ◌
div_fits (pos a) (pos b) p q = omega (arith, div-le_self a b)
div_fits (pos a) (negsuc b) p q = absurd q
div_fits (negsuc a) b p q = absurd p

pub mod_fits : (a b : ℤ) → IsUint64 a → IsUint64 b → eqb_ℤ b (pos 0) ≡ false → IsUint64 (a %ℤ b)
unfolding ◌%ℤ◌
mod_fits (pos a) (pos b) p q h = ground arith
mod_fits (pos a) (negsuc b) p q h = absurd q
mod_fits (negsuc a) b p q h = absurd p

pub or_fits : (a b : ℤ) → IsUint64 a → IsUint64 b → IsUint64 (or_ℤ a b)
or_fits (pos a) (pos b) p q = bit_or-lt a b 64 p q
or_fits (pos a) (negsuc b) p q = absurd q
or_fits (negsuc a) b p q = absurd p

pub and_fits : (a b : ℤ) → IsUint64 a → IsUint64 b → IsUint64 (and_ℤ a b)
and_fits (pos a) (pos b) p q = bit_and-lt a b 64 p q
and_fits (pos a) (negsuc b) p q = absurd q
and_fits (negsuc a) b p q = absurd p

pub xor_fits : (a b : ℤ) → IsUint64 a → IsUint64 b → IsUint64 (xor_ℤ a b)
xor_fits (pos a) (pos b) p q = bit_xor-lt a b 64 p q
xor_fits (pos a) (negsuc b) p q = absurd q
xor_fits (negsuc a) b p q = absurd p

-- What passes `checkOverflow` and is not negative fits: the parts of a wide product.
fits_of_check : (n : ℕ) → ltb_ℤ (pos max_uint64) (pos n) ≡ false → n < 2 ^ 64
fits_of_check n h = ground arith

pub low_fits :
    (a b : ℤ)
    → IsUint64 a
    → IsUint64 b
    → ltb_ℤ (pos max_uint64) (and_ℤ (a *ℤ b) (pos max_uint64)) ≡ false
    → IsUint64 (and_ℤ (a *ℤ b) (pos max_uint64))
low_fits (pos a) (pos b) p q h =
    rw pos-mul (fits_of_check (bit_and (a * b) max_uint64) (rw pos-mul at h))
low_fits (pos a) (negsuc b) p q h = absurd q
low_fits (negsuc a) b p q h = absurd p

pub high_fits :
    (a b : ℤ)
    → IsUint64 a
    → IsUint64 b
    → ltb_ℤ (pos max_uint64) (shift_right (a *ℤ b) 64) ≡ false
    → IsUint64 (shift_right (a *ℤ b) 64)
unfolding ◌*ℤ◌
high_fits (pos a) (pos b) p q h = ground arith
high_fits (pos a) (negsuc b) p q h = absurd q
high_fits (negsuc a) b p q h = absurd p

-- The results of tests.
pub test_fits : (b : Bool) → IsUint64 (if b then pos 1 else pos 0)
test_fits b = ground arith
