-- ===== src/Base/Bits/Bounds.antt =====
-- The bit operators keep to the width of their operands, and a mask of low ones is a remainder. Both
-- are read off the recursion on binary digits that the native operators stand for.
use Prim.Native.Nat.{
  bit_and, bit_or, bit_xor, min, max, digits, differ, bit_and-bitwise, bit_or-bitwise,
  bit_xor-bitwise,
}
use native.Mathlib.Nat.{pow-suc, one-le-pow}
use Prim.Native.Nat.{ℕ, zero, suc, ◌+◌, ◌*◌, ◌/◌, ◌%◌, ◌^◌, ◌≤◌, ◌<◌}
use mathlib.Core.Path.{◌≡◌}
use native.Mathlib.Omega.{arith}

module _ (z : ℕ → ℕ) (f : ℕ → ℕ → ℕ) (z-le : (b : ℕ) → z b ≤ b)
    (f-bit : (a b : ℕ) → a < 2 → b < 2 → f a b < 2) where
  digits-lt : (n a b k : ℕ) → a < 2 ^ k → b < 2 ^ k → digits z f n a b < 2 ^ k
  digits-lt zero a b k p q = omega (arith, z-le b)
  digits-lt (suc n) zero b k p q = omega (arith, z-le b)
  digits-lt (suc n) (suc a) b zero p q = absurd (omega arith)
  digits-lt (suc n) (suc a) b (suc k) p q =
      let e : 2 ^ suc k ≡ 2 ^ k * 2 = pow-suc 2 k in
      let half = digits-lt n (suc a / 2) (b / 2) k (omega arith) (omega arith) in
      let bit = f-bit (suc a % 2) (b % 2) (omega arith) (omega arith) in omega arith

differ-bit : (a b : ℕ) → a < 2 → b < 2 → differ a b < 2
differ-bit zero y p q = q
differ-bit (suc x) zero p q = p
differ-bit (suc zero) (suc y) p q = omega arith
differ-bit (suc (suc x)) (suc y) p q = absurd (omega arith)

pub bit_and-lt : (a b k : ℕ) → a < 2 ^ k → b < 2 ^ k → bit_and a b < 2 ^ k
bit_and-lt a b k p q =
    rw bit_and-bitwise
      (digits-lt (λ _. 0) min (λ _. omega arith) (λ a b p q. omega arith) a a b k p q)

pub bit_or-lt : (a b k : ℕ) → a < 2 ^ k → b < 2 ^ k → bit_or a b < 2 ^ k
bit_or-lt a b k p q =
    rw bit_or-bitwise
      (digits-lt (λ b. b) max (λ _. omega arith) (λ a b p q. omega arith) a a b k p q)

pub bit_xor-lt : (a b k : ℕ) → a < 2 ^ k → b < 2 ^ k → bit_xor a b < 2 ^ k
bit_xor-lt a b k p q =
    rw bit_xor-bitwise (digits-lt (λ b. b) differ (λ _. omega arith) differ-bit a a b k p q)

mod_double : (x p : ℕ) → 0 < p → x % (p * 2) ≡ x / 2 % p * 2 + x % 2
mod_double x p h = grind arith

mask_digits : (n a mask k : ℕ) → a ≤ n → mask + 1 ≡ 2 ^ k → digits (λ _. 0) min n a mask ≡ a % 2 ^ k
mask_digits zero zero mask k p q = omega arith
mask_digits zero (suc a) mask k p q = absurd (omega arith)
mask_digits (suc n) zero mask k p q = omega arith
mask_digits (suc n) (suc a) mask zero p q =
    let ih = mask_digits n (suc a / 2) (mask / 2) zero (omega arith) (omega arith) in omega arith
mask_digits (suc n) (suc a) mask (suc k) p q =
    let e : 2 ^ suc k ≡ 2 ^ k * 2 = pow-suc 2 k in
    let ih = mask_digits n (suc a / 2) (mask / 2) k (omega arith) (omega arith) in
    let d = mod_double (suc a) (2 ^ k) (omega (arith, one-le-pow k 2)) in rw e (omega arith)

-- A mask of `k` ones takes the remainder by `2 ^ k`.
pub bit_and_mask : (a mask k : ℕ) → mask + 1 ≡ 2 ^ k → bit_and a mask ≡ a % 2 ^ k
bit_and_mask a mask k q = rw bit_and-bitwise (mask_digits a a mask k (omega arith) q)
