-- ===== src/Teal/Valid/Bits.antt =====
-- `SetBit` and `GetBit` keep the state well-formed.
use native.Mathlib.Nat.{pow-le-pow_right}
use algorand_builder.Base.{
  ℕ, ◌-◌, ◌/◌, ◌%◌, ◌^◌, ◌≤◌, ◌<◌, ◌≡◌, true, false, List, Option, none, some, length, All-get,
  All-set, length-set, get_elem?, set, lt→ltb, ap, arith, Option-cases, inl, inr, if◌then◌else◌,
}
use algorand_builder.Base.Int.{ℤ, pos, negsuc, ltb_ℤ, eqb_ℤ}
use algorand_builder.Base.Bits.Bounds.{bit_or-lt}
use algorand_builder.Teal.Library.{IsByte}
use algorand_builder.Teal.Machine.{StackElem, uint64, bytes}
use algorand_builder.Teal.Checks.{max_uint6, assert_64_bit_index, assert_bytes_index}
use algorand_builder.Teal.Binary.{
  to_binary, bigint_to_binary, pad_start, parse_binary_str_to_bigint,
}
use algorand_builder.Teal.Binary.Value.{
  value-lt, parse-eq-value, length-to_binary, length-pad_start,
}
use algorand_builder.Teal.BitOps
use algorand_builder.Teal.BitOps.{put_char, char_index, bit_mask, with_bit, set_bit_array}
use algorand_builder.Teal.Valid.{IsUint64, IsArray, IsElem}
use algorand_builder.Teal.Valid.Triples.{Keeps, Keeps-throw}
use algorand_builder.Teal.Valid.Rules.{keeps_rules}
use algorand_builder.Teal.Valid.Numbers.{test_fits}

-- The text of a valid number, padded, has 64 characters.
pub padded_length : (n : ℕ) → n < 2 ^ 64 → length (pad_start 64 (to_binary n)) ≡ 64
padded_length n h = length-pad_start 64 (to_binary n) (length-to_binary n 64 (omega arith) h)

put_value_lt :
    (text : List ℕ) (k c : ℕ)
    → k < length text
    → parse_binary_str_to_bigint (put_char text k c) < 2 ^ length text
put_value_lt text k c h =
    rw (lt→ltb _ _ h, parse-eq-value, ← length-set text k c) (value-lt (set text k c))

set_bit_number_fits :
    (z i b : ℤ)
    → IsUint64 z
    → IsUint64 i
    → ltb_ℤ (pos max_uint6) i ≡ false
    → IsUint64 (pos (BitOps.set_bit_number z i b))
unfolding BitOps.set_bit_number bigint_to_binary
set_bit_number_fits (pos n) (pos k) b p q h =
    let text = pad_start 64 (to_binary n) in
    let size : length text ≡ 64 = padded_length n p in
    let inside : char_index (length text) (pos k) < length text = ground arith in
    let e : 2 ^ length text ≡ 2 ^ 64 = ap (λ (w : ℕ). 2 ^ w) size in
    omega (
      arith,
      e,
      put_value_lt text (char_index (length text) (pos k)) (if eqb_ℤ b (pos 0) then b'0' else b'1')
          inside,
    )
set_bit_number_fits (pos n) (negsuc k) b p q h = absurd q
set_bit_number_fits (negsuc n) i b p q h = absurd p

bit_mask_lt : (k : ℕ) → bit_mask k < 256
bit_mask_lt k =
    let h : 2 ^ (7 - k % 8) ≤ 2 ^ 7 = pow-le-pow_right (omega arith) {j = 7} (omega arith) in
    omega arith

with_bit-IsByte : (b : ℤ) (mask byte : ℕ) → mask < 256 → byte < 256 → IsByte (with_bit b mask byte)
with_bit-IsByte b mask byte p q = ground (arith, bit_or-lt byte mask 8 q p)

set_bit_array-IsArray :
    (array : List ℕ) (i b : ℤ) → IsArray array → IsArray (BitOps.set_bit_array array i b)
unfolding BitOps.set_bit_array
set_bit_array-IsArray array (negsuc k) b p = p
set_bit_array-IsArray array (pos k) b p = elim (Option-cases (get_elem? array (k / 8))) [
  | inl e ↦ rw (set_bit_array, e) p
  | inr (byte, e) ↦
      let h : byte < 256 = All-get IsByte array (k / 8) p.1 e in
      rw (set_bit_array, e)
        (
          omega (arith, length-set array (k / 8) (with_bit b (bit_mask k) byte), p.0),
          All-set IsByte array (k / 8) _ p.1
              (with_bit-IsByte b (bit_mask k) byte (bit_mask_lt k) h),
        )
]

module _ {size : ℕ} where
  push_digit-Keeps : (o : Option ℕ) → Keeps size (BitOps.push_digit o)
  unfolding BitOps.push_digit
  push_digit-Keeps none = Keeps-throw _
  push_digit-Keeps (some c) = search (keeps_rules, test_fits true, test_fits false)

  set_bit_of-Keeps :
      (e : StackElem) (i b : ℤ) → IsElem size e → IsUint64 i → Keeps size (BitOps.set_bit_of e i b)
  unfolding BitOps.set_bit_of assert_64_bit_index assert_bytes_index
  set_bit_of-Keeps (uint64 z) i b p q = search (keeps_rules, set_bit_number_fits) depth 8
  set_bit_of-Keeps (bytes r) i b p q = search (keeps_rules, set_bit_array-IsArray) depth 8

  pub set_bit-Keeps : Keeps size BitOps.set_bit
  unfolding BitOps.set_bit
  set_bit-Keeps = search (keeps_rules, set_bit_of-Keeps) depth 12

  get_bit_of-Keeps : (e : StackElem) (i : ℤ) → IsElem size e → Keeps size (BitOps.get_bit_of e i)
  unfolding BitOps.get_bit_of assert_64_bit_index assert_bytes_index
  get_bit_of-Keeps (uint64 z) i p = search (keeps_rules, push_digit-Keeps) depth 8
  get_bit_of-Keeps (bytes r) i p = search (keeps_rules, push_digit-Keeps) depth 8

  pub get_bit-Keeps : Keeps size BitOps.get_bit
  unfolding BitOps.get_bit
  get_bit-Keeps = search (keeps_rules, get_bit_of-Keeps) depth 12
