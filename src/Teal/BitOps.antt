-- ===== src/Teal/BitOps.antt =====
-- packages/runtime/src/interpreter/opcode-list.ts: `SetBit` and `GetBit`, on a number through its
-- binary numeral and on an array in place.
use Prim.Native.Nat.{bit_or}
use algorand_builder.Base.{
  ℕ, ◌+◌, ◌-◌, ◌/◌, ◌%◌, ◌^◌, List, [], ◌∷◌, ◌++◌, Option, none, some, length, get_elem?, set,
  replicate, ltb, ◌==◌, if◌then◌else◌,
}
use algorand_builder.Base.Int.{ℤ, pos, negsuc, ltb_ℤ, eqb_ℤ}
use algorand_builder.Base.Bits.{and_not}
use algorand_builder.Teal.Machine.{
  StackElem, uint64, bytes, Error, M, throw, throw_if, read, write, ◌>>=◌, ◌>>◌,
}
use algorand_builder.Teal.Stack.{push_elem, pop_elem}
use algorand_builder.Teal.Checks.{
  assert_min_stack_len, pop_bigint, assert_64_bit_index, assert_bytes_index,
}
use algorand_builder.Teal.Binary.{
  bigint_to_binary, to_binary, pad_start, parse_binary_str_to_bigint,
}

-- `Math.floor(Number(index) / 8)`
abbrev pub byte_index : ℤ → ℤ
byte_index (pos k) = pos (k / 8)
byte_index (negsuc k) = negsuc (k / 8)

-- `binaryArr[k] = c`: past its end an array grows, with holes.
abbrev pub put_char : List ℕ → ℕ → ℕ → List ℕ
put_char text k c =
    if ltb k (length text) then set text k c else text ++ replicate (k - length text) 0 ++ c ∷ []

-- `size - Number(index) - 1`, where it is not negative
abbrev pub char_index : ℕ → ℤ → ℕ
char_index size (pos k) = size - k - 1
char_index size (negsuc k) = size + k

-- The number with one bit replaced.
unfoldable pub set_bit_number : ℤ → ℤ → ℤ → ℕ
set_bit_number target index bit =
    let binary_arr = pad_start 64 (bigint_to_binary target) in
    parse_binary_str_to_bigint (
      put_char binary_arr (char_index (length binary_arr) index)
        (if eqb_ℤ bit (pos 0) then b'0' else b'1'))

-- `1 << (7 - targetBit)`
abbrev pub bit_mask : ℕ → ℕ
bit_mask k = 2 ^ (7 - k % 8)

-- A byte with the bit of `mask` set or cleared.
abbrev pub with_bit : ℤ → ℕ → ℕ → ℕ
with_bit bit mask byte = if eqb_ℤ bit (pos 1) then bit_or byte mask else and_not byte mask

-- `target[k] = f(target[k])`, for the byte that was read
abbrev pub update_byte : List ℕ → ℕ → (ℕ → ℕ) → Option ℕ → List ℕ
update_byte array k f none = array
update_byte array k f (some byte) = set array k (f byte)

-- The array with one bit replaced; outside the array nothing is written.
unfoldable pub set_bit_array : List ℕ → ℤ → ℤ → List ℕ
set_bit_array array (negsuc k) bit = array
set_bit_array array (pos k) bit =
    update_byte array (k / 8) (with_bit bit (bit_mask k)) (get_elem? array (k / 8))

-- The two branches on the type of `target`.
unfoldable pub set_bit_of : StackElem → ℤ → ℤ → M (Unit {0})
set_bit_of (uint64 target) index bit = do
  assert_64_bit_index index
  push_elem (uint64 (pos (set_bit_number target index bit)))
set_bit_of (bytes target) index bit = do
  array ← read target
  assert_bytes_index (byte_index index) array
  write target (set_bit_array array index bit)
  push_elem (bytes target)

unfoldable pub set_bit : M (Unit {0})
set_bit = do
  assert_min_stack_len 3
  bit ← pop_bigint
  index ← pop_bigint
  target ← pop_elem
  throw_if (ltb_ℤ (pos 1) bit) Error.set_bit_value_error
  set_bit_of target index bit

-- `binaryStr[size - Number(index) - 1]`, `none` for `undefined`
unfoldable pub char_of_bit : List ℕ → ℤ → Option ℕ
char_of_bit text (negsuc k) = none
char_of_bit text (pos k) =
    if ltb k (length text) then get_elem? text (length text - k - 1) else none

-- `stack.push(BigInt(c))` of one character or `undefined`
unfoldable pub push_digit : Option ℕ → M (Unit {0})
push_digit none = throw Error.js_error
push_digit (some c) =
    if c == b'0'
    then push_elem (uint64 (pos 0))
    else if c == b'1'
    then push_elem (uint64 (pos 1))
    else throw Error.js_error

-- `byte.toString(2).padStart(8, "0")[targetBit]`
abbrev pub char_of_byte : Option ℕ → ℕ → Option ℕ
char_of_byte none k = none
char_of_byte (some byte) k = get_elem? (pad_start 8 (to_binary byte)) k

unfoldable pub char_of_array : List ℕ → ℤ → Option ℕ
char_of_array array (negsuc k) = none
char_of_array array (pos k) = char_of_byte (get_elem? array (k / 8)) (k % 8)

unfoldable pub get_bit_of : StackElem → ℤ → M (Unit {0})
get_bit_of (uint64 target) index = do
  assert_64_bit_index index
  push_digit (char_of_bit (bigint_to_binary target) index)
get_bit_of (bytes target) index = do
  array ← read target
  assert_bytes_index (byte_index index) array
  push_digit (char_of_array array index)

unfoldable pub get_bit : M (Unit {0})
get_bit = do assert_min_stack_len 2; index ← pop_bigint; target ← pop_elem; get_bit_of target index
