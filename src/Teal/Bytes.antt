-- ===== src/Teal/Bytes.antt =====
-- packages/runtime/src/interpreter/opcode-list.ts: byte arrays, hashes and conversions.
use algorand_builder.Base.{
  ℕ, ◌+◌, List, ◌++◌, Option, none, some, length, get_elem?, set, ltb, if◌then◌else◌,
}
use algorand_builder.Base.Int.{ℤ, pos, negsuc}
use algorand_builder.Teal.Library.{Library}
use algorand_builder.Teal.Machine.{
  uint64, bytes, Error, M, throw, throw_if, pure, read, alloc, write, ◌>>=◌, ◌>>◌,
}
use algorand_builder.Teal.Stack.{push_elem}
use algorand_builder.Teal.Checks.{
  assert_min_stack_len, pop_bigint, pop_bytes, assert_uint8, assert_bytes_index, sub_string,
}

abbrev pub max_concat_size : ℕ
max_concat_size = 4096

-- `stack.push` of a new array
abbrev pub push_array : List ℕ → M (Unit {0})
push_array b = do r ← alloc b; push_elem (bytes r)

unfoldable pub len : M (Unit {0})
len = do assert_min_stack_len 1; last ← read (← pop_bytes); push_elem (uint64 (pos (length last)))

unfoldable pub concat : M (Unit {0})
concat = do
  assert_min_stack_len 2
  r ← pop_bytes
  s ← pop_bytes
  value_a ← read r
  value_b ← read s
  throw_if (ltb max_concat_size (length value_a + length value_b)) Error.concat_error
  push_array (value_b ++ value_a)

unfoldable pub substring : ℤ → ℤ → M (Unit {0})
substring start end = do
  byte_string ← read (← pop_bytes)
  assert_uint8 start
  assert_uint8 end
  push_array (← sub_string start end byte_string)

unfoldable pub substring3 : M (Unit {0})
substring3 = do
  byte_string ← read (← pop_bytes)
  end ← pop_bigint
  start ← pop_bigint
  push_array (← sub_string start end byte_string)

-- The value at a position of an array, `undefined` outside; both uses then raise a `TypeError`.
abbrev pub byte_at : List ℕ → ℤ → Option ℕ
byte_at array (pos k) = get_elem? array k
byte_at array (negsuc k) = none

-- A write outside a typed array is ignored.
abbrev pub put_byte : List ℕ → ℤ → ℕ → List ℕ
put_byte array (pos k) v = set array k v
put_byte array (negsuc k) v = array

abbrev pub to_byte : ℤ → ℕ
to_byte (pos k) = k
to_byte (negsuc k) = 0

unfoldable pub set_byte : M (Unit {0})
set_byte = do
  assert_min_stack_len 3
  small_integer ← pop_bigint
  index ← pop_bigint
  target ← pop_bytes
  assert_uint8 small_integer
  array ← read target
  assert_bytes_index index array
  write target (put_byte array index (to_byte small_integer))
  push_elem (bytes target)

abbrev pub push_byte : Option ℕ → M (Unit {0})
push_byte none = throw Error.js_error
push_byte (some v) = push_elem (uint64 (pos v))

unfoldable pub get_byte : M (Unit {0})
get_byte = do
  assert_min_stack_len 2
  index ← pop_bigint
  array ← read (← pop_bytes)
  assert_bytes_index index array
  push_byte (byte_at array index)

-- The result of a library call, which may throw.
abbrev pub from_library : {A : Type 0} → Option A → M A
from_library none = throw Error.library_error
from_library (some a) = pure a

module _ (lib : Library) where
  unfoldable pub itob : M (Unit {0})
  itob = do
    assert_min_stack_len 1
    z ← pop_bigint
    push_array (← from_library (lib.encode_uint64 z))

  unfoldable pub btoi : M (Unit {0})
  btoi = do
    assert_min_stack_len 1
    b ← read (← pop_bytes)
    z ← from_library (lib.decode_uint64 b)
    push_elem (uint64 z)

  unfoldable pub sha256 : M (Unit {0})
  sha256 = do assert_min_stack_len 1; val ← read (← pop_bytes); push_array (lib.sha256_digest val)

  unfoldable pub sha512_256 : M (Unit {0})
  sha512_256 = do
    assert_min_stack_len 1
    val ← read (← pop_bytes)
    push_array (lib.sha512_256_digest val)

  unfoldable pub keccak256 : M (Unit {0})
  keccak256 = do
    assert_min_stack_len 1
    top ← read (← pop_bytes)
    push_array (lib.keccak256_digest (lib.utf8_text top))

  unfoldable pub ed25519verify : M (Unit {0})
  ed25519verify = do
    assert_min_stack_len 3
    pubkey ← read (← pop_bytes)
    signature ← read (← pop_bytes)
    text ← read (← pop_bytes)
    is_valid ← from_library (lib.verify_bytes text signature pubkey)
    push_elem (uint64 (if is_valid then pos 1 else pos 0))
