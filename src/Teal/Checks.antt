-- ===== src/Teal/Checks.antt =====
-- packages/runtime/src/interpreter/opcode.ts: the assertions that the opcodes share, and the
-- combinations of a pop with an assertion.
use Prim.Native.Nat.{min}
use algorand_builder.Base.{
  ℕ, suc, ◌-◌, Bool, not, ◌||◌, List, length, take, drop, ltb, ◌==◌, if◌then◌else◌,
}
use algorand_builder.Base.Int.{ℤ, pos, negsuc, ltb_ℤ}
use algorand_builder.Teal.Op.{Ref}
use algorand_builder.Teal.Machine.{
  StackElem, uint64, bytes, Error, M, ok, fail, throw_if, pure, ◌>>=◌, ◌>>◌,
}
use algorand_builder.Teal.Stack.{push_elem, pop_elem}

-- MAX_UINT64, as its successor's predecessor
abbrev pub max_uint64 : ℕ
max_uint64 = 0xFFFF_FFFF_FFFF_FFFF

abbrev pub max_uint8 : ℕ
max_uint8 = 255

-- the constant MAX_UINT6
abbrev pub max_uint6 : ℕ
max_uint6 = 63

unfoldable pub assert_min_stack_len : ℕ → M (Unit {0})
assert_min_stack_len n m = throw_if (ltb (length m.stack) n) Error.assert_stack_length m

unfoldable pub check_overflow : ℤ → M (Unit {0})
check_overflow num = throw_if (ltb_ℤ (pos max_uint64) num) Error.uint64_overflow

unfoldable pub check_underflow : ℤ → M (Unit {0})
check_underflow num = throw_if (ltb_ℤ num (pos 0)) Error.uint64_underflow

unfoldable pub check_index_bound {ℓ} : {A : Type ℓ} → ℕ → List A → M (Unit {0})
check_index_bound idx arr = throw_if (not (ltb idx (length arr))) Error.index_out_of_bound

-- `!arr.length || arr.length > MAX_UINT8 + 1`
unfoldable pub assert_arr_length {ℓ} : {A : Type ℓ} → List A → M (Unit {0})
assert_arr_length arr = throw_if (length arr == 0 || ltb 256 (length arr)) Error.assert_arr_length

unfoldable pub assert_bigint : StackElem → M ℤ
assert_bigint (uint64 a) m = ok a m
assert_bigint (bytes r) m = fail Error.invalid_type m

unfoldable pub assert_bytes : StackElem → M Ref
assert_bytes (uint64 a) m = fail Error.invalid_type m
assert_bytes (bytes r) m = ok r m

unfoldable pub assert_uint8 : ℤ → M (Unit {0})
assert_uint8 a = throw_if (ltb_ℤ a (pos 0) || ltb_ℤ (pos max_uint8) a) Error.invalid_uint8

unfoldable pub assert_64_bit_index : ℤ → M (Unit {0})
assert_64_bit_index index = throw_if (ltb_ℤ (pos max_uint6) index) Error.set_bit_index_error

unfoldable pub assert_bytes_index : ℤ → List ℕ → M (Unit {0})
assert_bytes_index index array =
    throw_if (not (ltb_ℤ index (pos (length array)))) Error.set_bit_index_bytes_error

-- The position that a bound of `slice` means: a negative one counts from the end.
abbrev pub slice_bound : ℕ → ℤ → ℕ
slice_bound len (pos k) = min k len
slice_bound len (negsuc k) = len - suc k

-- `byteString.slice(start, end)`
abbrev pub slice {ℓ} : {A : Type ℓ} → ℤ → ℤ → List A → List A
slice start end xs =
    let from = slice_bound (length xs) start in
    take (slice_bound (length xs) end - from) (drop from xs)

unfoldable pub sub_string : ℤ → ℤ → List ℕ → M (List ℕ)
sub_string start end byte_string = do
  throw_if (ltb_ℤ end start) Error.substring_end_before_start
  throw_if (ltb_ℤ (pos (length byte_string)) start || ltb_ℤ (pos (length byte_string)) end)
      Error.substring_range_beyond
  pure (slice start end byte_string)

unfoldable pub push_boolean_check : Bool → M (Unit {0})
push_boolean_check check = push_elem (uint64 (if check then pos 1 else pos 0))

-- `this.assertBigInt(stack.pop(), this.line)`
unfoldable pub pop_bigint : M ℤ
pop_bigint = do assert_bigint (← pop_elem)

-- `this.assertBytes(stack.pop(), this.line)`
unfoldable pub pop_bytes : M Ref
pop_bytes = do assert_bytes (← pop_elem)

-- Named on an `unfolding` line, this opens the calls above.
unfoldable pub steps : Unit {0}
unfolding ◌>>=◌ push_elem pop_elem assert_min_stack_len check_overflow check_underflow
    check_index_bound assert_arr_length assert_bigint assert_bytes assert_uint8 assert_64_bit_index
    assert_bytes_index sub_string push_boolean_check pop_bigint pop_bytes
steps = tt
