-- ===== src/Teal/Binary.antt =====
-- Binary numerals as text: `toString(2)` and `padStart` of JavaScript, and `parseBinaryStrToBigInt`
-- of packages/runtime/src/lib/parsing.ts. A text is the list of its character codes.
pub mod Value
use algorand_builder.Base.{
  ℕ, zero, suc, ◌+◌, ◌-◌, ◌/◌, ◌%◌, ◌^◌, List, [], ◌∷◌, ◌++◌, length, replicate, ◌==◌,
  if◌then◌else◌,
}
use algorand_builder.Base.Int.{ℤ, pos, negsuc}

-- The digits of `n`, put before `text`. A number has no more digits than its value.
pub digits_before : ℕ → ℕ → List ℕ → List ℕ
digits_before zero n text = text
digits_before (suc fuel) n text =
    let rest = digits_before fuel (n / 2) ((b'0' + n % 2) ∷ text) in if n == 0 then text else rest

-- `n.toString(2)`
unfoldable pub to_binary : ℕ → List ℕ
unfolding digits_before
to_binary n = if n == 0 then b'0' ∷ [] else digits_before n n []

-- `target.toString(2)` on a `bigint`
unfoldable pub bigint_to_binary : ℤ → List ℕ
bigint_to_binary (pos n) = to_binary n
bigint_to_binary (negsuc n) = b'-' ∷ to_binary (suc n)

-- `text.padStart(width, "0")`
unfoldable pub pad_start : ℕ → List ℕ → List ℕ
pad_start width text = replicate (width - length text) b'0' ++ text

-- The loop of `parseBinaryStrToBigInt`, with `res` so far; a character that is not '1' adds nothing.
pub parse_binary_from : ℕ → List ℕ → ℕ
parse_binary_from res [] = res
parse_binary_from res (c ∷ text) =
    parse_binary_from (if c == b'1' then res + 2 ^ length text else res) text

unfoldable pub parse_binary_str_to_bigint : List ℕ → ℕ
unfolding parse_binary_from
parse_binary_str_to_bigint text = parse_binary_from 0 text
