-- ===== src/Teal/Binary/Value.antt =====
-- The value of a binary numeral, and the round trip through its text.
use native.Mathlib.Nat.{pow-suc}
use algorand_builder.Base.{
  ℕ, zero, suc, ◌+◌, ◌-◌, ◌*◌, ◌/◌, ◌%◌, ◌^◌, ◌≤◌, ◌<◌, ◌≡◌, refl, List, [], ◌∷◌, ◌++◌, length,
  replicate, ◌==◌, if◌then◌else◌, Bool-cases, inl, inr, arith, length-append, length-replicate, ap,
}
use algorand_builder.Teal.Binary.{
  digits_before, to_binary, pad_start, parse_binary_from, parse_binary_str_to_bigint,
}

-- 1 for the character '1', and 0 for any other.
abbrev pub digit : ℕ → ℕ
digit c = if c == b'1' then 1 else 0

pub value : List ℕ → ℕ
value [] = 0
value (c ∷ text) = digit c * 2 ^ length text + value text

parse-eq-value_from : (res : ℕ) (text : List ℕ) → parse_binary_from res text ≡ res + value text
unfolding value parse_binary_from
parse-eq-value_from res [] = omega arith
parse-eq-value_from res (c ∷ text) =
    ground (arith, parse-eq-value_from res text, parse-eq-value_from (res + 2 ^ length text) text)

pub parse-eq-value : (text : List ℕ) → parse_binary_str_to_bigint text ≡ value text
unfolding parse_binary_str_to_bigint
parse-eq-value text = omega (arith, parse-eq-value_from 0 text)

digit-lt : (c : ℕ) → digit c < 2
digit-lt c = ground arith

pub value-lt : (text : List ℕ) → value text < 2 ^ length text
unfolding value
value-lt [] = omega arith
value-lt (c ∷ text) =
    let e : 2 ^ suc (length text) ≡ 2 ^ length text * 2 = pow-suc 2 (length text) in
    ground (arith, value-lt text)

halves : (n p : ℕ) → n / 2 * (p * 2) + n % 2 * p ≡ n * p
halves n p = let e : n / 2 * 2 + n % 2 ≡ n = omega arith in omega (arith, ap (λ (x : ℕ). x * p) e)

digit-bit : (b : ℕ) → b < 2 → digit (b'0' + b) ≡ b
digit-bit zero h = refl
digit-bit (suc zero) h = refl
digit-bit (suc (suc b)) h = absurd (omega arith)

pub digits_before-value :
    (fuel n : ℕ) (text : List ℕ)
    → n ≤ fuel
    → value (digits_before fuel n text) ≡ n * 2 ^ length text + value text
unfolding value digits_before
digits_before-value zero n text h = ground arith
digits_before-value (suc fuel) n text h =
    let e : 2 ^ suc (length text) ≡ 2 ^ length text * 2 = pow-suc 2 (length text) in
    elim (Bool-cases (n == 0)) [
      | inl done ↦ rw done (ground arith)
      | inr more ↦ rw more (
          omega (
            arith,
            digits_before-value fuel (n / 2) ((b'0' + n % 2) ∷ text) (ground arith),
            halves n (2 ^ length text),
            digit-bit (n % 2) (omega arith),
            ap (λ (d : ℕ). d * 2 ^ length text) (digit-bit (n % 2) (omega arith)),
            ap (λ (d : ℕ). n / 2 * d) e,
          ))
    ]

pub length-digits_before :
    (fuel n k : ℕ) (text : List ℕ)
    → n < 2 ^ k
    → length (digits_before fuel n text) ≤ k + length text
unfolding digits_before
length-digits_before zero n k text h = omega arith
length-digits_before (suc fuel) n zero text h = let e : n ≡ 0 = omega arith in rw e (omega arith)
length-digits_before (suc fuel) n (suc k) text h =
    let e : 2 ^ suc k ≡ 2 ^ k * 2 = pow-suc 2 k in
    let half : n / 2 < 2 ^ k = omega arith in
    elim (Bool-cases (n == 0)) [
      | inl done ↦ rw done (omega arith)
      | inr more ↦
          rw more (omega (arith, length-digits_before fuel (n / 2) k ((b'0' + n % 2) ∷ text) half))
    ]

-- ParseBinaryStrToBigInt reads back every natural number from its binary numeral.
pub parse-to_binary : (n : ℕ) → parse_binary_str_to_bigint (to_binary n) ≡ n
unfolding to_binary value
parse-to_binary n = rw parse-eq-value (elim (Bool-cases (n == 0)) [
  | inl none_left ↦ rw none_left (ground arith)
  | inr some_left ↦ rw some_left (omega (arith, digits_before-value n n [] (omega arith)))
])

pub length-to_binary : (n k : ℕ) → 0 < k → n < 2 ^ k → length (to_binary n) ≤ k
unfolding to_binary
length-to_binary n k p h = elim (Bool-cases (n == 0)) [
  | inl none_left ↦ rw none_left (omega arith)
  | inr some_left ↦ rw some_left (omega (arith, length-digits_before n n k [] h))
]

pub value-replicate_zeros : (n : ℕ) (text : List ℕ) → value (replicate n b'0' ++ text) ≡ value text
unfolding value
value-replicate_zeros zero text = refl
value-replicate_zeros (suc n) text = omega (arith, value-replicate_zeros n text)

pub length-pad_start :
    (width : ℕ) (text : List ℕ) → length text ≤ width → length (pad_start width text) ≡ width
unfolding pad_start
length-pad_start width text h = omega (
  arith,
  length-append (replicate (width - length text) b'0') text,
  length-replicate {A = ℕ} (width - length text) b'0',
)

-- Leading zeros do not count.
pub value-pad_start : (width : ℕ) (text : List ℕ) → value (pad_start width text) ≡ value text
unfolding pad_start
value-pad_start width text = value-replicate_zeros (width - length text) text
