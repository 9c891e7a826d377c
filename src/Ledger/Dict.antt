-- ===== src/Ledger/Dict.antt =====
-- A JavaScript `Map`, in insertion order, and the sum of a measure over its values.
use algorand_builder.Base.{
  ℕ, suc, ◌+◌, ◌≡◌, refl, ap, Bool, true, false, Option, none, some, List, [], ◌∷◌, length, arith,
  if◌then◌else◌, Bool-cases, inl, inr,
}
use algorand_builder.Base.Int.{ℤ, pos, ◌+ℤ◌, pos_part, neg_part, +ℤ_parts, eq_of_parts, int_laws}
use algorand_builder.Base.Equality.{Eq, same, same_self, same_of}

abbrev pub Dict : Type 0 → Type 0 → Type 0
Dict K V = List (K × V)

exchange : (a b t : ℤ) → (a +ℤ t) +ℤ b ≡ (b +ℤ t) +ℤ a
exchange a b t = grind int_laws

carry : (a b c s t : ℤ) → s +ℤ b ≡ t +ℤ c → (a +ℤ s) +ℤ b ≡ (a +ℤ t) +ℤ c
carry a b c s t h = eq_of_parts (a +ℤ s +ℤ b) (a +ℤ t +ℤ c) (
    omega (
      arith,
      ap pos_part h,
      ap neg_part h,
      +ℤ_parts s b,
      +ℤ_parts t c,
      +ℤ_parts a s,
      +ℤ_parts a t,
      +ℤ_parts (a +ℤ s) b,
      +ℤ_parts (a +ℤ t) c,
    ))

module _ {K V : Type 0} ⦃e : Eq K⦄ where
  -- `map.get(k)`
  unfoldable pub lookup : K → Dict K V → Option V
  lookup k [] = none
  lookup k ((j, v) ∷ d) = if same k j then some v else lookup k d

  -- `map.has(k)`
  unfoldable pub has : K → Dict K V → Bool
  unfolding lookup
  has k d = elim (lookup k d) [ none ↦ false | some _ ↦ true ]

  -- `map.set(k, v)`
  unfoldable pub insert : K → V → Dict K V → Dict K V
  insert k v [] = (k, v) ∷ []
  insert k v ((j, w) ∷ d) = if same k j then (j, v) ∷ d else (j, w) ∷ insert k v d

  -- `map.delete(k)`
  unfoldable pub erase : K → Dict K V → Dict K V
  erase k [] = []
  erase k ((j, w) ∷ d) = if same k j then d else (j, w) ∷ erase k d

  pub lookup-insert_self : (k : K) (v : V) (d : Dict K V) → lookup k (insert k v d) ≡ some v
  unfolding lookup insert
  lookup-insert_self k v [] = ground (arith, same_self k)
  lookup-insert_self k v ((j, w) ∷ d) = ground (arith, lookup-insert_self k v d)

  pub lookup-insert_ne :
      (j k : K) (v : V) (d : Dict K V) → same j k ≡ false → lookup j (insert k v d) ≡ lookup j d
  unfolding lookup insert
  lookup-insert_ne j k v [] h = ground arith
  lookup-insert_ne j k v ((i, w) ∷ d) h = elim (Bool-cases (same k i)) [
    | inl p ↦ let q : same j i ≡ false = rw (same_of k i p) at h in ground arith
    | inr p ↦ ground (arith, lookup-insert_ne j k v d h)
  ]

  pub length-insert_fresh :
      (k : K) (v : V) (d : Dict K V) → lookup k d ≡ none → length (insert k v d) ≡ suc (length d)
  unfolding lookup insert
  length-insert_fresh k v [] h = refl
  length-insert_fresh k v ((j, w) ∷ d) h = ground (arith, length-insert_fresh k v d)

  pub length-insert_old :
      (k : K) (v w : V) (d : Dict K V) → lookup k d ≡ some w → length (insert k v d) ≡ length d
  unfolding lookup insert
  length-insert_old k v w [] h = cc
  length-insert_old k v w ((j, u) ∷ d) h = ground (arith, length-insert_old k v w d)

  pub length-erase :
      (k : K) (v : V) (d : Dict K V) → lookup k d ≡ some v → suc (length (erase k d)) ≡ length d
  unfolding lookup erase
  length-erase k v [] h = cc
  length-erase k v ((j, w) ∷ d) h = ground (arith, length-erase k v d)

  -- The sum of a measure.
  unfoldable pub sum : (V → ℕ) → Dict K V → ℕ
  sum f [] = 0
  sum f ((j, v) ∷ d) = f v + sum f d

  pub sum-insert_fresh :
      (f : V → ℕ) (k : K) (v : V) (d : Dict K V)
      → lookup k d ≡ none
      → sum f (insert k v d) ≡ f v + sum f d
  unfolding lookup insert sum
  sum-insert_fresh f k v [] h = refl
  sum-insert_fresh f k v ((j, w) ∷ d) h = ground (arith, sum-insert_fresh f k v d)

  pub sum-insert_old :
      (f : V → ℕ) (k : K) (v w : V) (d : Dict K V)
      → lookup k d ≡ some w
      → sum f (insert k v d) + f w ≡ sum f d + f v
  unfolding lookup insert sum
  sum-insert_old f k v w [] h = cc
  sum-insert_old f k v w ((j, u) ∷ d) h = ground (arith, sum-insert_old f k v w d)

  pub sum-erase :
      (f : V → ℕ) (k : K) (v : V) (d : Dict K V)
      → lookup k d ≡ some v
      → f v + sum f (erase k d) ≡ sum f d
  unfolding lookup erase sum
  sum-erase f k v [] h = cc
  sum-erase f k v ((j, w) ∷ d) h = ground (arith, sum-erase f k v d)

  -- The sum of an integer measure.
  unfoldable pub total : (V → ℤ) → Dict K V → ℤ
  total f [] = pos 0
  total f ((j, v) ∷ d) = f v +ℤ total f d

  pub total-insert :
      (f : V → ℤ) (k : K) (v w : V) (d : Dict K V)
      → lookup k d ≡ some w
      → total f (insert k v d) +ℤ f w ≡ total f d +ℤ f v
  unfolding lookup insert total
  total-insert f k v w [] h = cc
  total-insert f k v w ((j, u) ∷ d) h = elim (Bool-cases (same k j)) [
    | inl p ↦ ground (arith, exchange (f v) (f w) (total f d))
    | inr p ↦
        let rest = total-insert f k v w d (rw (lookup, p) at h) in
        rw (insert, total, p) (carry (f u) (f w) (f v) (total f (insert k v d)) (total f d) rest)
  ]
