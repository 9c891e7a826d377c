-- ===== src/Teal/Jump.antt =====
-- Where a branch lands.
use Prim.Native.String.{String}
use text.Mathlib.TextEquality.{eq_iff}
use algorand_builder.Base.{
  ℕ, zero, suc, ◌+◌, ◌-◌, ◌≤◌, ◌<◌, ◌≡◌, ◌≢◌, ◌⊎◌, inl, inr, refl, ap, true, false, List, [], ◌∷◌,
  Option, none, some, length, drop, get_elem?, arith, Bool-cases,
}
use algorand_builder.Teal.Op.{Op}
use algorand_builder.Teal.Machine.{Machine, ok, fail, Error}
use algorand_builder.Teal.Flow.{
  is_label, is_label_of, skip_labels, find_label, jumped, jump_forward,
}

-- From position `from` of a program, the label `name` is found at `at`, where it stands first, and
-- `to` is the last of the labels that follow one another from there.
pub record LandsAt (name : String) (ops : List Op) (from to : ℕ) : Type 0 where
  pub at : ℕ
  pub forward : from ≤ at
  pub found : get_elem? ops at ≡ some (Op.label name)
  pub first : (j : ℕ) → from ≤ j → j < at → get_elem? ops j ≢ some (Op.label name)
  pub at_or_after : at ≤ to
  pub labels : (j : ℕ) → at ≤ j → j ≤ to → (l : String) × (get_elem? ops j ≡ some (Op.label l))
  pub last : (l : String) → get_elem? ops (suc to) ≢ some (Op.label l)

split_index : (P : ℕ → Type 0) → P 0 → ((i : ℕ) → P (suc i)) → (j : ℕ) → P j
split_index P base step zero = base
split_index P base step (suc i) = step i

-- The labels at the start of a list number `k`.
record Run (ops : List Op) (k : ℕ) : Type 0 where
  labels : (j : ℕ) → j < k → (l : String) × (get_elem? ops j ≡ some (Op.label l))
  last : (l : String) → get_elem? ops k ≢ some (Op.label l)

is_label-false : (op : Op) → is_label op ≡ false → (l : String) → some op ≢ some (Op.label l)
is_label-false (Op.label n) e l p = cc
is_label-false _ e l p = cc

is_label-true : (op : Op) → is_label op ≡ true → (l : String) × (op ≡ Op.label l)
is_label-true (Op.label n) e = (n, refl)
is_label-true _ e = cc

Run-cons :
    (op : Op) (ops : List Op) (k : ℕ) → is_label op ≡ true → Run ops k → Run (op ∷ ops) (suc k)
Run-cons op ops k e r = record {
  labels =
      split_index _ (λ h. let (l, p) = is_label-true op e in (l, ap some p))
        (λ i h. r.labels i (omega arith));
  last = r.last;
}

skip_labels-Run : (ops : List Op) (i : ℕ) → (k : ℕ) × (skip_labels ops i ≡ i + k) × Run ops k
unfolding skip_labels
skip_labels-Run [] i =
    (0, omega arith, record { labels = λ j h. absurd (omega arith); last = λ l e. cc })
skip_labels-Run (op ∷ ops) i = elim (Bool-cases (is_label op)) [
  | inl e ↦
      let (k, p, r) = skip_labels-Run ops (suc i) in
      (suc k, rw e (omega (arith, p)), Run-cons op ops k e r)
  | inr e ↦ (
    0,
    rw e (omega arith),
    record { labels = λ j h. absurd (omega arith); last = is_label-false op e },
  )
]

is_label_of-true : (name : String) (op : Op) → is_label_of name op ≡ true → op ≡ Op.label name
is_label_of-true name (Op.label l) e = ap Op.label ((eq_iff l name).0 e)
is_label_of-true name _ e = cc

is_label_of-false :
    (name : String) (op : Op) → is_label_of name op ≡ false → some op ≢ some (Op.label name)
is_label_of-false name (Op.label l) e p =
    let same : l ≡ name = cc in let equal = (eq_iff l name).1 same in cc
is_label_of-false name _ e p = cc

LandsAt-here :
    (name : String) (op : Op) (ops : List Op) (k : ℕ)
    → is_label_of name op ≡ true
    → Run ops k
    → LandsAt name (op ∷ ops) 0 k
LandsAt-here name op ops k e r = record {
  at = 0;
  forward = omega arith;
  found = ap some (is_label_of-true name op e);
  first = λ j p q. absurd (omega arith);
  at_or_after = omega arith;
  labels =
      split_index _ (λ p q. (name, ap some (is_label_of-true name op e)))
        (λ i p q. r.labels i (omega arith));
  last = r.last;
}

LandsAt-cons :
    (name : String) (op : Op) (ops : List Op) (k : ℕ)
    → is_label_of name op ≡ false
    → LandsAt name ops 0 k
    → LandsAt name (op ∷ ops) 0 (suc k)
LandsAt-cons name op ops k e r = record {
  at = suc r.at;
  forward = omega arith;
  found = r.found;
  first =
      split_index _ (λ p q. is_label_of-false name op e)
        (λ i p q. r.first i (omega arith) (omega arith));
  at_or_after = omega (arith, r.at_or_after);
  labels =
      split_index _ (λ p q. absurd (omega arith)) (λ i p q. r.labels i (omega arith) (omega arith));
  last = r.last;
}

-- The label is found, or the list has none of that name.
FindResult : String → List Op → ℕ → Option ℕ → Type 0
FindResult name ops i none = (j : ℕ) → get_elem? ops j ≢ some (Op.label name)
FindResult name ops i (some t) = (k : ℕ) × (t ≡ i + k) × LandsAt name ops 0 k

FindResult-cons :
    (name : String) (op : Op) (ops : List Op) (i : ℕ) (r : Option ℕ)
    → is_label_of name op ≡ false
    → FindResult name ops (suc i) r
    → FindResult name (op ∷ ops) i r
unfolding FindResult
FindResult-cons name op ops i none e h = split_index _ (is_label_of-false name op e) h
FindResult-cons name op ops i (some t) e (k, p, r) =
    (suc k, omega arith, LandsAt-cons name op ops k e r)

find_label-FindResult :
    (name : String) (ops : List Op) (i : ℕ) → FindResult name ops i (find_label name ops i)
unfolding FindResult find_label
find_label-FindResult name [] i = λ j e. cc
find_label-FindResult name (op ∷ ops) i = elim (Bool-cases (is_label_of name op)) [
  | inl e ↦ let (k, p, r) = skip_labels-Run ops i in rw e (k, p, LandsAt-here name op ops k e r)
  | inr e ↦ rw e (
      FindResult-cons name op ops i (find_label name ops (suc i)) e
        (find_label-FindResult name ops (suc i)))
]

get_elem?-drop : (n : ℕ) (ops : List Op) (j : ℕ) → get_elem? (drop n ops) j ≡ get_elem? ops (n + j)
get_elem?-drop zero ops j = let e : 0 + j ≡ j = omega arith in rw e refl
get_elem?-drop (suc n) [] j = refl
get_elem?-drop (suc n) (op ∷ ops) j =
    let e : suc n + j ≡ suc (n + j) = omega arith in rw e (get_elem?-drop n ops j)

-- A position at or after `n` is `n` and a position of what is left.
shifted :
    (P : ℕ → Option Op → Type 0) (n : ℕ) (ops : List Op)
    → ((j : ℕ) → P (n + j) (get_elem? (drop n ops) j))
    → (j : ℕ) → n ≤ j
    → P j (get_elem? ops j)
shifted P n ops h j le =
    let e : n + (j - n) ≡ j = omega arith in rw (get_elem?-drop n ops (j - n), e) at (h (j - n))

LandsAt-drop :
    (name : String) (ops : List Op) (n k : ℕ)
    → LandsAt name (drop n ops) 0 k
    → LandsAt name ops n (n + k)
LandsAt-drop name ops n k r = record {
  at = n + r.at;
  forward = omega arith;
  found = rw (get_elem?-drop n ops r.at) at r.found;
  first = λ j p q.
      shifted (λ i o. i < n + r.at → o ≢ some (Op.label name)) n ops
        (λ i b. r.first i (omega arith) (omega arith)) j p q;
  at_or_after = omega (arith, r.at_or_after);
  labels = λ j p q.
      shifted (λ i o. n + r.at ≤ i → i ≤ n + k → (l : String) × (o ≡ some (Op.label l))) n ops
        (λ i a b. r.labels i (omega arith) (omega arith)) j (omega (arith, r.forward)) p q;
  last = λ l e.
      let next : n + suc k ≡ suc (n + k) = omega arith in
      r.last l (rw (get_elem?-drop n ops (suc k), next) e);
}

jumped-lands :
    (name : String) (m : Machine) (r : Option ℕ)
    → FindResult name (drop (suc m.instruction_index) m.instructions) (suc m.instruction_index) r
    → ((to : ℕ) × (jumped r m ≡ ok tt (record m { instruction_index = to }))
        × LandsAt name m.instructions (suc m.instruction_index) to)
      ⊎ ((jumped r m
            ≡ fail Error.label_not_found (record m { instruction_index = length m.instructions }))
          × ((j : ℕ) → m.instruction_index < j → get_elem? m.instructions j ≢ some (Op.label name)))
unfolding FindResult jumped
jumped-lands name m none h = inr (
  refl,
  λ j p.
      shifted (λ i o. o ≢ some (Op.label name)) (suc m.instruction_index) m.instructions h j
        (omega arith),
)
jumped-lands name m (some t) (k, p, r) = inl (
  suc m.instruction_index + k,
  rw p refl,
  LandsAt-drop name m.instructions (suc m.instruction_index) k r,
)

-- A branch lands on the first label of the name after it, or on the last of the labels that
-- follow that one immediately; it throws if and only if the rest of the program has no such
-- label.
pub jump_forward-lands :
    (name : String) (m : Machine)
    → ((to : ℕ) × (jump_forward name m ≡ ok tt (record m { instruction_index = to }))
        × LandsAt name m.instructions (suc m.instruction_index) to)
      ⊎ ((jump_forward name m
            ≡ fail Error.label_not_found (record m { instruction_index = length m.instructions }))
          × ((j : ℕ) → m.instruction_index < j → get_elem? m.instructions j ≢ some (Op.label name)))
unfolding jump_forward
jump_forward-lands name m =
    let next = suc m.instruction_index in
    jumped-lands name m (find_label name (drop next m.instructions) next)
      (find_label-FindResult name (drop next m.instructions) next)
