-- ===== src/Teal/Moves.antt =====
-- Where the opcodes that move stack elements leave them.
use algorand_builder.Base.{
  ℕ, zero, suc, ◌+◌, ◌≤◌, ◌<◌, ◌≡◌, refl, sym, ap, List, [], ◌∷◌, ◌++◌, length, length-append,
  arith, if◌then◌else◌,
}
use algorand_builder.Base.Int.{ℤ, pos, eqb_ℤ}
use algorand_builder.Teal.Machine.{Machine, StackElem, uint64, ok}
use algorand_builder.Teal.Checks.{steps}
use algorand_builder.Teal.Shuffle

-- A state with another stack.
abbrev pub over : Machine → List StackElem → Machine
over m s = record m { stack = s }

-- The elements of the first list put on the second one by one.
onto : List StackElem → List StackElem → List StackElem
onto [] temp = temp
onto (x ∷ xs) temp = onto xs (x ∷ temp)

onto-onto :
    (front temp back : List StackElem) → onto (onto front temp) back ≡ onto temp (front ++ back)
unfolding onto
onto-onto [] temp back = refl
onto-onto (x ∷ front) temp back = onto-onto front (x ∷ temp) back

onto-last :
    (front temp : List StackElem) (e : StackElem)
    → onto (front ++ e ∷ []) temp ≡ e ∷ onto front temp
unfolding onto
onto-last [] temp e = refl
onto-last (x ∷ front) temp e = onto-last front (x ∷ temp) e

length-onto : (front temp : List StackElem) → length (onto front temp) ≡ length front + length temp
unfolding onto
length-onto [] temp = omega arith
length-onto (x ∷ front) temp = omega (arith, length-onto front (x ∷ temp))

pop_to_temp-onto :
    (front temp back : List StackElem) (rounds limit : ℕ) (m : Machine)
    → length front ≡ rounds
    → length temp + rounds ≤ limit
    → Shuffle.pop_to_temp rounds limit temp (over m (front ++ back))
      ≡ ok (onto front temp) (over m back)
unfolding steps onto Shuffle.pop_to_temp
pop_to_temp-onto [] temp back zero limit m e h = refl
pop_to_temp-onto [] temp back (suc rounds) limit m e h = absurd (omega arith)
pop_to_temp-onto (x ∷ front) temp back zero limit m e h = absurd (omega arith)
pop_to_temp-onto (x ∷ front) temp back (suc rounds) limit m e h =
    ground
      (arith, pop_to_temp-onto front (x ∷ temp) back rounds limit m (omega arith) (omega arith))

push_back-onto :
    (temp back : List StackElem) (m : Machine)
    → length temp + length back ≤ 1000
    → Shuffle.push_back temp (over m back) ≡ ok tt (over m (onto temp back))
unfolding steps onto Shuffle.push_back
push_back-onto [] back m h = refl
push_back-onto (x ∷ temp) back m h = ground (arith, push_back-onto temp (x ∷ back) m (omega arith))

snoc-append :
    (front back : List StackElem) (e : StackElem) → (front ++ e ∷ []) ++ back ≡ front ++ e ∷ back
snoc-append [] back e = refl
snoc-append (x ∷ front) back e = ap (λ l. x ∷ l) (snoc-append front back e)

-- The three steps of `dig`, after the test of the stack's length.
dig_loops :
    (front back : List StackElem) (e : StackElem) (n : ℕ) (m : Machine)
    → length front ≡ n
    → n + length back < 999
    → (Shuffle.pop_to_temp (suc n) (n + 1) [] (over m (front ++ e ∷ back))
        ≡ ok (e ∷ onto front []) (over m back))
      × (Shuffle.push_back (e ∷ onto front []) (over m back) ≡ ok tt (over m (front ++ e ∷ back)))
      × (Shuffle.push_target (e ∷ onto front []) (over m (front ++ e ∷ back))
          ≡ ok tt (over m (e ∷ front ++ e ∷ back)))
unfolding steps onto Shuffle.push_target
dig_loops front back e n m len room = (
  rw (sym (snoc-append front back e), sym (onto-last front [] e))
      (pop_to_temp-onto (front ++ e ∷ []) [] back (suc n) (n + 1) m
        (omega (arith, length-append front (e ∷ []))) (omega arith)),
  rw
      (
        push_back-onto (e ∷ onto front []) back m (omega (arith, length-onto front [])),
        sym (onto-last front [] e),
        onto-onto (front ++ e ∷ []) [] back,
        snoc-append front back e,
      )
      refl,
  ground (arith, length-append front (e ∷ back)),
)

-- `dig n` pushes a copy of the element that has `n` elements above it, and keeps what was
-- there, when the stack has room for one element more.
pub dig-copies :
    (front back : List StackElem) (e : StackElem) (n : ℕ) (m : Machine)
    → length front ≡ n
    → n + length back < 999
    → Shuffle.dig n (over m (front ++ e ∷ back)) ≡ ok tt (over m (e ∷ front ++ e ∷ back))
unfolding steps Shuffle.dig
dig-copies front back e n m len room =
    let (popped, kept, pushed) = dig_loops front back e n m len room in
    ground (arith, popped, kept, pushed, length-append front (e ∷ back))

-- With less than 997 elements under the operands, `swap` exchanges the two top elements, `dup2`
-- copies both in order, and `select` keeps the one of its two alternatives that its number asks
-- for.
pub moves_lem :
    (a b : StackElem) (z : ℤ) (m : Machine) (rest : List StackElem)
    → length rest < 997
    → (Shuffle.swap (over m (a ∷ b ∷ rest)) ≡ ok tt (over m (b ∷ a ∷ rest)))
      × (Shuffle.dup2 (over m (a ∷ b ∷ rest)) ≡ ok tt (over m (a ∷ b ∷ a ∷ b ∷ rest)))
      × (Shuffle.select (over m (uint64 z ∷ a ∷ b ∷ rest))
          ≡ ok tt (over m ((if eqb_ℤ z (pos 0) then b else a) ∷ rest)))
unfolding steps Shuffle.swap Shuffle.dup2 Shuffle.select
moves_lem a b z m rest room = (ground arith, ground arith, ground arith)
