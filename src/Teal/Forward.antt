-- ===== src/Teal/Forward.antt =====
-- Opcodes leave the program alone, go forward in it, never free an array, and change nothing of the
-- ledger but the values of applications' states. The rules to show it of
-- each call come first; the opcodes and the loop of the interpreter are in the modules below.
pub mod Context
pub mod Opcodes
pub mod Loop
use algorand_builder.Base.{
  ℕ, suc, ◌≤◌, ◌≡◌, ◌∙◌, ap, refl, Bool, true, false, List, [], ◌∷◌, ◌++◌, Option, none, some,
  length, set, arith, length-append, length-set, if◌then◌else◌,
}
use algorand_builder.Ledger.Frame.{without_values}
use algorand_builder.Teal.Machine.{
  Machine, StackElem, Error, Outcome, ok, fail, M, bind, ◌>>=◌, pure, throw, throw_if, gets, read,
  alloc, write,
}
use algorand_builder.Teal.Op.{Ref}
use algorand_builder.Teal.Stack.{push, pop, capacity, pushed, popped, push_elem, pop_elem}
use algorand_builder.Teal.Checks.{
  assert_min_stack_len, assert_bigint, assert_bytes, pop_bigint, pop_bytes,
}

-- What a part of an opcode does to the program, its position, the heap's size and the ledger.
pub record Forward (m m' : Machine) : Type 0 where
  pub program_kept : m'.instructions ≡ m.instructions
  -- a position up to the end of the program does not fall, and stays there
  pub index_grows :
      m.instruction_index ≤ length m.instructions
      → (m.instruction_index ≤ m'.instruction_index)
        × (m'.instruction_index ≤ length m.instructions)
  pub heap_grows : length m.heap ≤ length m'.heap
  -- of the ledger, only the values of applications' states change
  pub ledger_kept : without_values m'.ctx.state ≡ without_values m.ctx.state

pub Forward-refl : (m : Machine) → Forward m m
Forward-refl m = record {
  program_kept = refl;
  index_grows = λ h. omega arith;
  heap_grows = omega arith;
  ledger_kept = refl;
}

pub Forward-trans : {m n k : Machine} → Forward m n → Forward n k → Forward m k
Forward-trans {m} {n} p q = record {
  program_kept = q.program_kept ∙ p.program_kept;
  index_grows = λ h.
      let (le, fits) = p.index_grows h in
      let same : length n.instructions ≡ length m.instructions = ap length p.program_kept in
      let (le', fits') = q.index_grows (omega arith) in omega arith;
  heap_grows = omega (arith, p.heap_grows, q.heap_grows);
  ledger_kept = q.ledger_kept ∙ p.ledger_kept;
}

-- `P` of the state after, also after an exception.
abbrev pub After : {A : Type 0} → (Machine → Type 0) → Outcome A → Type 0
After P (ok a m) = P m
After P (fail e m) = P m

pub record Advances {A : Type 0} (act : M A) : Type 0 where
  pub at : (m : Machine) → After (Forward m) (act m)

module _ {A B : Type 0} where
  then_outcome :
      (m : Machine) (o : Outcome A) (next : A → M B)
      → After (Forward m) o
      → ((a : A) → Advances (next a))
      → After (Forward m) (bind o next)
  then_outcome m (ok a n) next h k = onward m (next a n) h ((k a).at n)
    where
      onward :
          {n : Machine} (m : Machine) (o : Outcome B)
          → Forward m n
          → After (Forward n) o
          → After (Forward m) o
      onward m (ok b k) p q = Forward-trans p q
      onward m (fail e k) p q = Forward-trans p q
  then_outcome m (fail e n) next h k = h

  pub Advances-bind :
      (act : M A) (next : A → M B)
      → Advances act
      → ((a : A) → Advances (next a))
      → Advances (act >>= next)
  unfolding ◌>>=◌
  Advances-bind act next p k = record { at = λ m. then_outcome m (act m) next (p.at m) k }

module _ {A : Type 0} where
  pub Advances-pure : (a : A) → Advances (pure a)
  Advances-pure a = record { at = Forward-refl }

  pub Advances-throw : (e : Error) → Advances (throw {A = A} e)
  Advances-throw e = record { at = Forward-refl }

  pub Advances-gets : (f : Machine → A) → Advances (gets f)
  Advances-gets f = record { at = Forward-refl }

  pub Advances-if : (b : Bool) (p q : M A) → Advances p → Advances q → Advances (if b then p else q)
  Advances-if true p q h k = h
  Advances-if false p q h k = k

pub Advances-throw_if : (b : Bool) (e : Error) → Advances (throw_if b e)
Advances-throw_if true e = record { at = Forward-refl }
Advances-throw_if false e = record { at = Forward-refl }

pub Advances-read : (r : Ref) → Advances (read r)
Advances-read r = record { at = Forward-refl }

pub Advances-alloc : (b : List ℕ) → Advances (alloc b)
Advances-alloc b = record {
  at = λ m. record {
    program_kept = refl;
    index_grows = λ h. omega arith;
    heap_grows = omega (arith, length-append m.heap (b ∷ []));
    ledger_kept = refl;
  };
}

pub Advances-write : (r : Ref) (b : List ℕ) → Advances (write r b)
Advances-write r b = record {
  at = λ m. record {
    program_kept = refl;
    index_grows = λ h. omega arith;
    heap_grows = omega (arith, length-set m.heap r b);
    ledger_kept = refl;
  };
}

-- A change of the stack alone.
with_stack : (s : List StackElem) (m : Machine) → Forward m (record m { stack = s })
with_stack s m = record {
  program_kept = refl;
  index_grows = λ h. omega arith;
  heap_grows = omega arith;
  ledger_kept = refl;
}

Forward-pushed : (o : Option (List StackElem)) (m : Machine) → After (Forward m) (pushed o m)
Forward-pushed none m = Forward-refl m
Forward-pushed (some s) m = with_stack s m

Forward-popped :
    (o : Option (StackElem × List StackElem)) (m : Machine) → After (Forward m) (popped o m)
Forward-popped none m = Forward-refl m
Forward-popped (some (e, s)) m = with_stack s m

pub Advances-push_elem : (e : StackElem) → Advances (push_elem e)
unfolding push_elem
Advances-push_elem e = record { at = λ m. Forward-pushed (push capacity e m.stack) m }

pub Advances-pop_elem : Advances pop_elem
unfolding pop_elem
Advances-pop_elem = record { at = λ m. Forward-popped (pop m.stack) m }

pub Advances-assert_min_stack_len : (n : ℕ) → Advances (assert_min_stack_len n)
unfolding assert_min_stack_len
Advances-assert_min_stack_len n = record { at = λ m. (Advances-throw_if _ _).at m }

Advances-assert_bigint : (e : StackElem) → Advances (assert_bigint e)
unfolding assert_bigint
Advances-assert_bigint (StackElem.uint64 z) = record { at = Forward-refl }
Advances-assert_bigint (StackElem.bytes r) = record { at = Forward-refl }

Advances-assert_bytes : (e : StackElem) → Advances (assert_bytes e)
unfolding assert_bytes
Advances-assert_bytes (StackElem.uint64 z) = record { at = Forward-refl }
Advances-assert_bytes (StackElem.bytes r) = record { at = Forward-refl }

pub Advances-pop_bigint : Advances pop_bigint
unfolding pop_bigint
Advances-pop_bigint = Advances-bind _ _ Advances-pop_elem Advances-assert_bigint

pub Advances-pop_bytes : Advances pop_bytes
unfolding pop_bytes
Advances-pop_bytes = Advances-bind _ _ Advances-pop_elem Advances-assert_bytes

pub ruleset forward_rules = (
  Advances-bind, Advances-pure, Advances-throw, Advances-gets, Advances-if, Advances-throw_if,
  Advances-read, Advances-alloc, Advances-write, Advances-push_elem, Advances-pop_elem,
  Advances-assert_min_stack_len, Advances-pop_bigint, Advances-pop_bytes,
)
