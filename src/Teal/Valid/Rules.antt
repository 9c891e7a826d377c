-- ===== src/Teal/Valid/Rules.antt =====
-- A rule for each call that the opcodes make.
use algorand_builder.Base.{
  ℕ, suc, ◌≤◌, ◌≡◌, inl, inr, Bool, false, List, [], ◌∷◌, length, All, arith, Bool-cases, ltb, ◌==◌,
}
use algorand_builder.Base.Int.{ℤ}
use algorand_builder.Teal.Op.{Ref}
use algorand_builder.Teal.Machine.{
  Machine, StackElem, uint64, bytes, Error, Outcome, ok, fail, M, bind, ◌>>=◌, throw_if, read,
  write,
}
use algorand_builder.Teal.Stack.{capacity, pop, popped, push_elem, pop_elem}
use algorand_builder.Teal.Checks.{
  assert_bigint, assert_bytes, pop_bigint, pop_bytes, assert_min_stack_len,
}
use algorand_builder.Teal.Valid.{IsUint64, IsRef, IsArray, IsElem, IsValidAt, IsValid}
use algorand_builder.Teal.Valid.Triples.{
  Post, Gives, Keeps, forget, Keeps-bind, Keeps-of-Gives, Keeps-alloc, Keeps-if, Keeps-throw,
  Gives-throw_if, Gives-read, Gives-write,
}

module _ {size : ℕ} where
  pub with_stack :
      (s : List StackElem) (m : Machine)
      → length s ≤ capacity
      → All (IsElem size) s
      → IsValidAt size m
      → IsValidAt size (record m { stack = s })
  with_stack s m f v h = record {
    heap_size = h.heap_size;
    stack_fits = f;
    stack_valid = v;
    scratch_size = h.scratch_size;
    scratch_valid = h.scratch_valid;
    bytecblock_valid = h.bytecblock_valid;
    intcblock_valid = h.intcblock_valid;
    heap_valid = h.heap_valid;
    ctx_valid = h.ctx_valid;
  }

  Gives-popped :
      (l : List StackElem) (m : Machine)
      → length l ≤ capacity
      → All (IsElem size) l
      → IsValidAt size m
      → Post IsValid (λ a m'. IsValidAt size m' × IsElem size a) (popped (pop l) m)
  Gives-popped [] m f v h = forget h
  Gives-popped (x ∷ s) m f v h = (with_stack s m (omega arith) v.1 h, v.0)

  pub Gives-pop_elem : Gives size pop_elem (IsElem size)
  unfolding pop_elem
  Gives-pop_elem = record { at = λ m h. Gives-popped m.stack m h.stack_fits h.stack_valid h }

  assert_bigint-Post :
      (e : StackElem) (m : Machine)
      → IsElem size e
      → IsValidAt size m
      → Post IsValid (λ a m'. IsValidAt size m' × IsUint64 a) (assert_bigint e m)
  unfolding assert_bigint
  assert_bigint-Post (uint64 z) m v h = (h, v)
  assert_bigint-Post (bytes r) m v h = forget h

  assert_bytes-Post :
      (e : StackElem) (m : Machine)
      → IsElem size e
      → IsValidAt size m
      → Post IsValid (λ a m'. IsValidAt size m' × IsRef size a) (assert_bytes e m)
  unfolding assert_bytes
  assert_bytes-Post (uint64 z) m v h = forget h
  assert_bytes-Post (bytes r) m v h = (h, v)

  pub Gives-assert_bigint : (e : StackElem) → IsElem size e → Gives size (assert_bigint e) IsUint64
  Gives-assert_bigint e v = record { at = λ m h. assert_bigint-Post e m v h }

  pub Gives-assert_bytes :
      (e : StackElem) → IsElem size e → Gives size (assert_bytes e) (IsRef size)
  Gives-assert_bytes e v = record { at = λ m h. assert_bytes-Post e m v h }

  pub Gives-push_elem : (e : StackElem) → IsElem size e → Gives size (push_elem e) (λ _. Unit)
  unfolding push_elem
  Gives-push_elem e v = record {
    at = λ m h. elim (Bool-cases (length m.stack == capacity)) [
      | inl full ↦ rw full (forget h)
      | inr room ↦
          let f : suc (length m.stack) ≤ capacity = ground (arith, h.stack_fits) in
          rw room (with_stack (e ∷ m.stack) m f (v, h.stack_valid) h, tt)
    ];
  }

module _ {A C : Type 0} {size : ℕ} {R : C → Type 0} where
  then_outcome :
      (Q : A → Type 0) (next : A → M C) (o : Outcome A)
      → Post IsValid (λ a m'. IsValidAt size m' × Q a) o
      → ((a : A) → Q a → Gives size (next a) R)
      → Post IsValid (λ c m'. IsValidAt size m' × R c) (bind o next)
  then_outcome Q next (ok a m) h k = (k a h.1).at m h.0
  then_outcome Q next (fail e m) h k = h

  -- Composition of parts that leave the heap's size alone.
  pub Gives-bind :
      {Q : A → Type 0} (act : M A) (next : A → M C)
      → Gives size act Q
      → ((a : A) → Q a → Gives size (next a) R)
      → Gives size (act >>= next) R
  unfolding ◌>>=◌
  Gives-bind {Q} act next g k = record { at = λ m h. then_outcome Q next (act m) (g.at m h) k }

module _ {size : ℕ} where
  pub Gives-pop_bigint : Gives size pop_bigint IsUint64
  unfolding pop_bigint
  Gives-pop_bigint = Gives-bind pop_elem assert_bigint Gives-pop_elem Gives-assert_bigint

  pub Gives-pop_bytes : Gives size pop_bytes (IsRef size)
  unfolding pop_bytes
  Gives-pop_bytes = Gives-bind pop_elem assert_bytes Gives-pop_elem Gives-assert_bytes

  pub Gives-assert_min_stack_len : (n : ℕ) → Gives size (assert_min_stack_len n) (λ _. Unit)
  unfolding assert_min_stack_len
  Gives-assert_min_stack_len n = record {
    at = λ m h. elim (Bool-cases (ltb (length m.stack) n)) [
      | inl short ↦ rw short (forget h)
      | inr long ↦ rw long (h, tt)
    ];
  }

-- The rules for a call that is followed by others, one for each call.
module _ {B : Type 0} {size : ℕ} where
  pub then-min_len :
      (n : ℕ) (next : Unit {0} → M B)
      → Keeps size (next tt)
      → Keeps size (assert_min_stack_len n >>= next)
  then-min_len n next k = Keeps-bind _ _ (Gives-assert_min_stack_len n) (λ _ _. k)

  pub then-throw_if :
      (test : Bool) (e : Error) (next : Unit {0} → M B)
      → (test ≡ false → Keeps size (next tt))
      → Keeps size (throw_if test e >>= next)
  then-throw_if test e next k = Keeps-bind _ _ (Gives-throw_if test e) (λ _. k)

  pub then-pop_elem :
      (next : StackElem → M B)
      → ((e : StackElem) → IsElem size e → Keeps size (next e))
      → Keeps size (pop_elem >>= next)
  then-pop_elem next k = Keeps-bind _ _ Gives-pop_elem k

  pub then-pop_bigint :
      (next : ℤ → M B)
      → ((z : ℤ) → IsUint64 z → Keeps size (next z))
      → Keeps size (pop_bigint >>= next)
  then-pop_bigint next k = Keeps-bind _ _ Gives-pop_bigint k

  pub then-pop_bytes :
      (next : Ref → M B)
      → ((r : Ref) → IsRef size r → Keeps size (next r))
      → Keeps size (pop_bytes >>= next)
  then-pop_bytes next k = Keeps-bind _ _ Gives-pop_bytes k

  pub then-read :
      (r : Ref) (next : List ℕ → M B)
      → ((b : List ℕ) → IsArray b → Keeps size (next b))
      → Keeps size (read r >>= next)
  then-read r next k = Keeps-bind _ _ (Gives-read r) k

  pub then-write :
      (r : Ref) (b : List ℕ) (next : Unit {0} → M B)
      → IsArray b
      → Keeps size (next tt)
      → Keeps size (write r b >>= next)
  then-write r b next p k = Keeps-bind _ _ (Gives-write r b p) (λ _ _. k)

  pub then-push_elem :
      (e : StackElem) (next : Unit {0} → M B)
      → IsElem size e
      → Keeps size (next tt)
      → Keeps size (push_elem e >>= next)
  then-push_elem e next v k = Keeps-bind _ _ (Gives-push_elem e v) (λ _ _. k)

pub Keeps-push_elem : {size : ℕ} (e : StackElem) → IsElem size e → Keeps size (push_elem e)
Keeps-push_elem e v = Keeps-of-Gives _ (Gives-push_elem e v)

pub Keeps-throw_if : {size : ℕ} (test : Bool) (e : Error) → Keeps size (throw_if test e)
Keeps-throw_if test e = Keeps-of-Gives _ (Gives-throw_if test e)

pub ruleset keeps_rules = (
  Keeps-throw_if, then-min_len, then-throw_if, then-pop_elem, then-pop_bigint, then-pop_bytes,
  then-read, then-write, then-push_elem, Keeps-push_elem, Keeps-alloc, Keeps-if, Keeps-throw,
)
