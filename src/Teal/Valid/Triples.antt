-- ===== src/Teal/Valid/Triples.antt =====
-- `Gives size act Q`: from a well-formed state with `size` arrays, `act` leaves one with as many,
-- and what it returns satisfies `Q`. `Keeps size act`: it leaves a well-formed state. Both hold of
-- the state that an exception leaves, too.
use algorand_builder.Base.{
  ℕ, zero, suc, ◌≡◌, refl, Bool, true, false, List, [], ◌∷◌, ◌++◌, length, All, All-map, All-append,
  All-set, length-append, length-set, arith, if◌then◌else◌,
}
use algorand_builder.Teal.Op.{Ref}
use algorand_builder.Teal.Machine.{
  Machine, StackElem, uint64, bytes, Error, Outcome, ok, fail, M, bind, ◌>>=◌, throw_if, pure,
  throw, read, alloc, write, bytes_at,
}
use algorand_builder.Teal.Valid.Contexts.{IsContext-le}
use algorand_builder.Teal.Valid.{IsRef, IsArray, IsElem, IsValidAt, IsValid}

-- `P` of the state after an exception, `Q` of what is returned and the state after that.
abbrev pub Post : {A : Type 0} → (Machine → Type 0) → (A → Machine → Type 0) → Outcome A → Type 0
Post P Q (ok a m) = Q a m
Post P Q (fail e m) = P m

pub record Gives {A : Type 0} (size : ℕ) (act : M A) (Q : A → Type 0) : Type 0 where
  pub at : (m : Machine) → IsValidAt size m → Post IsValid (λ a m'. IsValidAt size m' × Q a) (act m)

pub record Keeps {A : Type 0} (size : ℕ) (act : M A) : Type 0 where
  pub at : (m : Machine) → IsValidAt size m → Post IsValid (λ _. IsValid) (act m)

pub forget : {size : ℕ} {m : Machine} → IsValidAt size m → IsValid m
forget {m} h = rw h.heap_size h

-- Composition.
module _ {A B : Type 0} {size : ℕ} where
  bind-outcome :
      (Q : A → Type 0) (next : A → M B) (o : Outcome A)
      → Post IsValid (λ a m'. IsValidAt size m' × Q a) o
      → ((a : A) → Q a → Keeps size (next a))
      → Post IsValid (λ _. IsValid) (bind o next)
  bind-outcome Q next (ok a m) h k = (k a h.1).at m h.0
  bind-outcome Q next (fail e m) h k = h

  pub Keeps-bind :
      {Q : A → Type 0} (act : M A) (next : A → M B)
      → Gives size act Q
      → ((a : A) → Q a → Keeps size (next a))
      → Keeps size (act >>= next)
  unfolding ◌>>=◌
  Keeps-bind {Q} act next g k = record { at = λ m h. bind-outcome Q next (act m) (g.at m h) k }

Gives-outcome :
    {A : Type 0} (size : ℕ) (Q : A → Type 0) (o : Outcome A)
    → Post IsValid (λ a m'. IsValidAt size m' × Q a) o
    → Post IsValid (λ _. IsValid) o
Gives-outcome size Q (ok a m) h = forget h.0
Gives-outcome size Q (fail e m) h = h

IsElem-suc : (size : ℕ) (e : StackElem) → IsElem size e → IsElem (suc size) e
IsElem-suc size (uint64 z) h = h
IsElem-suc size (bytes r) h = omega arith

IsElem-suc-All : (size : ℕ) (l : List StackElem) → All (IsElem size) l → All (IsElem (suc size)) l
IsElem-suc-All size = All-map (IsElem size) (IsElem (suc size)) (IsElem-suc size)

IsRef-suc-All : (size : ℕ) (l : List Ref) → All (IsRef size) l → All (IsRef (suc size)) l
IsRef-suc-All size = All-map (IsRef size) (IsRef (suc size)) (λ r h. omega arith)

pub alloc-IsValidAt :
    (size : ℕ) (b : List ℕ) (m : Machine)
    → IsArray b
    → IsValidAt size m
    → IsValidAt (suc size) (record m { heap = m.heap ++ b ∷ [] })
alloc-IsValidAt size b m p h = record {
  heap_size = omega (arith, length-append m.heap (b ∷ []), h.heap_size);
  stack_fits = h.stack_fits;
  stack_valid = IsElem-suc-All size m.stack h.stack_valid;
  scratch_size = h.scratch_size;
  scratch_valid = IsElem-suc-All size m.scratch h.scratch_valid;
  bytecblock_valid = IsRef-suc-All size m.bytecblock h.bytecblock_valid;
  intcblock_valid = h.intcblock_valid;
  heap_valid = All-append IsArray m.heap (b ∷ []) h.heap_valid (p, tt);
  ctx_valid = IsContext-le size (suc size) (omega arith) m.ctx h.ctx_valid;
}

bytes_at-IsArray : (heap : List (List ℕ)) (r : Ref) → All IsArray heap → IsArray (bytes_at heap r)
bytes_at-IsArray [] r h = (omega arith, tt)
bytes_at-IsArray (b ∷ heap) zero h = h.0
bytes_at-IsArray (b ∷ heap) (suc r) h = bytes_at-IsArray heap r h.1

module _ {size : ℕ} where
  pub Keeps-of-Gives : {A : Type 0} {Q : A → Type 0} (act : M A) → Gives size act Q → Keeps size act
  Keeps-of-Gives {Q} act g = record { at = λ m h. Gives-outcome size Q (act m) (g.at m h) }

  pub Keeps-alloc :
      {B : Type 0} (b : List ℕ) (next : Ref → M B)
      → IsArray b
      → ((r : Ref) → IsRef (suc size) r → Keeps (suc size) (next r))
      → Keeps size (alloc b >>= next)
  unfolding ◌>>=◌
  Keeps-alloc b next p k = record {
    at = λ m h.
        (k (length m.heap) (omega (arith, h.heap_size))).at (record m { heap = m.heap ++ b ∷ [] })
          (alloc-IsValidAt size b m p h);
  }

  pub Keeps-if :
      {A : Type 0} (test : Bool) (yes_act no_act : M A)
      → (test ≡ true → Keeps size yes_act)
      → (test ≡ false → Keeps size no_act)
      → Keeps size (if test then yes_act else no_act)
  Keeps-if true p q y n = y refl
  Keeps-if false p q y n = n refl

  pub Keeps-throw : {A : Type 0} (e : Error) → Keeps size (throw {A = A} e)
  Keeps-throw e = record { at = λ m h. forget h }

  pub Gives-throw_if : (test : Bool) (e : Error) → Gives size (throw_if test e) (λ _. test ≡ false)
  Gives-throw_if true e = record { at = λ m h. forget h }
  Gives-throw_if false e = record { at = λ m h. (h, refl) }

  pub Gives-pure : {A : Type 0} {Q : A → Type 0} (a : A) → Q a → Gives size (pure a) Q
  Gives-pure a q = record { at = λ m h. (h, q) }

  pub Gives-read : (r : Ref) → Gives size (read r) IsArray
  Gives-read r = record { at = λ m h. (h, bytes_at-IsArray m.heap r h.heap_valid) }

  pub Gives-write : (r : Ref) (b : List ℕ) → IsArray b → Gives size (write r b) (λ _. Unit)
  Gives-write r b p = record {
    at = λ m h. (
      record {
        heap_size = omega (arith, length-set m.heap r b, h.heap_size);
        stack_fits = h.stack_fits;
        stack_valid = h.stack_valid;
        scratch_size = h.scratch_size;
        scratch_valid = h.scratch_valid;
        bytecblock_valid = h.bytecblock_valid;
        intcblock_valid = h.intcblock_valid;
        heap_valid = All-set IsArray m.heap r b h.heap_valid p;
        ctx_valid = h.ctx_valid;
      },
      tt,
    );
  }
