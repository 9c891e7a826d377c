-- ===== src/Teal/Valid/Scratch.antt =====
-- Constants and the scratch space keep the state well-formed.
use algorand_builder.Base.{
  Option, none, some, ℕ, List, All, All-get, All-set, length-set, set, get_elem?, arith,
  Option-cases, inl, inr,
}
use algorand_builder.Base.Int.{ℤ}
use algorand_builder.Teal.Op.{Ref}
use algorand_builder.Teal.Machine.{StackElem, uint64, bytes, Error, throw, gets}
use algorand_builder.Teal.Checks.{check_index_bound, assert_arr_length}
use algorand_builder.Teal.Constants
use algorand_builder.Teal.Constants.{fetch}
use algorand_builder.Teal.Valid.{IsUint64, IsRef, IsElem, IsValidAt}
use algorand_builder.Teal.Valid.Triples.{
  Keeps-throw, Gives, Keeps, Gives-pure, Gives-throw_if, Keeps-bind, forget,
}
use algorand_builder.Teal.Valid.Rules.{keeps_rules, Keeps-push_elem}

module _ {size : ℕ} where
  pub Gives-throw : {A : Type 0} {Q : A → Type 0} (e : Error) → Gives size (throw {A = A} e) Q
  Gives-throw e = record { at = λ m h. forget h }

  Gives-fetch :
      {A : Type 0} (P : A → Type 0) (xs : List A) (i : ℕ)
      → All P xs
      → Gives size (fetch (get_elem? xs i)) P
  Gives-fetch P xs i h = elim (Option-cases (get_elem? xs i)) [
    | inl e ↦ rw e (Gives-throw _)
    | inr (a, e) ↦ rw e (Gives-pure a (All-get P xs i h e))
  ]

  pub arg-Keeps : (r : Ref) → IsRef size r → Keeps size (Constants.arg r)
  unfolding Constants.arg
  arg-Keeps r h = Keeps-push_elem (bytes r) h

  Gives-block : Gives size (gets (λ m. m.bytecblock)) (All (IsRef size))
  Gives-block = record { at = λ m h. (h, h.bytecblock_valid) }

  Gives-intcblock : Gives size (gets (λ m. m.intcblock)) (All IsUint64)
  Gives-intcblock = record { at = λ m h. (h, h.intcblock_valid) }

  Gives-scratch : Gives size (gets (λ m. m.scratch)) (All (IsElem size))
  Gives-scratch = record { at = λ m h. (h, h.scratch_valid) }

  pub bytec-Keeps : (i : Option ℕ) → Keeps size (Constants.bytec i)
  unfolding Constants.bytec check_index_bound
  bytec-Keeps none = Keeps-throw _
  bytec-Keeps (some i) = Keeps-bind _ _ Gives-block λ block v.
      Keeps-bind _ _ (Gives-throw_if _ _) λ _ _.
        Keeps-bind _ _ (Gives-fetch (IsRef size) block i v) λ r h. Keeps-push_elem (bytes r) h

  pub intc-Keeps : (i : Option ℕ) → Keeps size (Constants.intc i)
  unfolding Constants.intc check_index_bound
  intc-Keeps none = Keeps-throw _
  intc-Keeps (some i) = Keeps-bind _ _ Gives-intcblock λ block v.
      Keeps-bind _ _ (Gives-throw_if _ _)
        λ _ _. Keeps-bind _ _ (Gives-fetch IsUint64 block i v) λ z h. Keeps-push_elem (uint64 z) h

  pub load-Keeps : (i : ℕ) → Keeps size (Constants.load i)
  unfolding Constants.load check_index_bound
  load-Keeps i = Keeps-bind _ _ Gives-scratch λ scratch v.
      Keeps-bind _ _ (Gives-throw_if _ _)
        λ _ _. Keeps-bind _ _ (Gives-fetch (IsElem size) scratch i v) Keeps-push_elem

  set_bytecblock-Keeps :
      (block : List Ref) → All (IsRef size) block → Keeps size (Constants.set_bytecblock block)
  unfolding Constants.set_bytecblock
  set_bytecblock-Keeps block v = record {
    at = λ m h.
        let v' : IsValidAt size (record m { bytecblock = block }) = record {
          heap_size = h.heap_size;
          stack_fits = h.stack_fits;
          stack_valid = h.stack_valid;
          scratch_size = h.scratch_size;
          scratch_valid = h.scratch_valid;
          bytecblock_valid = v;
          intcblock_valid = h.intcblock_valid;
          heap_valid = h.heap_valid;
          ctx_valid = h.ctx_valid;
        } in
        forget v';
  }

  pub bytecblock-Keeps :
      (block : List Ref) → All (IsRef size) block → Keeps size (Constants.bytecblock block)
  unfolding Constants.bytecblock assert_arr_length
  bytecblock-Keeps block v = Keeps-bind _ _ (Gives-throw_if _ _) λ _ _. set_bytecblock-Keeps block v

  set_intcblock-Keeps :
      (block : List ℤ) → All IsUint64 block → Keeps size (Constants.set_intcblock block)
  unfolding Constants.set_intcblock
  set_intcblock-Keeps block v = record {
    at = λ m h.
        let v' : IsValidAt size (record m { intcblock = block }) = record {
          heap_size = h.heap_size;
          stack_fits = h.stack_fits;
          stack_valid = h.stack_valid;
          scratch_size = h.scratch_size;
          scratch_valid = h.scratch_valid;
          bytecblock_valid = h.bytecblock_valid;
          intcblock_valid = v;
          heap_valid = h.heap_valid;
          ctx_valid = h.ctx_valid;
        } in
        forget v';
  }

  pub intcblock-Keeps :
      (block : List ℤ) → All IsUint64 block → Keeps size (Constants.intcblock block)
  unfolding Constants.intcblock assert_arr_length
  intcblock-Keeps block v = Keeps-bind _ _ (Gives-throw_if _ _) λ _ _. set_intcblock-Keeps block v

  set_scratch-Keeps :
      (i : ℕ) (e : StackElem) → IsElem size e → Keeps size (Constants.set_scratch i e)
  unfolding Constants.set_scratch
  set_scratch-Keeps i e v = record {
    at = λ m h.
        let v' : IsValidAt size (record m { scratch = set m.scratch i e }) = record {
          heap_size = h.heap_size;
          stack_fits = h.stack_fits;
          stack_valid = h.stack_valid;
          scratch_size = omega (arith, length-set m.scratch i e, h.scratch_size);
          scratch_valid = All-set (IsElem size) m.scratch i e h.scratch_valid v;
          bytecblock_valid = h.bytecblock_valid;
          intcblock_valid = h.intcblock_valid;
          heap_valid = h.heap_valid;
          ctx_valid = h.ctx_valid;
        } in
        forget v';
  }

  pub store-Keeps : (i : ℕ) → Keeps size (Constants.store i)
  unfolding Constants.store check_index_bound
  store-Keeps i = Keeps-bind _ _ Gives-scratch λ scratch v.
      Keeps-bind _ _ (Gives-throw_if _ _) λ _ _. search (keeps_rules, set_scratch-Keeps) depth 8

  pub int-Keeps : (z : ℤ) → IsUint64 z → Keeps size (Constants.int z)
  unfolding Constants.int
  int-Keeps z h = Keeps-push_elem (uint64 z) h
