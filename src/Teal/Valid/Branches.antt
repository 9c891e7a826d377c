-- ===== src/Teal/Valid/Branches.antt =====
-- `dig`, the branches and `return` keep the state well-formed.
use Prim.Native.String.{String}
use algorand_builder.Base.{
  ℕ, zero, suc, List, [], ◌∷◌, Option, none, some, length, All, drop, arith, inl, inr, ◌==◌,
  Bool-cases,
}
use algorand_builder.Teal.Machine.{Machine, StackElem}
use algorand_builder.Teal.Shuffle
use algorand_builder.Teal.Flow
use algorand_builder.Teal.Valid.{IsElem, IsValidAt}
use algorand_builder.Teal.Valid.Triples.{Gives, Keeps, Gives-pure, Keeps-bind, Keeps-throw, forget}
use algorand_builder.Teal.Valid.Rules.{
  keeps_rules, Gives-bind, Gives-push_elem, Gives-pop_elem, Keeps-push_elem,
  Gives-assert_min_stack_len, with_stack,
}
use algorand_builder.Teal.Valid.Opcodes.{pure-Keeps}
use algorand_builder.Teal.Valid.Scratch.{Gives-throw}

module _ {size : ℕ} where
  Gives-push_temp :
      (limit : ℕ) (e : StackElem) (temp : List StackElem)
      → IsElem size e
      → All (IsElem size) temp
      → Gives size (Shuffle.push_temp limit e temp) (All (IsElem size))
  Gives-push_temp limit e temp v h = elim (Bool-cases (length temp == limit)) [
    | inl full ↦ rw full (Gives-throw _)
    | inr room ↦ rw room (Gives-pure (e ∷ temp) (v, h))
  ]

  Gives-pop_to_temp :
      (n limit : ℕ) (temp : List StackElem)
      → All (IsElem size) temp
      → Gives size (Shuffle.pop_to_temp n limit temp) (All (IsElem size))
  unfolding Shuffle.pop_to_temp
  Gives-pop_to_temp zero limit temp h = Gives-pure temp h
  Gives-pop_to_temp (suc n) limit temp h = Gives-bind _ _ Gives-pop_elem λ e v.
      Gives-bind _ _ (Gives-push_temp limit e temp v h)
        λ temp' h'. Gives-pop_to_temp n limit temp' h'

  Gives-push_back :
      (temp : List StackElem)
      → All (IsElem size) temp
      → Gives size (Shuffle.push_back temp) (λ _. Unit)
  unfolding Shuffle.push_back
  Gives-push_back [] h = Gives-pure tt tt
  Gives-push_back (e ∷ temp) h =
      Gives-bind _ _ (Gives-push_elem e h.0) λ _ _. Gives-push_back temp h.1

  push_target-Keeps :
      (temp : List StackElem) → All (IsElem size) temp → Keeps size (Shuffle.push_target temp)
  unfolding Shuffle.push_target
  push_target-Keeps [] h = Keeps-throw _
  push_target-Keeps (e ∷ temp) h = Keeps-push_elem e h.0

  pub dig-Keeps : (depth : ℕ) → Keeps size (Shuffle.dig depth)
  unfolding Shuffle.dig
  dig-Keeps depth = Keeps-bind _ _ (Gives-assert_min_stack_len _) λ _ _.
      Keeps-bind _ _ (Gives-pop_to_temp _ _ [] tt)
        λ temp v. Keeps-bind _ _ (Gives-push_back temp v) λ _ _. push_target-Keeps temp v

  pub with_index :
      (i : ℕ) (m : Machine) → IsValidAt size m → IsValidAt size (record m { instruction_index = i })
  with_index i m h = record {
    heap_size = h.heap_size;
    stack_fits = h.stack_fits;
    stack_valid = h.stack_valid;
    scratch_size = h.scratch_size;
    scratch_valid = h.scratch_valid;
    bytecblock_valid = h.bytecblock_valid;
    intcblock_valid = h.intcblock_valid;
    heap_valid = h.heap_valid;
    ctx_valid = h.ctx_valid;
  }

  jumped-Keeps : (target : Option ℕ) → Keeps size (Flow.jumped target)
  unfolding Flow.jumped
  jumped-Keeps none = record { at = λ m h. forget (with_index (length m.instructions) m h) }
  jumped-Keeps (some i) = record { at = λ m h. forget (with_index i m h) }

  pub jump_forward-Keeps : (name : String) → Keeps size (Flow.jump_forward name)
  unfolding Flow.jump_forward
  jump_forward-Keeps name = record {
    at = λ m h.
        let next = suc m.instruction_index in
        (jumped-Keeps (Flow.find_label name (drop next m.instructions) next)).at m h;
  }

  pub branch_if_zero-Keeps : (name : String) → Keeps size (Flow.branch_if_zero name)
  unfolding Flow.branch_if_zero
  branch_if_zero-Keeps name = search (keeps_rules, jump_forward-Keeps, pure-Keeps) depth 8

  pub branch_if_not_zero-Keeps : (name : String) → Keeps size (Flow.branch_if_not_zero name)
  unfolding Flow.branch_if_not_zero
  branch_if_not_zero-Keeps name = search (keeps_rules, jump_forward-Keeps, pure-Keeps) depth 8

  Gives-clear_stack : Gives size Flow.clear_stack (λ _. Unit)
  unfolding Flow.clear_stack
  Gives-clear_stack = record { at = λ m h. (with_stack [] m (omega arith) tt h, tt) }

  end_execution-Keeps : Keeps size Flow.end_execution
  unfolding Flow.end_execution
  end_execution-Keeps = record { at = λ m h. forget (with_index (length m.instructions) m h) }

  pub return_op-Keeps : Keeps size Flow.return_op
  unfolding Flow.return_op
  return_op-Keeps = Keeps-bind _ _ (Gives-assert_min_stack_len _) λ _ _.
      Keeps-bind _ _ Gives-pop_elem λ e v.
        Keeps-bind _ _ Gives-clear_stack
          λ _ _. Keeps-bind _ _ (Gives-push_elem e v) λ _ _. end_execution-Keeps
