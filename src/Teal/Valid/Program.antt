-- ===== src/Teal/Valid/Program.antt =====
-- A program whose constants are valid keeps the state well-formed through all of its run.
use algorand_builder.Base.{
  ℕ, zero, suc, ◌≤◌, ◌≡◌, refl, List, [], ◌∷◌, Option, none, some, length, All, All-get, All-map,
  All-replicate, length-replicate, get_elem?, arith, Option-cases, inl, inr,
}
use algorand_builder.Base.Int.{pos, negsuc}
use algorand_builder.Teal.Op.{Op}
use algorand_builder.Teal.Library.{Library, IsLawful}
use algorand_builder.Teal.Machine.{
  Machine, Context, StackElem, uint64, bytes, Outcome, ok, fail, start, empty_scratch,
}
use algorand_builder.Teal.Execute.{
  execute_op, next_round, round, run_loop, accepts, verdict, enough_fuel, finish, execute,
}
use algorand_builder.Teal.Forward.{Forward, After}
use algorand_builder.Teal.Forward.Opcodes.{execute_op-Advances}
use algorand_builder.Teal.Forward.Loop.{execute-total}
use algorand_builder.Teal.Valid.{IsRef, IsElem, IsArray, IsContext, IsValid}
use algorand_builder.Teal.Valid.Triples.{Post}
use algorand_builder.Teal.Valid.Rules.{with_stack}
use algorand_builder.Teal.Valid.Branches.{with_index}
use algorand_builder.Teal.Valid.Execute.{OpIsValid, execute_op-Keeps}

-- Arguments stay valid as the heap grows.
OpIsValid-le : (size k : ℕ) → size ≤ k → (op : Op) → OpIsValid size op → OpIsValid k op
OpIsValid-le size k h (Op.arg r) v = omega arith
OpIsValid-le size k h (Op.bytecblock block) v =
    All-map (IsRef size) (IsRef k) (λ r p. omega arith) block v
OpIsValid-le size k h (Op.intcblock block) v = v
OpIsValid-le size k h (Op.int z) v = v
OpIsValid-le size k h (Op.push_int z) v = v
OpIsValid-le size k h Op.bitwise_not v = v
OpIsValid-le size k h _ v = tt

-- The state is well-formed, and so are the arguments of the program's opcodes.
pub record IsLoaded (m : Machine) : Type 0 where
  pub state_valid : IsValid m
  pub program_valid : All (OpIsValid (length m.heap)) m.instructions

-- Well-formedness of the state in an outcome.
abbrev pub OutcomeIsValid : Outcome (Unit {0}) → Type 0
OutcomeIsValid (ok _ m) = IsValid m
OutcomeIsValid (fail e m) = IsValid m

module _ (lib : Library) (law : IsLawful lib) where
  next_round-valid :
      (loop : Machine → Option (Outcome (Unit {0}))) (m : Machine)
      → ((m' : Machine) (o : Outcome (Unit {0}))
          → IsLoaded m'
          → loop m' ≡ some o
          → OutcomeIsValid o)
      → All (OpIsValid (length m.heap)) m.instructions
      → (o o' : Outcome (Unit {0})) → After (Forward m) o
      → Post IsValid (λ _. IsValid) o
      → next_round lib loop o ≡ some o'
      → OutcomeIsValid o'
  unfolding next_round
  next_round-valid loop m rec pv (fail err m') o' f v e = ground (arith, v)
  next_round-valid loop m rec pv (ok _ m') o' f v e =
      let m'' = record m' { instruction_index = suc m'.instruction_index } in
      let pv' : All (OpIsValid (length m'.heap)) m'.instructions = rw f.program_kept (
        All-map _ _ (OpIsValid-le (length m.heap) (length m'.heap) f.heap_grows) m.instructions
          pv) in
      rec m'' o'
        (record { state_valid = with_index (suc m'.instruction_index) m' v; program_valid = pv' }) e

  run_loop-valid :
      (fuel : ℕ) (m : Machine) (o : Outcome (Unit {0}))
      → IsLoaded m
      → run_loop lib fuel m ≡ some o
      → OutcomeIsValid o
  unfolding run_loop round
  run_loop-valid zero m o h e = cc
  run_loop-valid (suc fuel) m o h e =
      elim (Option-cases (get_elem? m.instructions m.instruction_index)) [
        | inl none_left ↦ ground (arith, h.state_valid)
        | inr (op, found) ↦
            let v =
              All-get (OpIsValid (length m.heap)) m.instructions m.instruction_index h.program_valid
                found in
            next_round-valid (run_loop lib fuel) m (run_loop-valid fuel) h.program_valid
              (execute_op lib op m) o ((execute_op-Advances lib op).at m)
              ((execute_op-Keeps lib law op v).at m h.state_valid) (rw (found, round) at e)
      ]

accepts-valid : (l : List StackElem) (m : Machine) → IsValid m → OutcomeIsValid (accepts l m)
unfolding accepts
accepts-valid [] m h = h
accepts-valid (uint64 (pos zero) ∷ []) m h = with_stack [] m (omega arith) tt h
accepts-valid (uint64 (pos (suc n)) ∷ []) m h = with_stack [] m (omega arith) tt h
accepts-valid (uint64 (negsuc n) ∷ []) m h = with_stack [] m (omega arith) tt h
accepts-valid (bytes r ∷ []) m h = with_stack [] m (omega arith) tt h
accepts-valid (uint64 (pos zero) ∷ e ∷ l) m h = h
accepts-valid (uint64 (pos (suc n)) ∷ e ∷ l) m h = h
accepts-valid (uint64 (negsuc n) ∷ e ∷ l) m h = h
accepts-valid (bytes r ∷ e ∷ l) m h = h

verdict-valid : (o : Outcome (Unit {0})) → OutcomeIsValid o → OutcomeIsValid (verdict o)
unfolding verdict
verdict-valid (ok _ m) h = accepts-valid m.stack m h
verdict-valid (fail e m) h = h

finish-valid :
    (r : Option (Outcome (Unit {0})))
    → ((o : Outcome (Unit {0})) → r ≡ some o → OutcomeIsValid o)
    → (o : Outcome (Unit {0})) → finish r ≡ some o
    → OutcomeIsValid o
finish-valid none h o e = cc
finish-valid (some r) h o e = ground (arith, verdict-valid r (h r refl))

-- Interpreter.execute on any loaded program ends, by acceptance or an exception, and leaves a
-- well-formed state: at most 1000 stack elements, 256 scratch slots, unsigned 64 bit numbers,
-- references that lie in the heap, and bytes in every array. Loaded means that the state is
-- well-formed and the arguments of the opcodes are valid, without the opcode `~`. The libraries
-- that the opcodes call keep to their documented results.
pub execute-valid :
    (lib : Library)
    → IsLawful lib
    → (m : Machine) → IsLoaded m
    → (o : Outcome (Unit {0})) × (execute lib m ≡ some o) × OutcomeIsValid o
unfolding execute
execute-valid lib law m h =
    let (o, p) = execute-total lib m in
    (
      o,
      p,
      finish-valid (run_loop lib (enough_fuel m) m)
          (λ r e. run_loop-valid lib law (enough_fuel m) m r h e) o p,
    )

-- The state in which a parsed program starts is well-formed.
pub start-IsLoaded :
    (program : List Op) (arrays : List (List ℕ)) (version : ℕ) (ctx : Context)
    → All IsArray arrays
    → All (OpIsValid (length arrays)) program
    → IsContext (length arrays) ctx
    → IsLoaded (start program arrays version ctx)
unfolding empty_scratch
start-IsLoaded program arrays version ctx a p c = record {
  state_valid = record {
    heap_size = refl;
    stack_fits = omega arith;
    stack_valid = tt;
    scratch_size = length-replicate 256 (uint64 (pos 0));
    scratch_valid = All-replicate (IsElem (length arrays)) 256 (uint64 (pos 0)) (omega arith);
    bytecblock_valid = tt;
    intcblock_valid = tt;
    heap_valid = a;
    ctx_valid = c;
  };
  program_valid = p;
}
