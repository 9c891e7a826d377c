-- ===== src/Teal/Machine.antt =====
-- packages/runtime/src/interpreter/interpreter.ts: the state of an `Interpreter`, and the monad in
-- which an opcode runs. A `Uint8Array` is a shared mutable object, so the stack, the scratch space
-- and the constant blocks hold references, and the heap holds the arrays' bytes. An exception
-- leaves what was written before it.
use algorand_builder.Base.{
  ℕ, none, some, List, [], ◌∷◌, ◌++◌, Bool, true, false, length, get_elem?, set, replicate,
}
use algorand_builder.Base.Int.{ℤ, pos}
use algorand_builder.Ledger.Data.{State, TxError}
use algorand_builder.Ledger.Encoded.{Txn}
use algorand_builder.Teal.Op.{Op, Ref}

-- `StackElem = bigint | Uint8Array`
pub data StackElem : Type 0 where
  uint64 : ℤ → StackElem
  bytes : Ref → StackElem

-- The errors of packages/runtime/src/errors/errors-list.ts that the opcodes throw, without their
-- parameters. The last rows are JavaScript's own exceptions, those of `Stack`, and an error that a
-- library throws.
pub data Error : Type 0 where
  assert_stack_length uint64_overflow uint64_underflow zero_div index_out_of_bound : Error
  assert_arr_length invalid_type invalid_uint8 set_bit_value_error set_bit_index_error : Error
  set_bit_index_bytes_error substring_end_before_start substring_range_beyond : Error
  concat_error label_not_found teal_encountered_err rejected_by_logic : Error
  stack_overflow empty_stack : Error
  js_error library_error invalid_field_type : Error
  -- an error of the ledger
  ledger_error : TxError → Error

-- What an interpreter reads of its runtime: `runtime.ctx.state`, `runtime.ctx.tx` by its position in
-- `runtime.ctx.gtxs`, the round and the timestamp; and where the two constant arrays `zeroAddress`
-- and `zeroByte` of lib/constants.ts are. The heap of `state` is the machine's while a program runs.
pub record Context : Type 0 where
  pub state : State
  pub tx_index : ℕ
  pub gtxs : List Txn
  pub round : ℕ
  pub timestamp : ℕ
  pub zero_address : Ref
  pub zero_byte : Ref

pub record Machine : Type 0 where
  -- last pushed first
  pub stack : List StackElem
  pub scratch : List StackElem
  pub bytecblock : List Ref
  pub intcblock : List ℤ
  pub instructions : List Op
  pub instruction_index : ℕ
  pub heap : List (List ℕ)
  pub teal_version : ℕ
  pub ctx : Context

pub data Outcome {ℓ} (A : Type ℓ) : Type ℓ where
  ok : A → Machine → Outcome A
  fail : Error → Machine → Outcome A

abbrev pub M : Type 0 → Type 0
M A = Machine → Outcome A

abbrev pub pure : {A : Type 0} → A → M A
pure a m = ok a m

abbrev pub throw : {A : Type 0} → Error → M A
throw e m = fail e m

-- What happens after an outcome: an exception skips the rest.
abbrev pub bind : {A B : Type 0} → Outcome A → (A → M B) → Outcome B
bind (ok a m) next = next a m
bind (fail e m) next = fail e m

infixl 5 ◌>>=◌ ◌>>◌
unfoldable pub ◌>>=◌ : {A B : Type 0} → M A → (A → M B) → M B
◌>>=◌ act next m = bind (act m) next

abbrev pub ◌>>◌ : {B : Type 0} → M (Unit {0}) → M B → M B
act >> next = act >>= λ _. next

-- `if (test) { throw e }`
abbrev pub throw_if : Bool → Error → M (Unit {0})
throw_if true e m = fail e m
throw_if false e m = ok tt m

abbrev pub gets : {A : Type 0} → (Machine → A) → M A
gets f m = ok (f m) m

-- The bytes of an array. A reference that opcodes can reach lies in the heap.
abbrev pub bytes_at : List (List ℕ) → Ref → List ℕ
bytes_at heap r = elim (get_elem? heap r) [ none ↦ [] | some b ↦ b ]

abbrev pub read : Ref → M (List ℕ)
read r m = ok (bytes_at m.heap r) m

-- A new `Uint8Array`.
abbrev pub alloc : List ℕ → M Ref
alloc b m = ok (length m.heap) (record m { heap = m.heap ++ b ∷ [] })

-- A write into an array that exists.
abbrev pub write : Ref → List ℕ → M (Unit {0})
write r b m = ok tt (record m { heap = set m.heap r b })

-- `new Array<StackElem>(256).fill(DEFAULT_STACK_ELEM)`
unfoldable pub empty_scratch : List StackElem
empty_scratch = replicate 256 (uint64 (pos 0))

-- The state that `new Interpreter()` builds, with a parsed program, the arrays that it refers to, its
-- version and the runtime's context.
abbrev pub start : List Op → List (List ℕ) → ℕ → Context → Machine
start program arrays version ctx = record {
  stack = [];
  scratch = empty_scratch;
  bytecblock = [];
  intcblock = [];
  instructions = program;
  instruction_index = 0;
  heap = arrays;
  teal_version = version;
  ctx = ctx;
}
