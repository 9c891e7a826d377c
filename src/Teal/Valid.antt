-- ===== src/Teal/Valid.antt =====
-- The well-formedness of an interpreter's state: every number is an unsigned 64 bit integer, every
-- reference lies in the heap, arrays hold bytes, and the stack and the scratch space keep their
-- sizes. The rules by which the opcodes are shown to keep it follow.
pub mod Contexts
pub mod Triples
pub mod Rules
pub mod Numbers
pub mod Opcodes
pub mod Arrays
pub mod Bits
pub mod Scratch
pub mod Branches
pub mod Makes
pub mod Ledger
pub mod Queries
pub mod Transactions
pub mod Globals
pub mod Applications
pub mod Execute
pub mod Program
use algorand_builder.Base.{ℕ, ◌≤◌, ◌<◌, ◌^◌, ◌≡◌, Option, none, some, List, length, All}
use algorand_builder.Base.Int.{ℤ, pos, negsuc}
use algorand_builder.Teal.Op.{Ref}
use algorand_builder.Teal.Library.{IsByte}
use algorand_builder.Teal.Machine.{Machine, Context, StackElem, uint64, bytes}
use algorand_builder.Ledger.Dict.{Dict}
use algorand_builder.Ledger.Data.{State, StateValue, KeyValue, AccountStore}
use algorand_builder.Ledger.Encoded.{Txn, TxValue, Fields}
use algorand_builder.Teal.Stack.{capacity}

abbrev pub IsUint64 : ℤ → Type 0
IsUint64 (pos n) = n < 2 ^ 64
IsUint64 (negsuc n) = ⊥

abbrev pub IsRef : ℕ → Ref → Type 0
IsRef size r = r < size

-- An element is valid in a heap of `size` arrays.
abbrev pub IsElem : ℕ → StackElem → Type 0
IsElem size (uint64 z) = IsUint64 z
IsElem size (bytes r) = IsRef size r

-- An array holds bytes, and its length is an unsigned 64 bit integer.
abbrev pub IsArray : List ℕ → Type 0
IsArray b = (length b < 2 ^ 64) × All IsByte b

-- Every value of a dictionary satisfies `P`.
abbrev pub AllValues {κ} : {K V : Type 0} → (V → Type κ) → Dict K V → Type κ
AllValues P d = All (λ kv. P kv.1) d

-- A value of a contract's state.
abbrev pub IsValue : ℕ → StateValue → Type 0
IsValue size (StateValue.number z) = IsUint64 z
IsValue size (StateValue.array r) = IsRef size r

-- The numbers of an account that the opcodes read are unsigned 64 bit integers, and the states of
-- its applications hold such numbers and arrays of the heap.
pub record IsAccount (size : ℕ) (a : AccountStore) : Type 0 where
  pub amount_valid : IsUint64 a.amount
  pub min_balance_valid : IsUint64 a.min_balance
  pub holdings_valid : AllValues (λ h. IsUint64 h.amount) a.assets
  pub local_states_valid :
      AllValues (λ app. AllValues (IsValue size) app.key_value) a.apps_local_state
  pub global_states_valid :
      AllValues (λ app. AllValues (IsValue size) app.global_state) a.created_apps
  pub defs_valid : AllValues (λ d. IsUint64 d.total × (d.decimals < 2 ^ 64)) a.created_assets

abbrev pub IsLedger : ℕ → State → Type 0
IsLedger size s = AllValues (IsAccount size) s.accounts

-- A value of a field of an encoded transaction.
abbrev pub IsTxValue : TxValue → Type 0
IsTxValue (TxValue.number z) = IsUint64 z
IsTxValue (TxValue.buffer b) = IsArray b
IsTxValue (TxValue.buffers l) = (length l < 2 ^ 64) × All IsArray l
IsTxValue (TxValue.numbers l) = (length l < 2 ^ 64) × All (λ n. n < 2 ^ 64) l
IsTxValue _ = Unit

abbrev pub AreFields : Option Fields → Type 0
AreFields none = Unit
AreFields (some d) = AllValues IsTxValue d

pub record IsTxn (tx : Txn) : Type 0 where
  pub fields_valid : AllValues IsTxValue tx.fields
  pub apar_valid : AreFields tx.apar
  pub apgs_valid : AreFields tx.apgs
  pub apls_valid : AreFields tx.apls

-- What the opcodes read of the runtime.
pub record IsContext (size : ℕ) (c : Context) : Type 0 where
  pub ledger_valid : IsLedger size c.state
  pub gtxs_valid : All IsTxn c.gtxs
  pub gtxs_fit : length c.gtxs < 2 ^ 64
  pub tx_index_fits : c.tx_index < 2 ^ 64
  pub round_fits : c.round < 2 ^ 64
  pub timestamp_fits : c.timestamp < 2 ^ 64
  pub zero_address_valid : IsRef size c.zero_address
  pub zero_byte_valid : IsRef size c.zero_byte

-- Well-formed, with `size` arrays in the heap.
pub record IsValidAt (size : ℕ) (m : Machine) : Type 0 where
  pub heap_size : length m.heap ≡ size
  pub stack_fits : length m.stack ≤ capacity
  pub stack_valid : All (IsElem size) m.stack
  pub scratch_size : length m.scratch ≡ 256
  pub scratch_valid : All (IsElem size) m.scratch
  pub bytecblock_valid : All (IsRef size) m.bytecblock
  pub intcblock_valid : All IsUint64 m.intcblock
  pub heap_valid : All IsArray m.heap
  pub ctx_valid : IsContext size m.ctx

abbrev pub IsValid : Machine → Type 0
IsValid m = IsValidAt (length m.heap) m
