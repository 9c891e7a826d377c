-- ===== src/Ledger/Encoded.antt =====
-- packages/runtime/src/types.ts: the encoded objects of transactions, which the transaction opcodes
-- read field by field. algosdk makes them from the parameters of a transaction.
use Prim.Native.String.{String}
use algorand_builder.Base.{ℕ, Bool, List, Option, none, some}
use algorand_builder.Base.Int.{ℤ}
use algorand_builder.Base.Equality.{string_eq}
use algorand_builder.Ledger.Dict.{Dict, lookup}

-- The value of a field: a number, a `Buffer`, a text, a Boolean, or an array of buffers or numbers.
pub data TxValue : Type 0 where
  number : ℤ → TxValue
  buffer : List ℕ → TxValue
  text : String → TxValue
  flag : Bool → TxValue
  buffers : List (List ℕ) → TxValue
  numbers : List ℕ → TxValue

abbrev pub Fields : Type 0
Fields = Dict String TxValue

-- `Txn`: the fields, with the three that are objects apart. A missing field is `undefined`.
pub record Txn : Type 0 where
  pub fields : Fields
  pub apar : Option Fields
  pub apgs : Option Fields
  pub apls : Option Fields

-- `tx[s]`
unfoldable pub field_of : String → Txn → Option TxValue
field_of s tx = lookup s tx.fields

-- `object?.[s]`
unfoldable pub nested_field : String → Option Fields → Option TxValue
nested_field s none = none
nested_field s (some object) = lookup s object
