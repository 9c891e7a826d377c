-- ===== src/Teal/Txn.antt =====
-- packages/runtime/src/lib/txn.ts, `parseToStackElem`, `txnSpecbyField` and `txAppArg`, and
-- packages/runtime/src/interpreter/opcode-list.ts: the opcodes that read a field of a transaction.
use Prim.Native.String.{String}
use algorand_builder.Base.{
  true, false, ℕ, zero, suc, Bool, false, ◌||◌, List, [], ◌∷◌, Option, none, some, length,
  if◌then◌else◌,
}
use algorand_builder.Base.Int.{ℤ, pos, negsuc}
use algorand_builder.Base.Equality.{same, string_eq}
use algorand_builder.Ledger.Dict.{Dict, lookup}
use algorand_builder.Ledger.Encoded.{Txn, TxValue, field_of, nested_field}
use algorand_builder.Teal.Op.{Encoding}
use algorand_builder.Teal.Library.{Library}
use algorand_builder.Teal.Machine.{
  StackElem, uint64, bytes, Error, M, pure, throw, gets, alloc, ◌>>=◌, ◌>>◌,
}
use algorand_builder.Teal.Stack.{push_elem}
use algorand_builder.Teal.Checks.{assert_min_stack_len, assert_uint8, check_index_bound, pop_bigint}
use algorand_builder.Teal.Fields.{
  Default, tx_field_defaults, field_key, asset_txn_fields, global_num_txn_fields,
  local_num_txn_fields, txn_type,
}
use algorand_builder.Teal.Query.{current_tx, tx_at, element, require, as_id, or_zero}

-- `set.has(name)`
unfoldable pub contains : String → List String → Bool
contains name [] = false
contains name (n ∷ names) = same name n || contains name names

-- A new array on the heap, as an element.
abbrev pub new_array : List ℕ → M StackElem
new_array b = do r ← alloc b; pure (bytes r)

unfoldable pub default_elem : Option Default → M StackElem
default_elem none = throw Error.js_error
default_elem (some Default.zero_uint64) = pure (uint64 (pos 0))
default_elem (some Default.zero_address) = do r ← gets (λ m. m.ctx.zero_address); pure (bytes r)
default_elem (some Default.zero_byte) = do r ← gets (λ m. m.ctx.zero_byte); pure (bytes r)

-- `TxFieldDefaults[field]`
unfoldable pub field_default : String → M StackElem
field_default field = default_elem (lookup field tx_field_defaults)

-- `tx[s]`, where the field has a key.
abbrev pub value_at_key : Option String → (String → Option TxValue) → Option TxValue
value_at_key none read_key = none
value_at_key (some s) read_key = read_key s

-- `value?.length`, of an array
unfoldable pub count_of : Option TxValue → Option TxValue
count_of (some (TxValue.buffers l)) = some (TxValue.number (pos (length l)))
count_of (some (TxValue.numbers l)) = some (TxValue.number (pos (length l)))
count_of _ = none

-- The cases of the `switch` that count an array: the array's field.
abbrev pub counted_fields : Dict String String
counted_fields =
    ("NumAppArgs", "ApplicationArgs")
    ∷ ("NumAccounts", "Accounts")
    ∷ ("NumAssets", "Assets")
    ∷ ("NumApplications", "Applications")
    ∷ []

unfoldable pub type_enum : Option TxValue → M StackElem
type_enum (some (TxValue.text s)) = do
  n ← require Error.js_error (lookup s txn_type)
  pure (uint64 (pos n))
type_enum _ = throw Error.js_error

-- The element at index 0 of the arrays of accounts and of applications: the transaction's own.
unfoldable pub own_of : Bool → Bool → Txn → Option (Option TxValue)
own_of true applications tx = some (field_of "snd" tx)
own_of false true tx = some (some (TxValue.number (pos (or_zero (as_id (field_of "apid" tx))))))
own_of false false tx = none

abbrev pub own_element : String → Txn → Option (Option TxValue)
own_element field tx = own_of (same field "Accounts") (same field "Applications") tx

unfoldable pub to_index : ℤ → M ℕ
to_index (pos i) = pure i
to_index (negsuc i) = throw Error.invalid_uint8

-- The index of a transaction, from the stack.
unfoldable pub pop_tx_index : M ℕ
pop_tx_index = do assert_min_stack_len 1; top ← pop_bigint; assert_uint8 top; to_index top

module _ (lib : Library) where
  -- `parseToStackElem(a, field)`. A Boolean or an array is none of its cases.
  unfoldable pub parse_to_stack_elem : Option TxValue → String → M StackElem
  parse_to_stack_elem (some (TxValue.buffer b)) field = new_array b
  parse_to_stack_elem (some (TxValue.number z)) field = pure (uint64 z)
  parse_to_stack_elem (some (TxValue.text s)) field = new_array (lib.buffer_from Encoding.utf8 s)
  parse_to_stack_elem _ field = field_default field

  unfoldable pub tx_id : Option TxValue → M StackElem
  tx_id (some (TxValue.text s)) = new_array (lib.buffer_from Encoding.utf8 s)
  tx_id _ = throw Error.js_error

  -- The last cases of the `switch`: the length of an array, and the field itself.
  unfoldable pub plain_field : String → Txn → ℕ → Option String → M StackElem
  plain_field field tx version (some array) =
      parse_to_stack_elem (count_of (value_at_key (field_key version array) λ s. field_of s tx))
        field
  plain_field field tx version none =
      parse_to_stack_elem (value_at_key (field_key version field) λ s. field_of s tx) field

  -- The `switch`. The transaction is the one at position `i` of the group.
  unfoldable pub switch_field : String → Txn → ℕ → ℕ → M StackElem
  switch_field field tx i version =
      let other = plain_field field tx version (lookup field counted_fields) in
      let index = if same field "GroupIndex" then pure (uint64 (pos i)) else other in
      let id = if same field "TxID" then tx_id (field_of "txID" tx) else index in
      let kind = if same field "TypeEnum" then type_enum (field_of "type" tx) else id in
      if same field "FirstValidTime" then throw Error.rejected_by_logic else kind

  unfoldable pub nested_elem : String → Option (Dict String TxValue) → ℕ → M StackElem
  nested_elem field object version =
      parse_to_stack_elem (value_at_key (field_key version field) λ s. nested_field s object) field

  -- `txnSpecbyField`
  unfoldable pub txn_spec_by_field : String → Txn → ℕ → ℕ → M StackElem
  txn_spec_by_field field tx i version =
      let plain = switch_field field tx i version in
      let local =
        if contains field local_num_txn_fields then nested_elem field tx.apls version else plain in
      let global =
        if contains field global_num_txn_fields then nested_elem field tx.apgs version else local in
      if contains field asset_txn_fields then nested_elem field tx.apar version else global

  unfoldable pub array_element : String → TxValue → ℕ → M StackElem
  array_element field (TxValue.buffers l) i = do
    b ← element l i
    parse_to_stack_elem (some (TxValue.buffer b)) field
  array_element field (TxValue.numbers l) i = do
    n ← element l i
    parse_to_stack_elem (some (TxValue.number (pos n))) field
  array_element field _ i = throw Error.js_error

  -- The index after the special case of the transaction's own element.
  unfoldable pub indexed_element : String → TxValue → Option (Option TxValue) → ℕ → M StackElem
  indexed_element field result none i = array_element field result i
  indexed_element field result (some own) zero = parse_to_stack_elem own field
  indexed_element field result (some own) (suc i) = array_element field result i

  unfoldable pub array_field : String → Txn → Option TxValue → ℕ → M StackElem
  array_field field tx none i = field_default field
  array_field field tx (some result) i = indexed_element field result (own_element field tx) i

  -- `txAppArg`
  unfoldable pub tx_app_arg : String → Txn → ℕ → ℕ → M StackElem
  tx_app_arg field tx i version =
      array_field field tx (value_at_key (field_key version field) λ s. field_of s tx) i

  -- The field, or an element of the array field, of a transaction at a position of the group.
  unfoldable pub field_elem : String → Option ℕ → Txn → ℕ → ℕ → M StackElem
  field_elem field none tx i version = txn_spec_by_field field tx i version
  field_elem field (some index) tx i version = tx_app_arg field tx index version

  -- `Txn`
  unfoldable pub txn : String → Option ℕ → M (Unit {0})
  txn field index = do
    tx ← current_tx
    i ← gets (λ m. m.ctx.tx_index)
    version ← gets (λ m. m.teal_version)
    e ← field_elem field index tx i version
    push_elem e

  -- `Gtxn`
  unfoldable pub gtxn : ℕ → String → Option ℕ → M (Unit {0})
  gtxn i field index = do
    assert_uint8 (pos i)
    gtxs ← gets (λ m. m.ctx.gtxs)
    check_index_bound i gtxs
    tx ← tx_at i
    version ← gets (λ m. m.teal_version)
    e ← field_elem field index tx i version
    push_elem e

  -- `Txna`
  unfoldable pub txna : String → ℕ → M (Unit {0})
  txna field index = do
    tx ← current_tx
    version ← gets (λ m. m.teal_version)
    e ← tx_app_arg field tx index version
    push_elem e

  -- `Gtxna`
  unfoldable pub gtxna : ℕ → String → ℕ → M (Unit {0})
  gtxna i field index = do
    assert_uint8 (pos i)
    gtxs ← gets (λ m. m.ctx.gtxs)
    check_index_bound i gtxs
    tx ← tx_at i
    version ← gets (λ m. m.teal_version)
    e ← tx_app_arg field tx index version
    push_elem e

  -- `Gtxns`
  unfoldable pub gtxns : String → Option ℕ → M (Unit {0})
  gtxns field index = do i ← pop_tx_index; gtxn i field index

  -- `Gtxnsa`
  unfoldable pub gtxnsa : String → ℕ → M (Unit {0})
  gtxnsa field index = do i ← pop_tx_index; gtxna i field index
