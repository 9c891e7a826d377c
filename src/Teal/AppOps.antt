-- ===== src/Teal/AppOps.antt =====
-- packages/runtime/src/interpreter/opcode-list.ts: the opcodes on the states of applications.
use Prim.Native.String.{String}
use algorand_builder.Base.{ℕ, zero, suc, List, Option, none, some}
use algorand_builder.Base.Int.{ℤ, pos, negsuc}
use algorand_builder.Base.Equality.{nat_eq, string_eq}
use algorand_builder.Ledger.Dict.{lookup, erase}
use algorand_builder.Ledger.Data.{State, StateValue, AccountStore, AppLocalState, TxError}
use algorand_builder.Ledger.Encoded.{Txn, field_of}
use algorand_builder.Ledger.Monad as Ledger
use algorand_builder.Ledger.Monad.{Act}
use algorand_builder.Ledger.Account.{set_local_app, set_created_app}
use algorand_builder.Ledger.AppState.{get_local_state, set_local_state, set_global_state}
use algorand_builder.Ledger.Context.{get_app_creator, on_account}
use algorand_builder.Teal.Library.{Library}
use algorand_builder.Teal.Machine.{StackElem, uint64, bytes, Error, M, throw, read, ◌>>=◌, ◌>>◌}
use algorand_builder.Teal.Stack.{push_elem, pop_elem}
use algorand_builder.Teal.Checks.{assert_min_stack_len, pop_bigint, pop_bytes}
use algorand_builder.Teal.Query.{
  key_text, on_ledger, current_tx, current_app_id, as_id, as_numbers, element_at, query_address,
  query_account, query_global_state, require,
}

-- An element of the stack, and a value of a state.
abbrev pub elem_of : StateValue → StackElem
elem_of (StateValue.number z) = uint64 z
elem_of (StateValue.array r) = bytes r

abbrev pub value_of_elem : StackElem → StateValue
value_of_elem (uint64 z) = StateValue.number z
value_of_elem (bytes r) = StateValue.array r

-- `if (val)`: a missing value and the number 0 are falsy, an array is not.
unfoldable pub truthy_value : Option StateValue → Option StateValue
truthy_value none = none
truthy_value (some (StateValue.number (pos zero))) = none
truthy_value (some value) = some value

unfoldable pub push_value_or_zero : Option StateValue → M (Unit {0})
push_value_or_zero none = push_elem (uint64 (pos 0))
push_value_or_zero (some value) = push_elem (elem_of value)

unfoldable pub push_value_and_flag : Option StateValue → M (Unit {0})
push_value_and_flag none = do push_elem (uint64 (pos 0)); push_elem (uint64 (pos 0))
push_value_and_flag (some value) = do push_elem (elem_of value); push_elem (uint64 (pos 1))

-- A local state of an account, by the number of an application.
abbrev pub local_value : ℤ → String → AccountStore → Option StateValue
local_value (pos id) key account = get_local_state id key account
local_value (negsuc id) key account = none

abbrev pub local_app : ℤ → AccountStore → Option AppLocalState
local_app (pos id) account = lookup id account.apps_local_state
local_app (negsuc id) account = none

abbrev pub opted_in : Option AppLocalState → ℤ
opted_in none = pos 0
opted_in (some app) = pos 1

-- The bytes of a key on top of the stack.
unfoldable pub pop_key : M (List ℕ)
pop_key = do r ← pop_bytes; read r

-- `AppGlobalGet`
unfoldable pub app_global_get : M (Unit {0})
app_global_get = do
  assert_min_stack_len 1
  key ← pop_key
  app_id ← current_app_id
  value ← query_global_state app_id key
  push_value_or_zero (truthy_value value)

-- The application of an index: the current one at 0, then those of `apfa`.
unfoldable pub foreign_app_id : ℤ → Txn → M ℕ
foreign_app_id (pos zero) tx =
    require (Error.ledger_error TxError.app_not_found) (as_id (field_of "apid" tx))
foreign_app_id (pos (suc i)) tx = element_at (as_numbers (field_of "apfa" tx)) (pos i)
foreign_app_id (negsuc i) tx = throw Error.index_out_of_bound

-- `AppGlobalGetEx`
unfoldable pub app_global_get_ex : M (Unit {0})
app_global_get_ex = do
  assert_min_stack_len 2
  key ← pop_key
  app_index ← pop_bigint
  tx ← current_tx
  app_id ← foreign_app_id app_index tx
  value ← query_global_state app_id key
  push_value_and_flag (truthy_value value)

-- `setGlobalState` of the interpreter
unfoldable pub write_global : ℕ → String → StateValue → Act State (Unit {0})
write_global app_id key value =
    Ledger.◌>>=◌ (get_app_creator app_id)
      λ address. on_account address (set_global_state app_id key value)

-- `AppGlobalPut`
unfoldable pub app_global_put : M (Unit {0})
app_global_put = do
  assert_min_stack_len 2
  value ← pop_elem
  key ← pop_key
  app_id ← current_app_id
  on_ledger (write_global app_id (key_text key) (value_of_elem value))

-- `globalState.delete(key)`, of an application that is there
unfoldable pub delete_global_key : ℕ → String → Act AccountStore (Unit {0})
delete_global_key app_id key = Ledger.◌>>=◌ Ledger.get λ a.
    Ledger.◌>>=◌ (Ledger.defined TxError.app_not_found (lookup app_id a.created_apps))
      λ app. set_created_app app_id (record app { global_state = erase key app.global_state })

unfoldable pub delete_global : ℕ → String → Act State (Unit {0})
delete_global app_id key =
    Ledger.◌>>=◌ (get_app_creator app_id)
      λ address. on_account address (delete_global_key app_id key)

-- `AppGlobalDel`
unfoldable pub app_global_del : M (Unit {0})
app_global_del = do
  assert_min_stack_len 1
  key ← pop_key
  app_id ← current_app_id
  on_ledger (delete_global app_id (key_text key))

-- `localState["key-value"].delete(key)`, of a local state that may be missing
unfoldable pub delete_local_of : ℕ → String → Option AppLocalState → Act AccountStore (Unit {0})
delete_local_of app_id key none = Ledger.pure tt
delete_local_of app_id key (some app) =
    set_local_app app_id (record app { key_value = erase key app.key_value })

unfoldable pub delete_local_key : ℕ → String → Act AccountStore (Unit {0})
delete_local_key app_id key =
    Ledger.◌>>=◌ Ledger.get λ a. delete_local_of app_id key (lookup app_id a.apps_local_state)

module _ (lib : Library) where
  -- `AppOptedIn`
  unfoldable pub app_opted_in : M (Unit {0})
  app_opted_in = do
    assert_min_stack_len 2
    app_id ← pop_bigint
    account_index ← pop_bigint
    account ← query_account (← query_address lib account_index)
    push_elem (uint64 (opted_in (local_app app_id account)))

  -- `AppLocalGet`
  unfoldable pub app_local_get : M (Unit {0})
  app_local_get = do
    assert_min_stack_len 2
    key ← pop_key
    account_index ← pop_bigint
    account ← query_account (← query_address lib account_index)
    app_id ← current_app_id
    push_value_or_zero (truthy_value (get_local_state app_id (key_text key) account))

  -- `AppLocalGetEx`
  unfoldable pub app_local_get_ex : M (Unit {0})
  app_local_get_ex = do
    assert_min_stack_len 3
    key ← pop_key
    app_id ← pop_bigint
    account_index ← pop_bigint
    account ← query_account (← query_address lib account_index)
    push_value_and_flag (truthy_value (local_value app_id (key_text key) account))

  -- `AppLocalPut`
  unfoldable pub app_local_put : M (Unit {0})
  app_local_put = do
    assert_min_stack_len 3
    value ← pop_elem
    key ← pop_key
    account_index ← pop_bigint
    address ← query_address lib account_index
    _ ← query_account address
    app_id ← current_app_id
    on_ledger (on_account address (set_local_state app_id (key_text key) (value_of_elem value)))

  -- `AppLocalDel`
  unfoldable pub app_local_del : M (Unit {0})
  app_local_del = do
    assert_min_stack_len 1
    key ← pop_key
    account_index ← pop_bigint
    app_id ← current_app_id
    address ← query_address lib account_index
    on_ledger (on_account address (delete_local_key app_id (key_text key)))
