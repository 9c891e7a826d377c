-- ===== src/Teal/Forward/Context.antt =====
-- The opcodes that read transactions, globals and the ledger go forward.
use Prim.Native.String.{String}
use algorand_builder.Base.{
  ℕ, zero, suc, refl, List, Option, none, some, arith, inl, inr, Option-cases,
}
use algorand_builder.Base.Int.{ℤ, pos, negsuc}
use algorand_builder.Ledger.Data.{State, StateValue, Address, AssetHolding, AssetDef}
use algorand_builder.Ledger.Monad.{Outcome, Act, done, thrown, ◌>>=◌}
use algorand_builder.Ledger.Dict.{lookup, erase}
use algorand_builder.Ledger.Frame.{
  without_values, account_without_values, Same, Frames, Frames-bind, get_account-Frames,
  get_app_creator-Frames, get_app-Frames, on_account-Frames, with_local, with_global,
  set_local_state-Frames, set_global_state-Frames,
}
use algorand_builder.Base.Equality.{nat_eq, string_eq}
use algorand_builder.Ledger.Encoded.{Txn as TxnObject, TxValue}
use algorand_builder.Teal.Library.{Library}
use algorand_builder.Teal.Machine.{Machine, Error}
use algorand_builder.Teal.Checks.{check_index_bound, assert_uint8}
use algorand_builder.Teal.Fields.{Default}
use algorand_builder.Teal.Query
use algorand_builder.Teal.Txn
use algorand_builder.Teal.Global
use algorand_builder.Teal.AppOps
use algorand_builder.Teal.Holdings
use algorand_builder.Teal.Forward.{
  Forward, After, Advances, Advances-bind, Advances-pure, Advances-throw, Advances-push_elem,
  forward_rules,
}

lifted-Forward :
    {A : Type 0} (m : Machine) (o : Outcome State A)
    → Same without_values m.ctx.state o
    → After (Forward m) (Query.lifted m o)
lifted-Forward m (done a s) h = record {
  program_kept = refl;
  index_grows = λ h. omega arith;
  heap_grows = omega arith;
  ledger_kept = h;
}
lifted-Forward m (thrown e s) h = record {
  program_kept = refl;
  index_grows = λ h. omega arith;
  heap_grows = omega arith;
  ledger_kept = h;
}

-- The ledger's code that the opcodes call.
pub on_ledger-Advances :
    {A : Type 0} (act : Act State A) → Frames without_values act → Advances (Query.on_ledger act)
unfolding Query.on_ledger
on_ledger-Advances act h = record {
  at = λ m. lifted-Forward m (act m.ctx.state) (h.at m.ctx.state);
}

pub write_global-Frames :
    (id : ℕ) (key : String) (value : StateValue)
    → Frames without_values (AppOps.write_global id key value)
unfolding AppOps.write_global
write_global-Frames id key value =
    Frames-bind without_values _ _ (get_app_creator-Frames id)
      λ address. on_account-Frames address _ (set_global_state-Frames id key value)

delete_global_key-Frames :
    (id : ℕ) (key : String) → Frames account_without_values (AppOps.delete_global_key id key)
unfolding AppOps.delete_global_key ◌>>=◌
delete_global_key-Frames id key = record {
  at = λ a. elim (Option-cases (lookup id a.created_apps)) [
    | inl p ↦ rw p refl
    | inr (app, p) ↦
        let new = record app { global_state = erase key app.global_state } in
        rw p (with_global id app new a p refl)
  ];
}

pub delete_global-Frames :
    (id : ℕ) (key : String) → Frames without_values (AppOps.delete_global id key)
unfolding AppOps.delete_global
delete_global-Frames id key =
    Frames-bind without_values _ _ (get_app_creator-Frames id)
      λ address. on_account-Frames address _ (delete_global_key-Frames id key)

pub delete_local_key-Frames :
    (id : ℕ) (key : String) → Frames account_without_values (AppOps.delete_local_key id key)
unfolding AppOps.delete_local_key AppOps.delete_local_of ◌>>=◌
delete_local_key-Frames id key = record {
  at = λ a. elim (Option-cases (lookup id a.apps_local_state)) [
    | inl p ↦ rw p refl
    | inr (app, p) ↦
        let new = record app { key_value = erase key app.key_value } in
        rw p (with_local id app new a p refl)
  ];
}

pub require-Advances : {A : Type 0} (e : Error) (o : Option A) → Advances (Query.require e o)
require-Advances e none = Advances-throw e
require-Advances e (some a) = Advances-pure a

pub element-Advances : {A : Type 0} (arr : List A) (i : ℕ) → Advances (Query.element arr i)
unfolding Query.element check_index_bound
element-Advances arr i = search (forward_rules, require-Advances)

pub element_at-Advances :
    {A : Type 0} (arr : Option (List A)) (i : ℤ) → Advances (Query.element_at arr i)
unfolding Query.element_at
element_at-Advances arr (negsuc i) = Advances-throw _
element_at-Advances none (pos i) = Advances-throw _
element_at-Advances (some arr) (pos i) = element-Advances arr i

pub tx_at-Advances : (i : ℕ) → Advances (Query.tx_at i)
unfolding Query.tx_at
tx_at-Advances i = search (forward_rules, require-Advances)

pub current_tx-Advances : Advances Query.current_tx
unfolding Query.current_tx
current_tx-Advances = search (forward_rules, tx_at-Advances)

pub current_app_id-Advances : Advances Query.current_app_id
unfolding Query.current_app_id
current_app_id-Advances = search (forward_rules, current_tx-Advances)

pub query_account-Advances : (a : Address) → Advances (Query.query_account a)
unfolding Query.query_account
query_account-Advances a = on_ledger-Advances _ (get_account-Frames a)

pub query_app-Advances : (id : ℕ) → Advances (Query.query_app id)
unfolding Query.query_app
query_app-Advances id = on_ledger-Advances _ (get_app-Frames id)

pub query_global_state-Advances :
    (id : ℕ) (key : List ℕ) → Advances (Query.query_global_state id key)
unfolding Query.query_global_state
query_global_state-Advances id key = search (forward_rules, query_app-Advances)

asset_def_of-Advances : (id : ℕ) (o : Option Address) → Advances (Query.asset_def_of id o)
unfolding Query.asset_def_of
asset_def_of-Advances id none = Advances-pure _
asset_def_of-Advances id (some a) = search (forward_rules, query_account-Advances)

pub query_asset_def-Advances : (id : ℕ) → Advances (Query.query_asset_def id)
unfolding Query.query_asset_def
query_asset_def-Advances id = search (forward_rules, asset_def_of-Advances)

default_elem-Advances : (d : Option Default) → Advances (Txn.default_elem d)
unfolding Txn.default_elem
default_elem-Advances none = Advances-throw _
default_elem-Advances (some Default.zero_uint64) = Advances-pure _
default_elem-Advances (some Default.zero_address) = search forward_rules
default_elem-Advances (some Default.zero_byte) = search forward_rules

pub to_index-Advances : (z : ℤ) → Advances (Txn.to_index z)
unfolding Txn.to_index
to_index-Advances (pos i) = Advances-pure i
to_index-Advances (negsuc i) = Advances-throw _

pub pop_tx_index-Advances : Advances Txn.pop_tx_index
unfolding Txn.pop_tx_index assert_uint8
pop_tx_index-Advances = search (forward_rules, to_index-Advances) depth 8

pub global_elem-Advances : (v : Option Global.GlobalValue) → Advances (Global.global_elem v)
unfolding Global.global_elem
global_elem-Advances (some (Global.GlobalValue.number n)) = Advances-pure _
global_elem-Advances (some Global.GlobalValue.zero_address) = search forward_rules
global_elem-Advances (some Global.GlobalValue.missing) = Advances-throw _
global_elem-Advances none = Advances-throw _

pub ruleset query_rules = (
  on_account-Frames, set_local_state-Frames, write_global-Frames, delete_global-Frames,
  delete_local_key-Frames, forward_rules, on_ledger-Advances, require-Advances, element-Advances,
  element_at-Advances, tx_at-Advances, current_tx-Advances, current_app_id-Advances,
  query_account-Advances, query_app-Advances, query_global_state-Advances, query_asset_def-Advances,
  to_index-Advances, pop_tx_index-Advances, global_elem-Advances,
)

pub foreign_app_id-Advances : (z : ℤ) (tx : TxnObject) → Advances (AppOps.foreign_app_id z tx)
unfolding AppOps.foreign_app_id
foreign_app_id-Advances (pos zero) tx = require-Advances _ _
foreign_app_id-Advances (pos (suc i)) tx = element_at-Advances _ _
foreign_app_id-Advances (negsuc i) tx = Advances-throw _

pub push_value_or_zero-Advances : (v : Option StateValue) → Advances (AppOps.push_value_or_zero v)
unfolding AppOps.push_value_or_zero
push_value_or_zero-Advances none = Advances-push_elem _
push_value_or_zero-Advances (some v) = Advances-push_elem _

pub push_value_and_flag-Advances : (v : Option StateValue) → Advances (AppOps.push_value_and_flag v)
unfolding AppOps.push_value_and_flag
push_value_and_flag-Advances none = search forward_rules
push_value_and_flag-Advances (some v) = search forward_rules

pub pop_key-Advances : Advances AppOps.pop_key
unfolding AppOps.pop_key
pop_key-Advances = search forward_rules

holding_field-Advances : (f : String) (h : AssetHolding) → Advances (Holdings.holding_field f h)
unfolding Holdings.holding_field
holding_field-Advances f h = search forward_rules

pub push_holding-Advances :
    (f : String) (h : Option AssetHolding) → Advances (Holdings.push_holding f h)
unfolding Holdings.push_holding Holdings.push_nothing Holdings.push_found
push_holding-Advances f none = search forward_rules
push_holding-Advances f (some h) = search (forward_rules, holding_field-Advances) depth 8

module _ (lib : Library) where
  encoded-Advances : (o : Option (List ℕ)) → Advances (Query.encoded lib o)
  unfolding Query.encoded
  encoded-Advances none = Advances-throw _
  encoded-Advances (some pk) = require-Advances _ _

  account_address-Advances : (z : ℤ) (tx : TxnObject) → Advances (Query.account_address lib z tx)
  unfolding Query.account_address
  account_address-Advances (pos zero) tx = encoded-Advances _
  account_address-Advances (pos (suc i)) tx =
      search (forward_rules, element_at-Advances, encoded-Advances)
  account_address-Advances (negsuc i) tx = Advances-throw _

  pub query_address-Advances : (z : ℤ) → Advances (Query.query_address lib z)
  unfolding Query.query_address
  query_address-Advances z = search (query_rules, account_address-Advances)

  parse_to_stack_elem-Advances :
      (v : Option TxValue) (f : String) → Advances (Txn.parse_to_stack_elem lib v f)
  unfolding Txn.parse_to_stack_elem Txn.field_default
  parse_to_stack_elem-Advances (some (TxValue.buffer b)) f = search forward_rules
  parse_to_stack_elem-Advances (some (TxValue.number z)) f = Advances-pure _
  parse_to_stack_elem-Advances (some (TxValue.text s)) f = search forward_rules
  parse_to_stack_elem-Advances (some (TxValue.flag b)) f = default_elem-Advances _
  parse_to_stack_elem-Advances (some (TxValue.buffers l)) f = default_elem-Advances _
  parse_to_stack_elem-Advances (some (TxValue.numbers l)) f = default_elem-Advances _
  parse_to_stack_elem-Advances none f = default_elem-Advances _

  type_enum-Advances : (v : Option TxValue) → Advances (Txn.type_enum v)
  unfolding Txn.type_enum
  type_enum-Advances (some (TxValue.text s)) = search (forward_rules, require-Advances)
  type_enum-Advances (some (TxValue.buffer b)) = Advances-throw _
  type_enum-Advances (some (TxValue.number z)) = Advances-throw _
  type_enum-Advances (some (TxValue.flag b)) = Advances-throw _
  type_enum-Advances (some (TxValue.buffers l)) = Advances-throw _
  type_enum-Advances (some (TxValue.numbers l)) = Advances-throw _
  type_enum-Advances none = Advances-throw _

  tx_id-Advances : (v : Option TxValue) → Advances (Txn.tx_id lib v)
  unfolding Txn.tx_id
  tx_id-Advances (some (TxValue.text s)) = search forward_rules
  tx_id-Advances (some (TxValue.buffer b)) = Advances-throw _
  tx_id-Advances (some (TxValue.number z)) = Advances-throw _
  tx_id-Advances (some (TxValue.flag b)) = Advances-throw _
  tx_id-Advances (some (TxValue.buffers l)) = Advances-throw _
  tx_id-Advances (some (TxValue.numbers l)) = Advances-throw _
  tx_id-Advances none = Advances-throw _

  plain_field-Advances :
      (f : String) (tx : TxnObject) (v : ℕ) (o : Option String)
      → Advances (Txn.plain_field lib f tx v o)
  unfolding Txn.plain_field
  plain_field-Advances f tx v none = parse_to_stack_elem-Advances _ _
  plain_field-Advances f tx v (some a) = parse_to_stack_elem-Advances _ _

  txn_spec_by_field-Advances :
      (f : String) (tx : TxnObject) (i v : ℕ) → Advances (Txn.txn_spec_by_field lib f tx i v)
  unfolding Txn.txn_spec_by_field Txn.switch_field Txn.nested_elem
  txn_spec_by_field-Advances f tx i v =
      search
        (
          forward_rules, parse_to_stack_elem-Advances, type_enum-Advances, tx_id-Advances,
          plain_field-Advances,
        )
        depth 14

  array_element-Advances :
      (f : String) (v : TxValue) (i : ℕ) → Advances (Txn.array_element lib f v i)
  unfolding Txn.array_element
  array_element-Advances f (TxValue.buffers l) i =
      search (forward_rules, element-Advances, parse_to_stack_elem-Advances)
  array_element-Advances f (TxValue.numbers l) i =
      search (forward_rules, element-Advances, parse_to_stack_elem-Advances)
  array_element-Advances f (TxValue.buffer b) i = Advances-throw _
  array_element-Advances f (TxValue.number z) i = Advances-throw _
  array_element-Advances f (TxValue.text s) i = Advances-throw _
  array_element-Advances f (TxValue.flag b) i = Advances-throw _

  indexed_element-Advances :
      (f : String) (v : TxValue) (o : Option (Option TxValue)) (i : ℕ)
      → Advances (Txn.indexed_element lib f v o i)
  unfolding Txn.indexed_element
  indexed_element-Advances f v none i = array_element-Advances f v i
  indexed_element-Advances f v (some own) zero = parse_to_stack_elem-Advances own f
  indexed_element-Advances f v (some own) (suc i) = array_element-Advances f v i

  pub array_field-Advances :
      (f : String) (tx : TxnObject) (v : Option TxValue) (i : ℕ)
      → Advances (Txn.array_field lib f tx v i)
  unfolding Txn.array_field Txn.field_default
  array_field-Advances f tx none i = default_elem-Advances _
  array_field-Advances f tx (some v) i = indexed_element-Advances f v _ i

  pub field_elem-Advances :
      (f : String) (x : Option ℕ) (tx : TxnObject) (i v : ℕ)
      → Advances (Txn.field_elem lib f x tx i v)
  unfolding Txn.field_elem Txn.tx_app_arg
  field_elem-Advances f none tx i v = txn_spec_by_field-Advances f tx i v
  field_elem-Advances f (some x) tx i v = array_field-Advances f tx _ x

  text_elem_of-Advances : (o : Option String) → Advances (Holdings.text_elem_of lib o)
  unfolding Holdings.text_elem_of Holdings.text_elem
  text_elem_of-Advances none = Advances-throw _
  text_elem_of-Advances (some t) = search (forward_rules, require-Advances)

  pub push_def-Advances : (f : String) (d : Option AssetDef) → Advances (Holdings.push_def lib f d)
  unfolding Holdings.push_def Holdings.push_nothing Holdings.push_found Holdings.def_field
  push_def-Advances f none = search forward_rules
  push_def-Advances f (some d) = search (forward_rules, text_elem_of-Advances) depth 12

pub ruleset context_rules = (
  query_rules, foreign_app_id-Advances, push_value_or_zero-Advances, push_value_and_flag-Advances,
  pop_key-Advances, push_holding-Advances, query_address-Advances, field_elem-Advances,
  array_field-Advances, push_def-Advances,
)
