-- ===== src/Teal/Holdings.antt =====
-- packages/runtime/src/interpreter/opcode-list.ts: the opcodes that read balances and assets.
use Prim.Native.String.{String}
use algorand_builder.Base.{Bool, Option, none, some, if◌then◌else◌}
use algorand_builder.Base.Int.{ℤ, pos, negsuc}
use algorand_builder.Base.Equality.{same, nat_eq, string_eq}
use algorand_builder.Ledger.Dict.{lookup}
use algorand_builder.Ledger.Data.{AssetHolding, AssetDef, AccountStore}
use algorand_builder.Ledger.Encoded.{field_of}
use algorand_builder.Teal.Op.{Encoding}
use algorand_builder.Teal.Library.{Library}
use algorand_builder.Teal.Machine.{StackElem, uint64, Error, M, pure, throw, ◌>>=◌, ◌>>◌}
use algorand_builder.Teal.Stack.{push_elem}
use algorand_builder.Teal.Checks.{assert_min_stack_len, pop_bigint}
use algorand_builder.Teal.Query.{
  current_tx, as_numbers, element_at, query_address, query_account, query_asset_def, require,
}
use algorand_builder.Teal.Txn.{new_array}

-- A Boolean as a number.
abbrev pub bit_of : Bool → StackElem
bit_of b = uint64 (if b then pos 1 else pos 0)

abbrev pub holding_of : ℤ → AccountStore → Option AssetHolding
holding_of (pos id) a = lookup id a.assets
holding_of (negsuc id) a = none

-- No value, and the flag 0.
unfoldable pub push_nothing : M (Unit {0})
push_nothing = do push_elem (uint64 (pos 0)); push_elem (uint64 (pos 0))

-- A value, and the flag 1.
unfoldable pub push_found : StackElem → M (Unit {0})
push_found value = do push_elem value; push_elem (uint64 (pos 1))

-- The `switch` of `GetAssetHolding`.
unfoldable pub holding_field : String → AssetHolding → M StackElem
holding_field field info =
    let frozen =
      if same field "AssetFrozen"
      then pure (bit_of info.is_frozen)
      else throw Error.invalid_field_type in
    if same field "AssetBalance" then pure (uint64 info.amount) else frozen

unfoldable pub push_holding : String → Option AssetHolding → M (Unit {0})
push_holding field none = push_nothing
push_holding field (some info) = do value ← holding_field field info; push_found value

-- `AssetDefinition[s]`, of the fields that are texts
unfoldable pub text_field : String → AssetDef → Option String
text_field field d =
    let clawback = if same field "AssetClawback" then some d.clawback else none in
    let freeze = if same field "AssetFreeze" then some d.freeze else clawback in
    let reserve = if same field "AssetReserve" then some d.reserve else freeze in
    let manager = if same field "AssetManager" then some d.manager else reserve in
    let hash = if same field "AssetMetadataHash" then some d.metadata_hash else manager in
    let url = if same field "AssetURL" then some d.url else hash in
    let name = if same field "AssetName" then some d.name else url in
    if same field "AssetUnitName" then some d.unit_name else name

module _ (lib : Library) where
  -- `Balance`
  unfoldable pub balance : M (Unit {0})
  balance = do
    assert_min_stack_len 1
    account_index ← pop_bigint
    account ← query_account (← query_address lib account_index)
    push_elem (uint64 account.amount)

  -- `MinBalance`
  unfoldable pub min_balance : M (Unit {0})
  min_balance = do
    assert_min_stack_len 1
    account_index ← pop_bigint
    account ← query_account (← query_address lib account_index)
    push_elem (uint64 account.min_balance)

  -- `GetAssetHolding`
  unfoldable pub get_asset_holding : String → M (Unit {0})
  get_asset_holding field = do
    assert_min_stack_len 2
    asset_id ← pop_bigint
    account_index ← pop_bigint
    account ← query_account (← query_address lib account_index)
    push_holding field (holding_of asset_id account)

  -- The value of a field that is a text: the key of an address, or the text's bytes.
  unfoldable pub text_elem : String → M StackElem
  text_elem text =
      let key = (do b ← require Error.library_error (lib.decode_address text); new_array b) in
      if lib.is_valid_address text then key else new_array (lib.buffer_from Encoding.utf8 text)

  unfoldable pub text_elem_of : Option String → M StackElem
  text_elem_of none = throw Error.js_error
  text_elem_of (some text) = text_elem text

  -- The `switch` of `GetAssetDef`.
  unfoldable pub def_field : String → AssetDef → M StackElem
  def_field field d =
      let other = text_elem_of (text_field field d) in
      let frozen =
        if same field "AssetDefaultFrozen" then pure (bit_of d.default_frozen) else other in
      let decimals =
        if same field "AssetDecimals" then pure (uint64 (pos d.decimals)) else frozen in
      if same field "AssetTotal" then pure (uint64 d.total) else decimals

  unfoldable pub push_def : String → Option AssetDef → M (Unit {0})
  push_def field none = push_nothing
  push_def field (some d) = do value ← def_field field d; push_found value

  -- `GetAssetDef`
  unfoldable pub get_asset_def : String → M (Unit {0})
  get_asset_def field = do
    assert_min_stack_len 1
    foreign_assets_idx ← pop_bigint
    tx ← current_tx
    asset_id ← element_at (as_numbers (field_of "apas" tx)) foreign_assets_idx
    d ← query_asset_def asset_id
    push_def field d
