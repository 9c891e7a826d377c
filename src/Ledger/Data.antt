-- ===== src/Ledger/Data.antt =====
-- packages/runtime/src/types.ts and packages/runtime/src/account.ts: the data of the ledger.
use Prim.Native.String.{String}
use algorand_builder.Base.{ℕ, ◌+◌, ◌*◌, Bool, List, Option}
use algorand_builder.Base.Int.{ℤ}
use algorand_builder.Ledger.Dict.{Dict}

-- The address of no account is the empty text.
abbrev pub Address : Type 0
Address = String

-- `AssetHoldingM`
pub record AssetHolding : Type 0 where
  pub amount : ℤ
  pub asset_id : ℕ
  pub creator : Address
  pub is_frozen : Bool

-- `AssetDef` of algosdk, as the class `Asset` fills it
pub record AssetDef : Type 0 where
  pub creator : Address
  pub total : ℤ
  pub decimals : ℕ
  pub default_frozen : Bool
  pub unit_name : String
  pub name : String
  pub url : String
  pub metadata_hash : String
  pub manager : Address
  pub reserve : Address
  pub freeze : Address
  pub clawback : Address

-- `ASADef`: a definition as it is loaded, with its optional fields
pub record AsaDef : Type 0 where
  pub total : ℤ
  pub decimals : ℕ
  pub default_frozen : Option Bool
  pub unit_name : String
  pub url : Option String
  pub metadata_hash : Option String
  pub manager : Option Address
  pub reserve : Option Address
  pub freeze : Option Address
  pub clawback : Option Address

-- `AssetModFields`
pub record AssetModFields : Type 0 where
  pub manager : Option Address
  pub reserve : Option Address
  pub freeze : Option Address
  pub clawback : Option Address

-- `SSCSchemaConfig`
pub record SscSchema : Type 0 where
  pub num_uint : ℕ
  pub num_byte_slice : ℕ

-- A value in a contract's state: a number, or an array, which is shared by reference. The heap of
-- the arrays is a part of the state.
pub data StateValue : Type 0 where
  number : ℤ → StateValue
  array : ℕ → StateValue

-- The keys are the texts of byte arrays.
abbrev pub KeyValue : Type 0
KeyValue = Dict String StateValue

-- `AppLocalStateM`
pub record AppLocalState : Type 0 where
  pub id : ℕ
  pub key_value : KeyValue
  pub schema : SscSchema

-- `SSCAttributesM`
pub record SscAttributes : Type 0 where
  pub approval_program : String
  pub clear_state_program : String
  pub creator : Address
  pub global_state : KeyValue
  pub global_state_schema : SscSchema
  pub local_state_schema : SscSchema

-- `SSCDeploymentFlags`
pub record SscDeploymentFlags : Type 0 where
  pub sender : Address
  pub local_ints : ℕ
  pub local_bytes : ℕ
  pub global_ints : ℕ
  pub global_bytes : ℕ

-- `AccountStore`; the address is passed to the methods that read it
pub record AccountStore : Type 0 where
  pub min_balance : ℤ
  pub assets : Dict ℕ AssetHolding
  pub amount : ℤ
  pub apps_local_state : Dict ℕ AppLocalState
  pub created_apps : Dict ℕ SscAttributes
  pub created_assets : Dict ℕ AssetDef

-- `State` of a context: the accounts by address, the creators of assets and applications, and the
-- arrays
pub record State : Type 0 where
  pub accounts : Dict Address AccountStore
  pub asset_defs : Dict ℕ Address
  pub asset_counter : ℕ
  pub global_apps : Dict ℕ Address
  pub app_counter : ℕ
  -- the bytes of the arrays that the contracts' states refer to
  pub heap : List (List ℕ)

-- The errors of packages/runtime/src/errors/errors-list.ts that the ledger throws, the plain `Error`
-- of the limit on opted-in applications, and the errors of a program that was run.
pub data TxError : Type 0 where
  app_not_found account_does_not_exist max_limit_apps invalid_approval_program : TxError
  invalid_clear_program max_limit_assets asset_not_found asset_total_error : TxError
  blank_address_error manager_error freeze_error clawback_error : TxError
  cannot_close_asset_by_clawback cannot_close_asset_by_creator : TxError
  asa_not_optin insufficient_account_balance insufficient_account_assets : TxError
  account_asset_frozen invalid_schema maximum_opt_in program_error library_error : TxError
  invalid_round group_too_large lsig_error : TxError

-- The constants of packages/runtime/src/lib/constants.ts, in microalgos.
abbrev pub algorand_account_min_balance : ℕ
algorand_account_min_balance = 100000

abbrev pub application_base_fee : ℕ
application_base_fee = 100000

abbrev pub asset_creation_fee : ℕ
asset_creation_fee = 100000

abbrev pub ssc_key_byte_slice : ℕ
ssc_key_byte_slice = 25000

abbrev pub ssc_value_uint : ℕ
ssc_value_uint = 3500

abbrev pub ssc_value_bytes : ℕ
ssc_value_bytes = 25000

abbrev pub max_algorand_account_assets : ℕ
max_algorand_account_assets = 1000

abbrev pub max_algorand_account_apps : ℕ
max_algorand_account_apps = 10

-- What an application costs with a schema, as `addApp`, `optInToApp`, `deleteApp` and `closeApp` write
-- it out.
unfoldable pub app_cost : ℕ → ℕ → ℕ
app_cost ints byte_slices =
    application_base_fee
    + (ssc_key_byte_slice + ssc_value_uint) * ints
    + (ssc_key_byte_slice + ssc_value_bytes) * byte_slices
