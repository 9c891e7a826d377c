-- ===== src/Teal/Fields.antt =====
-- packages/runtime/src/lib/constants.ts: the tables of the fields of transactions, of assets and of
-- globals. A table is a dictionary, its rows in the order of the source.
use Prim.Native.String.{String}
use algorand_builder.Base.{ℕ, List, [], ◌∷◌, ◌++◌, Option, none, some, ◌==◌, if◌then◌else◌}
use algorand_builder.Base.Equality.{string_eq}
use algorand_builder.Ledger.Dict.{Dict, lookup}

-- `TxnFields[1]`: the key of a field in the encoded object; `null` is `none`.
abbrev pub txn_fields_1 : Dict String (Option String)
txn_fields_1 =
    ("Sender", some "snd")
    ∷ ("Fee", some "fee")
    ∷ ("FirstValid", some "fv")
    ∷ ("FirstValidTime", none)
    ∷ ("LastValid", some "lv")
    ∷ ("Note", some "note")
    ∷ ("Lease", some "lx")
    ∷ ("Receiver", some "rcv")
    ∷ ("Amount", some "amt")
    ∷ ("CloseRemainderTo", some "close")
    ∷ ("VotePK", some "votekey")
    ∷ ("SelectionPK", some "selkey")
    ∷ ("VoteFirst", some "votefst")
    ∷ ("VoteLast", some "votelst")
    ∷ ("VoteKeyDilution", some "votekd")
    ∷ ("Type", some "type")
    ∷ ("TypeEnum", none)
    ∷ ("XferAsset", some "xaid")
    ∷ ("AssetAmount", some "aamt")
    ∷ ("AssetSender", some "asnd")
    ∷ ("AssetReceiver", some "arcv")
    ∷ ("AssetCloseTo", some "aclose")
    ∷ ("GroupIndex", none)
    ∷ ("TxID", none)
    ∷ []

-- the rows that `TxnFields[2]` adds
abbrev pub txn_fields_2 : Dict String (Option String)
txn_fields_2 =
    ("ApplicationID", some "apid")
    ∷ ("OnCompletion", some "apan")
    ∷ ("ApplicationArgs", some "apaa")
    ∷ ("NumAppArgs", none)
    ∷ ("Accounts", some "apat")
    ∷ ("NumAccounts", none)
    ∷ ("ApprovalProgram", some "apap")
    ∷ ("ClearStateProgram", some "apsu")
    ∷ ("RekeyTo", some "rekey")
    ∷ ("ConfigAsset", some "caid")
    ∷ ("ConfigAssetTotal", some "t")
    ∷ ("ConfigAssetDecimals", some "dc")
    ∷ ("ConfigAssetDefaultFrozen", some "df")
    ∷ ("ConfigAssetUnitName", some "un")
    ∷ ("ConfigAssetName", some "an")
    ∷ ("ConfigAssetURL", some "au")
    ∷ ("ConfigAssetMetadataHash", some "am")
    ∷ ("ConfigAssetManager", some "m")
    ∷ ("ConfigAssetReserve", some "r")
    ∷ ("ConfigAssetFreeze", some "f")
    ∷ ("ConfigAssetClawback", some "c")
    ∷ ("FreezeAsset", some "faid")
    ∷ ("FreezeAssetAccount", some "fadd")
    ∷ ("FreezeAssetFrozen", some "afrz")
    ∷ []

-- the rows that `TxnFields[3]` adds
abbrev pub txn_fields_3 : Dict String (Option String)
txn_fields_3 =
    ("Assets", some "apas")
    ∷ ("NumAssets", none)
    ∷ ("Applications", some "apfa")
    ∷ ("NumApplications", none)
    ∷ ("GlobalNumUint", some "nui")
    ∷ ("GlobalNumByteSlice", some "nbs")
    ∷ ("LocalNumUint", some "nui")
    ∷ ("LocalNumByteSlice", some "nbs")
    ∷ []

-- `TxnFields[tealVersion]`
unfoldable pub txn_fields : ℕ → Dict String (Option String)
txn_fields version =
    let second = txn_fields_1 ++ txn_fields_2 in
    let third = if version == 3 then second ++ txn_fields_3 else [] in
    let from_two = if version == 2 then second else third in
    if version == 1 then txn_fields_1 else from_two

-- The key of a field: none where the table has no row or a `null`.
abbrev pub key_in : Option (Option String) → Option String
key_in none = none
key_in (some key) = key

-- `TxnFields[tealVersion][txField]`
unfoldable pub field_key : ℕ → String → Option String
field_key version field = key_in (lookup field (txn_fields version))

-- The three constants of `TxFieldDefaults`.
pub data Default : Type 0 where
  zero_address zero_uint64 zero_byte : Default

abbrev pub tx_field_defaults : Dict String Default
tx_field_defaults =
    ("Sender", Default.zero_address)
    ∷ ("Fee", Default.zero_uint64)
    ∷ ("FirstValid", Default.zero_uint64)
    ∷ ("LastValid", Default.zero_uint64)
    ∷ ("Note", Default.zero_byte)
    ∷ ("Lease", Default.zero_byte)
    ∷ ("Receiver", Default.zero_address)
    ∷ ("Amount", Default.zero_uint64)
    ∷ ("CloseRemainderTo", Default.zero_address)
    ∷ ("VotePK", Default.zero_address)
    ∷ ("SelectionPK", Default.zero_address)
    ∷ ("VoteFirst", Default.zero_uint64)
    ∷ ("VoteLast", Default.zero_uint64)
    ∷ ("VoteKeyDilution", Default.zero_uint64)
    ∷ ("Type", Default.zero_byte)
    ∷ ("TypeEnum", Default.zero_uint64)
    ∷ ("XferAsset", Default.zero_uint64)
    ∷ ("AssetAmount", Default.zero_uint64)
    ∷ ("AssetSender", Default.zero_address)
    ∷ ("AssetReceiver", Default.zero_address)
    ∷ ("AssetCloseTo", Default.zero_address)
    ∷ ("GroupIndex", Default.zero_uint64)
    ∷ ("ApplicationID", Default.zero_uint64)
    ∷ ("OnCompletion", Default.zero_uint64)
    ∷ ("ApplicationArgs", Default.zero_byte)
    ∷ ("NumAppArgs", Default.zero_uint64)
    ∷ ("Accounts", Default.zero_byte)
    ∷ ("NumAccounts", Default.zero_uint64)
    ∷ ("ApprovalProgram", Default.zero_byte)
    ∷ ("ClearStateProgram", Default.zero_byte)
    ∷ ("RekeyTo", Default.zero_address)
    ∷ ("ConfigAsset", Default.zero_uint64)
    ∷ ("ConfigAssetTotal", Default.zero_uint64)
    ∷ ("ConfigAssetDecimals", Default.zero_uint64)
    ∷ ("ConfigAssetDefaultFrozen", Default.zero_uint64)
    ∷ ("ConfigAssetUnitName", Default.zero_byte)
    ∷ ("ConfigAssetName", Default.zero_byte)
    ∷ ("ConfigAssetURL", Default.zero_byte)
    ∷ ("ConfigAssetMetadataHash", Default.zero_byte)
    ∷ ("ConfigAssetManager", Default.zero_address)
    ∷ ("ConfigAssetReserve", Default.zero_address)
    ∷ ("ConfigAssetFreeze", Default.zero_address)
    ∷ ("ConfigAssetClawback", Default.zero_address)
    ∷ ("FreezeAsset", Default.zero_uint64)
    ∷ ("FreezeAssetAccount", Default.zero_address)
    ∷ ("FreezeAssetFrozen", Default.zero_uint64)
    ∷ ("Assets", Default.zero_byte)
    ∷ ("NumAssets", Default.zero_uint64)
    ∷ ("Applications", Default.zero_byte)
    ∷ ("NumApplications", Default.zero_uint64)
    ∷ ("GlobalNumUint", Default.zero_uint64)
    ∷ ("GlobalNumByteSlice", Default.zero_uint64)
    ∷ ("LocalNumUint", Default.zero_uint64)
    ∷ ("LocalNumByteSlice", Default.zero_uint64)
    ∷ []

-- `assetTxnFields` of lib/txn.ts
abbrev pub asset_txn_fields : List String
asset_txn_fields =
    "ConfigAssetTotal" ∷ "ConfigAssetDecimals" ∷ "ConfigAssetDefaultFrozen" ∷ "ConfigAssetUnitName"
    ∷ "ConfigAssetName" ∷ "ConfigAssetURL" ∷ "ConfigAssetMetadataHash" ∷ "ConfigAssetManager"
    ∷ "ConfigAssetReserve" ∷ "ConfigAssetFreeze" ∷ "ConfigAssetClawback" ∷ []

-- `globalAndLocalNumTxnFields`, those of the global state and those of the local state
abbrev pub global_num_txn_fields : List String
global_num_txn_fields = "GlobalNumUint" ∷ "GlobalNumByteSlice" ∷ []

abbrev pub local_num_txn_fields : List String
local_num_txn_fields = "LocalNumUint" ∷ "LocalNumByteSlice" ∷ []

-- `TxnType`
abbrev pub txn_type : Dict String ℕ
txn_type =
    ("unknown", 0)
    ∷ ("pay", 1)
    ∷ ("keyreg", 2)
    ∷ ("acfg", 3)
    ∷ ("axfer", 4)
    ∷ ("afrz", 5)
    ∷ ("appl", 6)
    ∷ []

-- `TxArrFields[tealVersion]`
unfoldable pub tx_arr_fields : ℕ → List String
tx_arr_fields version =
    let second = "Accounts" ∷ "ApplicationArgs" ∷ [] in
    let third = if version == 3 then second ++ "Assets" ∷ "Applications" ∷ [] else [] in
    if version == 2 then second else third
