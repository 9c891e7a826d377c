-- ===== src/Checkpoints/Deployer.antt =====
-- packages/algob/src/internal/deployer.ts: the deployer in its two modes, and the queries of
-- `CheckpointFunctionsImpl` (packages/algob/src/lib/script-checkpoints.ts). What a node answers is given to
-- an operation: a value, or none where the call throws. The log and the console are left out, and so
-- are the operations that only call the node or read files.
pub mod Operations
pub mod Once
mod Tests
use Prim.Native.String.{String}
use algorand_builder.Base.{
  ℕ, Bool, true, false, ◌||◌, List, [], ◌∷◌, Option, none, some, ◌==◌, if◌then◌else◌,
}
use algorand_builder.Base.Int.{ℤ, pos, negsuc, eqb_ℤ}
use algorand_builder.Base.Equality.{same, string_eq}
use algorand_builder.Ledger.Dict.{Dict, lookup}
use algorand_builder.Ledger.Data.{AsaDef}
use algorand_builder.Teal.Query.{append_text}
use algorand_builder.Checkpoints.{
  AsaInfo, SscInfo, LsigInfo, SscMap, Checkpoint, Checkpoints, Repo, register_asa, register_ssc,
  register_lsig, put_metadata, get_metadata, is_defined,
}

pub data DeployError : Type 0 where
  asa_not_defined metadata_already_present asset_already_present asa_def_not_found : DeployError
  asa_def_invalid : DeployError
  edit_outside_deploy asset_deleted app_deleted node_error : DeployError

-- The registers, and the checkpoint file of the script, which `persistCP` writes.
pub record Deployer : Type 0 where
  pub cp_data : Repo
  pub persisted : Option Checkpoints

pub data Result (A : Type 0) : Type 0 where
  returned : A → Deployer → Result A
  thrown : DeployError → Deployer → Result A

abbrev pub Op : Type 0 → Type 0
Op A = Deployer → Result A

abbrev pub bind : {A B : Type 0} → Result A → (A → Op B) → Result B
bind (returned a d) next = next a d
bind (thrown e d) next = thrown e d

unfoldable pub ◌>>=◌ : {A B : Type 0} → Op A → (A → Op B) → Op B
op >>= next = λ d. bind (op d) next

infixl 10 ◌>>=◌ ◌>>◌
abbrev pub ◌>>◌ : {A B : Type 0} → Op A → Op B → Op B
op >> next = op >>= λ _. next

abbrev pub pure : {A : Type 0} → A → Op A
pure a d = returned a d

abbrev pub throw : {A : Type 0} → DeployError → Op A
throw e d = thrown e d

abbrev pub throw_if : Bool → DeployError → Op (Unit {0})
throw_if true e d = thrown e d
throw_if false e d = returned tt d

-- `DeployerDeployMode` and `DeployerRunMode`
pub data Mode : Type 0 where
  deploy_mode run_mode : Mode

-- What names an asset in a transaction.
pub data AssetId : Type 0 where
  by_name : String → AssetId
  by_index : ℕ → AssetId

-- The transactions that `_assertCpNotDeleted` looks at.
pub data TxTarget : Type 0 where
  on_asset : AssetId → TxTarget
  -- a transfer of an asset, and whether it closes the holding
  transfer : AssetId → Bool → TxTarget
  on_app : ℕ → TxTarget
  other : TxTarget

-- `[...nestedMap][nestedMap.size - 1][1]`
unfoldable pub last_info : SscMap → Option SscInfo
last_info [] = none
last_info ((t, info) ∷ []) = some info
last_info ((t, info) ∷ next ∷ nested) = last_info (next ∷ nested)

-- `getLatestTimestampValue`: every time passes the test against the constant `cmpValue`, so that the
-- last entry decides.
unfoldable pub latest_app : SscMap → ℤ → ℤ
latest_app [] res = res
latest_app ((t, info) ∷ nested) res = latest_app nested (pos info.app_id)

-- The loop of `getAppCheckpointKeyFromIndex`.
unfoldable pub app_key : ℕ → Dict String SscMap → Option String
app_key index [] = none
app_key index ((key, nested) ∷ d) =
    let rest = app_key index d in
    if eqb_ℤ (latest_app nested (negsuc 0)) (pos index) then some key else rest

-- The loop of `getAssetCheckpointKeyFromIndex`.
unfoldable pub asset_key : ℕ → Dict String AsaInfo → Option String
asset_key index [] = none
asset_key index ((key, info) ∷ d) =
    let rest = asset_key index d in if info.asset_index == index then some key else rest

module _ (net : String) where
  -- `this.cpData.precedingCP[this.networkName]?.asa ?? new Map()`, and the same of `ssc`
  unfoldable pub asa_of : Deployer → Dict String AsaInfo
  asa_of d = elim (lookup net d.cp_data.preceding_cp) [ none ↦ [] | some cp ↦ cp.asa ]

  unfoldable pub ssc_of : Deployer → Dict String SscMap
  ssc_of d = elim (lookup net d.cp_data.preceding_cp) [ none ↦ [] | some cp ↦ cp.ssc ]

  -- `getSSCfromCPKey`
  unfoldable pub get_ssc_from_cp_key : String → Deployer → Option SscInfo
  get_ssc_from_cp_key key d = elim (lookup key (ssc_of d)) [
    | none ↦ none
    | some nested ↦ last_info nested
  ]

  -- `getASAInfo`
  unfoldable pub get_asa_info : String → Op AsaInfo
  get_asa_info name d = elim (lookup name (asa_of d)) [
    | none ↦ thrown DeployError.asa_not_defined d
    | some info ↦ returned info d
  ]

  -- `loadASADef`
  unfoldable pub load_asa_def : String → Deployer → Option AsaDef
  load_asa_def name d = elim (lookup name (asa_of d)) [
    | none ↦ none
    | some info ↦ some info.asset_def
  ]

  abbrev pub keyed_asa : Deployer → Option String → Option AsaInfo
  keyed_asa d none = none
  keyed_asa d (some key) = if same key "" then none else lookup key (asa_of d)

  abbrev pub keyed_ssc : Deployer → Option String → Option SscInfo
  keyed_ssc d none = none
  keyed_ssc d (some key) = if same key "" then none else get_ssc_from_cp_key key d

  abbrev pub found_asa : AssetId → Deployer → Option AsaInfo
  found_asa (AssetId.by_name name) d = lookup name (asa_of d)
  found_asa (AssetId.by_index index) d = keyed_asa d (asset_key index (asa_of d))

  -- `assertASAExist`
  unfoldable pub assert_asa_exist : AssetId → Op (Unit {0})
  assert_asa_exist asset d = elim (found_asa asset d) [
    | none ↦ returned tt d
    | some info ↦ throw_if info.deleted DeployError.asset_deleted d
  ]

  -- `assertAppExist`
  unfoldable pub assert_app_exist : ℕ → Op (Unit {0})
  assert_app_exist app_id d = elim (keyed_ssc d (app_key app_id (ssc_of d))) [
    | none ↦ returned tt d
    | some info ↦ throw_if info.deleted DeployError.app_deleted d
  ]

  -- `_assertCpNotDeleted`
  unfoldable pub assert_one_not_deleted : TxTarget → Op (Unit {0})
  assert_one_not_deleted (TxTarget.on_asset asset) = assert_asa_exist asset
  assert_one_not_deleted (TxTarget.transfer asset true) = pure tt
  assert_one_not_deleted (TxTarget.transfer asset false) = assert_asa_exist asset
  assert_one_not_deleted (TxTarget.on_app app_id) = assert_app_exist app_id
  assert_one_not_deleted TxTarget.other = pure tt

  -- `assertCPNotDeleted`
  unfoldable pub assert_cp_not_deleted : List TxTarget → Op (Unit {0})
  assert_cp_not_deleted [] = pure tt
  assert_cp_not_deleted (tx ∷ txs) = assert_one_not_deleted tx >> assert_cp_not_deleted txs
