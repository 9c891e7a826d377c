-- ===== src/Checkpoints/Deployer/Operations.antt =====
-- packages/algob/src/internal/deployer.ts: the operations of `DeployerDeployMode` and of
-- `DeployerRunMode` that write checkpoints or refuse to.
use Prim.Native.String.{String}
use algorand_builder.Base.{ℕ, [], ◌∷◌, Option, none, some, if◌then◌else◌}
use algorand_builder.Base.Equality.{same, string_eq}
use algorand_builder.Ledger.Data.{AsaDef}
use algorand_builder.Teal.Query.{append_text}
use algorand_builder.Checkpoints.{
  AsaInfo, SscInfo, LsigInfo, Repo, register_asa, register_ssc, register_lsig, put_metadata,
  get_metadata, is_defined,
}
use algorand_builder.Checkpoints.Deployer.{
  DeployError, Op, Mode, TxTarget, pure, throw, returned, ◌>>=◌, ◌>>◌, assert_cp_not_deleted,
}

abbrev pub write : (Repo → Repo) → Op (Unit {0})
write f d = returned tt (record d { cp_data = f d.cp_data })

-- `persistCP`
unfoldable pub persist_cp : Mode → Op (Unit {0})
persist_cp Mode.deploy_mode d = returned tt (record d { persisted = some d.cp_data.stripped_cp })
persist_cp Mode.run_mode d = throw DeployError.edit_outside_deploy d

unfoldable pub already_present : Mode → Op (Unit {0})
already_present Mode.deploy_mode =
    persist_cp Mode.deploy_mode >> throw DeployError.asset_already_present
already_present Mode.run_mode = throw DeployError.asset_already_present

-- An answer of the node; an exception persists the checkpoint and is thrown again.
unfoldable pub answered : {A : Type 0} → Option A → Op A
answered none = persist_cp Mode.deploy_mode >> throw DeployError.node_error
answered (some a) = pure a

-- `approvalProgram + "-" + clearProgram`
abbrev pub ssc_key : String → String → String
ssc_key approval clear = append_text approval (append_text "-" clear)

-- The node's answer where nothing is persisted.
abbrev pub passed_on : {A : Type 0} → Option A → Op A
passed_on none = throw DeployError.node_error
passed_on (some a) = pure a

-- `overrideASADef`, of packages/runtime/src/lib/asa.ts: it throws, it returns `undefined`, or it
-- returns a definition.
pub data Overridden : Type 0 where
  invalid missing : Overridden
  valid : AsaDef → Overridden

-- The time of a checkpoint that is made on the way, and the network.
module _ (now : ℕ) (net : String) where
  -- `assertNoAsset`
  unfoldable pub assert_no_asset : Mode → String → Op (Unit {0})
  assert_no_asset mode name d =
      if is_defined net name d.cp_data then already_present mode d else returned tt d

  -- `registerASAInfo`
  unfoldable pub register_asa_info : Mode → String → AsaInfo → Op (Unit {0})
  register_asa_info Mode.deploy_mode name info = write (register_asa now net name info)
  register_asa_info Mode.run_mode name info = throw DeployError.edit_outside_deploy

  -- `registerSSCInfo`
  unfoldable pub register_ssc_info : Mode → String → SscInfo → Op (Unit {0})
  register_ssc_info Mode.deploy_mode name info = write (register_ssc now net name info)
  register_ssc_info Mode.run_mode name info = throw DeployError.edit_outside_deploy

  -- A value that is there already, and is not the empty text, is not replaced.
  unfoldable pub put_unless : String → String → Option String → Op (Unit {0})
  put_unless key value none = write (put_metadata now net key value)
  put_unless key value (some found) =
      let put =
        if same found ""
        then write (put_metadata now net key value)
        else throw DeployError.metadata_already_present in
      if same found value then pure tt else put

  -- `addCheckpointKV`
  unfoldable pub add_checkpoint_kv : Mode → String → String → Op (Unit {0})
  add_checkpoint_kv Mode.deploy_mode key value d =
      put_unless key value (get_metadata net key d.cp_data) d
  add_checkpoint_kv Mode.run_mode key value d = throw DeployError.edit_outside_deploy d

  -- `deployASA`, from what `overrideASADef` makes of the definition, the node's answer to the
  -- deployment, and that to the opt-ins
  unfoldable pub deploy_asa :
      Mode → String → Overridden → Option AsaInfo → Option (Unit {0}) → Op AsaInfo
  deploy_asa Mode.run_mode name def reply opted = throw DeployError.edit_outside_deploy
  deploy_asa Mode.deploy_mode name Overridden.invalid reply opted =
      throw DeployError.asa_def_invalid
  deploy_asa Mode.deploy_mode name Overridden.missing reply opted =
      persist_cp Mode.deploy_mode >> throw DeployError.asa_def_not_found
  deploy_asa Mode.deploy_mode name (Overridden.valid def) reply opted = do
    assert_no_asset Mode.deploy_mode name
    info ← answered reply
    register_asa_info Mode.deploy_mode name info
    answered opted
    pure info

  -- `mkDelegatedLsig`, from the signed logic signature
  unfoldable pub mk_delegated_lsig : Mode → String → Option LsigInfo → Op LsigInfo
  mk_delegated_lsig Mode.run_mode name made = throw DeployError.edit_outside_deploy
  mk_delegated_lsig Mode.deploy_mode name made = do
    assert_no_asset Mode.deploy_mode name
    info ← answered made
    write (register_lsig now net name info)
    pure info

  -- `deploySSC`
  unfoldable pub deploy_ssc : Mode → String → String → Option SscInfo → Op SscInfo
  deploy_ssc Mode.run_mode approval clear reply = throw DeployError.edit_outside_deploy
  deploy_ssc Mode.deploy_mode approval clear reply = do
    assert_no_asset Mode.deploy_mode (ssc_key approval clear)
    info ← answered reply
    register_ssc_info Mode.deploy_mode (ssc_key approval clear) info
    pure info

  -- `updateSSC`
  unfoldable pub update_ssc : Mode → ℕ → String → String → Option SscInfo → Op SscInfo
  update_ssc Mode.run_mode app_id approval clear reply = do
    assert_cp_not_deleted net (TxTarget.on_app app_id ∷ [])
    passed_on reply
  update_ssc Mode.deploy_mode app_id approval clear reply = do
    assert_cp_not_deleted net (TxTarget.on_app app_id ∷ [])
    info ← answered reply
    register_ssc_info Mode.deploy_mode (ssc_key approval clear) info
    pure info
