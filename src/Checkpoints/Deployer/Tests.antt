-- ===== src/Checkpoints/Deployer/Tests.antt =====
-- The theorem on the deployer, at the deployment of one asset.
use algorand_builder.Base.{◌≡◌, refl, false, none, some}
use algorand_builder.Base.Int.{pos}
use algorand_builder.Base.Equality.{string_eq}
use algorand_builder.Ledger.Data.{AsaDef}
use algorand_builder.Checkpoints.{
  AsaInfo, Checkpoint, Repo, empty_repo, new_checkpoint, register_asa,
}
use algorand_builder.Checkpoints.Deployer.{Deployer, DeployError, Mode, thrown}
use algorand_builder.Checkpoints.Deployer.Operations.{Overridden, deploy_asa}
use algorand_builder.Checkpoints
use algorand_builder.Checkpoints.Deployer
use algorand_builder.Checkpoints.Deployer.Operations
use algorand_builder.Ledger.Dict
use algorand_builder.Checkpoints.Deployer.Once.{deploy_asa-once}

abbrev gold_def : AsaDef
gold_def = record {
  total = pos 10;
  decimals = 0;
  default_frozen = none;
  unit_name = "";
  url = none;
  metadata_hash = none;
  manager = none;
  reserve = none;
  freeze = none;
  clawback = none;
}

abbrev gold : AsaInfo
gold = record {
  creator = "alice";
  tx_id = "t";
  confirmed_round = 1;
  deleted = false;
  asset_index = 7;
  asset_def = gold_def;
}

abbrev fresh : Deployer
fresh = record { cp_data = empty_repo; persisted = none }

abbrev deployed : Deployer
deployed = record { cp_data = register_asa 5 "default" "gold" gold empty_repo; persisted = none }

deploy_asa-once_example :
    deploy_asa 6 "default" Mode.deploy_mode "gold"
      (Overridden.valid gold_def)
      (some gold)
      (some tt)
      deployed
    ≡ thrown DeployError.asset_already_present
        (record deployed { persisted = some deployed.cp_data.stripped_cp })
unfolding deploy_asa Deployer.◌>>=◌ Operations.assert_no_asset Checkpoints.is_defined Dict.lookup
    Operations.answered Operations.register_asa_info
deploy_asa-once_example =
    deploy_asa-once 5 6 "default" "gold" (Overridden.valid gold_def) (Overridden.valid gold_def)
      (some gold) (some gold) (some tt) (some tt) fresh deployed gold refl
