-- ===== src/Checkpoints/Tests.antt =====
-- The theorems on checkpoints, at a repository with one network.
use algorand_builder.Base.{◌⊎◌, ◌≡◌, refl, true, false, [], ◌∷◌, none}
use algorand_builder.Base.Int.{pos}
use algorand_builder.Base.Equality.{string_eq}
use algorand_builder.Ledger.Dict.{lookup}
use algorand_builder.Ledger.Data.{AsaDef}
use algorand_builder.Checkpoints.{
  AsaInfo, Checkpoint, Checkpoints, DeepEqual, Merged, Repo, new_checkpoint, empty_repo,
  merge_to_global,
}
use algorand_builder.Checkpoints
use algorand_builder.Ledger.Dict
use algorand_builder.Checkpoints.Ownership.{OwnsAll, owner_of, merge_to_global-lem}

abbrev deep : DeepEqual
deep = record { asa_equal = λ a b. true; ssc_equal = λ a b. true }

abbrev gold_def : AsaDef
gold_def = record {
  total = pos 10;
  decimals = 0;
  default_frozen = none;
  unit_name = "";
  url = none;
  metadata_hash = none;
  manager = none;
  reserve = none;
  freeze = none;
  clawback = none;
}

abbrev gold : AsaInfo
gold = record {
  creator = "alice";
  tx_id = "t";
  confirmed_round = 1;
  deleted = false;
  asset_index = 7;
  asset_def = gold_def;
}

-- A script has deployed gold.
abbrev deployed : Checkpoints
deployed = ("default", record (new_checkpoint 5) { asa = ("gold", gold) ∷ [] }) ∷ []

-- Another script has deployed silver.
abbrev before : Repo
before = record empty_repo { script_map = ("silver", "scripts/1.js") ∷ [] }

abbrev after_merge : Repo
after_merge = record before {
  all_cps = deployed;
  script_map = ("silver", "scripts/1.js") ∷ ("gold", "scripts/2.js") ∷ [];
}

merge_to_global-lem_example :
    OwnsAll "scripts/2.js" after_merge.script_map deployed
    × ((owner_of "silver" before.script_map ≡ "")
        ⊎ (owner_of "silver" after_merge.script_map ≡ owner_of "silver" before.script_map))
unfolding string_eq lookup merge_to_global Checkpoints.claim_all Checkpoints.claim
    Checkpoints.merge_to Checkpoints.append_to_checkpoint Dict.insert
merge_to_global-lem_example =
    merge_to_global-lem deep deployed "scripts/2.js" before after_merge "silver" refl refl
