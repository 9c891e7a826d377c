-- ===== src/Checkpoints/Deployer/Once.antt =====
-- packages/algob/src/internal/deployer.ts, `DeployerDeployMode.deployASA`: a name is deployed once.
use Prim.Native.String.{String}
use algorand_builder.Base.{ℕ, ◌≡◌, refl, ap, true, Option, none, some, Bool-cases, inl, inr}
use algorand_builder.Base.Equality.{string_eq}
use algorand_builder.Ledger.Dict.{lookup, insert, has, lookup-insert_self}
use algorand_builder.Checkpoints.{
  AsaInfo, Checkpoint, Checkpoints, Repo, on_net, new_checkpoint, in_all, register_asa, is_defined,
}
use algorand_builder.Checkpoints.Deployer.{
  Deployer, DeployError, Result, returned, thrown, Mode, ◌>>=◌,
}
use algorand_builder.Checkpoints.Deployer.Operations.{
  Overridden, persist_cp, already_present, answered, assert_no_asset, register_asa_info, deploy_asa,
}

-- A checkpoint of the network after a change.
on_net-lookup :
    (now : ℕ) (net : String) (change : Checkpoint → Checkpoint) (cps : Checkpoints)
    → (cp : Checkpoint) × (lookup net (on_net now net change cps) ≡ some (change cp))
unfolding on_net
on_net-lookup now net change cps = go (lookup net cps)
  where
    go :
        (o : Option Checkpoint)
        → (cp : Checkpoint) × (lookup net (elim o [
          | none ↦ insert net (change (new_checkpoint now)) cps
          | some cp ↦ insert net (change cp) cps
        ])
            ≡ some (change cp))
    go none = (new_checkpoint now, lookup-insert_self net (change (new_checkpoint now)) cps)
    go (some cp) = (cp, lookup-insert_self net (change cp) cps)

is_defined-of :
    (net name : String) (repo : Repo) (cp : Checkpoint)
    → lookup net repo.all_cps ≡ some cp
    → has name cp.asa ≡ true
    → is_defined net name repo ≡ true
unfolding is_defined
is_defined-of net name repo cp found h = rw (is_defined, found, h) refl

is_defined-register_asa :
    (now : ℕ) (net name : String) (info : AsaInfo) (repo : Repo)
    → is_defined net name (register_asa now net name info repo) ≡ true
unfolding register_asa in_all has
is_defined-register_asa now net name info repo =
    let change = λ (cp : Checkpoint). record cp { asa = insert name info cp.asa } in
    let (cp, found) = on_net-lookup now net change repo.all_cps in
    let inserted : has name (insert name info cp.asa) ≡ true =
      rw (has, lookup-insert_self name info cp.asa) refl in
    is_defined-of net name (register_asa now net name info repo) (change cp) found inserted

-- Why a deployment throws whose name is there.
abbrev pub refusal : Overridden → DeployError
refusal Overridden.invalid = DeployError.asa_def_invalid
refusal Overridden.missing = DeployError.asa_def_not_found
refusal (Overridden.valid def) = DeployError.asset_already_present

-- The deployer with the checkpoint of its script persisted, unless the definition was refused first.
abbrev pub kept_by : Overridden → Deployer → Deployer
kept_by Overridden.invalid d = d
kept_by Overridden.missing d = record d { persisted = some d.cp_data.stripped_cp }
kept_by (Overridden.valid def) d = record d { persisted = some d.cp_data.stripped_cp }

present-refused :
    (now : ℕ) (net name : String) (def : Overridden) (reply : Option AsaInfo)
    (opted : Option (Unit {0})) (d : Deployer)
    → is_defined net name d.cp_data ≡ true
    → deploy_asa now net Mode.deploy_mode name def reply opted d
      ≡ thrown (refusal def) (kept_by def d)
unfolding deploy_asa assert_no_asset already_present persist_cp ◌>>=◌
present-refused now net name Overridden.invalid reply opted d h = refl
present-refused now net name Overridden.missing reply opted d h = refl
present-refused now net name (Overridden.valid def) reply opted d h = rw h refl

-- The deployer after an operation, whether it returns or throws.
abbrev left : {A : Type 0} → Result A → Deployer
left (returned a d) = d
left (thrown e d) = d

deployed-present :
    (now : ℕ) (net name : String) (def : Overridden) (reply : Option AsaInfo)
    (opted : Option (Unit {0})) (d d' : Deployer) (info : AsaInfo)
    → deploy_asa now net Mode.deploy_mode name def reply opted d ≡ returned info d'
    → is_defined net name d'.cp_data ≡ true
unfolding deploy_asa assert_no_asset already_present persist_cp answered register_asa_info ◌>>=◌
deployed-present now net name Overridden.invalid reply opted d d' info e = cc
deployed-present now net name Overridden.missing reply opted d d' info e = cc
deployed-present now net name (Overridden.valid def) none opted d d' info e =
    elim (Bool-cases (is_defined net name d.cp_data)) [
      | inl p ↦ let f = rw p at e in cc
      | inr p ↦ let f = rw p at e in cc
    ]
deployed-present now net name (Overridden.valid def) (some i) none d d' info e =
    elim (Bool-cases (is_defined net name d.cp_data)) [
      | inl p ↦ let f = rw p at e in cc
      | inr p ↦ let f = rw p at e in cc
    ]
deployed-present now net name (Overridden.valid def) (some i) (some u) d d' info e =
    elim (Bool-cases (is_defined net name d.cp_data)) [
      | inl p ↦ let f = rw p at e in cc
      | inr p ↦
          let f = rw p at e in
          rw (ap (λ r. (left r).cp_data) f) at (is_defined-register_asa now net name i d.cp_data)
    ]

-- After a deployment of an asset that succeeded, every deployment of an asset of that name, on the
-- same network, throws, whatever definition it has and whatever the node would answer, and registers
-- nothing; it persists the script's checkpoint, unless `overrideASADef` throws.
pub deploy_asa-once :
    (now later : ℕ) (net name : String) (def def' : Overridden) (reply reply' : Option AsaInfo)
    (opted opted' : Option (Unit {0})) (d d' : Deployer) (info : AsaInfo)
    → deploy_asa now net Mode.deploy_mode name def reply opted d ≡ returned info d'
    → deploy_asa later net Mode.deploy_mode name def' reply' opted' d'
      ≡ thrown (refusal def') (kept_by def' d')
deploy_asa-once now later net name def def' reply reply' opted opted' d d' info e =
    present-refused later net name def' reply' opted' d'
      (deployed-present now net name def reply opted d d' info e)
