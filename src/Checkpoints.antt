-- ===== src/Checkpoints.antt =====
-- packages/algob/src/lib/script-checkpoints.ts: what a deployment has registered, by network, and which
-- script has registered it. The objects that JavaScript shares between the three registers of a
-- repository are values here: a write to one of them is always followed by the same write to the
-- others. The times of deployments are numbers, also in a checkpoint that was loaded from a file; the
-- files are left out.
pub mod Ownership
pub mod Deployer
mod Tests
use Prim.Native.String.{String}
use algorand_builder.Base.{
  ℕ, Bool, true, false, not, ◌||◌, List, [], ◌∷◌, ◌++◌, Option, none, some, map, if◌then◌else◌,
}
use algorand_builder.Base.Int.{ℤ, pos, negsuc, eqb_ℤ}
use algorand_builder.Base.Equality.{Eq, same, nat_eq, string_eq}
use algorand_builder.Ledger.Dict.{Dict, lookup, insert, has}
use algorand_builder.Ledger.Data.{AsaDef, Address}

-- `ASAInfo` and `SSCInfo` of packages/runtime/src/types.ts
pub record AsaInfo : Type 0 where
  pub creator : Address
  pub tx_id : String
  pub confirmed_round : ℕ
  pub deleted : Bool
  pub asset_index : ℕ
  pub asset_def : AsaDef

pub record SscInfo : Type 0 where
  pub creator : Address
  pub tx_id : String
  pub confirmed_round : ℕ
  pub deleted : Bool
  pub app_id : ℕ
  pub timestamp : ℕ

-- `LsigInfo`; the logic signature by its bytes
pub record LsigInfo : Type 0 where
  pub creator : Address
  pub contract_address : Address
  pub lsig : List ℕ

abbrev pub SscMap : Type 0
SscMap = Dict ℕ SscInfo

pub record Checkpoint : Type 0 where
  pub timestamp : ℕ
  pub metadata : Dict String String
  pub asa : Dict String AsaInfo
  pub ssc : Dict String SscMap
  pub d_lsig : Dict String LsigInfo

abbrev pub Checkpoints : Type 0
Checkpoints = Dict String Checkpoint

-- `deepEqual` of the package deep-equal, of two values that are there
pub record DeepEqual : Type 0 where
  pub asa_equal : AsaInfo → AsaInfo → Bool
  pub ssc_equal : SscMap → SscMap → Bool

-- What a merge leaves, when it returns and when it throws.
pub data Merged (S : Type 0) : Type 0 where
  merged duplicate : S → Merged S

abbrev pub keys : {V : Type 0} → Dict String V → List String
keys d = map (λ p. p.0) d

-- `new Map([...first, ...second])`
unfoldable pub join : {V : Type 0} → Dict String V → Dict String V → Dict String V
join first [] = first
join first ((k, v) ∷ second) = join (insert k v first) second

-- `!deepEqual(value, other)`, where `other` may be missing
unfoldable pub differs : {V : Type 0} → (V → V → Bool) → V → Option V → Bool
differs equal value none = true
differs equal value (some other) = not (equal value other)

-- `orig.get(name) && !deepEqual(orig.get(name), append.get(name))`, missing where the first is
unfoldable pub redefined :
    {V : Type 0} → (V → V → Bool) → String → Dict String V → Dict String V → Option Bool
redefined equal name orig append = elim (lookup name orig) [
  | none ↦ none
  | some value ↦ some (differs equal value (lookup name append))
]

abbrev pub or_else : Option Bool → Option Bool → Bool
or_else (some b) other = b
or_else none (some b) = b
or_else none none = false

abbrev pub new_checkpoint : ℕ → Checkpoint
new_checkpoint now = record { timestamp = now; metadata = []; asa = []; ssc = []; d_lsig = [] }

-- `_ensureNet`, and a change of the checkpoint of the network
unfoldable pub on_net : ℕ → String → (Checkpoint → Checkpoint) → Checkpoints → Checkpoints
on_net now net change cps = elim (lookup net cps) [
  | none ↦ insert net (change (new_checkpoint now)) cps
  | some cp ↦ insert net (change cp) cps
]

module _ (deep : DeepEqual) where
  -- The test in the loop of `appendToCheckpoint`. The operator `??` asks for the second part only
  -- where the first is missing.
  unfoldable pub conflicts : Checkpoint → Checkpoint → String → Bool
  conflicts orig append name =
      or_else (redefined deep.asa_equal name orig.asa append.asa)
        (redefined deep.ssc_equal name orig.ssc append.ssc)

  unfoldable pub any_conflict : Checkpoint → Checkpoint → List String → Bool
  any_conflict orig append [] = false
  any_conflict orig append (name ∷ names) =
      conflicts orig append name || any_conflict orig append names

  abbrev pub joined : Checkpoint → Checkpoint → Checkpoint
  joined orig append = record {
    timestamp = append.timestamp;
    metadata = join orig.metadata append.metadata;
    asa = join orig.asa append.asa;
    ssc = join orig.ssc append.ssc;
    d_lsig = join orig.d_lsig append.d_lsig;
  }

  -- The time and the metadata are written before the names are tested.
  abbrev pub begun : Checkpoint → Checkpoint → Checkpoint
  begun orig append = record orig {
    timestamp = append.timestamp;
    metadata = join orig.metadata append.metadata;
  }

  -- `appendToCheckpoint`
  unfoldable pub append_to_checkpoint : Checkpoints → String → Checkpoint → Merged Checkpoints
  append_to_checkpoint cps net append = elim (lookup net cps) [
    | none ↦ Merged.merged (insert net append cps)
    | some orig ↦
        if any_conflict orig append (keys append.asa ++ keys append.ssc)
        then Merged.duplicate (insert net (begun orig append) cps)
        else Merged.merged (insert net (joined orig append) cps)
  ]

  -- `_mergeTo`: the loop over the networks
  unfoldable pub merge_to : Checkpoints → Checkpoints → Merged Checkpoints
  merge_to target [] = Merged.merged target
  merge_to target ((net, cp) ∷ cps) = elim (append_to_checkpoint target net cp) [
    | merged out ↦ merge_to out cps
    | duplicate out ↦ Merged.duplicate out
  ]

-- `AssetScriptMap`: the script that has registered a name
abbrev pub ScriptMap : Type 0
ScriptMap = Dict String String

-- The rounds of the inner loop of `mergeToGlobal`. A script without a name is no owner.
unfoldable pub claim : String → List String → ScriptMap → Merged ScriptMap
claim script [] owners = Merged.merged owners
claim script (name ∷ names) owners = elim (lookup name owners) [
  | none ↦ claim script names (insert name script owners)
  | some owner ↦
      let free = claim script names (insert name script owners) in
      let owned = claim script names owners in
      if same owner "" then free else if same owner script then owned else Merged.duplicate owners
]

abbrev pub names_of : Checkpoint → List String
names_of cp = keys cp.asa ++ keys cp.ssc ++ keys cp.d_lsig

-- The outer loop.
unfoldable pub claim_all : String → Checkpoints → ScriptMap → Merged ScriptMap
claim_all script [] owners = Merged.merged owners
claim_all script ((net, cp) ∷ cps) owners = elim (claim script (names_of cp) owners) [
  | merged out ↦ claim_all script cps out
  | duplicate out ↦ Merged.duplicate out
]

pub record Repo : Type 0 where
  pub stripped_cp : Checkpoints
  pub preceding_cp : Checkpoints
  pub all_cps : Checkpoints
  pub script_map : ScriptMap

abbrev pub empty_repo : Repo
empty_repo = record { stripped_cp = []; preceding_cp = []; all_cps = []; script_map = [] }

abbrev pub with_result : {S T : Type 0} → (S → T) → Merged S → Merged T
with_result f (Merged.merged s) = Merged.merged (f s)
with_result f (Merged.duplicate s) = Merged.duplicate (f s)

module _ (deep : DeepEqual) where
  -- `this.allCPs = this._mergeTo(this.allCPs, cp)`, after the loops over the names
  abbrev pub then_merge : Checkpoints → Repo → Merged ScriptMap → Merged Repo
  then_merge cp repo (Merged.duplicate owners) =
      Merged.duplicate (record repo { script_map = owners })
  then_merge cp repo (Merged.merged owners) =
      with_result (λ all. record repo { script_map = owners; all_cps = all })
        (merge_to deep repo.all_cps cp)

  -- `mergeToGlobal`
  unfoldable pub merge_to_global : Checkpoints → String → Repo → Merged Repo
  merge_to_global cp script repo = then_merge cp repo (claim_all script cp repo.script_map)

  -- `merge`
  unfoldable pub merge : Checkpoints → String → Repo → Merged Repo
  merge cp script repo =
      let current = record repo { stripped_cp = cp } in
      elim (merge_to deep repo.preceding_cp cp) [
        | merged out ↦ merge_to_global cp script (record current { preceding_cp = out })
        | duplicate out ↦ Merged.duplicate (record current { preceding_cp = out })
      ]

-- A write to the checkpoint of a network in the three registers.
unfoldable pub in_all : ℕ → String → (Checkpoint → Checkpoint) → Repo → Repo
in_all now net change repo = record repo {
  all_cps = on_net now net change repo.all_cps;
  stripped_cp = on_net now net change repo.stripped_cp;
  preceding_cp = on_net now net change repo.preceding_cp;
}

unfoldable pub put_metadata : ℕ → String → String → String → Repo → Repo
put_metadata now net key value =
    in_all now net λ cp. record cp { metadata = insert key value cp.metadata }

unfoldable pub get_metadata : String → String → Repo → Option String
get_metadata net key repo = elim (lookup net repo.preceding_cp) [
  | none ↦ none
  | some cp ↦ lookup key cp.metadata
]

-- `registerASA`
unfoldable pub register_asa : ℕ → String → String → AsaInfo → Repo → Repo
register_asa now net name info = in_all now net λ cp. record cp { asa = insert name info cp.asa }

-- `_ensureRegister`
unfoldable pub ensure_register : String → SscInfo → Dict String SscMap → Dict String SscMap
ensure_register name info d = elim (lookup name d) [
  | none ↦ insert name ((info.timestamp, info) ∷ []) d
  | some nested ↦ insert name (insert info.timestamp info nested) d
]

-- `registerSSC`
unfoldable pub register_ssc : ℕ → String → String → SscInfo → Repo → Repo
register_ssc now net name info =
    in_all now net λ cp. record cp { ssc = ensure_register name info cp.ssc }

unfoldable pub register_lsig : ℕ → String → String → LsigInfo → Repo → Repo
register_lsig now net name info =
    in_all now net λ cp. record cp { d_lsig = insert name info cp.d_lsig }

-- The names that a checkpoint has, of one kind or another.
abbrev pub defines : String → Checkpoint → Bool
defines name cp = has name cp.asa || has name cp.ssc || has name cp.d_lsig

-- `isDefined`
unfoldable pub is_defined : String → String → Repo → Bool
is_defined net name repo = elim (lookup net repo.all_cps) [
  | none ↦ false
  | some cp ↦ defines name cp
]

-- `networkExistsInCurrentCP`
unfoldable pub network_exists_in_current_cp : String → Repo → Bool
network_exists_in_current_cp net repo = has net repo.stripped_cp
