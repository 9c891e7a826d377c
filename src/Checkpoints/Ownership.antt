-- ===== src/Checkpoints/Ownership.antt =====
-- packages/algob/src/lib/script-checkpoints.ts, `mergeToGlobal`: which script owns a name.
use Prim.Native.String.{String}
use algorand_builder.Base.{
  ◌≡◌, ◌⊎◌, refl, ◌∙◌, true, false, List, [], ◌∷◌, none, some, All, Bool-cases, Option-cases, inl,
  inr, arith,
}
use algorand_builder.Base.Equality.{same, same_of, string_eq}
use algorand_builder.Ledger.Dict.{lookup, insert, lookup-insert_self, lookup-insert_ne}
use algorand_builder.Checkpoints.{
  Checkpoints, DeepEqual, Merged, merged, duplicate, ScriptMap, Repo, claim, claim_all, names_of,
  merge_to, with_result, then_merge, merge_to_global,
}

-- Each of the names belongs to the script.
abbrev pub Owns : String → ScriptMap → List String → Type 0
Owns script owners names = All (λ name. lookup name owners ≡ some script) names

-- What belongs to a script with a name still does.
abbrev pub Keeps : ScriptMap → ScriptMap → Type 0
Keeps owners owners' =
    (name owner : String)
    → same owner "" ≡ false
    → lookup name owners ≡ some owner
    → lookup name owners' ≡ some owner

-- A name that has no owner gets one.
insert-Keeps :
    (m script : String) (owners : ScriptMap)
    → ((owner : String) → lookup m owners ≡ some owner → same owner "" ≡ true)
    → Keeps owners (insert m script owners)
insert-Keeps m script owners free name owner named found = elim (Bool-cases (same name m)) [
  | inl p ↦ let q = same_of name m p in let r = free owner (rw q at found) in cc
  | inr p ↦ lookup-insert_ne name m script owners p ∙ found
]

claim-Keeps :
    (script : String) (names : List String) (owners owners' : ScriptMap)
    → claim script names owners ≡ merged owners'
    → Keeps owners owners'
unfolding claim
claim-Keeps script [] owners owners' e name owner named found = ground arith
claim-Keeps script (m ∷ names) owners owners' e name owner named found =
    elim (Option-cases (lookup m owners)) [
      | inl p ↦
          claim-Keeps script names (insert m script owners) owners' (rw (claim, p) at e) name owner
            named
            (insert-Keeps m script owners (λ o f. absurd (ground arith)) name owner named found)
      | inr (o, p) ↦ elim (Bool-cases (same o "")) [
        | inl q ↦
            claim-Keeps script names (insert m script owners) owners' (rw (claim, p, q) at e) name
              owner named
              (insert-Keeps m script owners
                (λ o' f. let same_owner : o' ≡ o = ground arith in rw same_owner q) name owner named
                found)
        | inr q ↦ elim (Bool-cases (same o script)) [
          | inl r ↦
              claim-Keeps script names owners owners' (rw (claim, p, q, r) at e) name owner named
                found
          | inr r ↦ let f = rw (claim, p, q, r) at e in cc
        ]
      ]
    ]

with_first :
    (script m : String) (names : List String) (owners owners' : ScriptMap)
    → same script "" ≡ false
    → claim script names (insert m script owners) ≡ merged owners'
    → Owns script owners' names
    → Owns script owners' (m ∷ names)
with_first script m names owners owners' named f rest = (
  claim-Keeps script names (insert m script owners) owners' f m script named
      (lookup-insert_self m script owners),
  rest,
)

claim-Owns :
    (script : String) (names : List String) (owners owners' : ScriptMap)
    → same script "" ≡ false
    → claim script names owners ≡ merged owners'
    → Owns script owners' names
unfolding claim
claim-Owns script [] owners owners' named e = tt
claim-Owns script (m ∷ names) owners owners' named e = elim (Option-cases (lookup m owners)) [
  | inl p ↦
      with_first script m names owners owners' named (rw (claim, p) at e)
        (claim-Owns script names (insert m script owners) owners' named (rw (claim, p) at e))
  | inr (o, p) ↦ elim (Bool-cases (same o "")) [
    | inl q ↦
        with_first script m names owners owners' named (rw (claim, p, q) at e)
          (claim-Owns script names (insert m script owners) owners' named (rw (claim, p, q) at e))
    | inr q ↦ elim (Bool-cases (same o script)) [
      | inl r ↦
          let f = rw (claim, p, q, r) at e in
          let mine : lookup m owners ≡ some script = rw (same_of o script r) at p in
          (
            claim-Keeps script names owners owners' f m script named mine,
            claim-Owns script names owners owners' named f,
          )
      | inr r ↦ let f = rw (claim, p, q, r) at e in cc
    ]
  ]
]

Owns-Keeps :
    (script : String) (owners owners' : ScriptMap) (names : List String)
    → same script "" ≡ false
    → Keeps owners owners'
    → Owns script owners names
    → Owns script owners' names
Owns-Keeps script owners owners' [] named k h = tt
Owns-Keeps script owners owners' (name ∷ names) named k h =
    (k name script named h.0, Owns-Keeps script owners owners' names named k h.1)

-- Each of the names of the checkpoints belongs to the script.
abbrev pub OwnsAll : String → ScriptMap → Checkpoints → Type 0
OwnsAll script owners cps = All (λ p. Owns script owners (names_of p.1)) cps

claim_all-lem :
    (script : String) (cps : Checkpoints) (owners owners' : ScriptMap)
    → same script "" ≡ false
    → claim_all script cps owners ≡ merged owners'
    → OwnsAll script owners' cps × Keeps owners owners'
unfolding claim_all
claim_all-lem script [] owners owners' named e = (tt, λ name owner n f. ground arith)
claim_all-lem script ((net, cp) ∷ cps) owners owners' named e =
    go (λ out f. claim_all-lem script cps out owners' named f) (claim script (names_of cp) owners)
      refl e
  where
    go :
        ((out : ScriptMap)
          → claim_all script cps out ≡ merged owners'
          → OwnsAll script owners' cps × Keeps out owners')
        → (r : Merged ScriptMap) → claim script (names_of cp) owners ≡ r
        → elim r [ merged out ↦ claim_all script cps out | duplicate out ↦ duplicate out ]
          ≡ merged owners'
        → OwnsAll script owners' ((net, cp) ∷ cps) × Keeps owners owners'
    go rec (duplicate out) p f = cc
    go rec (merged out) p f =
        let (owned, kept) = rec out f in
        let first = claim-Keeps script (names_of cp) owners out p in
        (
          (
            Owns-Keeps script out owners' (names_of cp) named kept
                (claim-Owns script (names_of cp) owners out named p),
            owned,
          ),
          λ name owner n g. kept name owner n (first name owner n g),
        )

with_result-owners :
    (owners : ScriptMap) (repo repo' : Repo) (r : Merged Checkpoints)
    → with_result (λ all. record repo { script_map = owners; all_cps = all }) r ≡ merged repo'
    → repo'.script_map ≡ owners
with_result-owners owners repo repo' (merged all) e = ground arith
with_result-owners owners repo repo' (duplicate all) e = cc

-- `scriptMap[name]`, the empty text where there is none
abbrev pub owner_of : String → ScriptMap → String
owner_of name owners = elim (lookup name owners) [ none ↦ "" | some owner ↦ owner ]

Keeps-owner_of :
    (owners owners' : ScriptMap) (name : String)
    → Keeps owners owners'
    → (owner_of name owners ≡ "") ⊎ (owner_of name owners' ≡ owner_of name owners)
Keeps-owner_of owners owners' name k = elim (Option-cases (lookup name owners)) [
  | inl p ↦ inl (rw (owner_of, p) refl)
  | inr (owner, p) ↦ elim (Bool-cases (same owner "")) [
    | inl q ↦ inl (rw (owner_of, p) (same_of owner "" q))
    | inr q ↦ inr (rw (owner_of, p, k name owner q p) refl)
  ]
]

-- A merge of a script's checkpoints that succeeds makes the script, which has a name, the owner
-- of every asset, application and logic signature in them, on every network; and any name that had
-- an owner keeps it.
pub merge_to_global-lem :
    (deep : DeepEqual) (cp : Checkpoints) (script : String) (repo repo' : Repo) (name : String)
    → same script "" ≡ false
    → merge_to_global deep cp script repo ≡ merged repo'
    → OwnsAll script repo'.script_map cp
      × ((owner_of name repo.script_map ≡ "")
          ⊎ (owner_of name repo'.script_map ≡ owner_of name repo.script_map))
unfolding merge_to_global
merge_to_global-lem deep cp script repo repo' name named e =
    go (claim_all script cp repo.script_map) refl e
  where
    go :
        (r : Merged ScriptMap)
        → claim_all script cp repo.script_map ≡ r
        → then_merge deep cp repo r ≡ merged repo'
        → OwnsAll script repo'.script_map cp
          × ((owner_of name repo.script_map ≡ "")
              ⊎ (owner_of name repo'.script_map ≡ owner_of name repo.script_map))
    go (duplicate owners) p f = cc
    go (merged owners) p f =
        let q = with_result-owners owners repo repo' (merge_to deep repo.all_cps cp) f in
        let (owned, kept) = claim_all-lem script cp repo.script_map owners named p in
        rw q (owned, Keeps-owner_of repo.script_map owners name kept)
