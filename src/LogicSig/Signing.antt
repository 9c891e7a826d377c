-- ===== src/LogicSig/Signing.antt =====
-- packages/runtime/src/logicsig.ts, `sign` and `appendToMultisig`: what a signature adds.
use algorand_builder.Base.{
  get_elem?, ℕ, zero, suc, ◌≡◌, ◌≢◌, refl, true, false, List, [], ◌∷◌, Option, none, some, arith,
  Bool-cases, inl, inr,
}
use algorand_builder.Teal.Compare.{compare_array}
use algorand_builder.Teal.Acceptance.{compare_array_iff}
use algorand_builder.LogicSig.{
  Crypto, Subsig, MultiSig, LogicSig, Signed, SignError, is_empty, after_one, key_index,
  put_signature, is_verified, count_verified, sign_program, signed_at, sign_multisig, append_of,
  append_to_multisig, sign, verify, verify_cases,
}

-- The documented behaviour of a signature: it is not empty, and it verifies against its key.
pub record IsLawful (crypto : Crypto) : Type 0 where
  pub sign_is_not_empty : (b k : List ℕ) → crypto.sign_bytes b k ≢ []
  pub sign_verifies :
      (b k : List ℕ)
      → crypto.verify_bytes b
          (crypto.sign_bytes b k)
          (crypto.encode_address (crypto.key_of_secret k))
        ≡ true

not-is_empty : (b : List ℕ) → b ≢ [] → is_empty b ≡ false
not-is_empty b h = elim (Bool-cases (is_empty b)) [
  | inl p ↦ absurd (h ((compare_array_iff b []).0 p))
  | inr p ↦ p
]

zero_not_after : (o : Option ℕ) → after_one o ≢ some 0
zero_not_after none e = cc
zero_not_after (some i) e = ground arith

zero_index : (i : ℕ) → some 0 ≢ some (suc i)
zero_index i e = ground arith

suc_of_after : (o : Option ℕ) (i : ℕ) → after_one o ≡ some (suc i) → o ≡ some i
suc_of_after none i e = cc
suc_of_after (some j) i e = ground arith

module _ (crypto : Crypto) (law : IsLawful crypto) where
  -- A logic signature that is signed with a secret key verifies for the account of that key,
  -- whatever it held before.
  pub verify-sign :
      (k : List ℕ) (l l' : LogicSig)
      → sign crypto k none l ≡ Signed.signed l'
      → verify crypto l' (crypto.key_of_secret k) ≡ true
  unfolding sign sign_program verify verify_cases
  verify-sign k l l' e =
      let s = not-is_empty (crypto.sign_bytes l.logic k) (law.sign_is_not_empty l.logic k) in
      let p : l' ≡ record l { sig = crypto.sign_bytes l.logic k } = ground arith in
      rw (p, s) (law.sign_verifies l.logic k)

  part_verifies :
      (k logic pk : List ℕ)
      → compare_array pk (crypto.key_of_secret k) ≡ true
      → is_verified crypto logic (record { pk = pk; s = crypto.sign_bytes logic k }) ≡ true
  unfolding is_verified
  part_verifies k logic pk h =
      let s = not-is_empty (crypto.sign_bytes logic k) (law.sign_is_not_empty logic k) in
      let q = (compare_array_iff pk (crypto.key_of_secret k)).0 h in
      rw (s, q) (law.sign_verifies logic k)

  -- The part at the index of the key is verified after it signs, and the others are as before.
  counts_one :
      (k logic : List ℕ) (parts : List Subsig) (i : ℕ) (part : Subsig)
      → key_index (crypto.key_of_secret k) parts ≡ some i
      → get_elem? parts i ≡ some part
      → is_verified crypto logic part ≡ false
      → count_verified crypto logic (put_signature (crypto.sign_bytes logic k) i parts)
        ≡ suc (count_verified crypto logic parts)
  unfolding key_index count_verified put_signature
  counts_one k logic [] i part e g u = cc
  counts_one k logic (p ∷ parts) zero part e g u =
      elim (Bool-cases (compare_array p.pk (crypto.key_of_secret k))) [
        | inl q ↦
            let v = part_verifies k logic p.pk q in
            let same_part : is_verified crypto logic p ≡ false = ground (arith, u) in
            rw (v, same_part) (omega arith)
        | inr q ↦ absurd (zero_not_after _ (rw (key_index, q) at e))
      ]
  counts_one k logic (p ∷ parts) (suc i) part e g u =
      elim (Bool-cases (compare_array p.pk (crypto.key_of_secret k))) [
        | inl q ↦ absurd (zero_index i (rw (key_index, q) at e))
        | inr q ↦
            let r = suc_of_after _ i (rw (key_index, q) at e) in
            omega (arith, counts_one k logic parts i part r g u)
      ]

  -- `appendToMultisig` with the secret key of a part whose signature does not verify yet adds
  -- exactly one to the signatures that verify, and keeps the version and the threshold.
  pub append-verifies :
      (k : List ℕ) (l : LogicSig) (m : MultiSig) (i : ℕ) (part : Subsig)
      → l.msig ≡ some m
      → key_index (crypto.key_of_secret k) m.subsig ≡ some i
      → get_elem? m.subsig i ≡ some part
      → is_verified crypto l.logic part ≡ false
      → (m' : MultiSig) × (append_to_multisig crypto k l
          ≡ Signed.signed (record l { msig = some m' }))
        × (count_verified crypto l.logic m'.subsig ≡ suc (count_verified crypto l.logic m.subsig))
        × (m'.v ≡ m.v)
        × (m'.thr ≡ m.thr)
  unfolding append_to_multisig append_of sign_multisig signed_at sign_program
  append-verifies k l m i part h e g u = (
    record m { subsig = put_signature (crypto.sign_bytes l.logic k) i m.subsig },
    rw (h, append_of, sign_multisig, e) refl,
    counts_one k l.logic m.subsig i part e g u,
    refl,
    refl,
  )

  -- A secret key whose public key is in no part is refused, and nothing changes.
  pub append-refuses :
      (k : List ℕ) (l : LogicSig) (m : MultiSig)
      → l.msig ≡ some m
      → key_index (crypto.key_of_secret k) m.subsig ≡ none
      → append_to_multisig crypto k l ≡ Signed.refused SignError.invalid_secret_key l
  unfolding append_to_multisig append_of sign_multisig signed_at
  append-refuses k l m h e = ground arith
