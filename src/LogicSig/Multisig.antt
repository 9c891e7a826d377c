-- ===== src/LogicSig/Multisig.antt =====
-- packages/runtime/src/logicsig.ts, `verifyMultisig`: what a multisignature must hold.
use Prim.Native.String.{String}
use algorand_builder.Base.{
  ℕ, ◌≤◌, ◌≡◌, ◌↔◌, true, List, [], ◌∷◌, Option, none, some, length, arith, Bool-cases, inl, inr,
}
use algorand_builder.Base.Equality.{same, same_of, same-false, string_eq}
use algorand_builder.LogicSig.{
  Crypto, Subsig, MultiSig, count_signed, is_verified, count_verified, addresses, check_counts,
  verify_multisig,
}

signed-le-length : (parts : List Subsig) → count_signed parts ≤ length parts
unfolding count_signed
signed-le-length [] = omega arith
signed-le-length (part ∷ parts) = ground (arith, signed-le-length parts)

module _ (crypto : Crypto) where
  -- A part that verifies has a signature.
  verified-le-signed :
      (logic : List ℕ) (parts : List Subsig)
      → count_verified crypto logic parts ≤ count_signed parts
  unfolding count_verified count_signed is_verified
  verified-le-signed logic [] = omega arith
  verified-le-signed logic (part ∷ parts) = ground (arith, verified-le-signed logic parts)

  -- The address of the multisignature is the account's, and enough parts verify.
  abbrev pub Suffices : List ℕ → MultiSig → String → Type 0
  Suffices logic m acc_addr =
      (crypto.multisig_address m.v m.thr (addresses crypto m.subsig) ≡ some acc_addr)
      × (m.thr ≤ count_verified crypto logic m.subsig)

  check_counts_iff :
      (logic : List ℕ) (m : MultiSig) (acc_addr : String) (address : Option String)
      → (check_counts crypto logic m acc_addr address ≡ true)
        ↔ ((address ≡ some acc_addr) × (m.thr ≤ count_verified crypto logic m.subsig))
  unfolding check_counts
  check_counts_iff logic m acc_addr none = (λ e. cc, λ h. cc (h.0))
  check_counts_iff logic m acc_addr (some address) =
      let fewer = verified-le-signed logic m.subsig in
      elim (Bool-cases (same acc_addr address)) [
        | inl p ↦ let q = same_of acc_addr address p in ground (arith, q)
        | inr p ↦ let q = same-false acc_addr address p in ground (arith, q)
      ]

  -- `verifyMultisig` accepts if and only if the multisignature's address is the account's and at
  -- least as many signatures verify as the threshold says: the two other counts that it makes
  -- decide nothing.
  pub verify_multisig_iff :
      (logic : List ℕ) (m : MultiSig) (acc_addr : String)
      → (verify_multisig crypto logic m acc_addr ≡ true) ↔ Suffices logic m acc_addr
  unfolding verify_multisig
  verify_multisig_iff logic m acc_addr =
      let fewer = verified-le-signed logic m.subsig in
      let few = signed-le-length m.subsig in
      let counts =
        check_counts_iff logic m acc_addr
          (crypto.multisig_address m.v m.thr (addresses crypto m.subsig)) in
      ground arith
