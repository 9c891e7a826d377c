-- ===== src/LogicSig/Tests.antt =====
-- The theorems on logic signatures, with a toy cryptography: a key is its own secret, and a signature
-- is the key after a mark.
use Prim.Native.String.{String}
use algorand_builder.Base.{ℕ, zero, suc, ◌≡◌, ◌↔◌, refl, true, false, List, [], ◌∷◌, some}
use algorand_builder.Base.Equality.{string_eq}
use algorand_builder.Teal.Compare.{compare_array}
use algorand_builder.LogicSig.{
  Crypto, MultiSig, LogicSig, Signed, key_index, is_verified, count_verified, count_signed,
  check_counts, sign, verify, verify_multisig, append_to_multisig, sign_program,
}
use algorand_builder.LogicSig.Multisig.{Suffices, verify_multisig_iff}
use algorand_builder.LogicSig.Signing.{IsLawful, verify-sign, append-verifies}

-- The address of a key is the text "alice" for the key 1, and "bob" for any other.
abbrev name_of : List ℕ → String
name_of (suc zero ∷ []) = "alice"
name_of _ = "bob"

abbrev toy : Crypto
toy = record {
  encode_address = name_of;
  public_key = λ s. 1 ∷ [];
  key_of_secret = λ k. k;
  sign_bytes = λ b k. 7 ∷ k;
  verify_bytes = λ b s a. true;
  multisig_address = λ v t addrs. some "team";
  string_to_bytes = λ s. 1 ∷ [];
  convert_to_string = λ b. "program";
}

toy-IsLawful : IsLawful toy
toy-IsLawful = record { sign_is_not_empty = λ b k e. cc; sign_verifies = λ b k. refl }

abbrev team : MultiSig
team = record {
  v = 1;
  thr = 2;
  subsig = record { pk = 1 ∷ []; s = [] } ∷ record { pk = 2 ∷ []; s = 7 ∷ 2 ∷ [] } ∷ [];
}

abbrev unsigned : LogicSig
unsigned = record { logic = 1 ∷ []; args = []; sig = []; msig = some team; lsig_address = "escrow" }

abbrev by_alice : LogicSig
by_alice = record unsigned { sig = 7 ∷ 1 ∷ [] }

verify-sign_example : verify toy by_alice (1 ∷ []) ≡ true
unfolding sign sign_program
verify-sign_example = verify-sign toy toy-IsLawful (1 ∷ []) unsigned by_alice refl

append-verifies_example :
    (m' : MultiSig) × (append_to_multisig toy (1 ∷ []) unsigned
      ≡ Signed.signed (record unsigned { msig = some m' }))
    × (count_verified toy (1 ∷ []) m'.subsig ≡ suc (count_verified toy (1 ∷ []) team.subsig))
    × (m'.v ≡ 1)
    × (m'.thr ≡ 2)
unfolding key_index compare_array is_verified
append-verifies_example =
    append-verifies toy toy-IsLawful (1 ∷ []) unsigned team 0 (record { pk = 1 ∷ []; s = [] }) refl
      refl refl refl

verify_multisig_iff_example :
    (verify_multisig toy (1 ∷ []) team "team" ≡ true) ↔ Suffices toy (1 ∷ []) team "team"
verify_multisig_iff_example = verify_multisig_iff toy (1 ∷ []) team "team"

-- One of two signatures is too few.
one_is_too_few : verify_multisig toy (1 ∷ []) team "team" ≡ false
unfolding verify_multisig count_signed count_verified is_verified compare_array check_counts
    string_eq
one_is_too_few = refl
