-- ===== src/LogicSig.antt =====
-- packages/runtime/src/logicsig.ts: the class `LogicSig`, a program with a signature or a
-- multisignature. The cryptography is algosdk's and tweetnacl's, a parameter. The dummy methods
-- `fromByte` and `from_obj_for_encoding`, which no code calls, are left out.
pub mod Multisig
pub mod Signing
mod Tests
use Prim.Native.String.{String}
use algorand_builder.Base.{
  ℕ, zero, suc, ◌+◌, Bool, true, false, not, ◌&&◌, List, [], ◌∷◌, Option, none, some, map, length,
  set, get_elem?, ltb, if◌then◌else◌,
}
use algorand_builder.Base.Equality.{same, string_eq}
use algorand_builder.Teal.Compare.{compare_array}

-- What the class calls and the repository does not contain.
pub record Crypto : Type 0 where
  -- `encodeAddress(publicKey)` and `decodeAddress(address).publicKey`
  pub encode_address : List ℕ → String
  pub public_key : String → List ℕ
  -- `sign_keyPair_fromSecretKey(secretKey).publicKey`
  pub key_of_secret : List ℕ → List ℕ
  -- `signBytes(bytes, secretKey)` and `verifyBytes(bytes, signature, address)`
  pub sign_bytes : List ℕ → List ℕ → List ℕ
  pub verify_bytes : List ℕ → List ℕ → String → Bool
  -- `multisigAddress({ version, threshold, addrs })`; `none` is an exception
  pub multisig_address : ℕ → ℕ → List String → Option String
  -- `Buffer.from(text)` and `Buffer.from(bytes).toString('utf-8')`
  pub string_to_bytes : String → List ℕ
  pub convert_to_string : List ℕ → String

-- A part of a multisignature: a key, and its signature, which is empty until it signs.
pub record Subsig : Type 0 where
  pub pk : List ℕ
  pub s : List ℕ

-- `MultiSig` of algosdk
pub record MultiSig : Type 0 where
  pub v : ℕ
  pub thr : ℕ
  pub subsig : List Subsig

-- `MultisigMetadata` of algosdk
pub record MultisigMetadata : Type 0 where
  pub version : ℕ
  pub threshold : ℕ
  pub addrs : List String

pub record LogicSig : Type 0 where
  pub logic : List ℕ
  pub args : List (List ℕ)
  pub sig : List ℕ
  pub msig : Option MultiSig
  pub lsig_address : String

-- The exceptions of `sign` and `appendToMultisig`.
pub data SignError : Type 0 where
  invalid_secret_key no_multisig : SignError

-- The object after a call: an exception leaves what was written before it.
pub data Signed : Type 0 where
  signed : LogicSig → Signed
  refused : SignError → LogicSig → Signed

-- `compareArray(bytes, new Uint8Array(0))`
abbrev pub is_empty : List ℕ → Bool
is_empty b = compare_array b []

abbrev pub after_one : Option ℕ → Option ℕ
after_one none = none
after_one (some i) = some (suc i)

-- The loop of `singleSignMultisig`: the position of the first part with the key.
unfoldable pub key_index : List ℕ → List Subsig → Option ℕ
key_index account_pk [] = none
key_index account_pk (part ∷ parts) =
    let rest = after_one (key_index account_pk parts) in
    if compare_array part.pk account_pk then some 0 else rest

-- `msig.subsig[index].s = sig`
unfoldable pub put_signature : List ℕ → ℕ → List Subsig → List Subsig
put_signature sig index [] = []
put_signature sig zero (part ∷ parts) = record part { s = sig } ∷ parts
put_signature sig (suc index) (part ∷ parts) = part ∷ put_signature sig index parts

-- The first loop of `verifyMultisig`: the parts that have a signature.
unfoldable pub count_signed : List Subsig → ℕ
count_signed [] = 0
count_signed (part ∷ parts) = (if is_empty part.s then 0 else 1) + count_signed parts

module _ (crypto : Crypto) where
  -- The constructor, with the address of the account that it generates.
  unfoldable pub new_logic_sig : String → List (List ℕ) → String → LogicSig
  new_logic_sig program args address = record {
    logic = crypto.string_to_bytes program;
    args = args;
    sig = [];
    msig = none;
    lsig_address = address;
  }

  unfoldable pub sign_program : List ℕ → LogicSig → List ℕ
  sign_program secret_key l = crypto.sign_bytes l.logic secret_key

  unfoldable pub signed_at : List ℕ → MultiSig → LogicSig → Option ℕ → Signed
  signed_at secret_key m l none = Signed.refused SignError.invalid_secret_key l
  signed_at secret_key m l (some index) = Signed.signed (record l {
    msig = some (record m { subsig = put_signature (sign_program secret_key l) index m.subsig });
  })

  -- `singleSignMultisig`, and the write of the signature that it returns
  unfoldable pub sign_multisig : List ℕ → MultiSig → LogicSig → Signed
  sign_multisig secret_key m l =
      signed_at secret_key m l (key_index (crypto.key_of_secret secret_key) m.subsig)

  -- `msig.addrs.map(…)`: the parts, none of them signed
  unfoldable pub unsigned_parts : List String → List Subsig
  unsigned_parts addrs = map (λ a. record { pk = crypto.public_key a; s = [] }) addrs

  unfoldable pub sign : List ℕ → Option MultisigMetadata → LogicSig → Signed
  sign secret_key none l = Signed.signed (record l { sig = sign_program secret_key l })
  sign secret_key (some meta) l =
      let m : MultiSig = record {
        v = meta.version;
        thr = meta.threshold;
        subsig = unsigned_parts meta.addrs;
      } in
      sign_multisig secret_key m (record l { msig = some m })

  unfoldable pub append_of : List ℕ → LogicSig → Option MultiSig → Signed
  append_of secret_key l none = Signed.refused SignError.no_multisig l
  append_of secret_key l (some m) = sign_multisig secret_key m l

  unfoldable pub append_to_multisig : List ℕ → LogicSig → Signed
  append_to_multisig secret_key l = append_of secret_key l l.msig

  -- The second loop: the parts whose signature is that of their key.
  unfoldable pub is_verified : List ℕ → Subsig → Bool
  is_verified logic part =
      not (is_empty part.s) && crypto.verify_bytes logic part.s (crypto.encode_address part.pk)

  unfoldable pub count_verified : List ℕ → List Subsig → ℕ
  count_verified logic [] = 0
  count_verified logic (part ∷ parts) =
      (if is_verified logic part then 1 else 0) + count_verified logic parts

  abbrev pub addresses : List Subsig → List String
  addresses parts = map (λ part. crypto.encode_address part.pk) parts

  -- The tests after the address of the multisignature is computed.
  unfoldable pub check_counts : List ℕ → MultiSig → String → Option String → Bool
  check_counts logic m acc_addr none = false
  check_counts logic m acc_addr (some address) =
      let verified = if ltb (count_verified logic m.subsig) m.thr then false else true in
      let counted = if ltb (count_signed m.subsig) m.thr then false else verified in
      if not (same acc_addr address) then false else counted

  unfoldable pub verify_multisig : List ℕ → MultiSig → String → Bool
  verify_multisig logic m acc_addr =
      let address = crypto.multisig_address m.v m.thr (addresses m.subsig) in
      if ltb (length m.subsig) m.thr then false else check_counts logic m acc_addr address

  -- The cases of `verify`: no signature at all, a signature, or a multisignature.
  unfoldable pub verify_cases : LogicSig → String → Bool → Option MultiSig → Bool
  verify_cases l acc_addr true none = same acc_addr l.lsig_address
  verify_cases l acc_addr false msig = crypto.verify_bytes l.logic l.sig acc_addr
  verify_cases l acc_addr true (some m) = verify_multisig l.logic m acc_addr

  unfoldable pub verify : LogicSig → List ℕ → Bool
  verify l acc_pk = verify_cases l (crypto.encode_address acc_pk) (is_empty l.sig) l.msig

  unfoldable pub program : LogicSig → String
  program l = crypto.convert_to_string l.logic
