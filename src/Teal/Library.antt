-- ===== src/Teal/Library.antt =====
-- What the opcodes call and the repository does not contain: algosdk, js-sha256, js-sha512, sha3,
-- and Node's decoding of UTF-8.
use algorand_builder.Base.{ℕ, ◌<◌, ◌^◌, ◌≡◌, Bool, List, Option, some, All, length}
use algorand_builder.Base.Int.{ℤ, pos}
use Prim.Native.String.{String}
use algorand_builder.Teal.Op.{Encoding}

pub record Library : Type 0 where
  -- `encodeUint64` and `decodeUint64(…, BIGINT)`; `none` is an exception
  pub encode_uint64 : ℤ → Option (List ℕ)
  pub decode_uint64 : List ℕ → Option ℤ
  pub sha256_digest : List ℕ → List ℕ
  pub sha512_256_digest : List ℕ → List ℕ
  -- of a text
  pub keccak256_digest : List ℕ → List ℕ
  -- `Buffer.from(u).toString('utf-8')`
  pub utf8_text : List ℕ → List ℕ
  -- `verifyBytes(data, signature, encodeAddress(pubkey))`
  pub verify_bytes : List ℕ → List ℕ → List ℕ → Option Bool
  -- `encodeAddress(publicKey)`, `decodeAddress(text).publicKey`; `none` is an exception
  pub encode_address : List ℕ → Option String
  pub decode_address : String → Option (List ℕ)
  pub is_valid_address : String → Bool
  -- `Buffer.from(text, encoding)`, and `base32.decode(text)`
  pub buffer_from : Encoding → String → List ℕ

abbrev pub IsByte : ℕ → Type 0
IsByte n = n < 256

-- A `Uint8Array` of a given length.
abbrev pub IsBytesOf : ℕ → List ℕ → Type 0
IsBytesOf size b = (length b ≡ size) × All IsByte b

-- The libraries' documented results: 8 bytes for an integer, 32 for a digest, and an unsigned 64 bit
-- integer for what is decoded.
pub record IsLawful (lib : Library) : Type 0 where
  pub encode_is_bytes : (z : ℤ) (b : List ℕ) → lib.encode_uint64 z ≡ some b → IsBytesOf 8 b
  pub decode_is_uint64 :
      (b : List ℕ) (z : ℤ) → lib.decode_uint64 b ≡ some z → (n : ℕ) × (z ≡ pos n) × (n < 2 ^ 64)
  pub sha256_is_bytes : (b : List ℕ) → IsBytesOf 32 (lib.sha256_digest b)
  pub sha512_256_is_bytes : (b : List ℕ) → IsBytesOf 32 (lib.sha512_256_digest b)
  pub keccak256_is_bytes : (b : List ℕ) → IsBytesOf 32 (lib.keccak256_digest b)
  pub address_is_bytes : (s : String) (b : List ℕ) → lib.decode_address s ≡ some b → IsBytesOf 32 b
  pub buffer_is_bytes :
      (e : Encoding) (s : String)
      → (length (lib.buffer_from e s) < 2 ^ 64) × All IsByte (lib.buffer_from e s)
