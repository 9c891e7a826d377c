-- ===== src/Teal/Valid/Arrays.antt =====
-- The opcodes on byte arrays keep the state well-formed.
use algorand_builder.Base.{
  ℕ, zero, suc, ◌+◌, ◌^◌, ◌≤◌, ◌<◌, ◌≡◌, refl, false, List, [], ◌∷◌, ◌++◌, Option, none, some,
  length, All-get, All-set, All-append, All-take, All-drop, length-append, length-set, get_elem?,
  take, drop, ltb, arith, Option-cases, inl, inr, ap, ◌||◌,
}
use algorand_builder.Base.Int.{ℤ, pos, negsuc, ltb_ℤ}
use algorand_builder.Teal.Library.{Library, IsLawful, IsByte, IsBytesOf}
use algorand_builder.Teal.Machine.{bytes, M, ◌>>=◌}
use algorand_builder.Teal.Checks.{slice_bound, sub_string, assert_uint8, assert_bytes_index}
use algorand_builder.Teal.Bytes
use algorand_builder.Teal.Bytes.{
  push_array, put_byte, to_byte, byte_at, push_byte, from_library, max_concat_size,
}
use algorand_builder.Teal.Valid.{IsUint64, IsArray}
use algorand_builder.Teal.Valid.Triples.{
  Gives, Keeps, Gives-pure, Gives-throw_if, Keeps-bind, Keeps-alloc, Keeps-throw, forget,
}
use algorand_builder.Teal.Valid.Rules.{keeps_rules, Gives-bind, Keeps-push_elem}
use algorand_builder.Teal.Valid.Numbers.{test_fits}

pub length-take_le {ℓ} : {A : Type ℓ} (n : ℕ) (xs : List A) → length (take n xs) ≤ length xs
length-take_le zero xs = omega arith
length-take_le (suc n) [] = omega arith
length-take_le (suc n) (x ∷ xs) = omega (arith, length-take_le n xs)

length-drop_le {ℓ} : {A : Type ℓ} (n : ℕ) (xs : List A) → length (drop n xs) ≤ length xs
length-drop_le zero xs = omega arith
length-drop_le (suc n) [] = omega arith
length-drop_le (suc n) (x ∷ xs) = omega (arith, length-drop_le n xs)

part-IsArray : (n k : ℕ) (b : List ℕ) → IsArray b → IsArray (take n (drop k b))
part-IsArray n k b h = (
  omega (arith, length-take_le n (drop k b), length-drop_le k b, h.0),
  All-take IsByte n (drop k b) (All-drop IsByte k b h.1),
)

join-IsArray :
    (a b : List ℕ)
    → IsArray a
    → IsArray b
    → ltb max_concat_size (length a + length b) ≡ false
    → IsArray (b ++ a)
join-IsArray a b p q h = (ground (arith, length-append b a), All-append IsByte b a q.1 p.1)

digest-IsArray : (size : ℕ) (b : List ℕ) → size < 2 ^ 64 → IsBytesOf size b → IsArray b
digest-IsArray size b h p = (omega (arith, p.0), p.1)

put_byte-IsArray :
    (b : List ℕ) (i v : ℤ)
    → IsArray b
    → (ltb_ℤ v (pos 0) || ltb_ℤ (pos 255) v) ≡ false
    → IsArray (put_byte b i (to_byte v))
put_byte-IsArray b (pos k) (pos n) p h =
    (omega (arith, length-set b k n, p.0), All-set IsByte b k n p.1 (ground arith))
put_byte-IsArray b (pos k) (negsuc n) p h = absurd (ground arith)
put_byte-IsArray b (negsuc k) v p h = p

byte_fits : (v : ℕ) → v < 256 → IsUint64 (pos v)
byte_fits v h = omega arith

length_fits : (b : List ℕ) → IsArray b → IsUint64 (pos (length b))
length_fits b h = h.0

module _ {size : ℕ} where
  pub push_array-Keeps : (b : List ℕ) → IsArray b → Keeps size (push_array b)
  push_array-Keeps b p = Keeps-alloc b _ p (λ r h. Keeps-push_elem (bytes r) h)

  pub len-Keeps : Keeps size Bytes.len
  unfolding Bytes.len
  len-Keeps = search (keeps_rules, length_fits) depth 8

  pub concat-Keeps : Keeps size Bytes.concat
  unfolding Bytes.concat
  concat-Keeps = search (keeps_rules, join-IsArray) depth 12

  Gives-sub_string :
      (start end : ℤ) (b : List ℕ) → IsArray b → Gives size (sub_string start end b) IsArray
  unfolding sub_string
  Gives-sub_string start end b p = Gives-bind _ _ (Gives-throw_if _ _) λ _ _.
      Gives-bind _ _ (Gives-throw_if _ _)
        λ _ _. Gives-pure _ (part-IsArray _ (slice_bound (length b) start) b p)

  then-sub_string :
      {B : Type 0} (start end : ℤ) (b : List ℕ) (next : List ℕ → M B)
      → IsArray b
      → ((c : List ℕ) → IsArray c → Keeps size (next c))
      → Keeps size (sub_string start end b >>= next)
  then-sub_string start end b next p k = Keeps-bind _ _ (Gives-sub_string start end b p) k

  pub substring-Keeps : (start end : ℤ) → Keeps size (Bytes.substring start end)
  unfolding Bytes.substring assert_uint8
  substring-Keeps start end = search (keeps_rules, then-sub_string) depth 12

  pub substring3-Keeps : Keeps size Bytes.substring3
  unfolding Bytes.substring3
  substring3-Keeps = search (keeps_rules, then-sub_string) depth 12

  pub set_byte-Keeps : Keeps size Bytes.set_byte
  unfolding Bytes.set_byte assert_uint8 assert_bytes_index
  set_byte-Keeps = search (keeps_rules, put_byte-IsArray) depth 14

  pub push_byte-Keeps : (b : List ℕ) (i : ℤ) → IsArray b → Keeps size (push_byte (byte_at b i))
  push_byte-Keeps b (pos k) p = elim (Option-cases (get_elem? b k)) [
    | inl e ↦ rw e (Keeps-throw _)
    | inr (v, e) ↦ rw e (Keeps-push_elem _ (byte_fits v (All-get IsByte b k p.1 e)))
  ]
  push_byte-Keeps b (negsuc k) p = Keeps-throw _

  pub get_byte-Keeps : Keeps size Bytes.get_byte
  unfolding Bytes.get_byte assert_bytes_index
  get_byte-Keeps = search (keeps_rules, push_byte-Keeps) depth 12

  -- A library call goes on only with what it returned.
  then-library :
      {A B : Type 0} (o : Option A) (next : A → M B)
      → ((a : A) → o ≡ some a → Keeps size (next a))
      → Keeps size (from_library o >>= next)
  then-library none next k =
      Keeps-bind {Q = λ _. ⊥} _ _ (record { at = λ m h. forget h }) (λ _ q. absurd q)
  then-library (some a) next k =
      Keeps-bind _ _ (Gives-pure {Q = λ x. a ≡ x} a refl) (λ x q. k x (ap some q))

module _ {size : ℕ} (lib : Library) (law : IsLawful lib) where
  pub itob-Keeps : Keeps size (Bytes.itob lib)
  unfolding Bytes.itob
  itob-Keeps = search (keeps_rules, then-library, encoded) depth 10
    where
      encoded : (z : ℤ) (b : List ℕ) → lib.encode_uint64 z ≡ some b → IsArray b
      encoded z b e = digest-IsArray 8 b (omega arith) (law.encode_is_bytes z b e)

  pub btoi-Keeps : Keeps size (Bytes.btoi lib)
  unfolding Bytes.btoi
  btoi-Keeps = search (keeps_rules, then-library, decoded) depth 10
    where
      decoded : (b : List ℕ) (z : ℤ) → lib.decode_uint64 b ≡ some z → IsUint64 z
      decoded b z e = let (n, p, h) = law.decode_is_uint64 b z e in rw p h

  pub sha256-Keeps : Keeps size (Bytes.sha256 lib)
  unfolding Bytes.sha256
  sha256-Keeps = search (keeps_rules, digest) depth 10
    where
      digest : (b : List ℕ) → IsArray (lib.sha256_digest b)
      digest b = digest-IsArray 32 _ (omega arith) (law.sha256_is_bytes b)

  pub sha512_256-Keeps : Keeps size (Bytes.sha512_256 lib)
  unfolding Bytes.sha512_256
  sha512_256-Keeps = search (keeps_rules, digest) depth 10
    where
      digest : (b : List ℕ) → IsArray (lib.sha512_256_digest b)
      digest b = digest-IsArray 32 _ (omega arith) (law.sha512_256_is_bytes b)

  pub keccak256-Keeps : Keeps size (Bytes.keccak256 lib)
  unfolding Bytes.keccak256
  keccak256-Keeps = search (keeps_rules, digest) depth 10
    where
      digest : (b : List ℕ) → IsArray (lib.keccak256_digest b)
      digest b = digest-IsArray 32 _ (omega arith) (law.keccak256_is_bytes b)

  pub ed25519verify-Keeps : Keeps size (Bytes.ed25519verify lib)
  unfolding Bytes.ed25519verify
  ed25519verify-Keeps = search (keeps_rules, then-library, test_fits) depth 12
