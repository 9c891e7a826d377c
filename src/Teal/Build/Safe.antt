-- ===== src/Teal/Build/Safe.antt =====
-- packages/runtime/src/interpreter/opcode-list.ts: the constructors of the opcodes, class by class.
use Prim.Native.String.{String}
use algorand_builder.Base.{
  ℕ, suc, ◌+◌, length, ◌≤◌, ◌≡◌, inl, inr, true, false, Bool, ◌&&◌, List, [], ◌∷◌, Option, none,
  some, ltb, leb, arith, Bool-cases, All, All-get, get_elem?, if◌then◌else◌, Option-cases,
}
use algorand_builder.Base.Equality.{same, string_eq}
use algorand_builder.Ledger.Dict.{lookup}
use algorand_builder.Teal.Op.{Op, Ref, Encoding}
use algorand_builder.Teal.Fields.{txn_fields, tx_arr_fields}
use algorand_builder.Teal.Txn.{contains}
use algorand_builder.Teal.Global.{global_fields}
use algorand_builder.Teal.Encodings.{get_encoding}
use algorand_builder.Teal.Valid.{IsRef}
use algorand_builder.Teal.Valid.Execute.{OpIsValid}
use algorand_builder.Teal.Parsed.{Parsed, and_then}
use algorand_builder.Teal.Build.{Class, construct}
use algorand_builder.Teal.Constructors.{
  Setup, js_number, refs_from, number_of, digits_then, int_consts, find_const, unless_over,
  build_int, build_push_int, build_dig, build_substring, build_indexed, build_pragma, is_there,
  index_then, build_txn, build_gtxn, build_txna, build_gtxna, build_global, build_byte, only_utf8,
  build_push_bytes, arg_at, build_arg, asset_param_map, build_asset_def, build_addr,
}

-- What is built is valid.
abbrev pub Builds : ℕ → Parsed Op → Type 0
Builds size (Parsed.parsed op) = OpIsValid size op
Builds size (Parsed.refused e) = Unit

-- A class that builds opcodes whose arguments are valid.
abbrev pub IsSafe : Class → Type 0
IsSafe (Class.plain op) = (size : ℕ) → OpIsValid size op
IsSafe (Class.indexed op) = (size n : ℕ) → OpIsValid size (op n)
IsSafe (Class.word op) = (size : ℕ) (l : String) → OpIsValid size (op l)
IsSafe Class.intcblock = ⊥
IsSafe _ = Unit

small_of : (n : ℕ) → ltb 18446744073709551615 n ≡ false → n ≤ 18446744073709551615
small_of n p = ground arith

module _ (size : ℕ) where
  if-Builds :
      (b : Bool) (p q : Parsed Op)
      → Builds size p
      → Builds size q
      → Builds size (if b then p else q)
  if-Builds true p q h k = h
  if-Builds false p q h k = k

  digits_then-Builds :
      (o : Option ℕ) (f : ℕ → Parsed Op)
      → ((n : ℕ) → Builds size (f n))
      → Builds size (digits_then o f)
  unfolding digits_then
  digits_then-Builds none f h = tt
  digits_then-Builds (some n) f h = h n

  and_then-Builds :
      {A : Type 0} (p : Parsed A) (f : A → Parsed Op)
      → ((a : A) → Builds size (f a))
      → Builds size (and_then p f)
  and_then-Builds (Parsed.refused e) f h = tt
  and_then-Builds (Parsed.parsed a) f h = h a

  index_then-Builds :
      (b : Bool) (words : List String) (f : Option ℕ → Parsed Op)
      → ((i : Option ℕ) → Builds size (f i))
      → Builds size (index_then b words f)
  unfolding index_then
  index_then-Builds true [] f h = tt
  index_then-Builds true (i ∷ []) f h = digits_then-Builds (number_of i) _ λ n. h (some n)
  index_then-Builds true (i ∷ j ∷ words) f h = tt
  index_then-Builds false [] f h = h none
  index_then-Builds false (i ∷ words) f h = tt

  int-Builds : (n : ℕ) → Builds size (unless_over n Op.int)
  int-Builds n = elim (Bool-cases (ltb 18446744073709551615 n)) [
    | inl p ↦ rw p tt
    | inr p ↦ rw p (omega (arith, small_of n p))
  ]

  push_int-Builds : (n : ℕ) → Builds size (unless_over n Op.push_int)
  push_int-Builds n = elim (Bool-cases (ltb 18446744073709551615 n)) [
    | inl p ↦ rw p tt
    | inr p ↦ rw p (omega (arith, small_of n p))
  ]

  build_int-Builds : (word : String) (o : Option ℕ) → Builds size (build_int word o)
  unfolding build_int
  build_int-Builds word none = digits_then-Builds (number_of word) _ int-Builds
  build_int-Builds word (some k) = int-Builds k

  dig-Builds : (word : String) → Builds size (build_dig word)
  unfolding build_dig
  dig-Builds word = digits_then-Builds (number_of word) _ λ n. if-Builds (ltb 255 n) _ _ tt tt

  pragma-Builds : (word : String) (line : ℕ) (o : Option ℕ) → Builds size (build_pragma word line o)
  unfolding build_pragma
  pragma-Builds word line none = tt
  pragma-Builds word line (some version) =
      if-Builds (same word "version" && leb version 3) _ _ tt tt

  txn-Builds : (version : ℕ) (words : List String) → Builds size (build_txn version words)
  unfolding build_txn
  txn-Builds version [] = tt
  txn-Builds version (field ∷ rest) =
      if-Builds (is_there (lookup field (txn_fields version))) _ _
        (index_then-Builds (contains field (tx_arr_fields version)) rest _ λ i. tt) tt

  gtxn-Builds :
      (version : ℕ) (op : ℕ → String → Option ℕ → Op) (words : List String)
      → ((n : ℕ) (f : String) (i : Option ℕ) → OpIsValid size (op n f i))
      → Builds size (build_gtxn version op words)
  unfolding build_gtxn
  gtxn-Builds version op [] h = tt
  gtxn-Builds version op (position ∷ []) h = tt
  gtxn-Builds version op (position ∷ field ∷ rest) h =
      index_then-Builds (contains field (tx_arr_fields version)) rest _ λ i.
        digits_then-Builds (number_of position) _
          λ n. if-Builds (is_there (lookup field (txn_fields version))) _ _ (h n field i) tt

  txna-Builds : (version : ℕ) (words : List String) → Builds size (build_txna version words)
  unfolding build_txna
  txna-Builds version [] = tt
  txna-Builds version (field ∷ []) = tt
  txna-Builds version (field ∷ i ∷ []) =
      digits_then-Builds (number_of i) _
        λ n. if-Builds (contains field (tx_arr_fields version)) _ _ tt tt
  txna-Builds version (field ∷ i ∷ j ∷ words) = tt

  gtxna-Builds :
      (version : ℕ) (op : ℕ → String → ℕ → Op) (words : List String)
      → ((n : ℕ) (f : String) (i : ℕ) → OpIsValid size (op n f i))
      → Builds size (build_gtxna version op words)
  unfolding build_gtxna
  gtxna-Builds version op [] h = tt
  gtxna-Builds version op (position ∷ []) h = tt
  gtxna-Builds version op (position ∷ field ∷ []) h = tt
  gtxna-Builds version op (position ∷ field ∷ i ∷ []) h =
      digits_then-Builds (number_of position) _ λ n.
        digits_then-Builds (number_of i) _
          λ k. if-Builds (contains field (tx_arr_fields version)) _ _ (h n field k) tt
  gtxna-Builds version op (position ∷ field ∷ i ∷ j ∷ words) h = tt

  only_utf8-Builds : (text : String) (e : Encoding) → Builds size (only_utf8 text e)
  unfolding only_utf8
  only_utf8-Builds text Encoding.base64 = tt
  only_utf8-Builds text Encoding.base32 = tt
  only_utf8-Builds text Encoding.hex = tt
  only_utf8-Builds text Encoding.utf8 = tt

  arg_at-Builds :
      (args : List Ref) (i : ℕ) → All (IsRef size) args → Builds size (arg_at (get_elem? args i))
  unfolding arg_at
  arg_at-Builds args i h = elim (Option-cases (get_elem? args i)) [
    | inl p ↦ rw p tt
    | inr (r, p) ↦ rw p (All-get (IsRef size) args i h p)
  ]

  refs_from-IsRef :
      (next : ℕ) (words : List String)
      → next + length words ≤ size
      → All (IsRef size) (refs_from next words)
  unfolding refs_from
  refs_from-IsRef next [] room = tt
  refs_from-IsRef next (word ∷ words) room =
      (omega (arith, room), refs_from-IsRef (suc next) words (omega (arith, room)))

  pub construct-Builds :
      (setup : Setup) (cls : Class)
      → IsSafe cls
      → All (IsRef size) setup.args
      → (line : ℕ) (words : List String) → setup.next + length words ≤ size
      → Builds size (construct setup cls line words)
  unfolding construct build_indexed build_push_int build_substring build_byte build_push_bytes
      build_arg build_global build_asset_def build_addr
  construct-Builds setup (Class.plain op) h refs line [] room = h size
  construct-Builds setup (Class.plain op) h refs line (a ∷ w) room = tt
  construct-Builds setup (Class.indexed op) h refs line [] room = tt
  construct-Builds setup (Class.indexed op) h refs line (a ∷ []) room =
      digits_then-Builds (number_of a) _ (h size)
  construct-Builds setup (Class.indexed op) h refs line (a ∷ b ∷ w) room = tt
  construct-Builds setup (Class.word op) h refs line [] room = tt
  construct-Builds setup (Class.word op) h refs line (a ∷ []) room = h size a
  construct-Builds setup (Class.word op) h refs line (a ∷ b ∷ w) room = tt
  construct-Builds setup Class.int h refs line [] room = tt
  construct-Builds setup Class.int h refs line (a ∷ []) room =
      build_int-Builds a (find_const a int_consts)
  construct-Builds setup Class.int h refs line (a ∷ b ∷ w) room = tt
  construct-Builds setup Class.push_int h refs line [] room = tt
  construct-Builds setup Class.push_int h refs line (a ∷ []) room =
      digits_then-Builds (number_of a) _ push_int-Builds
  construct-Builds setup Class.push_int h refs line (a ∷ b ∷ w) room = tt
  construct-Builds setup Class.dig h refs line [] room = tt
  construct-Builds setup Class.dig h refs line (a ∷ []) room = dig-Builds a
  construct-Builds setup Class.dig h refs line (a ∷ b ∷ w) room = tt
  construct-Builds setup Class.substring h refs line [] room = tt
  construct-Builds setup Class.substring h refs line (a ∷ []) room = tt
  construct-Builds setup Class.substring h refs line (a ∷ b ∷ []) room =
      digits_then-Builds (number_of a) _ λ m. digits_then-Builds (number_of b) _ λ n. tt
  construct-Builds setup Class.substring h refs line (a ∷ b ∷ c ∷ w) room = tt
  construct-Builds setup Class.bytecblock h refs line words room =
      refs_from-IsRef setup.next words room
  construct-Builds setup Class.bytec h refs line [] room = tt
  construct-Builds setup Class.bytec h refs line (a ∷ []) room = tt
  construct-Builds setup Class.bytec h refs line (a ∷ b ∷ w) room = tt
  construct-Builds setup Class.intc h refs line [] room = tt
  construct-Builds setup Class.intc h refs line (a ∷ []) room = tt
  construct-Builds setup Class.intc h refs line (a ∷ b ∷ w) room = tt
  construct-Builds setup Class.intcblock h refs line words room = absurd h
  construct-Builds setup Class.pragma h refs line [] room = tt
  construct-Builds setup Class.pragma h refs line (a ∷ []) room = tt
  construct-Builds setup Class.pragma h refs line (a ∷ b ∷ []) room =
      if-Builds (ltb 1 line) _ _ tt (pragma-Builds a line (js_number b))
  construct-Builds setup Class.pragma h refs line (a ∷ b ∷ c ∷ w) room = tt
  construct-Builds setup Class.arg h refs line [] room = tt
  construct-Builds setup Class.arg h refs line (a ∷ []) room =
      digits_then-Builds (number_of a) _ λ i. arg_at-Builds setup.args i refs
  construct-Builds setup Class.arg h refs line (a ∷ b ∷ w) room = tt
  construct-Builds setup Class.byte h refs line words room =
      and_then-Builds (get_encoding words) _ λ r. tt
  construct-Builds setup Class.push_bytes h refs line [] room = tt
  construct-Builds setup Class.push_bytes h refs line (a ∷ []) room =
      and_then-Builds (get_encoding (a ∷ [])) _ λ (text, e). only_utf8-Builds text e
  construct-Builds setup Class.push_bytes h refs line (a ∷ b ∷ w) room = tt
  construct-Builds setup Class.addr h refs line [] room = tt
  construct-Builds setup Class.addr h refs line (a ∷ []) room =
      if-Builds (setup.is_valid_address a) _ _ tt tt
  construct-Builds setup Class.addr h refs line (a ∷ b ∷ w) room = tt
  construct-Builds setup Class.txn h refs line words room = txn-Builds setup.teal_version words
  construct-Builds setup Class.gtxn h refs line words room =
      gtxn-Builds setup.teal_version Op.gtxn words λ n f i. tt
  construct-Builds setup Class.gtxns h refs line words room =
      gtxn-Builds setup.teal_version (λ n f i. Op.gtxns f i) ("100" ∷ words) λ n f i. tt
  construct-Builds setup Class.txna h refs line words room = txna-Builds setup.teal_version words
  construct-Builds setup Class.gtxna h refs line words room =
      gtxna-Builds setup.teal_version Op.gtxna words λ n f i. tt
  construct-Builds setup Class.gtxnsa h refs line words room =
      gtxna-Builds setup.teal_version (λ n f i. Op.gtxnsa f i) ("100" ∷ words) λ n f i. tt
  construct-Builds setup Class.global h refs line [] room = tt
  construct-Builds setup Class.global h refs line (a ∷ []) room =
      if-Builds (is_there (lookup a (global_fields setup.teal_version))) _ _ tt tt
  construct-Builds setup Class.global h refs line (a ∷ b ∷ w) room = tt
  construct-Builds setup Class.asset_def h refs line [] room = tt
  construct-Builds setup Class.asset_def h refs line (a ∷ []) room =
      if-Builds (contains a asset_param_map) _ _ tt tt
  construct-Builds setup Class.asset_def h refs line (a ∷ b ∷ w) room = tt
