-- ===== src/Teal/Constructors.antt =====
-- packages/runtime/src/interpreter/opcode-list.ts: the constructors of the opcodes that have arguments,
-- after the test of how many words there are.
use Prim.Native.String.{String, [], ◌∷◌}
use Prim.Native.Char.{Char, code}
use algorand_builder.Base.{
  ℕ, suc, ◌||◌, ◌+◌, ◌-◌, ◌*◌, Bool, true, false, ◌&&◌, List, [], ◌∷◌, ◌++◌, Option, none, some,
  get_elem?, ltb, leb, if◌then◌else◌,
}
use algorand_builder.Base.Int.{ℤ, pos}
use algorand_builder.Base.Equality.{same, string_eq}
use algorand_builder.Ledger.Dict.{lookup}
use algorand_builder.Teal.Op.{Op, Ref, Encoding}
use algorand_builder.Teal.Fields.{txn_fields, tx_arr_fields}
use algorand_builder.Teal.Txn.{contains}
use algorand_builder.Teal.Global.{global_fields}
use algorand_builder.Teal.Encodings.{get_encoding, is_char}
use algorand_builder.Teal.Parsed.{ParseError, Parsed, and_then}

-- What the constructors read beside the words: the version of the interpreter, the arrays of
-- `runtime.ctx.args`, how many arrays there are, and `isValidAddress` of algosdk.
pub record Setup : Type 0 where
  pub teal_version : ℕ
  pub args : List Ref
  -- where the next array will be that a constructor makes
  pub next : Ref
  pub is_valid_address : String → Bool

-- The digits of a text, put after the value `n`; `none` if another character stands there.
unfoldable pub digits_after : ℕ → String → Option ℕ
digits_after n [] = some n
digits_after n (c ∷ text) =
    let rest = digits_after (n * 10 + (code c - 48)) text in
    if leb 48 (code c) && leb (code c) 57 then rest else none

-- `reDigit.test(text)`, and the number that the text denotes
unfoldable pub number_of : String → Option ℕ
number_of [] = none
number_of (c ∷ text) = digits_after 0 (c ∷ text)

-- `assertOnlyDigits(text)`, then the number
unfoldable pub digits_then : Option ℕ → (ℕ → Parsed Op) → Parsed Op
digits_then none use_number = Parsed.refused ParseError.invalid_type
digits_then (some n) use_number = use_number n

-- The value of a digit or a letter; 99 for any other character.
unfoldable pub char_value : ℕ → ℕ
char_value n =
    let upper = if leb 65 n && leb n 70 then n - 55 else 99 in
    let lower = if leb 97 n && leb n 102 then n - 87 else upper in
    if leb 48 n && leb n 57 then n - 48 else lower

-- The digits of a text in a base, put after the value `n`.
unfoldable pub based : ℕ → ℕ → String → Option ℕ
based base n [] = some n
based base n (c ∷ text) =
    let rest = based base (n * base + char_value (code c)) text in
    if ltb (char_value (code c)) base then rest else none

unfoldable pub only_zeros : String → Bool
only_zeros [] = true
only_zeros (c ∷ text) = is_char b'0' c && only_zeros text

-- The digits of a text, put after the value `n`; a fraction is zero.
unfoldable pub decimal_after : ℕ → String → Option ℕ
decimal_after n [] = some n
decimal_after n (c ∷ text) =
    let rest = decimal_after (n * 10 + (code c - 48)) text in
    let fraction = if is_char b'.' c && only_zeros text then some n else none in
    if leb 48 (code c) && leb (code c) 57 then rest else fraction

-- A numeral that starts with a digit.
unfoldable pub decimal : String → Option ℕ
decimal [] = none
decimal (c ∷ text) =
    let value = decimal_after 0 (c ∷ text) in
    if leb 48 (code c) && leb (code c) 57 then value else none

unfoldable pub nonempty_based : ℕ → String → Option ℕ
nonempty_based base [] = none
nonempty_based base (c ∷ text) = based base 0 (c ∷ text)

-- What follows a zero: the letter of a base, or more of a decimal numeral.
unfoldable pub after_zero : Char → String → Option ℕ → Option ℕ
after_zero d text otherwise =
    let binary = if is_char b'b' d || is_char b'B' d then nonempty_based 2 text else otherwise in
    let octal = if is_char b'o' d || is_char b'O' d then nonempty_based 8 text else binary in
    if is_char b'x' d || is_char b'X' d then nonempty_based 16 text else octal

-- `Number(text)` of a word, where it is a natural number: decimal, perhaps with a plus sign or a
-- fraction of zeros, or hexadecimal, octal or binary. Numerals with an exponent, that start with a
-- point, or that are rounded are left out.
unfoldable pub js_number : String → Option ℕ
js_number [] = some 0
js_number (c ∷ []) = decimal (c ∷ [])
js_number (c ∷ d ∷ text) =
    let unsigned = decimal (c ∷ d ∷ text) in
    let plus = if is_char b'+' c then decimal (d ∷ text) else unsigned in
    if is_char b'0' c then after_zero d text unsigned else plus

-- The constants of `TxnOnComplete` and `TxnType`.
abbrev pub int_consts : List (String × ℕ)
int_consts =
    ("NoOp", 0)
    ∷ ("OptIn", 1)
    ∷ ("CloseOut", 2)
    ∷ ("ClearState", 3)
    ∷ ("UpdateApplication", 4)
    ∷ ("DeleteApplication", 5)
    ∷ ("unknown", 0)
    ∷ ("pay", 1)
    ∷ ("keyreg", 2)
    ∷ ("acfg", 3)
    ∷ ("axfer", 4)
    ∷ ("afrz", 5)
    ∷ ("appl", 6)
    ∷ []

unfoldable pub find_const {ℓ} : {A : Type ℓ} → String → List (String × A) → Option A
find_const name [] = none
find_const name ((n, k) ∷ rest) = if same name n then some k else find_const name rest

-- `checkOverflow`
abbrev pub unless_over : ℕ → (ℤ → Op) → Parsed Op
unless_over n op =
    if ltb 0xFFFF_FFFF_FFFF_FFFF n
    then Parsed.refused ParseError.uint64_overflow
    else Parsed.parsed (op (pos n))

-- `Int`, given the constant of its argument if it is one
unfoldable pub build_int : String → Option ℕ → Parsed Op
build_int word none = digits_then (number_of word) λ n. unless_over n Op.int
build_int word (some k) = unless_over k Op.int

-- `PushInt`
unfoldable pub build_push_int : String → Parsed Op
build_push_int word = digits_then (number_of word) λ n. unless_over n Op.push_int

-- `Dig`
unfoldable pub build_dig : String → Parsed Op
build_dig word =
    digits_then (number_of word)
      λ n. if ltb 255 n then Parsed.refused ParseError.invalid_uint8 else Parsed.parsed (Op.dig n)

-- `Substring`
unfoldable pub build_substring : String → String → Parsed Op
build_substring start end =
    digits_then (number_of start)
      λ a. digits_then (number_of end) λ b. Parsed.parsed (Op.substring (pos a) (pos b))

-- `Intcblock`: the loop over the words, with the integers before them
unfoldable pub build_intcblock : List ℤ → List String → Parsed Op
build_intcblock block [] = Parsed.parsed (Op.intcblock block)
build_intcblock block (word ∷ words) =
    digits_then (number_of word) λ n. build_intcblock (block ++ pos n ∷ []) words

-- `Bytecblock`: the arrays that it makes are the next ones
unfoldable pub refs_from : Ref → List String → List Ref
refs_from next [] = []
refs_from next (word ∷ words) = next ∷ refs_from (suc next) words

-- `Store` and `Load`
unfoldable pub build_indexed : (ℕ → Op) → String → Parsed Op
build_indexed op word = digits_then (number_of word) λ n. Parsed.parsed (op n)

-- `Pragma`: the arguments, the line's number, and `Number(args[1])`, where it is a natural
-- number; the others are refused here, and in the source where they are above the last version, or
-- with the next opcode
unfoldable pub build_pragma : String → ℕ → Option ℕ → Parsed Op
build_pragma word line none = Parsed.refused ParseError.pragma_version_error
build_pragma word line (some version) =
    if same word "version" && leb version 3
    then Parsed.parsed (Op.pragma version)
    else Parsed.refused ParseError.pragma_version_error

abbrev pub is_there {ℓ} : {A : Type ℓ} → Option A → Bool
is_there none = false
is_there (some a) = true

-- `assertTxFieldDefined`
abbrev pub tx_field_defined : ℕ → String → Parsed Op → Parsed Op
tx_field_defined version field p =
    if is_there (lookup field (txn_fields version))
    then p
    else Parsed.refused ParseError.unknown_transaction_field

-- `assertTxArrFieldDefined`
abbrev pub tx_arr_field_defined : ℕ → String → Parsed Op → Parsed Op
tx_arr_field_defined version field p =
    if contains field (tx_arr_fields version) then p else Parsed.refused ParseError.invalid_op_arg

-- The words after a field: the index of an array's element, or none.
unfoldable pub index_then : Bool → List String → (Option ℕ → Parsed Op) → Parsed Op
index_then true (i ∷ []) use_index = digits_then (number_of i) λ n. use_index (some n)
index_then false [] use_index = use_index none
index_then _ _ use_index = Parsed.refused ParseError.assert_length

-- `Txn`
unfoldable pub build_txn : ℕ → List String → Parsed Op
build_txn version [] = Parsed.refused ParseError.unknown_transaction_field
build_txn version (field ∷ rest) = tx_field_defined version field (
    index_then (contains field (tx_arr_fields version)) rest
      λ index. Parsed.parsed (Op.txn field index))

-- `Gtxn`; `Gtxns` calls it with a position of its own
unfoldable pub build_gtxn : ℕ → (ℕ → String → Option ℕ → Op) → List String → Parsed Op
build_gtxn version op (position ∷ field ∷ rest) =
    index_then (contains field (tx_arr_fields version)) rest λ index.
      digits_then (number_of position)
        λ n. tx_field_defined version field (Parsed.parsed (op n field index))
build_gtxn version op _ = Parsed.refused ParseError.assert_length

-- `Txna`
unfoldable pub build_txna : ℕ → List String → Parsed Op
build_txna version (field ∷ i ∷ []) =
    digits_then (number_of i)
      λ n. tx_arr_field_defined version field (Parsed.parsed (Op.txna field n))
build_txna version _ = Parsed.refused ParseError.assert_length

-- `Gtxna`; `Gtxnsa` calls it with a position of its own
unfoldable pub build_gtxna : ℕ → (ℕ → String → ℕ → Op) → List String → Parsed Op
build_gtxna version op (position ∷ field ∷ i ∷ []) = digits_then (number_of position) λ n.
    digits_then (number_of i)
      λ index. tx_arr_field_defined version field (Parsed.parsed (op n field index))
build_gtxna version op _ = Parsed.refused ParseError.assert_length

-- `Global`
unfoldable pub build_global : ℕ → String → Parsed Op
build_global version field =
    if is_there (lookup field (global_fields version))
    then Parsed.parsed (Op.global field)
    else Parsed.refused ParseError.unknown_global_field

-- `Byte`
unfoldable pub build_byte : List String → Parsed Op
build_byte words =
    and_then (get_encoding words) λ (text, encoding). Parsed.parsed (Op.byte text encoding)

-- `PushBytes`: a text without an encoding
unfoldable pub only_utf8 : String → Encoding → Parsed Op
only_utf8 text Encoding.utf8 = Parsed.parsed (Op.push_bytes text Encoding.utf8)
only_utf8 text _ = Parsed.refused ParseError.unknown_decode_type

unfoldable pub build_push_bytes : String → Parsed Op
build_push_bytes word =
    and_then (get_encoding (word ∷ [])) λ (text, encoding). only_utf8 text encoding

-- `Arg`
unfoldable pub arg_at : Option Ref → Parsed Op
arg_at none = Parsed.refused ParseError.index_out_of_bound
arg_at (some r) = Parsed.parsed (Op.arg r)

unfoldable pub build_arg : List Ref → String → Parsed Op
build_arg args word = digits_then (number_of word) λ index. arg_at (get_elem? args index)

-- the keys of `AssetParamMap`
abbrev pub asset_param_map : List String
asset_param_map =
    "AssetTotal" ∷ "AssetDecimals" ∷ "AssetDefaultFrozen" ∷ "AssetUnitName" ∷ "AssetName"
    ∷ "AssetURL" ∷ "AssetMetadataHash" ∷ "AssetManager" ∷ "AssetReserve" ∷ "AssetFreeze"
    ∷ "AssetClawback" ∷ []

-- `GetAssetDef`
unfoldable pub build_asset_def : String → Parsed Op
build_asset_def field =
    if contains field asset_param_map
    then Parsed.parsed (Op.get_asset_def field)
    else Parsed.refused ParseError.unknown_asset_field

-- `Addr`
unfoldable pub build_addr : Setup → String → Parsed Op
build_addr setup text =
    if setup.is_valid_address text
    then Parsed.parsed (Op.addr text)
    else Parsed.refused ParseError.invalid_addr
