-- ===== src/Teal/Sentence.antt =====
-- packages/runtime/src/parser/parser.ts: an opcode from the words of a line, the cost of a program, and
-- the loop over the lines. A line is given by its words, the first one apart, or is passed over.
use Prim.Native.String.{String, [], ◌∷◌}
use Prim.Native.Char.{code}
use algorand_builder.Base.{
  ℕ, suc, ◌++◌, ◌+◌, ◌≤◌, ◌≡◌, refl, ap, sym, ◌∙◌, Bool, true, false, List, [], ◌∷◌, Option, none,
  some, length, ltb, ◌==◌, arith, if◌then◌else◌, Bool-cases, Option-cases, inl, inr,
}
use algorand_builder.Base.Equality.{string_eq}
use algorand_builder.Teal.Op.{Op, Ref}
use algorand_builder.Teal.Encodings.{starts_with, ends_with, without_last, slice_from}
use algorand_builder.Teal.Build.{Class, construct, op_code_map_1, op_code_map_2, op_code_map_3}
use algorand_builder.Teal.Constructors.{find_const, Setup}
use algorand_builder.Teal.Parsed.{ParseError, Parsed, parsed}

-- What the parser writes in the interpreter.
pub record Counters : Type 0 where
  pub teal_version : ℕ
  pub gas : ℕ
  -- the texts whose bytes are the arrays that `bytecblock` has made, in order
  pub constants : List String

-- `opCodeMap[tealVersion]`
unfoldable pub op_code_map : ℕ → Option (List (String × Class))
op_code_map version =
    let above = if version == 3 then some op_code_map_3 else none in
    let second = if version == 2 then some op_code_map_2 else above in
    if version == 1 then some op_code_map_1 else second

abbrev pub costs_1 : List (String × ℕ)
costs_1 = ("sha256", 7) ∷ ("sha512_256", 9) ∷ ("keccak256", 26) ∷ ("ed25519verify", 1900) ∷ []

abbrev pub costs_2 : List (String × ℕ)
costs_2 = ("sha256", 35) ∷ ("sha512_256", 45) ∷ ("keccak256", 130) ∷ ("ed25519verify", 1900) ∷ []

abbrev pub or_one : Option ℕ → ℕ
or_one none = 1
or_one (some n) = n

-- `OpGasCost[tealVersion][opCode] ?? 1`; version 3 costs what version 2 does
unfoldable pub op_gas_cost : ℕ → String → ℕ
op_gas_cost version name = or_one (find_const name (if version == 1 then costs_1 else costs_2))

-- `args[0].split(':')[0]`
unfoldable pub before_colon : String → String
before_colon [] = []
before_colon (c ∷ text) = let rest = before_colon text in if code c == b':' then [] else c ∷ rest

-- A label: no words follow it, and it has not the name of an opcode.
unfoldable pub build_label : String → List String → Option Class → Counters → Parsed (Op × Counters)
build_label name [] none st = Parsed.parsed (Op.label (before_colon name), st)
build_label name [] (some cls) st = Parsed.refused ParseError.invalid_label
build_label name (w ∷ words) cls st = Parsed.refused ParseError.assert_length

-- The version that a `#pragma` sets.
unfoldable pub version_set : Op → Option ℕ
version_set (Op.pragma version) = some version
version_set op = none

-- The texts of the arrays that a constructor makes.
unfoldable pub constants_of : Op → List String → List String
constants_of (Op.bytecblock block) words = words
constants_of op words = []

-- `#pragma` sets the version and costs nothing.
unfoldable pub counted : String → List String → Counters → Op → Counters
counted name words st op = elim (version_set op) [
  | none ↦ record st {
    gas = st.gas + op_gas_cost st.teal_version name;
    constants = st.constants ++ constants_of op words;
  }
  | some version ↦ record st { teal_version = version }
]

unfoldable pub with_counters : String → List String → Counters → Parsed Op → Parsed (Op × Counters)
with_counters name words st (Parsed.parsed op) = Parsed.parsed (op, counted name words st op)
with_counters name words st (Parsed.refused e) = Parsed.refused e

-- The words of a line, `none` for one that is blank or a comment.
abbrev pub Sentence : Type 0
Sentence = Option (String × List String)

abbrev pub put_first : Op → Parsed (List Op × Counters) → Parsed (List Op × Counters)
put_first op (Parsed.parsed (ops, st)) = Parsed.parsed (op ∷ ops, st)
put_first op (Parsed.refused e) = Parsed.refused e

-- What follows a line.
unfoldable pub after_line :
    (Counters → Parsed (List Op × Counters)) → Parsed (Op × Counters) → Parsed (List Op × Counters)
after_line rest (Parsed.parsed (op, st)) = put_first op (rest st)
after_line rest (Parsed.refused e) = Parsed.refused e

-- `ExecutionMode`
pub data Mode : Type 0 where
  signature application : Mode

abbrev pub max_cost : Mode → ℕ
max_cost Mode.signature = 20000
max_cost Mode.application = 700

-- `assertMaxCost`
unfoldable pub assert_max_cost : Mode → Parsed (List Op × Counters) → Parsed (List Op × Counters)
assert_max_cost mode (Parsed.refused e) = Parsed.refused e
assert_max_cost mode (Parsed.parsed (ops, st)) =
    if ltb (max_cost mode) st.gas
    then Parsed.refused ParseError.max_cost_exceeded
    else Parsed.parsed (ops, st)

-- `arg_N`, `intc_N` and `bytec_N`: the opcode and its argument
unfoldable pub short_form : String → Option (String × String)
short_form name =
    let bytec = if starts_with "bytec_" name then some ("bytec", slice_from 6 name) else none in
    let intc = if starts_with "intc_" name then some ("intc", slice_from 5 name) else bytec in
    if starts_with "arg_" name then some ("arg", slice_from 4 name) else intc

-- The name that is looked up in the table.
unfoldable pub opcode_name : String → String
opcode_name name = elim (short_form name) [ none ↦ name | some short ↦ short.0 ]

-- What the constructors read of the context and of algosdk: the arguments, how many arrays there are
-- before the program's own, and the test of an address.
module _ (args : List Ref) (arrays : ℕ) (is_valid_address : String → Bool) where
  abbrev pub setup : Counters → Setup
  setup st = record {
    teal_version = st.teal_version;
    args = args;
    next = arrays + length st.constants;
    is_valid_address = is_valid_address;
  }

  unfoldable pub build_opcode :
      String → List String → ℕ → Option Class → Counters → Parsed (Op × Counters)
  build_opcode name words line none st = Parsed.refused ParseError.unknown_opcode
  build_opcode name words line (some cls) st =
      with_counters name words st (construct (setup st) cls line words)

  unfoldable pub in_table :
      String → List String → ℕ → Counters → Option (List (String × Class)) → Parsed (Op × Counters)
  in_table name words line st none = Parsed.refused ParseError.js_error
  in_table name words line st (some table) =
      let label = build_label name words (find_const (without_last name) table) st in
      let opcode = build_opcode name words line (find_const name table) st in
      if ends_with b':' name then label else opcode

  -- `opcodeFromSentence`
  unfoldable pub opcode_from_sentence : String → List String → ℕ → Counters → Parsed (Op × Counters)
  opcode_from_sentence name words line st = elim (short_form name) [
    | none ↦ in_table name words line st (op_code_map st.teal_version)
    | some short ↦
        if length words == 0
        then in_table short.0 (short.1 ∷ []) line st (op_code_map st.teal_version)
        else Parsed.refused ParseError.assert_length
  ]

  -- The loop of `parser`, with the lines counted so far.
  unfoldable pub parse_lines : List Sentence → ℕ → Counters → Parsed (List Op × Counters)
  parse_lines [] counter st = Parsed.parsed ([], st)
  parse_lines (none ∷ lines) counter st = parse_lines lines (suc counter) st
  parse_lines (some (name, words) ∷ lines) counter st =
      after_line (parse_lines lines (suc counter))
        (opcode_from_sentence name words (suc counter) st)

  -- `parser`, in a new interpreter
  unfoldable pub parser : Mode → List Sentence → Parsed (List Op × Counters)
  parser mode lines =
      assert_max_cost mode
        (parse_lines lines 0 (record { teal_version = 1; gas = 0; constants = [] }))

-- The lines that are not passed over.
unfoldable pub sentences : List Sentence → ℕ
sentences [] = 0
sentences (none ∷ lines) = sentences lines
sentences (some s ∷ lines) = suc (sentences lines)

-- What a line costs whose opcode is built in a version: a label and a `#pragma` nothing, any other
-- opcode what the table of its version says.
unfoldable pub line_cost : ℕ → String → Op → ℕ
line_cost version name op = elim (version_set op) [
  | none ↦ if ends_with b':' name then 0 else op_gas_cost version name
  | some v ↦ 0
]

-- The version of the lines after an opcode.
unfoldable pub version_after : ℕ → Op → ℕ
version_after version op = elim (version_set op) [ none ↦ version | some v ↦ v ]

-- What the opcodes of the lines cost together.
unfoldable pub program_cost : ℕ → List Sentence → List Op → ℕ
program_cost version [] ops = 0
program_cost version (none ∷ lines) ops = program_cost version lines ops
program_cost version (some line ∷ lines) [] = 0
program_cost version (some (name, words) ∷ lines) (op ∷ ops) =
    line_cost version (opcode_name name) op + program_cost (version_after version op) lines ops

-- The counters after a line, against its cost.
abbrev Counts : String → Counters → Op → Counters → Type 0
Counts name st op st' =
    (st'.gas ≡ st.gas + line_cost st.teal_version name op)
    × (st'.teal_version ≡ version_after st.teal_version op)

label-Counts :
    (name : String) (words : List String) (o : Option Class) (st st' : Counters) (op : Op)
    → ends_with b':' name ≡ true
    → build_label name words o st ≡ parsed (op, st')
    → Counts name st op st'
unfolding build_label line_cost version_after version_set
label-Counts name [] none st st' op h e =
    let same_op : op ≡ Op.label (before_colon name) = ground arith in
    let same_st : st' ≡ st = ground arith in rw (same_op, same_st, h) (omega arith, refl)
label-Counts name [] (some cls) st st' op h e = cc
label-Counts name (w ∷ words) o st st' op h e = cc

counted-Counts :
    (name : String) (words : List String) (st : Counters) (op : Op)
    → ends_with b':' name ≡ false
    → Counts name st op (counted name words st op)
unfolding counted line_cost version_after
counted-Counts name words st op h = elim (Option-cases (version_set op)) [
  | inl p ↦ rw (counted, line_cost, version_after, p, h) (refl, refl)
  | inr (v, p) ↦ rw (counted, line_cost, version_after, p) (omega arith, refl)
]

opcode-Counts :
    (name : String) (words : List String) (st st' : Counters) (o : Parsed Op) (op : Op)
    → ends_with b':' name ≡ false
    → with_counters name words st o ≡ parsed (op, st')
    → Counts name st op st'
unfolding with_counters
opcode-Counts name words st st' (Parsed.refused e) op h p = cc
opcode-Counts name words st st' (Parsed.parsed op') op h p =
    let same_op : op ≡ op' = ground arith in
    let same_st : st' ≡ counted name words st op' = ground arith in
    rw (same_op, same_st) (counted-Counts name words st op' h)

-- The result of a parsed line and of those after it has one opcode more, and costs what the line
-- does more.
abbrev Totals : List Sentence → Counters → List Op → Counters → Type 0
Totals lines st ops st' =
    (length ops ≡ sentences lines) × (st'.gas ≡ st.gas + program_cost st.teal_version lines ops)

after_line-Totals :
    (name : String) (words : List String) (lines : List Sentence) (st : Counters)
    (rest : Counters → Parsed (List Op × Counters))
    → ((t : Counters) (ops : List Op) (st' : Counters)
        → rest t ≡ parsed (ops, st')
        → Totals lines t ops st')
    → (o : Parsed (Op × Counters))
    → ((op : Op) (t : Counters) → o ≡ parsed (op, t) → Counts (opcode_name name) st op t)
    → (ops : List Op) (st' : Counters) → after_line rest o ≡ parsed (ops, st')
    → Totals (some (name, words) ∷ lines) st ops st'
unfolding after_line sentences program_cost
after_line-Totals name words lines st rest h (Parsed.refused e) k ops st' p = cc
after_line-Totals name words lines st rest h (Parsed.parsed (op, t)) k ops st' p =
    put (rest t) (h t) p
  where
    put :
        (r : Parsed (List Op × Counters))
        → ((ops : List Op) (st' : Counters) → r ≡ parsed (ops, st') → Totals lines t ops st')
        → put_first op r ≡ parsed (ops, st')
        → Totals (some (name, words) ∷ lines) st ops st'
    put (Parsed.refused e) f p = cc
    put (Parsed.parsed (ops', st'')) f p =
        let same_ops : ops ≡ op ∷ ops' = ground arith in
        let same_st : st' ≡ st'' = ground arith in
        let (few, gas) = f ops' st'' refl in
        let (here, version) = k op t refl in
        rw (same_ops, same_st, sym version)
          (
            ap suc few,
            gas ∙ ap (λ n. n + program_cost t.teal_version lines ops') here ∙ omega arith,
          )

abbrev gas_of : Parsed (List Op × Counters) → ℕ
gas_of (Parsed.parsed (ops, st)) = st.gas
gas_of (Parsed.refused e) = 0

ltb-false : (a b : ℕ) → ltb a b ≡ false → b ≤ a
ltb-false a b h = ground arith

max_cost-kept :
    (mode : Mode) (o : Parsed (List Op × Counters)) (ops : List Op) (st : Counters)
    → assert_max_cost mode o ≡ parsed (ops, st)
    → (o ≡ parsed (ops, st)) × (st.gas ≤ max_cost mode)
unfolding assert_max_cost
max_cost-kept mode (Parsed.refused e) ops st p = cc
max_cost-kept mode (Parsed.parsed (ops', st')) ops st p =
    elim (Bool-cases (ltb (max_cost mode) st'.gas)) [
      | inl q ↦ absurd (ground arith)
      | inr q ↦
          let r : Parsed.parsed (ops', st') ≡ Parsed.parsed (ops, st) = rw q at p in
          let few : st'.gas ≤ max_cost mode = ltb-false (max_cost mode) st'.gas q in
          (r, rw (ap gas_of r) at few)
    ]

module _ (args : List Ref) (arrays : ℕ) (is_valid_address : String → Bool) where
  in_table-Counts :
      (name : String) (words : List String) (line : ℕ) (st st' : Counters) (op : Op)
      (t : Option (List (String × Class)))
      → in_table args arrays is_valid_address name words line st t ≡ parsed (op, st')
      → Counts name st op st'
  unfolding build_opcode in_table
  in_table-Counts name words line st st' op none e = cc
  in_table-Counts name words line st st' op (some t) e = elim (Bool-cases (ends_with b':' name)) [
    | inl p ↦ label-Counts name words _ st st' op p (rw p at e)
    | inr p ↦ built _ p (rw p at e)
  ]
    where
      built :
          (o : Option Class)
          → ends_with b':' name ≡ false
          → build_opcode args arrays is_valid_address name words line o st ≡ parsed (op, st')
          → Counts name st op st'
      built none h f = cc
      built (some cls) h f = opcode-Counts name words st st' _ op h f

  sentence-Counts :
      (name : String) (words : List String) (line : ℕ) (st st' : Counters) (op : Op)
      → opcode_from_sentence args arrays is_valid_address name words line st ≡ parsed (op, st')
      → Counts (opcode_name name) st op st'
  unfolding opcode_from_sentence opcode_name line_cost version_after
  sentence-Counts name words line st st' op e = elim (Option-cases (short_form name)) [
    | inl p ↦
        rw (opcode_name, p)
          (in_table-Counts name words line st st' op _ (rw (opcode_from_sentence, p) at e))
    | inr (short, p) ↦ elim (Bool-cases (length words == 0)) [
      | inl q ↦
          rw (opcode_name, p)
            (in_table-Counts (short.0) (short.1 ∷ []) line st st' op _
              (rw (opcode_from_sentence, p, q) at e))
      | inr q ↦ let f = rw (opcode_from_sentence, p, q) at e in cc
    ]
  ]

  parse_lines-Totals :
      (lines : List Sentence) (counter : ℕ) (st : Counters) (ops : List Op) (st' : Counters)
      → parse_lines args arrays is_valid_address lines counter st ≡ parsed (ops, st')
      → Totals lines st ops st'
  unfolding parse_lines sentences program_cost
  parse_lines-Totals [] counter st ops st' p =
      let none_left : ops ≡ [] = ground arith in
      let same_st : st' ≡ st = ground arith in rw (none_left, same_st) (refl, omega arith)
  parse_lines-Totals (none ∷ lines) counter st ops st' p =
      parse_lines-Totals lines (suc counter) st ops st' p
  parse_lines-Totals (some (name, words) ∷ lines) counter st ops st' p =
      after_line-Totals name words lines st
        (parse_lines args arrays is_valid_address lines (suc counter))
        (λ t. parse_lines-Totals lines (suc counter) t)
        (opcode_from_sentence args arrays is_valid_address name words (suc counter) st)
        (λ op t. sentence-Counts name words (suc counter) st t op) ops st' p

  -- A program that is parsed has one opcode for each line that is not passed over; the gas that is
  -- counted is the sum of what its opcodes cost in their versions, and is at most 20000 in a logic
  -- signature and 700 in an application.
  pub parser_lem :
      (mode : Mode) (lines : List Sentence) (ops : List Op) (st : Counters)
      → parser args arrays is_valid_address mode lines ≡ parsed (ops, st)
      → (length ops ≡ sentences lines)
        × (st.gas ≡ program_cost 1 lines ops)
        × (program_cost 1 lines ops ≤ max_cost mode)
  unfolding parser
  parser_lem mode lines ops st p =
      let start : Counters = record { teal_version = 1; gas = 0; constants = [] } in
      let (q, few) =
        max_cost-kept mode (parse_lines args arrays is_valid_address lines 0 start) ops st p in
      let (one, cost) = parse_lines-Totals lines 0 start ops st q in
      (one, omega (arith, cost), omega (arith, cost, few))
