-- ===== src/Teal/Tests.antt =====
-- The theorems on the interpreter, at concrete programs and states.
use Prim.Native.String.{String}
use algorand_builder.Base.{
  none, ◌≤◌, ltb, ltb→lt, ℕ, ◌+◌, ◌*◌, ◌^◌, ◌<◌, ◌≡◌, ◌≢◌, ◌⊎◌, refl, List, [], ◌∷◌, some, true,
  false, replicate, get_elem?, All-replicate, arith,
}
use algorand_builder.Base.Int.{ℤ, pos}
use algorand_builder.Ledger.Data.{AccountStore}
use algorand_builder.Teal.Valid.{IsContext}
use algorand_builder.Teal.Library.{Library, IsLawful, IsByte, IsBytesOf}
use algorand_builder.Teal.Machine.{
  Machine, Context, StackElem, uint64, bytes, Error, Outcome, ok, fail, start,
}
use algorand_builder.Teal.Execute.{execute, execute_op, run_loop, next_round, finish}
use algorand_builder.Teal.Arith
use algorand_builder.Teal.Shuffle
use algorand_builder.Teal.Flow
use algorand_builder.Teal.BitOps
use algorand_builder.Teal.Binary.{to_binary, parse_binary_str_to_bigint}
use algorand_builder.Teal.Binary.Value.{parse-to_binary}
use algorand_builder.Teal.Forward.Loop.{execute-total}
use algorand_builder.Teal.Valid.{IsUint64}
use algorand_builder.Teal.Valid.Program.{IsLoaded, OutcomeIsValid, start-IsLoaded, execute-valid}
use algorand_builder.Base.Equality.{string_eq}
use algorand_builder.Teal.Valid.Execute.{OpIsValid}
use algorand_builder.Teal.Parser.{scan, at_start}
use algorand_builder.Teal.Parser.Words.{Plain, scan-join_words}
use algorand_builder.Teal.Build.{Class, construct}
use algorand_builder.Teal.Op.{Op, Encoding}
use algorand_builder.Teal.Parsed.{parsed}
use algorand_builder.Teal.Encodings.{get_encoding, ends_with, without_last}
use algorand_builder.Teal.Encodings.Texts.{quote, get_encoding-quote, Checked, get_encoding-Checked}
use algorand_builder.Teal.Constructors.{
  Setup, find_const, build_int, build_pragma, number_of, digits_after, digits_then,
}
use algorand_builder.Teal.Build.Valid.{construct-OpIsValid}
use algorand_builder.Teal.Sentence.{
  Sentence, Mode, max_cost, sentences, parser, parse_lines, after_line, opcode_from_sentence,
  in_table, op_code_map, build_opcode, build_label, with_counters, counted, op_gas_cost,
  assert_max_cost, parser_lem, program_cost, version_set,
}
use algorand_builder.Teal.Jump.{LandsAt, jump_forward-lands}
use algorand_builder.Teal.Numbers.{Answer, answer, on, execute_op-answers}
use algorand_builder.Teal.Wide.{InWords, addw-exact, mulw-exact}
use algorand_builder.Teal.Moves.{over, dig-copies, moves_lem}
use algorand_builder.Teal.Bytewise.{
  set_then_get, operands, write_to_copy, get_byte-set_byte, dup-shares,
}
use algorand_builder.Teal.Acceptance.{return-accepts}
use algorand_builder.Teal.Constructors
use algorand_builder.Teal.Encodings
use algorand_builder.Teal.Sentence
use algorand_builder.Teal.Escapes.{bitwise_not-escapes, get_bit-throws}

-- A library whose digests are zeros and whose integers are all zero.
abbrev zeros : Library
zeros = record {
  encode_uint64 = λ z. some (replicate 8 0);
  decode_uint64 = λ b. some (pos 0);
  sha256_digest = λ b. replicate 32 0;
  sha512_256_digest = λ b. replicate 32 0;
  keccak256_digest = λ b. replicate 32 0;
  utf8_text = λ b. b;
  verify_bytes = λ t s k. some false;
  encode_address = λ b. some "alice";
  decode_address = λ s. some (replicate 32 0);
  is_valid_address = λ s. false;
  buffer_from = λ e s. [];
}

zero_bytes : (b : List ℕ) → some (replicate 8 0) ≡ some b → IsBytesOf 8 b
zero_bytes b e =
    let p : b ≡ replicate 8 0 = cc in rw p (refl, All-replicate IsByte 8 0 (omega arith))

zero_address_bytes : (b : List ℕ) → some (replicate 32 0) ≡ some b → IsBytesOf 32 b
zero_address_bytes b e =
    let p : b ≡ replicate 32 0 = cc in rw p (refl, All-replicate IsByte 32 0 (omega arith))

zero_number : (z : ℤ) → some (pos 0) ≡ some z → (n : ℕ) × (z ≡ pos n) × (n < 2 ^ 64)
zero_number z e = (0, cc, omega arith)

zeros-IsLawful : IsLawful zeros
zeros-IsLawful = record {
  encode_is_bytes = λ z b e. zero_bytes b e;
  decode_is_uint64 = λ b z e. zero_number z e;
  sha256_is_bytes = λ b. (refl, All-replicate IsByte 32 0 (omega arith));
  sha512_256_is_bytes = λ b. (refl, All-replicate IsByte 32 0 (omega arith));
  keccak256_is_bytes = λ b. (refl, All-replicate IsByte 32 0 (omega arith));
  address_is_bytes = λ s b e. zero_address_bytes b e;
  buffer_is_bytes = λ e s. (omega arith, tt);
}

-- A branch past an error, then 2 + 3.
abbrev program : List Op
program =
    Op.branch "sum"
    ∷ Op.err
    ∷ Op.label "sum"
    ∷ Op.int (pos 2)
    ∷ Op.int (pos 3)
    ∷ Op.add
    ∷ Op.return
    ∷ []

abbrev arrays : List (List ℕ)
arrays = (1 ∷ 2 ∷ 3 ∷ []) ∷ []

-- A ledger with one account, and no transaction.
abbrev alice : AccountStore
alice = record {
  min_balance = pos 100000;
  assets = [];
  amount = pos 1000000;
  apps_local_state = [];
  created_apps = [];
  created_assets = [];
}

abbrev context : Context
context = record {
  state = record {
    accounts = ("alice", alice) ∷ [];
    asset_defs = [];
    asset_counter = 0;
    global_apps = [];
    app_counter = 0;
    heap = [];
  };
  tx_index = 0;
  gtxs = [];
  round = 2;
  timestamp = 1;
  zero_address = 0;
  zero_byte = 0;
}

context-IsContext : IsContext 1 context
context-IsContext = record {
  ledger_valid = (
    record {
      amount_valid = omega arith;
      min_balance_valid = omega arith;
      holdings_valid = tt;
      local_states_valid = tt;
      global_states_valid = tt;
      defs_valid = tt;
    },
    tt,
  );
  gtxs_valid = tt;
  gtxs_fit = omega arith;
  tx_index_fits = omega arith;
  round_fits = omega arith;
  timestamp_fits = omega arith;
  zero_address_valid = omega arith;
  zero_byte_valid = omega arith;
}

abbrev initial : Machine
initial = start program arrays 3 context

initial-IsLoaded : IsLoaded initial
initial-IsLoaded =
    start-IsLoaded program arrays 3 context
      ((omega arith, (omega arith, (omega arith, (omega arith, tt)))), tt)
      (tt, (tt, (tt, (omega arith, (omega arith, (tt, (tt, tt))))))) context-IsContext

execute-valid_example :
    (o : Outcome (Unit {0})) × (execute zeros initial ≡ some o) × OutcomeIsValid o
execute-valid_example = execute-valid zeros zeros-IsLawful initial initial-IsLoaded

execute-total_example : (o : Outcome (Unit {0})) × (execute zeros initial ≡ some o)
execute-total_example = execute-total zeros initial

jump_forward-lands_example :
    ((to : ℕ) × (Flow.jump_forward "sum" initial
        ≡ ok tt (record initial { instruction_index = to }))
      × LandsAt "sum" program 1 to)
    ⊎ ((Flow.jump_forward "sum" initial
          ≡ fail Error.label_not_found (record initial { instruction_index = 7 }))
        × ((j : ℕ) → 0 < j → get_elem? program j ≢ some (Op.label "sum")))
jump_forward-lands_example = jump_forward-lands "sum" initial

execute_op-answers_example :
    execute_op zeros Op.sub (on initial 2 3 []) ≡ fail Error.uint64_underflow (over initial [])
unfolding answer
execute_op-answers_example =
    execute_op-answers zeros Op.sub 2 3 initial [] (Answer.error Error.uint64_underflow)
      (omega arith) refl

addw-exact_example : InWords Arith.addw (18446744073709551615 + 2) 18446744073709551615 2 initial []
addw-exact_example =
    addw-exact 18446744073709551615 2 initial [] (omega arith) (omega arith) (omega arith)

mulw-exact_example : InWords Arith.mulw (18446744073709551615 * 3) 18446744073709551615 3 initial []
mulw-exact_example =
    mulw-exact 18446744073709551615 3 initial [] (omega arith) (omega arith) (omega arith)

-- A number on the stack.
abbrev int : ℕ → StackElem
int n = uint64 (pos n)

dig-copies_example :
    Shuffle.dig 1 (over initial (int 5 ∷ int 6 ∷ int 7 ∷ []))
    ≡ ok tt (over initial (int 6 ∷ int 5 ∷ int 6 ∷ int 7 ∷ []))
dig-copies_example = dig-copies (int 5 ∷ []) (int 7 ∷ []) (int 6) 1 initial refl (omega arith)

moves_lem_example :
    (Shuffle.swap (over initial (int 1 ∷ int 2 ∷ [])) ≡ ok tt (over initial (int 2 ∷ int 1 ∷ [])))
    × (Shuffle.dup2 (over initial (int 1 ∷ int 2 ∷ []))
        ≡ ok tt (over initial (int 1 ∷ int 2 ∷ int 1 ∷ int 2 ∷ [])))
    × (Shuffle.select (over initial (int 0 ∷ int 1 ∷ int 2 ∷ []))
        ≡ ok tt (over initial (int 2 ∷ [])))
moves_lem_example = moves_lem (int 1) (int 2) (pos 0) initial [] (omega arith)

get_byte-set_byte_example :
    (set_then_get 0 (over initial (operands 0 0 9 []))
      ≡ ok tt (over (record initial { heap = (9 ∷ 2 ∷ 3 ∷ []) ∷ [] }) (int 9 ∷ [])))
    × (set_then_get 2 (over initial (operands 0 0 9 []))
        ≡ ok tt (over (record initial { heap = (9 ∷ 2 ∷ 3 ∷ []) ∷ [] }) (int 3 ∷ [])))
get_byte-set_byte_example =
    get_byte-set_byte initial 0 (1 ∷ 2 ∷ 3 ∷ []) 0 2 9 3 [] refl (omega arith) (omega arith)
      (omega arith) refl (λ e. absurd (omega arith))

dup-shares_example :
    write_to_copy 1 9 (over initial (bytes 0 ∷ []))
    ≡ ok tt (record initial { heap = (1 ∷ 9 ∷ 3 ∷ []) ∷ []; stack = int 9 ∷ [] })
dup-shares_example =
    dup-shares initial 0 (1 ∷ 2 ∷ 3 ∷ []) 1 9 [] refl (omega arith) (omega arith) (omega arith)

return-accepts_example :
    finish
      (next_round zeros (run_loop zeros 1) (Flow.return_op (over initial (int 4 ∷ int 0 ∷ []))))
    ≡ some (ok tt (record initial { stack = []; instruction_index = 8 }))
return-accepts_example = return-accepts zeros initial 3 0 (int 0 ∷ [])

abbrev low : List ℕ
low = 1 ∷ 2 ∷ []

abbrev high : List ℕ
high = 1 ∷ 3 ∷ []

bitwise_not-escapes_example :
    (z : ℤ) × (Arith.bitwise_not (over initial (int 7 ∷ [])) ≡ ok tt (over initial (uint64 z ∷ [])))
    × (IsUint64 z → ⊥)
bitwise_not-escapes_example = bitwise_not-escapes initial 7 [] (omega arith)

get_bit-throws_example :
    BitOps.get_bit (over initial (int 3 ∷ int 5 ∷ [])) ≡ fail Error.js_error (over initial [])
get_bit-throws_example = get_bit-throws initial 5 3 [] (omega arith) (omega arith) (omega arith)

parse-to_binary_example : parse_binary_str_to_bigint (to_binary 10) ≡ 10
parse-to_binary_example = parse-to_binary 10

plain : (c : ℕ) → ltb 47 c ≡ true → Plain c
plain c h =
    let big = ltb→lt 47 c h in
    (
      λ e. absurd (omega arith),
      λ e. absurd (omega arith),
      λ e. absurd (omega arith),
      λ e. absurd (omega arith),
      λ e. absurd (omega arith),
    )

-- The words of the line `int 5`.
scan-join_words_example :
    scan (b'i' ∷ b'n' ∷ b't' ∷ b' ' ∷ b'5' ∷ []) at_start
    ≡ (b'i' ∷ b'n' ∷ b't' ∷ []) ∷ (b'5' ∷ []) ∷ []
scan-join_words_example =
    scan-join_words (b'i' ∷ b'n' ∷ b't' ∷ []) ((b'5' ∷ []) ∷ [])
      ((plain 105 refl, (plain 110 refl, (plain 116 refl, tt))), ((plain 53 refl, tt), tt))

abbrev word : String
word = "int"

abbrev no_args : Setup
no_args = record { teal_version = 3; args = []; next = 0; is_valid_address = λ text. true }

construct-OpIsValid_example : OpIsValid 1 (Op.int (pos 5)) ⊎ (word ≡ "~") ⊎ (word ≡ "intcblock")
unfolding find_const string_eq construct build_int number_of digits_after digits_then
construct-OpIsValid_example =
    construct-OpIsValid no_args 1 "int" Class.int 2 ("5" ∷ []) (Op.int (pos 5)) tt (omega arith)
      refl refl

abbrev source : List Sentence
source =
    some ("#pragma", "version" ∷ "2" ∷ [])
    ∷ none
    ∷ some ("int", "5" ∷ [])
    ∷ some ("sha256", [])
    ∷ []

parser_lem_example :
    (3 ≡ sentences source)
    × (36 ≡ program_cost 1 source (Op.pragma 2 ∷ Op.int (pos 5) ∷ Op.sha256 ∷ []))
    × (program_cost 1 source (Op.pragma 2 ∷ Op.int (pos 5) ∷ Op.sha256 ∷ [])
        ≤ max_cost Mode.application)
unfolding parser parse_lines after_line opcode_from_sentence in_table op_code_map build_opcode
    build_label with_counters counted version_set op_gas_cost assert_max_cost ends_with without_last
    find_const string_eq construct build_int build_pragma number_of digits_after digits_then
    Sentence.short_form Encodings.starts_with Constructors.js_number Constructors.decimal
    Constructors.decimal_after Sentence.constants_of
parser_lem_example =
    parser_lem [] 0 (λ text. true) Mode.application source
      (Op.pragma 2 ∷ Op.int (pos 5) ∷ Op.sha256 ∷ [])
      (record { teal_version = 2; gas = 36; constants = [] }) refl

get_encoding-quote_example : get_encoding (quote "a b" ∷ []) ≡ parsed ("a b", Encoding.utf8)
get_encoding-quote_example = get_encoding-quote "a b"

get_encoding-Checked_example : Checked (get_encoding ("b64" ∷ "YQ==" ∷ []))
get_encoding-Checked_example = get_encoding-Checked ("b64" ∷ "YQ==" ∷ [])
