-- ===== src/Teal/Parsed.antt =====
-- packages/runtime/src/parser/parser.ts: what the parser and the constructors of the opcodes return or
-- throw.
use algorand_builder.Base.{Bool, if◌then◌else◌}

pub data ParseError : Type 0 where
  assert_length invalid_type uint64_overflow invalid_uint8 : ParseError
  pragma_not_at_first_line pragma_version_error invalid_label unknown_opcode : ParseError
  max_cost_exceeded js_error invalid_base64 invalid_base32 decode_error : ParseError
  unknown_decode_type invalid_addr unknown_transaction_field invalid_op_arg : ParseError
  unknown_global_field unknown_asset_field index_out_of_bound format_error : ParseError
  library_error : ParseError

pub data Parsed (A : Type 0) : Type 0 where
  parsed : A → Parsed A
  refused : ParseError → Parsed A

abbrev pub refuse_if : {A : Type 0} → Bool → ParseError → Parsed A → Parsed A
refuse_if test e p = if test then Parsed.refused e else p

abbrev pub and_then : {A B : Type 0} → Parsed A → (A → Parsed B) → Parsed B
and_then (Parsed.refused e) use_value = Parsed.refused e
and_then (Parsed.parsed a) use_value = use_value a
