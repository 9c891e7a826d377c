-- ===== src/Teal/Build.antt =====
-- packages/runtime/src/interpreter/opcode-list.ts: the constructors of the opcodes, from the words
-- after the opcode's name; and packages/runtime/src/parser/parser.ts: the table of the opcodes of
-- each version.
pub mod Safe
pub mod Valid
use Prim.Native.String.{String, [], ◌∷◌}
use Prim.Native.Char.{code}
use algorand_builder.Base.{
  ℕ, ◌+◌, ◌-◌, ◌*◌, Bool, true, false, ◌&&◌, List, [], ◌∷◌, ◌++◌, Option, none, some, length,
  get_elem?, ltb, leb, ◌==◌, if◌then◌else◌,
}
use algorand_builder.Base.Int.{ℤ, pos}
use algorand_builder.Base.Equality.{same, string_eq}
use algorand_builder.Ledger.Dict.{lookup}
use algorand_builder.Teal.Op.{Op, Ref, Encoding}
use algorand_builder.Teal.Fields.{txn_fields, tx_arr_fields}
use algorand_builder.Teal.Txn.{contains}
use algorand_builder.Teal.Global.{global_fields}
use algorand_builder.Teal.Encodings.{get_encoding}
use algorand_builder.Teal.Parsed.{ParseError, Parsed}
use algorand_builder.Teal.Constructors.{
  Setup, js_number, refs_from, digits_after, number_of, digits_then, int_consts, find_const,
  unless_over, build_int, build_push_int, build_dig, build_substring, build_intcblock,
  build_indexed, build_pragma, is_there, tx_field_defined, tx_arr_field_defined, index_then,
  build_txn, build_gtxn, build_txna, build_gtxna, build_global, build_byte, only_utf8,
  build_push_bytes, arg_at, build_arg, asset_param_map, build_asset_def, build_addr,
}

-- The classes, by what their constructors do with the arguments.
pub data Class : Type 0 where
  plain : Op → Class
  indexed : (ℕ → Op) → Class
  -- one word, which is kept as it is
  word : (String → Op) → Class
  int push_int dig substring bytecblock bytec intcblock intc pragma arg byte push_bytes addr txn :
      Class
  gtxn gtxns : Class
  txna gtxna gtxnsa global asset_def : Class

-- `new C(args, line)`. The first test is `assertLen`.
unfoldable pub construct : Setup → Class → ℕ → List String → Parsed Op
construct setup (Class.plain op) line [] = Parsed.parsed op
construct setup (Class.indexed op) line (a ∷ []) = build_indexed op a
construct setup (Class.word op) line (a ∷ []) = Parsed.parsed (op a)
construct setup Class.int line (a ∷ []) = build_int a (find_const a int_consts)
construct setup Class.push_int line (a ∷ []) = build_push_int a
construct setup Class.dig line (a ∷ []) = build_dig a
construct setup Class.substring line (a ∷ b ∷ []) = build_substring a b
construct setup Class.bytecblock line words =
    Parsed.parsed (Op.bytecblock (refs_from setup.next words))
construct setup Class.bytec line (a ∷ []) = Parsed.parsed (Op.bytec (js_number a))
construct setup Class.intc line (a ∷ []) = Parsed.parsed (Op.intc (js_number a))
construct setup Class.intcblock line words = build_intcblock [] words
construct setup Class.pragma line (a ∷ b ∷ []) =
    if ltb 1 line
    then Parsed.refused ParseError.pragma_not_at_first_line
    else build_pragma a line (js_number b)
construct setup Class.arg line (a ∷ []) = build_arg setup.args a
construct setup Class.byte line words = build_byte words
construct setup Class.push_bytes line (a ∷ []) = build_push_bytes a
construct setup Class.addr line (a ∷ []) = build_addr setup a
construct setup Class.txn line words = build_txn setup.teal_version words
construct setup Class.gtxn line words = build_gtxn setup.teal_version Op.gtxn words
construct setup Class.gtxns line words =
    build_gtxn setup.teal_version (λ n f i. Op.gtxns f i) ("100" ∷ words)
construct setup Class.txna line words = build_txna setup.teal_version words
construct setup Class.gtxna line words = build_gtxna setup.teal_version Op.gtxna words
construct setup Class.gtxnsa line words =
    build_gtxna setup.teal_version (λ n f i. Op.gtxnsa f i) ("100" ∷ words)
construct setup Class.global line (a ∷ []) = build_global setup.teal_version a
construct setup Class.asset_def line (a ∷ []) = build_asset_def a
construct setup _ line words = Parsed.refused ParseError.assert_length

-- `opCodeMap[1]`
abbrev pub op_code_map_1 : List (String × Class)
op_code_map_1 =
    ("#pragma", Class.pragma)
    ∷ ("len", Class.plain Op.len)
    ∷ ("err", Class.plain Op.err)
    ∷ ("+", Class.plain Op.add)
    ∷ ("-", Class.plain Op.sub)
    ∷ ("/", Class.plain Op.div)
    ∷ ("*", Class.plain Op.mul)
    ∷ ("arg", Class.arg)
    ∷ ("bytecblock", Class.bytecblock)
    ∷ ("bytec", Class.bytec)
    ∷ ("intcblock", Class.intcblock)
    ∷ ("intc", Class.intc)
    ∷ ("%", Class.plain Op.modulo)
    ∷ ("|", Class.plain Op.bitwise_or)
    ∷ ("&", Class.plain Op.bitwise_and)
    ∷ ("^", Class.plain Op.bitwise_xor)
    ∷ ("~", Class.plain Op.bitwise_not)
    ∷ ("store", Class.indexed Op.store)
    ∷ ("load", Class.indexed Op.load)
    ∷ ("sha256", Class.plain Op.sha256)
    ∷ ("sha512_256", Class.plain Op.sha512_256)
    ∷ ("keccak256", Class.plain Op.keccak256)
    ∷ ("ed25519verify", Class.plain Op.ed25519verify)
    ∷ ("<", Class.plain Op.less_than)
    ∷ (">", Class.plain Op.greater_than)
    ∷ ("<=", Class.plain Op.less_than_equal_to)
    ∷ (">=", Class.plain Op.greater_than_equal_to)
    ∷ ("&&", Class.plain Op.and)
    ∷ ("||", Class.plain Op.or)
    ∷ ("==", Class.plain Op.equal_to)
    ∷ ("!=", Class.plain Op.not_equal_to)
    ∷ ("!", Class.plain Op.not)
    ∷ ("itob", Class.plain Op.itob)
    ∷ ("btoi", Class.plain Op.btoi)
    ∷ ("mulw", Class.plain Op.mulw)
    ∷ ("pop", Class.plain Op.pop)
    ∷ ("dup", Class.plain Op.dup)
    ∷ ("addr", Class.addr)
    ∷ ("int", Class.int)
    ∷ ("byte", Class.byte)
    ∷ ("bnz", Class.word Op.branch_if_not_zero)
    ∷ ("txn", Class.txn)
    ∷ ("gtxn", Class.gtxn)
    ∷ ("global", Class.global)
    ∷ []

abbrev pub op_code_map_2 : List (String × Class)
op_code_map_2 =
    op_code_map_1
    ++ ("addw", Class.plain Op.addw)
      ∷ ("txna", Class.txna)
      ∷ ("gtxna", Class.gtxna)
      ∷ ("b", Class.word Op.branch)
      ∷ ("bz", Class.word Op.branch_if_zero)
      ∷ ("return", Class.plain Op.return)
      ∷ ("dup2", Class.plain Op.dup2)
      ∷ ("concat", Class.plain Op.concat)
      ∷ ("substring", Class.substring)
      ∷ ("substring3", Class.plain Op.substring3)
      ∷ ("app_opted_in", Class.plain Op.app_opted_in)
      ∷ ("app_local_get", Class.plain Op.app_local_get)
      ∷ ("app_local_get_ex", Class.plain Op.app_local_get_ex)
      ∷ ("app_global_get", Class.plain Op.app_global_get)
      ∷ ("app_global_get_ex", Class.plain Op.app_global_get_ex)
      ∷ ("app_local_put", Class.plain Op.app_local_put)
      ∷ ("app_global_put", Class.plain Op.app_global_put)
      ∷ ("app_local_del", Class.plain Op.app_local_del)
      ∷ ("app_global_del", Class.plain Op.app_global_del)
      ∷ ("balance", Class.plain Op.balance)
      ∷ ("asset_holding_get", Class.word Op.get_asset_holding)
      ∷ ("asset_params_get", Class.asset_def)
      ∷ []

abbrev pub op_code_map_3 : List (String × Class)
op_code_map_3 =
    op_code_map_2
    ++ ("assert", Class.plain Op.assert)
      ∷ ("swap", Class.plain Op.swap)
      ∷ ("pushint", Class.push_int)
      ∷ ("pushbytes", Class.push_bytes)
      ∷ ("getbit", Class.plain Op.get_bit)
      ∷ ("setbit", Class.plain Op.set_bit)
      ∷ ("getbyte", Class.plain Op.get_byte)
      ∷ ("setbyte", Class.plain Op.set_byte)
      ∷ ("dig", Class.dig)
      ∷ ("select", Class.plain Op.select)
      ∷ ("gtxns", Class.gtxns)
      ∷ ("gtxnsa", Class.gtxnsa)
      ∷ ("min_balance", Class.plain Op.min_balance)
      ∷ []
