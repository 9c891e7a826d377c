-- ===== src/Teal/Op.antt =====
-- packages/runtime/src/interpreter/opcode-list.ts: the classes of opcodes, as one data type with a
-- constructor for each class and its fields for arguments. `line` is left out: it only enters error
-- messages. An array (`Uint8Array`) is a reference into the heap of Teal/Machine.antt.
use Prim.Native.String.{String}
use algorand_builder.Base.{ℕ, List, Option}
use algorand_builder.Base.Int.{ℤ}

abbrev pub Ref : Type 0
Ref = ℕ

-- `EncodingType`
pub data Encoding : Type 0 where
  base64 base32 hex utf8 : Encoding

pub data Op : Type 0 where
  pragma : ℕ → Op
  len add sub div mul modulo : Op
  arg : Ref → Op
  bytecblock : List Ref → Op
  -- an index, or none where `Number` gives no natural number
  bytec : Option ℕ → Op
  intcblock : List ℤ → Op
  intc : Option ℕ → Op
  bitwise_or bitwise_and bitwise_xor bitwise_not : Op
  store load : ℕ → Op
  err : Op
  sha256 sha512_256 keccak256 ed25519verify : Op
  less_than greater_than less_than_equal_to greater_than_equal_to : Op
  and or equal_to not_equal_to not : Op
  itob btoi addw mulw : Op
  pop dup dup2 swap select : Op
  dig : ℕ → Op
  concat substring3 : Op
  substring : ℤ → ℤ → Op
  label branch branch_if_zero branch_if_not_zero : String → Op
  return assert : Op
  int push_int : ℤ → Op
  set_bit get_bit set_byte get_byte : Op
  byte : String → Encoding → Op
  push_bytes : String → Encoding → Op
  addr : String → Op
  txn : String → Option ℕ → Op
  gtxn : ℕ → String → Option ℕ → Op
  txna : String → ℕ → Op
  gtxna : ℕ → String → ℕ → Op
  gtxns : String → Option ℕ → Op
  gtxnsa : String → ℕ → Op
  global : String → Op
  app_opted_in app_local_get app_local_get_ex app_global_get app_global_get_ex : Op
  app_local_put app_global_put app_local_del app_global_del : Op
  balance min_balance : Op
  get_asset_holding get_asset_def : String → Op
