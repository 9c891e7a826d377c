-- ===== src/Teal/Valid/Execute.antt =====
-- Every opcode but `bitwise_not` keeps the state well-formed, given that its immediate arguments are
-- valid.
use algorand_builder.Base.{ℕ, All}
use algorand_builder.Teal.Op.{Op}
use algorand_builder.Teal.Library.{Library, IsLawful}
use algorand_builder.Teal.Flow
use algorand_builder.Teal.Execute.{execute_op}
use algorand_builder.Teal.Valid.{IsUint64, IsRef}
use algorand_builder.Teal.Valid.Triples.{Keeps, Keeps-throw}
use algorand_builder.Teal.Valid.Opcodes.{
  add-Keeps, sub-Keeps, div-Keeps, mul-Keeps, modulo-Keeps, bitwise_or-Keeps, bitwise_and-Keeps,
  bitwise_xor-Keeps, addw-Keeps, mulw-Keeps, less_than-Keeps, greater_than-Keeps,
  less_than_equal_to-Keeps, greater_than_equal_to-Keeps, and-Keeps, or-Keeps, not_op-Keeps,
  equal_to-Keeps, not_equal_to-Keeps, pure-Keeps, pop_op-Keeps, dup-Keeps, dup2-Keeps, swap-Keeps,
  select-Keeps, assert-Keeps,
}
use algorand_builder.Teal.Valid.Scratch.{
  arg-Keeps, bytec-Keeps, intc-Keeps, load-Keeps, bytecblock-Keeps, intcblock-Keeps, store-Keeps,
  int-Keeps,
}
use algorand_builder.Teal.Valid.Branches.{
  dig-Keeps, jump_forward-Keeps, branch_if_zero-Keeps, branch_if_not_zero-Keeps, return_op-Keeps,
}
use algorand_builder.Teal.Valid.Arrays.{
  len-Keeps, concat-Keeps, substring-Keeps, substring3-Keeps, set_byte-Keeps, get_byte-Keeps,
  itob-Keeps, btoi-Keeps, sha256-Keeps, sha512_256-Keeps, keccak256-Keeps, ed25519verify-Keeps,
}
use algorand_builder.Teal.Valid.Transactions.{
  txn-Keeps, gtxn-Keeps, txna-Keeps, gtxna-Keeps, gtxns-Keeps, gtxnsa-Keeps,
}
use algorand_builder.Teal.Valid.Globals.{byte-Keeps, addr-Keeps, global-Keeps}
use algorand_builder.Teal.Valid.Applications.{
  app_opted_in-Keeps, app_local_get-Keeps, app_local_get_ex-Keeps, app_global_get-Keeps,
  app_global_get_ex-Keeps, app_local_put-Keeps, app_global_put-Keeps, app_local_del-Keeps,
  app_global_del-Keeps, balance-Keeps, min_balance-Keeps, get_asset_holding-Keeps,
  get_asset_def-Keeps,
}
use algorand_builder.Teal.Valid.Bits.{set_bit-Keeps, get_bit-Keeps}

-- The arguments of an opcode are valid in a heap of `size` arrays. `bitwise_not` is left out.
abbrev pub OpIsValid : ℕ → Op → Type 0
OpIsValid size (Op.arg r) = IsRef size r
OpIsValid size (Op.bytecblock block) = All (IsRef size) block
OpIsValid size (Op.intcblock block) = All IsUint64 block
OpIsValid size (Op.int z) = IsUint64 z
OpIsValid size (Op.push_int z) = IsUint64 z
OpIsValid size Op.bitwise_not = ⊥
OpIsValid size _ = Unit

module _ {size : ℕ} (lib : Library) (law : IsLawful lib) where
  pub execute_op-Keeps : (op : Op) → OpIsValid size op → Keeps size (execute_op lib op)
  unfolding execute_op Flow.err_op Flow.branch
  execute_op-Keeps (Op.pragma version) v = pure-Keeps
  execute_op-Keeps Op.len v = len-Keeps
  execute_op-Keeps Op.add v = add-Keeps
  execute_op-Keeps Op.sub v = sub-Keeps
  execute_op-Keeps Op.div v = div-Keeps
  execute_op-Keeps Op.mul v = mul-Keeps
  execute_op-Keeps Op.modulo v = modulo-Keeps
  execute_op-Keeps (Op.arg r) v = arg-Keeps r v
  execute_op-Keeps (Op.bytecblock block) v = bytecblock-Keeps block v
  execute_op-Keeps (Op.bytec index) v = bytec-Keeps index
  execute_op-Keeps (Op.intcblock block) v = intcblock-Keeps block v
  execute_op-Keeps (Op.intc index) v = intc-Keeps index
  execute_op-Keeps Op.bitwise_or v = bitwise_or-Keeps
  execute_op-Keeps Op.bitwise_and v = bitwise_and-Keeps
  execute_op-Keeps Op.bitwise_xor v = bitwise_xor-Keeps
  execute_op-Keeps Op.bitwise_not v = absurd v
  execute_op-Keeps (Op.store index) v = store-Keeps index
  execute_op-Keeps (Op.load index) v = load-Keeps index
  execute_op-Keeps Op.err v = Keeps-throw _
  execute_op-Keeps Op.sha256 v = sha256-Keeps lib law
  execute_op-Keeps Op.sha512_256 v = sha512_256-Keeps lib law
  execute_op-Keeps Op.keccak256 v = keccak256-Keeps lib law
  execute_op-Keeps Op.ed25519verify v = ed25519verify-Keeps lib law
  execute_op-Keeps Op.less_than v = less_than-Keeps
  execute_op-Keeps Op.greater_than v = greater_than-Keeps
  execute_op-Keeps Op.less_than_equal_to v = less_than_equal_to-Keeps
  execute_op-Keeps Op.greater_than_equal_to v = greater_than_equal_to-Keeps
  execute_op-Keeps Op.and v = and-Keeps
  execute_op-Keeps Op.or v = or-Keeps
  execute_op-Keeps Op.equal_to v = equal_to-Keeps
  execute_op-Keeps Op.not_equal_to v = not_equal_to-Keeps
  execute_op-Keeps Op.not v = not_op-Keeps
  execute_op-Keeps Op.itob v = itob-Keeps lib law
  execute_op-Keeps Op.btoi v = btoi-Keeps lib law
  execute_op-Keeps Op.addw v = addw-Keeps
  execute_op-Keeps Op.mulw v = mulw-Keeps
  execute_op-Keeps Op.pop v = pop_op-Keeps
  execute_op-Keeps Op.dup v = dup-Keeps
  execute_op-Keeps Op.dup2 v = dup2-Keeps
  execute_op-Keeps Op.swap v = swap-Keeps
  execute_op-Keeps Op.select v = select-Keeps
  execute_op-Keeps (Op.dig depth) v = dig-Keeps depth
  execute_op-Keeps Op.concat v = concat-Keeps
  execute_op-Keeps Op.substring3 v = substring3-Keeps
  execute_op-Keeps (Op.substring start end) v = substring-Keeps start end
  execute_op-Keeps (Op.label name) v = pure-Keeps
  execute_op-Keeps (Op.branch name) v = jump_forward-Keeps name
  execute_op-Keeps (Op.branch_if_zero name) v = branch_if_zero-Keeps name
  execute_op-Keeps (Op.branch_if_not_zero name) v = branch_if_not_zero-Keeps name
  execute_op-Keeps Op.return v = return_op-Keeps
  execute_op-Keeps Op.assert v = assert-Keeps
  execute_op-Keeps (Op.int z) v = int-Keeps z v
  execute_op-Keeps (Op.push_int z) v = int-Keeps z v
  execute_op-Keeps Op.set_bit v = set_bit-Keeps
  execute_op-Keeps Op.get_bit v = get_bit-Keeps
  execute_op-Keeps Op.set_byte v = set_byte-Keeps
  execute_op-Keeps Op.get_byte v = get_byte-Keeps
  execute_op-Keeps (Op.byte str encoding) v = byte-Keeps lib law str encoding
  execute_op-Keeps (Op.push_bytes str encoding) v = byte-Keeps lib law str encoding
  execute_op-Keeps (Op.addr text) v = addr-Keeps lib law text
  execute_op-Keeps (Op.txn field index) v = txn-Keeps lib law field index
  execute_op-Keeps (Op.gtxn i field index) v = gtxn-Keeps lib law i field index
  execute_op-Keeps (Op.txna field index) v = txna-Keeps lib law field index
  execute_op-Keeps (Op.gtxna i field index) v = gtxna-Keeps lib law i field index
  execute_op-Keeps (Op.gtxns field index) v = gtxns-Keeps lib law field index
  execute_op-Keeps (Op.gtxnsa field index) v = gtxnsa-Keeps lib law field index
  execute_op-Keeps (Op.global field) v = global-Keeps lib law field
  execute_op-Keeps Op.app_opted_in v = app_opted_in-Keeps lib
  execute_op-Keeps Op.app_local_get v = app_local_get-Keeps lib
  execute_op-Keeps Op.app_local_get_ex v = app_local_get_ex-Keeps lib
  execute_op-Keeps Op.app_global_get v = app_global_get-Keeps
  execute_op-Keeps Op.app_global_get_ex v = app_global_get_ex-Keeps
  execute_op-Keeps Op.app_local_put v = app_local_put-Keeps lib
  execute_op-Keeps Op.app_global_put v = app_global_put-Keeps
  execute_op-Keeps Op.app_local_del v = app_local_del-Keeps lib
  execute_op-Keeps Op.app_global_del v = app_global_del-Keeps
  execute_op-Keeps Op.balance v = balance-Keeps lib
  execute_op-Keeps Op.min_balance v = min_balance-Keeps lib
  execute_op-Keeps (Op.get_asset_holding field) v = get_asset_holding-Keeps lib field
  execute_op-Keeps (Op.get_asset_def field) v = get_asset_def-Keeps lib law field
