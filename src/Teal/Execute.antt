-- ===== src/Teal/Execute.antt =====
-- packages/runtime/src/interpreter/interpreter.ts: `execute`, on a parsed program. An opcode's
-- `execute` method is chosen by its class.
use algorand_builder.Base.{ℕ, zero, suc, ◌-◌, List, [], ◌∷◌, Option, none, some, length, get_elem?}
use algorand_builder.Base.Int.{pos}
use algorand_builder.Teal.Op.{Op}
use algorand_builder.Teal.Library.{Library}
use algorand_builder.Teal.Machine.{Machine, StackElem, uint64, Error, Outcome, M, ok, fail, pure}
use algorand_builder.Teal.Arith
use algorand_builder.Teal.Compare
use algorand_builder.Teal.Shuffle
use algorand_builder.Teal.Constants
use algorand_builder.Teal.Bytes
use algorand_builder.Teal.BitOps
use algorand_builder.Teal.Flow
use algorand_builder.Teal.Txn
use algorand_builder.Teal.Global
use algorand_builder.Teal.AppOps
use algorand_builder.Teal.Holdings

module _ (lib : Library) where
  -- `instruction.execute(this.stack)`
  unfoldable pub execute_op : Op → M (Unit {0})
  execute_op (Op.pragma version) = pure tt
  execute_op Op.len = Bytes.len
  execute_op Op.add = Arith.add
  execute_op Op.sub = Arith.sub
  execute_op Op.div = Arith.div
  execute_op Op.mul = Arith.mul
  execute_op Op.modulo = Arith.modulo
  execute_op (Op.arg r) = Constants.arg r
  execute_op (Op.bytecblock block) = Constants.bytecblock block
  execute_op (Op.bytec index) = Constants.bytec index
  execute_op (Op.intcblock block) = Constants.intcblock block
  execute_op (Op.intc index) = Constants.intc index
  execute_op Op.bitwise_or = Arith.bitwise_or
  execute_op Op.bitwise_and = Arith.bitwise_and
  execute_op Op.bitwise_xor = Arith.bitwise_xor
  execute_op Op.bitwise_not = Arith.bitwise_not
  execute_op (Op.store index) = Constants.store index
  execute_op (Op.load index) = Constants.load index
  execute_op Op.err = Flow.err_op
  execute_op Op.sha256 = Bytes.sha256 lib
  execute_op Op.sha512_256 = Bytes.sha512_256 lib
  execute_op Op.keccak256 = Bytes.keccak256 lib
  execute_op Op.ed25519verify = Bytes.ed25519verify lib
  execute_op Op.less_than = Compare.less_than
  execute_op Op.greater_than = Compare.greater_than
  execute_op Op.less_than_equal_to = Compare.less_than_equal_to
  execute_op Op.greater_than_equal_to = Compare.greater_than_equal_to
  execute_op Op.and = Compare.and
  execute_op Op.or = Compare.or
  execute_op Op.equal_to = Compare.equal_to
  execute_op Op.not_equal_to = Compare.not_equal_to
  execute_op Op.not = Compare.not_op
  execute_op Op.itob = Bytes.itob lib
  execute_op Op.btoi = Bytes.btoi lib
  execute_op Op.addw = Arith.addw
  execute_op Op.mulw = Arith.mulw
  execute_op Op.pop = Shuffle.pop_op
  execute_op Op.dup = Shuffle.dup
  execute_op Op.dup2 = Shuffle.dup2
  execute_op Op.swap = Shuffle.swap
  execute_op Op.select = Shuffle.select
  execute_op (Op.dig depth) = Shuffle.dig depth
  execute_op Op.concat = Bytes.concat
  execute_op Op.substring3 = Bytes.substring3
  execute_op (Op.substring start end) = Bytes.substring start end
  execute_op (Op.label name) = pure tt
  execute_op (Op.branch name) = Flow.branch name
  execute_op (Op.branch_if_zero name) = Flow.branch_if_zero name
  execute_op (Op.branch_if_not_zero name) = Flow.branch_if_not_zero name
  execute_op Op.return = Flow.return_op
  execute_op Op.assert = Shuffle.assert
  execute_op (Op.int z) = Constants.int z
  execute_op (Op.push_int z) = Constants.int z
  execute_op Op.set_bit = BitOps.set_bit
  execute_op Op.get_bit = BitOps.get_bit
  execute_op Op.set_byte = Bytes.set_byte
  execute_op Op.get_byte = Bytes.get_byte
  execute_op (Op.byte str encoding) = Global.byte lib str encoding
  execute_op (Op.push_bytes str encoding) = Global.byte lib str encoding
  execute_op (Op.addr text) = Global.addr lib text
  execute_op (Op.txn field index) = Txn.txn lib field index
  execute_op (Op.gtxn i field index) = Txn.gtxn lib i field index
  execute_op (Op.txna field index) = Txn.txna lib field index
  execute_op (Op.gtxna i field index) = Txn.gtxna lib i field index
  execute_op (Op.gtxns field index) = Txn.gtxns lib field index
  execute_op (Op.gtxnsa field index) = Txn.gtxnsa lib field index
  execute_op (Op.global field) = Global.global lib field
  execute_op Op.app_opted_in = AppOps.app_opted_in lib
  execute_op Op.app_local_get = AppOps.app_local_get lib
  execute_op Op.app_local_get_ex = AppOps.app_local_get_ex lib
  execute_op Op.app_global_get = AppOps.app_global_get
  execute_op Op.app_global_get_ex = AppOps.app_global_get_ex
  execute_op Op.app_local_put = AppOps.app_local_put lib
  execute_op Op.app_global_put = AppOps.app_global_put
  execute_op Op.app_local_del = AppOps.app_local_del lib
  execute_op Op.app_global_del = AppOps.app_global_del
  execute_op Op.balance = Holdings.balance lib
  execute_op Op.min_balance = Holdings.min_balance lib
  execute_op (Op.get_asset_holding field) = Holdings.get_asset_holding lib field
  execute_op (Op.get_asset_def field) = Holdings.get_asset_def lib field

  -- One round of the loop ends by `this.instructionIndex++`, or by an exception.
  unfoldable pub next_round :
      (Machine → Option (Outcome (Unit {0}))) → Outcome (Unit {0}) → Option (Outcome (Unit {0}))
  next_round loop (ok _ m) = loop (record m { instruction_index = suc m.instruction_index })
  next_round loop (fail e m) = some (fail e m)

  -- The test of the loop: `instructionIndex < instructions.length`
  unfoldable pub round :
      (Machine → Option (Outcome (Unit {0}))) → Option Op → Machine → Option (Outcome (Unit {0}))
  round loop none m = some (ok tt m)
  round loop (some op) m = next_round loop (execute_op op m)

  -- `while (this.instructionIndex < this.instructions.length) { … }`; `none` means that the fuel ran
  -- out.
  unfoldable pub run_loop : ℕ → Machine → Option (Outcome (Unit {0}))
  run_loop zero m = none
  run_loop (suc fuel) m = round (run_loop fuel) (get_elem? m.instructions m.instruction_index) m

-- After the loop: the stack must hold one positive number.
unfoldable pub accepts : List StackElem → M (Unit {0})
accepts (uint64 (pos (suc n)) ∷ []) m = ok tt (record m { stack = [] })
accepts (e ∷ []) m = fail Error.rejected_by_logic (record m { stack = [] })
accepts _ m = fail Error.rejected_by_logic m

unfoldable pub verdict : Outcome (Unit {0}) → Outcome (Unit {0})
verdict (ok _ m) = accepts m.stack m
verdict (fail e m) = fail e m

-- Every round goes forward, so there are at most as many rounds as instructions.
abbrev pub enough_fuel : Machine → ℕ
enough_fuel m = suc (length m.instructions - m.instruction_index)

abbrev pub finish : Option (Outcome (Unit {0})) → Option (Outcome (Unit {0}))
finish none = none
finish (some o) = some (verdict o)

unfoldable pub execute : Library → Machine → Option (Outcome (Unit {0}))
execute lib m = finish (run_loop lib (enough_fuel m) m)
