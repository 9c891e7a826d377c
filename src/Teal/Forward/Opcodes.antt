-- ===== src/Teal/Forward/Opcodes.antt =====
-- Every opcode goes forward.
use Prim.Native.String.{String}
use algorand_builder.Base.{
  ℕ, zero, suc, ◌+◌, ◌≤◌, ◌<◌, ◌≡◌, refl, Bool, List, [], ◌∷◌, Option, none, some, length, drop,
  arith, length-drop,
}
use algorand_builder.Base.Int.{ℤ}
use algorand_builder.Teal.Op.{Op, Ref}
use algorand_builder.Teal.Library.{Library}
use algorand_builder.Teal.Machine.{Machine, StackElem, uint64, bytes}
use algorand_builder.Teal.Checks.{
  check_overflow, check_underflow, check_index_bound, assert_arr_length, assert_uint8,
  assert_64_bit_index, assert_bytes_index, sub_string, push_boolean_check,
}
use algorand_builder.Teal.Arith
use algorand_builder.Teal.Compare
use algorand_builder.Teal.Shuffle
use algorand_builder.Teal.Constants
use algorand_builder.Teal.Bytes
use algorand_builder.Teal.BitOps
use algorand_builder.Teal.Flow
use algorand_builder.Teal.Flow.{is_label, is_label_of, skip_labels, find_label}
use algorand_builder.Teal.Txn
use algorand_builder.Teal.Global
use algorand_builder.Teal.AppOps
use algorand_builder.Teal.Holdings
use algorand_builder.Teal.Execute.{execute_op}
use algorand_builder.Teal.Forward.Context.{context_rules}
use algorand_builder.Teal.Forward.{
  Forward, After, Advances, Advances-bind, Advances-pure, Advances-throw, Advances-pop_elem,
  Advances-push_elem, forward_rules,
}

-- A label is found at or after the position at which the search starts, and inside the program.
skip_labels_bounds :
    (ops : List Op) (i : ℕ) → (i ≤ skip_labels ops i) × (skip_labels ops i ≤ i + length ops)
unfolding skip_labels
skip_labels_bounds [] i = omega arith
skip_labels_bounds (op ∷ ops) i = ground (arith, skip_labels_bounds ops (suc i))

pub find_label_bounds :
    (name : String) (ops : List Op) (i j : ℕ)
    → find_label name ops i ≡ some j
    → (i ≤ j) × (j < i + length ops)
unfolding find_label
find_label_bounds name [] i j e = cc
find_label_bounds name (op ∷ ops) i j e =
    ground (arith, skip_labels_bounds ops i, find_label_bounds name ops (suc i) j)

compare_elems-Advances :
    (flip : Bool → Bool) (a b : StackElem) → Advances (Compare.compare_elems flip a b)
unfolding Compare.compare_elems push_boolean_check
compare_elems-Advances flip (uint64 a) (uint64 b) = search forward_rules
compare_elems-Advances flip (bytes a) (bytes b) = search forward_rules depth 8
compare_elems-Advances flip (uint64 a) (bytes b) = Advances-throw _
compare_elems-Advances flip (bytes a) (uint64 b) = Advances-throw _

fetch-Advances : {A : Type 0} (o : Option A) → Advances (Constants.fetch o)
fetch-Advances none = Advances-throw _
fetch-Advances (some a) = Advances-pure a

from_library-Advances : {A : Type 0} (o : Option A) → Advances (Bytes.from_library o)
from_library-Advances none = Advances-throw _
from_library-Advances (some a) = Advances-pure a

push_byte-Advances : (o : Option ℕ) → Advances (Bytes.push_byte o)
push_byte-Advances none = Advances-throw _
push_byte-Advances (some v) = Advances-push_elem _

push_digit-Advances : (o : Option ℕ) → Advances (BitOps.push_digit o)
unfolding BitOps.push_digit
push_digit-Advances none = Advances-throw _
push_digit-Advances (some c) = search forward_rules

set_bit_of-Advances : (e : StackElem) (i b : ℤ) → Advances (BitOps.set_bit_of e i b)
unfolding BitOps.set_bit_of assert_64_bit_index assert_bytes_index
set_bit_of-Advances (uint64 z) i b = search forward_rules depth 8
set_bit_of-Advances (bytes r) i b = search forward_rules depth 8

get_bit_of-Advances : (e : StackElem) (i : ℤ) → Advances (BitOps.get_bit_of e i)
unfolding BitOps.get_bit_of assert_64_bit_index assert_bytes_index
get_bit_of-Advances (uint64 z) i = search (forward_rules, push_digit-Advances) depth 8
get_bit_of-Advances (bytes r) i = search (forward_rules, push_digit-Advances) depth 8

pushed_temp-Advances : (o : Option (List StackElem)) → Advances (Shuffle.pushed_temp o)
pushed_temp-Advances none = Advances-throw _
pushed_temp-Advances (some s) = Advances-pure s

pop_to_temp-Advances :
    (n limit : ℕ) (temp : List StackElem) → Advances (Shuffle.pop_to_temp n limit temp)
unfolding Shuffle.pop_to_temp
pop_to_temp-Advances zero limit temp = Advances-pure temp
pop_to_temp-Advances (suc n) limit temp =
    Advances-bind _ _ Advances-pop_elem
      λ e. Advances-bind _ _ (pushed_temp-Advances _) λ temp'. pop_to_temp-Advances n limit temp'

push_back-Advances : (temp : List StackElem) → Advances (Shuffle.push_back temp)
unfolding Shuffle.push_back
push_back-Advances [] = Advances-pure tt
push_back-Advances (e ∷ temp) =
    Advances-bind _ _ (Advances-push_elem e) λ _. push_back-Advances temp

push_target-Advances : (temp : List StackElem) → Advances (Shuffle.push_target temp)
unfolding Shuffle.push_target
push_target-Advances [] = Advances-throw _
push_target-Advances (e ∷ temp) = Advances-push_elem e

with_index :
    (i : ℕ) (m : Machine)
    → (m.instruction_index ≤ length m.instructions → m.instruction_index ≤ i)
    → i ≤ length m.instructions
    → Forward m (record m { instruction_index = i })
with_index i m up fits = record {
  program_kept = refl;
  heap_grows = omega arith;
  ledger_kept = refl;
  index_grows = λ h. (up h, fits);
}

jumped-Forward :
    (m : Machine) (o : Option ℕ)
    → ((j : ℕ) → o ≡ some j → (m.instruction_index ≤ j) × (j ≤ length m.instructions))
    → After (Forward m) (Flow.jumped o m)
unfolding Flow.jumped
jumped-Forward m none h = with_index (length m.instructions) m (λ k. k) (omega arith)
jumped-Forward m (some j) h = with_index j m (λ _. (h j refl).0) (h j refl).1

jump_forward-Advances : (name : String) → Advances (Flow.jump_forward name)
unfolding Flow.jump_forward
jump_forward-Advances name = record {
  at = λ m.
      let next = suc m.instruction_index in
      jumped-Forward m (find_label name (drop next m.instructions) next) λ j e. omega (
        arith,
        find_label_bounds name (drop next m.instructions) next j e,
        length-drop next m.instructions,
      );
}

end_execution-Advances : Advances Flow.end_execution
unfolding Flow.end_execution
end_execution-Advances = record {
  at = λ m. with_index (length m.instructions) m (λ k. k) (omega arith);
}

clear_stack-Advances : Advances Flow.clear_stack
unfolding Flow.clear_stack
clear_stack-Advances = record {
  at = λ m. record {
    program_kept = refl;
    heap_grows = omega arith;
    ledger_kept = refl;
    index_grows = λ h. omega arith;
  };
}

set_scratch-Advances : (i : ℕ) (e : StackElem) → Advances (Constants.set_scratch i e)
unfolding Constants.set_scratch
set_scratch-Advances i e = record {
  at = λ m. record {
    program_kept = refl;
    heap_grows = omega arith;
    ledger_kept = refl;
    index_grows = λ h. omega arith;
  };
}

set_bytecblock-Advances : (block : List Ref) → Advances (Constants.set_bytecblock block)
unfolding Constants.set_bytecblock
set_bytecblock-Advances block = record {
  at = λ m. record {
    program_kept = refl;
    heap_grows = omega arith;
    ledger_kept = refl;
    index_grows = λ h. omega arith;
  };
}

set_intcblock-Advances : (block : List ℤ) → Advances (Constants.set_intcblock block)
unfolding Constants.set_intcblock
set_intcblock-Advances block = record {
  at = λ m. record {
    program_kept = refl;
    heap_grows = omega arith;
    ledger_kept = refl;
    index_grows = λ h. omega arith;
  };
}

ruleset part_rules = (
  forward_rules, compare_elems-Advances, fetch-Advances, from_library-Advances, push_byte-Advances,
  push_digit-Advances, set_bit_of-Advances, get_bit_of-Advances, pop_to_temp-Advances,
  push_back-Advances, push_target-Advances, jump_forward-Advances, end_execution-Advances,
  clear_stack-Advances, set_scratch-Advances, set_bytecblock-Advances, set_intcblock-Advances,
)

-- Every opcode keeps the program and the ledger but for values, and goes forward.
pub execute_op-Advances : (lib : Library) (op : Op) → Advances (execute_op lib op)
unfolding execute_op check_overflow check_underflow check_index_bound assert_arr_length assert_uint8
    assert_bytes_index sub_string Arith.add Arith.sub Arith.div Arith.mul Arith.modulo
    Arith.bitwise_or Arith.bitwise_and Arith.bitwise_xor Arith.bitwise_not Arith.addw Arith.mulw
    Compare.less_than Compare.greater_than Compare.less_than_equal_to Compare.greater_than_equal_to
    Compare.and Compare.or Compare.not_op Compare.equal_to Compare.not_equal_to Shuffle.pop_op
    Shuffle.dup Shuffle.dup2 Shuffle.swap Shuffle.select Shuffle.dig Shuffle.assert Constants.arg
    Constants.bytecblock Constants.bytec Constants.intcblock Constants.intc Constants.store
    Constants.load Constants.int Bytes.len Bytes.concat Bytes.substring Bytes.substring3
    Bytes.set_byte Bytes.get_byte Bytes.itob Bytes.btoi Bytes.sha256 Bytes.sha512_256
    Bytes.keccak256 Bytes.ed25519verify BitOps.set_bit BitOps.get_bit Flow.branch
    Flow.branch_if_zero Flow.branch_if_not_zero Flow.return_op Flow.err_op Txn.txn Txn.gtxn Txn.txna
    Txn.gtxna Txn.gtxns Txn.gtxnsa Txn.tx_app_arg Global.global Global.switch_global
    Global.existing_app_id Global.creator_elem Global.byte Global.addr AppOps.app_opted_in
    AppOps.app_local_get AppOps.app_local_get_ex AppOps.app_global_get AppOps.app_global_get_ex
    AppOps.app_local_put AppOps.app_global_put AppOps.app_local_del AppOps.app_global_del
    Holdings.balance Holdings.min_balance Holdings.get_asset_holding Holdings.get_asset_def
execute_op-Advances lib (Op.bytec none) = search part_rules depth 14
execute_op-Advances lib (Op.bytec (some index)) = search part_rules depth 14
execute_op-Advances lib (Op.intc none) = search part_rules depth 14
execute_op-Advances lib (Op.intc (some index)) = search part_rules depth 14
execute_op-Advances lib Op.len = search part_rules depth 14
execute_op-Advances lib (Op.byte str encoding) = search context_rules depth 14
execute_op-Advances lib (Op.push_bytes str encoding) = search context_rules depth 14
execute_op-Advances lib (Op.addr text) = search context_rules depth 14
execute_op-Advances lib (Op.txn field index) = search context_rules depth 14
execute_op-Advances lib (Op.gtxn i field index) = search context_rules depth 14
execute_op-Advances lib (Op.txna field index) = search context_rules depth 14
execute_op-Advances lib (Op.gtxna i field index) = search context_rules depth 14
execute_op-Advances lib (Op.gtxns field index) = search context_rules depth 14
execute_op-Advances lib (Op.gtxnsa field index) = search context_rules depth 14
execute_op-Advances lib (Op.global field) = search context_rules depth 14
execute_op-Advances lib Op.app_opted_in = search context_rules depth 14
execute_op-Advances lib Op.app_local_get = search context_rules depth 14
execute_op-Advances lib Op.app_local_get_ex = search context_rules depth 14
execute_op-Advances lib Op.app_global_get = search context_rules depth 14
execute_op-Advances lib Op.app_global_get_ex = search context_rules depth 14
execute_op-Advances lib Op.app_local_put = search context_rules depth 14
execute_op-Advances lib Op.app_global_put = search context_rules depth 14
execute_op-Advances lib Op.app_local_del = search context_rules depth 14
execute_op-Advances lib Op.app_global_del = search context_rules depth 14
execute_op-Advances lib Op.balance = search context_rules depth 14
execute_op-Advances lib Op.min_balance = search context_rules depth 14
execute_op-Advances lib (Op.get_asset_holding field) = search context_rules depth 14
execute_op-Advances lib (Op.get_asset_def field) = search context_rules depth 14
execute_op-Advances lib _ = search part_rules depth 14
