-- ===== src/Teal/Bytewise.antt =====
-- Reads and writes of single bytes, through the references on the stack.
use algorand_builder.Base.{
  ℕ, ◌<◌, ◌≡◌, ◌≢◌, refl, ◌∙◌, List, ◌∷◌, some, length, get_elem?, set, get_elem?-set_self,
  get_elem?-set_ne, length-set, lt_of_get_elem?, arith,
}
use algorand_builder.Base.Int.{pos}
use algorand_builder.Teal.Op.{Ref}
use algorand_builder.Teal.Machine.{Machine, StackElem, uint64, bytes, bytes_at, M, ◌>>◌, ok}
use algorand_builder.Teal.Stack.{push_elem}
use algorand_builder.Teal.Checks.{steps}
use algorand_builder.Teal.Bytes
use algorand_builder.Teal.Shuffle
use algorand_builder.Teal.Moves.{over}

-- `set_byte` at `i`, then `get_byte` at `j`
abbrev pub set_then_get : ℕ → M (Unit {0})
set_then_get j = Bytes.set_byte >> push_elem (uint64 (pos j)) >> Bytes.get_byte

-- The operands of `set_byte`.
abbrev pub operands : Ref → ℕ → ℕ → List StackElem → List StackElem
operands r i v rest = uint64 (pos v) ∷ uint64 (pos i) ∷ bytes r ∷ rest

bytes_at-eq :
    (heap : List (List ℕ)) (r : Ref) {b : List ℕ} → get_elem? heap r ≡ some b → bytes_at heap r ≡ b
bytes_at-eq heap r e = rw (bytes_at, e) refl

set_then_get-reads :
    (m : Machine) (r : Ref) (b : List ℕ) (i j v w : ℕ) (rest : List StackElem)
    → get_elem? m.heap r ≡ some b
    → v < 256
    → i < length b
    → length rest < 998
    → get_elem? (set b i v) j ≡ some w
    → set_then_get j (over m (operands r i v rest))
      ≡ ok tt (record m { heap = set m.heap r (set b i v); stack = uint64 (pos w) ∷ rest })
unfolding steps Bytes.set_byte Bytes.get_byte
set_then_get-reads m r b i j v w rest found byte inside room e = ground (
  arith,
  bytes_at-eq m.heap r found,
  bytes_at-eq (set m.heap r (set b i v)) r
      (get_elem?-set_self m.heap r (set b i v) (lt_of_get_elem? m.heap r found)),
  lt_of_get_elem? (set b i v) j e,
  length-set b i v,
)

-- A byte below 256 written by `set_byte` inside an array is what `get_byte` then reads at its
-- index, and at any other index it reads the byte that was there, with less than 998 elements
-- under the operands.
pub get_byte-set_byte :
    (m : Machine) (r : Ref) (b : List ℕ) (i j v w : ℕ) (rest : List StackElem)
    → get_elem? m.heap r ≡ some b
    → v < 256
    → i < length b
    → length rest < 998
    → get_elem? b j ≡ some w
    → i ≢ j
    → let after = record m { heap = set m.heap r (set b i v) } in
      (set_then_get i (over m (operands r i v rest)) ≡ ok tt (over after (uint64 (pos v) ∷ rest)))
      × (set_then_get j (over m (operands r i v rest)) ≡ ok tt (over after (uint64 (pos w) ∷ rest)))
get_byte-set_byte m r b i j v w rest found byte inside room e other = (
  set_then_get-reads m r b i i v v rest found byte inside room (get_elem?-set_self b i v inside),
  set_then_get-reads m r b i j v w rest found byte inside room (get_elem?-set_ne b i j v other ∙ e),
)

-- What is observed of an array after a copy of it, made by `dup`, has been written through: `dup`,
-- `set_byte` at `i` on the copy, `pop`, then `get_byte` at `i` on the original.
abbrev pub write_to_copy : ℕ → ℕ → M (Unit {0})
write_to_copy i v =
    Shuffle.dup
    >> push_elem (uint64 (pos i))
    >> push_elem (uint64 (pos v))
    >> Bytes.set_byte
    >> Shuffle.pop_op
    >> push_elem (uint64 (pos i))
    >> Bytes.get_byte

-- `dup` does not copy an array: a byte below 256 written by `set_byte` through one of the two
-- elements is read by `get_byte` through the other, with less than 996 elements under them.
pub dup-shares :
    (m : Machine) (r : Ref) (b : List ℕ) (i v : ℕ) (rest : List StackElem)
    → get_elem? m.heap r ≡ some b
    → v < 256
    → i < length b
    → length rest < 996
    → write_to_copy i v (over m (bytes r ∷ rest))
      ≡ ok tt (record m { heap = set m.heap r (set b i v); stack = uint64 (pos v) ∷ rest })
unfolding steps Bytes.set_byte Bytes.get_byte Shuffle.dup Shuffle.pop_op
dup-shares m r b i v rest found byte inside room = ground (
  arith,
  bytes_at-eq m.heap r found,
  bytes_at-eq (set m.heap r (set b i v)) r
      (get_elem?-set_self m.heap r (set b i v) (lt_of_get_elem? m.heap r found)),
  get_elem?-set_self b i v inside,
  length-set b i v,
)
