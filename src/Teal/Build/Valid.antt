-- ===== src/Teal/Build/Valid.antt =====
-- packages/runtime/src/interpreter/opcode-list.ts: what the constructors of the opcodes let through.
use Prim.Native.String.{String}
use algorand_builder.Base.{
  ℕ, ◌+◌, ◌≤◌, length, ◌≡◌, ◌⊎◌, inl, inr, refl, sym, List, [], ◌∷◌, some, All, arith, Bool-cases,
}
use algorand_builder.Base.Equality.{same, string_eq, same_of}
use algorand_builder.Teal.Op.{Op}
use algorand_builder.Teal.Valid.{IsRef}
use algorand_builder.Teal.Valid.Execute.{OpIsValid}
use algorand_builder.Teal.Build.{Class, construct, op_code_map_3}
use algorand_builder.Teal.Constructors.{find_const, Setup}
use algorand_builder.Teal.Parsed.{parsed}
use algorand_builder.Teal.Build.Safe.{IsSafe, construct-Builds}

-- A row of the table: a safe class, or one of two.
abbrev Row : String × Class → Type 0
Row (name, cls) = IsSafe cls ⊎ (name ≡ "~") ⊎ (name ≡ "intcblock")

record IsRow (r : String × Class) : Type 0 where
  row : Row r

-- The rows of a table, one by one.
data Rows : List (String × Class) → Type 0 where
  end : Rows []
  ◌then◌ :
      {r : String × Class} {table : List (String × Class)} → IsRow r → Rows table → Rows (r ∷ table)

infixr 40 ◌then◌
safe : {name : String} {cls : Class} → IsSafe cls → IsRow (name, cls)
safe h = record { row = inl h }

complement : {cls : Class} → IsRow ("~", cls)
complement = record { row = inr (inl refl) }

int_block : {cls : Class} → IsRow ("intcblock", cls)
int_block = record { row = inr (inr refl) }

rows : Rows op_code_map_3
rows =
    safe tt
    then safe (λ size. tt)
    then safe (λ size. tt)
    then safe (λ size. tt)
    then safe (λ size. tt)
    then safe (λ size. tt)
    then safe (λ size. tt)
    then safe tt
    then safe tt
    then safe tt
    then int_block
    then safe tt
    then safe (λ size. tt)
    then safe (λ size. tt)
    then safe (λ size. tt)
    then safe (λ size. tt)
    then complement
    then safe (λ size n. tt)
    then safe (λ size n. tt)
    then safe (λ size. tt)
    then safe (λ size. tt)
    then safe (λ size. tt)
    then safe (λ size. tt)
    then safe (λ size. tt)
    then safe (λ size. tt)
    then safe (λ size. tt)
    then safe (λ size. tt)
    then safe (λ size. tt)
    then safe (λ size. tt)
    then safe (λ size. tt)
    then safe (λ size. tt)
    then safe (λ size. tt)
    then safe (λ size. tt)
    then safe (λ size. tt)
    then safe (λ size. tt)
    then safe (λ size. tt)
    then safe (λ size. tt)
    then safe tt
    then safe tt
    then safe tt
    then safe (λ size n. tt)
    then safe tt
    then safe tt
    then safe tt
    then safe (λ size. tt)
    then safe tt
    then safe tt
    then safe (λ size n. tt)
    then safe (λ size n. tt)
    then safe (λ size. tt)
    then safe (λ size. tt)
    then safe (λ size. tt)
    then safe tt
    then safe (λ size. tt)
    then safe (λ size. tt)
    then safe (λ size. tt)
    then safe (λ size. tt)
    then safe (λ size. tt)
    then safe (λ size. tt)
    then safe (λ size. tt)
    then safe (λ size. tt)
    then safe (λ size. tt)
    then safe (λ size. tt)
    then safe (λ size. tt)
    then safe (λ size n. tt)
    then safe tt
    then safe (λ size. tt)
    then safe (λ size. tt)
    then safe tt
    then safe tt
    then safe (λ size. tt)
    then safe (λ size. tt)
    then safe (λ size. tt)
    then safe (λ size. tt)
    then safe tt
    then safe (λ size. tt)
    then safe tt
    then safe tt
    then safe (λ size. tt)
    then end

find-Row :
    (name : String) (table : List (String × Class)) (cls : Class)
    → Rows table
    → find_const name table ≡ some cls
    → Row (name, cls)
unfolding find_const
find-Row name [] cls h e = cc
find-Row name ((n, k) ∷ table) cls (h then t) e = elim (Bool-cases (same name n)) [
  | inl p ↦
      let same_name = same_of name n p in
      let same_class : k ≡ cls = ground arith in rw (same_class, sym same_name) at h.row
  | inr p ↦ find-Row name table cls t (rw p at e)
]

-- The constructor of every opcode in the table of version 3, but for `~` and `intcblock`,
-- refuses its words or builds an opcode with valid arguments: for `int` and `pushint`, unsigned
-- 64 bit integers; for `arg` and `bytecblock`, arrays of a heap that has the program's arguments and
-- room for an array of each word.
pub construct-OpIsValid :
    (setup : Setup) (size : ℕ) (name : String) (cls : Class) (line : ℕ) (words : List String)
    (op : Op)
    → All (IsRef size) setup.args
    → setup.next + length words ≤ size
    → find_const name op_code_map_3 ≡ some cls
    → construct setup cls line words ≡ parsed op
    → OpIsValid size op ⊎ (name ≡ "~") ⊎ (name ≡ "intcblock")
construct-OpIsValid setup size name cls line words op refs room found e =
    elim (find-Row name op_code_map_3 cls rows found) [
      | inl safe ↦ inl (rw e at (construct-Builds size setup cls safe refs line words room))
      | inr other ↦ inr other
    ]
