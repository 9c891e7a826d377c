-- ===== src/Run.antt =====
-- packages/runtime/src/runtime.ts, `run` and `validateLsigAndRun`: the interpreter on the state of the
-- context, which is what the transactions of packages/runtime/src/ctx.ts call. The parser is given as a
-- function, which depends on the mode and on the arguments of the context; the theorems hold for each.
pub mod Frame
pub mod Runtime
pub mod Group
mod Tests
use Prim.Native.String.{String}
use algorand_builder.Base.{
  ℕ, zero, suc, [], ◌∷◌, Bool, false, not, List, ◌++◌, Option, none, some, length, get_elem?,
  if◌then◌else◌,
}
use algorand_builder.Base.Equality.{same, string_eq}
use algorand_builder.Ledger.Dict.{Dict}
use algorand_builder.Ledger.Data.{State, TxError, Address, AsaDef}
use algorand_builder.Ledger.Encoded.{Txn}
use algorand_builder.Ledger.Monad.{Outcome, Act, done, thrown, throw_if, defined, ◌>>=◌, ◌>>◌}
use algorand_builder.Ledger.Programs.{Host}
use algorand_builder.LogicSig.{Crypto, LogicSig, verify, program}
use algorand_builder.Teal.Op.{Op, Ref}
use algorand_builder.Teal.Library.{Library}
use algorand_builder.Teal.Machine.{Machine, Context, start, ok, fail}
use algorand_builder.Teal.Machine as Teal
use algorand_builder.Teal.Execute.{execute}
use algorand_builder.Teal.Sentence.{Mode}
use algorand_builder.Ledger.Account.{or_else}

-- A parsed program: its opcodes, the arrays that they refer to, and its version.
pub record Program : Type 0 where
  pub ops : List Op
  pub arrays : List (List ℕ)
  pub version : ℕ

-- The logic signature that a transaction is signed by, and the arrays of its arguments.
pub record Signature : Type 0 where
  pub lsig : LogicSig
  -- `txnParam.args`
  pub param_args : Option (List Ref)
  -- `txnParam.lsig.args`
  pub lsig_args : List Ref

-- What the runtime gives to a run, beside the state: the group of transactions and the block; the
-- parser, which is told the mode, the arrays of `ctx.args` and how many arrays there are; and where
-- the constant arrays are.
pub record Settings : Type 0 where
  pub library : Library
  pub crypto : Crypto
  pub parser : Mode → List Ref → ℕ → String → Option Program
  pub gtxs : List Txn
  -- by transaction; none where no logic signature signs it
  pub signatures : List (Option Signature)
  -- `ctx.args` before the first transaction; `executeTx` starts without arguments
  pub first_args : List Ref
  pub round : ℕ
  pub timestamp : ℕ
  pub zero_address : Ref
  pub zero_byte : Ref
  pub loaded_assets_defs : Dict String AsaDef

-- The state of the context after a run; the arrays stay.
abbrev pub state_of : Machine → State
state_of m = record (m.ctx.state) { heap = m.heap }

-- A run out of fuel does not occur.
abbrev pub settle : State → Option (Teal.Outcome (Unit {0})) → Outcome State (Unit {0})
settle s none = thrown TxError.program_error s
settle s (some (ok _ m)) = done tt (state_of m)
settle s (some (fail e m)) = thrown TxError.program_error (state_of m)

-- `this.ctx.args = txnParam.args ?? txnParam.lsig.args`, where a logic signature signs
abbrev pub set_args : Option Signature → List Ref → List Ref
set_args none args = args
set_args (some g) args = or_else g.param_args g.lsig_args

-- `ctx.args` while the transaction at `idx` runs its programs: what the last transaction up to it has
-- set that is signed by a logic signature. None of those before it has thrown.
unfoldable pub args_at : List (Option Signature) → ℕ → List Ref → List Ref
args_at [] idx args = args
args_at (g ∷ signatures) zero args = set_args g args
args_at (g ∷ signatures) (suc idx) args = args_at signatures idx (set_args g args)

module _ (st : Settings) where
  abbrev pub context : ℕ → State → Context
  context idx s = record {
    state = s;
    tx_index = idx;
    gtxs = st.gtxs;
    round = st.round;
    timestamp = st.timestamp;
    zero_address = st.zero_address;
    zero_byte = st.zero_byte;
  }

  -- The interpreter before the first instruction.
  abbrev pub loaded : ℕ → State → Program → Machine
  loaded idx s p = start p.ops (s.heap ++ p.arrays) p.version (context idx s)

  unfoldable pub run_parsed : ℕ → State → Option Program → Outcome State (Unit {0})
  run_parsed idx s none = thrown TxError.program_error s
  run_parsed idx s (some p) = settle s (execute st.library (loaded idx s p))

  -- `run(program, executionMode)`, while the current transaction is the one at `idx`
  unfoldable pub run : ℕ → Mode → String → Act State (Unit {0})
  run idx mode text s =
      run_parsed idx s
        (st.parser mode (args_at st.signatures idx st.first_args) (length s.heap) text)

  -- `txnParam.lsig`
  abbrev pub lsig_at : ℕ → Option LogicSig
  lsig_at idx = elim (get_elem? st.signatures idx) [
    | none ↦ none
    | some g ↦ elim g [ none ↦ none | some signature ↦ some signature.lsig ]
  ]

  -- `validateLsigAndRun`
  unfoldable pub validate_lsig_and_run : ℕ → Address → Act State (Unit {0})
  validate_lsig_and_run idx from = do
    lsig ← defined TxError.lsig_error (lsig_at idx)
    throw_if (not (verify st.crypto lsig (st.crypto.public_key from))) TxError.lsig_error
    throw_if (same (program st.crypto lsig) "") TxError.lsig_error
    run idx Mode.signature (program st.crypto lsig)

  -- What `processTransactions` calls while the transaction at `idx` is the current one.
  unfoldable pub host : ℕ → Host
  host idx = record {
    run = run idx Mode.application;
    validate_lsig_and_run = validate_lsig_and_run idx;
    loaded_assets_defs = st.loaded_assets_defs;
  }
