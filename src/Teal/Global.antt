-- ===== src/Teal/Global.antt =====
-- packages/runtime/src/interpreter/opcode-list.ts: the global fields, the constants that a program
-- writes as texts, and addresses.
use Prim.Native.String.{String}
use algorand_builder.Base.{ℕ, Option, some, [], ◌∷◌, ◌++◌, ◌==◌, length, if◌then◌else◌}
use algorand_builder.Base.Int.{pos}
use algorand_builder.Base.Equality.{same, string_eq}
use algorand_builder.Ledger.Dict.{Dict, lookup}
use algorand_builder.Ledger.Encoded.{field_of}
use algorand_builder.Ledger.Data.{TxError}
use algorand_builder.Teal.Op.{Encoding}
use algorand_builder.Teal.Library.{Library}
use algorand_builder.Teal.Machine.{StackElem, uint64, bytes, Error, M, pure, throw, gets, ◌>>=◌}
use algorand_builder.Teal.Stack.{push_elem}
use algorand_builder.Teal.Query.{current_tx, query_app, require, as_id}
use algorand_builder.Teal.Txn.{new_array}

-- A value of `GlobalFields`: a number, `zeroAddress`, or `null`.
pub data GlobalValue : Type 0 where
  number : ℕ → GlobalValue
  zero_address missing : GlobalValue

abbrev pub global_fields_1 : Dict String GlobalValue
global_fields_1 =
    ("MinTxnFee", GlobalValue.number 1000)
    ∷ ("MinBalance", GlobalValue.number 10000)
    ∷ ("MaxTxnLife", GlobalValue.number 1000)
    ∷ ("ZeroAddress", GlobalValue.zero_address)
    ∷ ("GroupSize", GlobalValue.missing)
    ∷ []

abbrev pub global_fields_2 : Dict String GlobalValue
global_fields_2 =
    global_fields_1
    ++ ("LogicSigVersion", GlobalValue.number 3)
      ∷ ("Round", GlobalValue.number 1)
      ∷ ("LatestTimestamp", GlobalValue.number 1)
      ∷ ("CurrentApplicationID", GlobalValue.missing)
      ∷ []

abbrev pub global_fields_3 : Dict String GlobalValue
global_fields_3 = global_fields_2 ++ ("CreatorAddress", GlobalValue.missing) ∷ []

-- `GlobalFields[tealVersion]`
unfoldable pub global_fields : ℕ → Dict String GlobalValue
global_fields version =
    let third = if version == 3 then global_fields_3 else [] in
    let from_two = if version == 2 then global_fields_2 else third in
    if version == 1 then global_fields_1 else from_two

-- The constructor refuses a field that the table has not.
unfoldable pub global_elem : Option GlobalValue → M StackElem
global_elem (some (GlobalValue.number n)) = pure (uint64 (pos n))
global_elem (some GlobalValue.zero_address) = do r ← gets (λ m. m.ctx.zero_address); pure (bytes r)
global_elem _ = throw Error.js_error

-- `ctx.tx.apid`, of an application that is there; `undefined` is no id of one
unfoldable pub existing_app_id : M ℕ
existing_app_id = do
  tx ← current_tx
  id ← require (Error.ledger_error TxError.app_not_found) (as_id (field_of "apid" tx))
  _ ← query_app id
  pure id

module _ (lib : Library) where
  unfoldable pub creator_elem : M StackElem
  creator_elem = do
    tx ← current_tx
    id ← require (Error.ledger_error TxError.app_not_found) (as_id (field_of "apid" tx))
    app ← query_app id
    b ← require Error.library_error (lib.decode_address app.creator)
    new_array b

  -- The `switch` of `Global`.
  unfoldable pub switch_global : String → ℕ → M StackElem
  switch_global field version =
      let size = (do gtxs ← gets (λ m. m.ctx.gtxs); pure (uint64 (pos (length gtxs)))) in
      let current = (do id ← existing_app_id; pure (uint64 (pos id))) in
      let round = (do r ← gets (λ m. m.ctx.round); pure (uint64 (pos r))) in
      let latest = (do t ← gets (λ m. m.ctx.timestamp); pure (uint64 (pos t))) in
      let other = global_elem (lookup field (global_fields version)) in
      let from_creator = if same field "CreatorAddress" then creator_elem else other in
      let from_latest = if same field "LatestTimestamp" then latest else from_creator in
      let from_round = if same field "Round" then round else from_latest in
      let from_current = if same field "CurrentApplicationID" then current else from_round in
      if same field "GroupSize" then size else from_current

  -- `Global`
  unfoldable pub global : String → M (Unit {0})
  global field = do
    version ← gets (λ m. m.teal_version)
    e ← switch_global field version
    push_elem e

  -- `Byte` and `PushBytes`
  unfoldable pub byte : String → Encoding → M (Unit {0})
  byte str encoding = do e ← new_array (lib.buffer_from encoding str); push_elem e

  -- `Addr`
  unfoldable pub addr : String → M (Unit {0})
  addr text = do
    b ← require Error.library_error (lib.decode_address text)
    e ← new_array b
    push_elem e
