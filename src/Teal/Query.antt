-- ===== src/Teal/Query.antt =====
-- packages/runtime/src/interpreter/interpreter.ts: what an interpreter asks of its runtime. A key of a
-- contract's state is the text of its bytes.
use Prim.Native.String.{String}
use algorand_builder.Base.{
  ℕ, zero, suc, ◌/◌, ◌%◌, List, [], ◌∷◌, Option, none, some, get_elem?, ltb, if◌then◌else◌,
}
use algorand_builder.Base.Int.{ℤ, pos, negsuc}
use algorand_builder.Base.Equality.{same, nat_eq, string_eq}
use algorand_builder.Ledger.Dict.{lookup}
use algorand_builder.Ledger.Data.{State, StateValue, AccountStore, SscAttributes, AssetDef, Address}
use algorand_builder.Ledger.Encoded.{Txn, TxValue, field_of}
use algorand_builder.Ledger.Monad.{Outcome as LedgerOutcome, Act, done, thrown}
use algorand_builder.Ledger.Context.{get_account, get_app}
use algorand_builder.Teal.Library.{Library}
use algorand_builder.Teal.Machine.{
  Machine, Error, Outcome, M, ok, fail, pure, throw, gets, ◌>>=◌, ◌>>◌,
}
use algorand_builder.Teal.Checks.{check_index_bound}

-- The text of two texts.
unfoldable pub append_text : String → String → String
append_text String.[] t = t
append_text (String.◌∷◌ c s) t = String.◌∷◌ c (append_text s t)

abbrev pub digits : List String
digits = "0" ∷ "1" ∷ "2" ∷ "3" ∷ "4" ∷ "5" ∷ "6" ∷ "7" ∷ "8" ∷ "9" ∷ []

abbrev pub digit : ℕ → String
digit n = elim (get_elem? digits n) [ none ↦ "" | some s ↦ s ]

-- The numeral of a byte.
unfoldable pub byte_text : ℕ → String
byte_text n =
    let tens = append_text (digit (n / 10 % 10)) (digit (n % 10)) in
    let more = if ltb n 100 then tens else append_text (digit (n / 100)) tens in
    if ltb n 10 then digit n else more

-- `keyToBytes(key).toString()`: the numerals of the bytes, with commas between them
unfoldable pub key_text : List ℕ → String
key_text [] = ""
key_text (b ∷ []) = byte_text b
key_text (b ∷ c ∷ key) = append_text (byte_text b) (append_text "," (key_text (c ∷ key)))

abbrev pub lifted : {A : Type 0} → Machine → LedgerOutcome State A → Outcome A
lifted m (done a s) = ok a (record m { ctx = record (m.ctx) { state = s } })
lifted m (thrown e s) =
    fail (Error.ledger_error e) (record m { ctx = record (m.ctx) { state = s } })

-- A call of the ledger's code.
unfoldable pub on_ledger : {A : Type 0} → Act State A → M A
on_ledger act m = lifted m (act m.ctx.state)

-- A value that must be there.
abbrev pub require : {A : Type 0} → Error → Option A → M A
require e none m = fail e m
require e (some a) m = ok a m

-- `this.runtime.ctx.gtxs[i]`
unfoldable pub tx_at : ℕ → M Txn
tx_at i = do gtxs ← gets (λ m. m.ctx.gtxs); require Error.js_error (get_elem? gtxs i)

-- `this.runtime.ctx.tx`
unfoldable pub current_tx : M Txn
current_tx = do i ← gets (λ m. m.ctx.tx_index); tx_at i

-- The arrays of a transaction. A missing one is `undefined`, whose `length` is an exception.
abbrev pub as_buffers : Option TxValue → Option (List (List ℕ))
as_buffers (some (TxValue.buffers l)) = some l
as_buffers _ = none

abbrev pub as_numbers : Option TxValue → Option (List ℕ)
as_numbers (some (TxValue.numbers l)) = some l
as_numbers _ = none

abbrev pub as_buffer : Option TxValue → Option (List ℕ)
as_buffer (some (TxValue.buffer b)) = some b
as_buffer _ = none

-- An application's id.
abbrev pub as_id : Option TxValue → Option ℕ
as_id (some (TxValue.number (pos n))) = some n
as_id _ = none

-- `ctx.tx.apid || 0`
abbrev pub or_zero : Option ℕ → ℕ
or_zero none = 0
or_zero (some n) = n

unfoldable pub current_app_id : M ℕ
current_app_id = do tx ← current_tx; pure (or_zero (as_id (field_of "apid" tx)))

-- `arr[idx]` after `checkIndexBound(idx, arr)`
unfoldable pub element : {A : Type 0} → List A → ℕ → M A
element arr i = do check_index_bound i arr; require Error.js_error (get_elem? arr i)

-- What is at an index that the stack holds.
unfoldable pub element_at : {A : Type 0} → Option (List A) → ℤ → M A
element_at arr (negsuc i) = throw Error.index_out_of_bound
element_at none (pos i) = throw Error.js_error
element_at (some arr) (pos i) = element arr i

module _ (lib : Library) where
  unfoldable pub encoded : Option (List ℕ) → M Address
  encoded none = throw Error.library_error
  encoded (some pk) = require Error.library_error (lib.encode_address pk)

  -- The address that `getAccount` looks up: the sender's at 0, then those of `apat`.
  unfoldable pub account_address : ℤ → Txn → M Address
  account_address (pos zero) tx = encoded (as_buffer (field_of "snd" tx))
  account_address (pos (suc i)) tx = do
    pk ← element_at (as_buffers (field_of "apat" tx)) (pos i)
    encoded (some pk)
  account_address (negsuc i) tx = throw Error.index_out_of_bound

  -- `getAccount`: the address, and the account, of an index
  unfoldable pub query_address : ℤ → M Address
  query_address index = do tx ← current_tx; account_address index tx

unfoldable pub query_account : Address → M AccountStore
query_account address = on_ledger (get_account address)

-- `getApp`
unfoldable pub query_app : ℕ → M SscAttributes
query_app app_id = on_ledger (get_app app_id)

-- `getGlobalState`
unfoldable pub query_global_state : ℕ → List ℕ → M (Option StateValue)
query_global_state app_id key = do
  app ← query_app app_id
  pure (lookup (key_text key) app.global_state)

abbrev pub created_asset : ℕ → AccountStore → Option AssetDef
created_asset id a = lookup id a.created_assets

unfoldable pub asset_def_of : ℕ → Option Address → M (Option AssetDef)
asset_def_of asset_id none = pure none
asset_def_of asset_id (some address) = do
  account ← query_account address
  pure (created_asset asset_id account)

-- The creator of an asset; the empty text is falsy.
abbrev pub truthy : Option Address → Option Address
truthy none = none
truthy (some a) = if same a "" then none else some a

-- `getAssetDef`
unfoldable pub query_asset_def : ℕ → M (Option AssetDef)
query_asset_def asset_id = do
  defs ← gets (λ m. m.ctx.state.asset_defs)
  asset_def_of asset_id (truthy (lookup asset_id defs))
