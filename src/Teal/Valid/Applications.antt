-- ===== src/Teal/Valid/Applications.antt =====
-- The opcodes on the states of applications, on balances and on assets keep the state well-formed.
use Prim.Native.String.{String}
use algorand_builder.Base.{ℕ, zero, suc, ◌≡◌, refl, Bool, true, false, Option, none, some, arith}
use algorand_builder.Base.Int.{ℤ, pos, negsuc}
use algorand_builder.Base.Equality.{same, nat_eq, string_eq}
use algorand_builder.Ledger.Dict.{lookup}
use algorand_builder.Ledger.Data.{StateValue, AccountStore, AppLocalState, AssetHolding, AssetDef}
use algorand_builder.Ledger.AppState.{get_local_state, value_of}
use algorand_builder.Ledger.Encoded.{Txn as TxnObject}
use algorand_builder.Teal.Library.{Library, IsLawful}
use algorand_builder.Teal.Machine.{StackElem, uint64, bytes, Error, M, ◌>>=◌}
use algorand_builder.Teal.AppOps
use algorand_builder.Teal.Query.{query_address, query_account}
use algorand_builder.Teal.Holdings
use algorand_builder.Teal.Valid.{AllValues, IsUint64, IsArray, IsElem, IsValue, IsAccount}
use algorand_builder.Teal.Valid.Contexts.{AllValues-lookup}
use algorand_builder.Teal.Valid.Triples.{Gives, Keeps, Gives-read, Keeps-bind}
use algorand_builder.Teal.Valid.Rules.{
  Gives-bind, Gives-pop_elem, Gives-pop_bytes, Gives-pop_bigint, Gives-push_elem,
  Gives-assert_min_stack_len, Keeps-push_elem,
}
use algorand_builder.Teal.Valid.Scratch.{Gives-throw}
use algorand_builder.Teal.Valid.Ledger.{
  Any, on_account-Sound, set_local_state-Sound, write_global-Sound, delete_global-Sound,
  delete_local_key-Sound,
}
use algorand_builder.Teal.Valid.Makes.{
  Makes, Makes-throw, Makes-if, Makes-bind, Makes-new_array, Makes-pure, Keeps-bind-Makes,
}
use algorand_builder.Teal.Valid.Queries.{
  OptionIs, IsDef, found, Gives-require, Gives-element_at, Gives-current_tx, Gives-current_app_id,
  Gives-query_account, Gives-query_address, Gives-query_global_state, Gives-query_asset_def,
  Keeps-on_ledger,
}
use algorand_builder.Teal.Valid.Globals.{IsBytes-IsArray}

one_fits : (size : ℕ) → IsElem size (uint64 (pos 1))
one_fits size = omega arith

zero_fits : (size : ℕ) → IsElem size (uint64 (pos 0))
zero_fits size = omega arith

bit_of-IsElem : (size : ℕ) (b : Bool) → IsElem size (Holdings.bit_of b)
bit_of-IsElem size true = one_fits size
bit_of-IsElem size false = zero_fits size

elem_of-IsElem : (size : ℕ) (v : StateValue) → IsValue size v → IsElem size (AppOps.elem_of v)
elem_of-IsElem size (StateValue.number z) h = h
elem_of-IsElem size (StateValue.array r) h = h

value_of_elem-IsValue :
    (size : ℕ) (e : StackElem) → IsElem size e → IsValue size (AppOps.value_of_elem e)
value_of_elem-IsValue size (uint64 z) h = h
value_of_elem-IsValue size (bytes r) h = h

truthy_valid :
    (size : ℕ) (o : Option StateValue)
    → OptionIs (IsValue size) o
    → OptionIs (IsValue size) (AppOps.truthy_value o)
unfolding AppOps.truthy_value
truthy_valid size none h = tt
truthy_valid size (some (StateValue.number (pos zero))) h = tt
truthy_valid size (some (StateValue.number (pos (suc n)))) h = h
truthy_valid size (some (StateValue.number (negsuc n))) h = h
truthy_valid size (some (StateValue.array r)) h = h

opted_in_fits : (o : Option AppLocalState) → IsUint64 (AppOps.opted_in o)
opted_in_fits none = omega arith
opted_in_fits (some app) = omega arith

value_of-valid :
    (size : ℕ) (key : String) (o : Option AppLocalState)
    → ((app : AppLocalState) → o ≡ some app → AllValues (IsValue size) app.key_value)
    → OptionIs (IsValue size) (value_of (λ app. app.key_value) key o)
value_of-valid size key none h = tt
value_of-valid size key (some app) h =
    found (IsValue size) _ (λ v e. AllValues-lookup (IsValue size) key app.key_value (h app refl) e)

get_local_state-valid :
    (size id : ℕ) (key : String) (a : AccountStore)
    → IsAccount size a
    → OptionIs (IsValue size) (get_local_state id key a)
unfolding get_local_state
get_local_state-valid size id key a h =
    value_of-valid size key (lookup id a.apps_local_state) (λ app e.
      AllValues-lookup (λ (p : AppLocalState). AllValues (IsValue size) p.key_value) id
        a.apps_local_state h.local_states_valid e)

local_value-valid :
    (size : ℕ) (id : ℤ) (key : String) (a : AccountStore)
    → IsAccount size a
    → OptionIs (IsValue size) (AppOps.local_value id key a)
local_value-valid size (pos id) key a h = get_local_state-valid size id key a h
local_value-valid size (negsuc id) key a h = tt

module _ {size : ℕ} where
  push_value_or_zero-Keeps :
      (o : Option StateValue) → OptionIs (IsValue size) o → Keeps size (AppOps.push_value_or_zero o)
  unfolding AppOps.push_value_or_zero
  push_value_or_zero-Keeps none h = Keeps-push_elem _ (zero_fits size)
  push_value_or_zero-Keeps (some v) h = Keeps-push_elem _ (elem_of-IsElem size v h)

  push_value_and_flag-Keeps :
      (o : Option StateValue)
      → OptionIs (IsValue size) o
      → Keeps size (AppOps.push_value_and_flag o)
  unfolding AppOps.push_value_and_flag
  push_value_and_flag-Keeps none h =
      Keeps-bind _ _ (Gives-push_elem _ (zero_fits size)) λ _ _. Keeps-push_elem _ (zero_fits size)
  push_value_and_flag-Keeps (some v) h =
      Keeps-bind _ _ (Gives-push_elem _ (elem_of-IsElem size v h))
        λ _ _. Keeps-push_elem _ (one_fits size)

  Gives-pop_key : Gives size AppOps.pop_key IsArray
  unfolding AppOps.pop_key
  Gives-pop_key = Gives-bind _ _ Gives-pop_bytes λ r _. Gives-read r

  pub app_global_get-Keeps : Keeps size AppOps.app_global_get
  unfolding AppOps.app_global_get
  app_global_get-Keeps = Keeps-bind _ _ (Gives-assert_min_stack_len _) λ _ _.
      Keeps-bind _ _ Gives-pop_key λ key _. Keeps-bind _ _ Gives-current_app_id λ id _.
        Keeps-bind _ _ (Gives-query_global_state id key)
          λ v h. push_value_or_zero-Keeps _ (truthy_valid size v h)

  foreign_app_id-Gives : (z : ℤ) (tx : TxnObject) → Gives size (AppOps.foreign_app_id z tx) Any
  unfolding AppOps.foreign_app_id
  foreign_app_id-Gives (pos zero) tx = Gives-require _ _ (λ a e. tt)
  foreign_app_id-Gives (pos (suc i)) tx = Gives-element_at _ _
  foreign_app_id-Gives (negsuc i) tx = Gives-throw _

  pub app_global_get_ex-Keeps : Keeps size AppOps.app_global_get_ex
  unfolding AppOps.app_global_get_ex
  app_global_get_ex-Keeps = Keeps-bind _ _ (Gives-assert_min_stack_len _) λ _ _.
      Keeps-bind _ _ Gives-pop_key λ key _. Keeps-bind _ _ Gives-pop_bigint λ i _.
        Keeps-bind _ _ Gives-current_tx λ tx _. Keeps-bind _ _ (foreign_app_id-Gives i tx) λ id _.
          Keeps-bind _ _ (Gives-query_global_state id key)
            λ v h. push_value_and_flag-Keeps _ (truthy_valid size v h)

  pub app_global_put-Keeps : Keeps size AppOps.app_global_put
  unfolding AppOps.app_global_put
  app_global_put-Keeps = Keeps-bind _ _ (Gives-assert_min_stack_len _) λ _ _.
      Keeps-bind _ _ Gives-pop_elem λ e v. Keeps-bind _ _ Gives-pop_key λ key _.
        Keeps-bind _ _ Gives-current_app_id
          λ id _. Keeps-on_ledger _ (write_global-Sound id _ _ (value_of_elem-IsValue size e v))

  pub app_global_del-Keeps : Keeps size AppOps.app_global_del
  unfolding AppOps.app_global_del
  app_global_del-Keeps = Keeps-bind _ _ (Gives-assert_min_stack_len _) λ _ _.
      Keeps-bind _ _ Gives-pop_key λ key _.
        Keeps-bind _ _ Gives-current_app_id λ id _. Keeps-on_ledger _ (delete_global-Sound id _)

  holding_field-Makes :
      (f : String) (h : AssetHolding)
      → IsUint64 h.amount
      → Makes size (Holdings.holding_field f h) IsElem
  unfolding Holdings.holding_field
  holding_field-Makes f h v =
      Makes-if (same f "AssetBalance") _ _ (Makes-pure (uint64 h.amount) v) (
        Makes-if (same f "AssetFrozen") _ _
          (Makes-pure (Holdings.bit_of h.is_frozen) (bit_of-IsElem size h.is_frozen))
          (Makes-throw Error.invalid_field_type))

  push_nothing-Keeps : Keeps size Holdings.push_nothing
  unfolding Holdings.push_nothing
  push_nothing-Keeps =
      Keeps-bind _ _ (Gives-push_elem _ (zero_fits size)) λ _ _. Keeps-push_elem _ (zero_fits size)

push_found-Keeps : (size : ℕ) (e : StackElem) → IsElem size e → Keeps size (Holdings.push_found e)
unfolding Holdings.push_found
push_found-Keeps size e v =
    Keeps-bind _ _ (Gives-push_elem e v) λ _ _. Keeps-push_elem _ (one_fits size)

push_holding-Keeps :
    (size : ℕ) (f : String) (o : Option AssetHolding)
    → OptionIs (λ h. IsUint64 h.amount) o
    → Keeps size (Holdings.push_holding f o)
unfolding Holdings.push_holding
push_holding-Keeps size f none h = push_nothing-Keeps
push_holding-Keeps size f (some info) h =
    Keeps-bind-Makes _ _ (holding_field-Makes f info h) λ k e v. push_found-Keeps k e v

holding_of-valid :
    (size : ℕ) (id : ℤ) (a : AccountStore)
    → IsAccount size a
    → OptionIs (λ h. IsUint64 h.amount) (Holdings.holding_of id a)
holding_of-valid size (pos id) a h =
    found (λ (p : AssetHolding). IsUint64 p.amount) _
      (λ p e.
        AllValues-lookup (λ (p : AssetHolding). IsUint64 p.amount) id a.assets h.holdings_valid e)
holding_of-valid size (negsuc id) a h = tt

module _ {size : ℕ} (lib : Library) where
  -- The account of an index on the stack, with what follows.
  pub with_account :
      {B : Type 0} (i : ℤ) (next : AccountStore → M B)
      → ((a : AccountStore) → IsAccount size a → Keeps size (next a))
      → Keeps size (query_address lib i >>= λ address. query_account address >>= next)
  with_account i next k =
      Keeps-bind _ _ (Gives-query_address lib i)
        λ address _. Keeps-bind _ _ (Gives-query_account address) k

  pub app_opted_in-Keeps : Keeps size (AppOps.app_opted_in lib)
  unfolding AppOps.app_opted_in
  app_opted_in-Keeps = Keeps-bind _ _ (Gives-assert_min_stack_len _) λ _ _.
      Keeps-bind _ _ Gives-pop_bigint λ id _.
        Keeps-bind _ _ Gives-pop_bigint
          λ i _. with_account i _ λ a h. Keeps-push_elem _ (opted_in_fits (AppOps.local_app id a))

  pub app_local_get-Keeps : Keeps size (AppOps.app_local_get lib)
  unfolding AppOps.app_local_get
  app_local_get-Keeps = Keeps-bind _ _ (Gives-assert_min_stack_len _) λ _ _.
      Keeps-bind _ _ Gives-pop_key λ key _. Keeps-bind _ _ Gives-pop_bigint λ i _.
        with_account i _ λ a h. Keeps-bind _ _ Gives-current_app_id λ id _.
          push_value_or_zero-Keeps _ (truthy_valid size _ (get_local_state-valid size id _ a h))

  pub app_local_get_ex-Keeps : Keeps size (AppOps.app_local_get_ex lib)
  unfolding AppOps.app_local_get_ex
  app_local_get_ex-Keeps = Keeps-bind _ _ (Gives-assert_min_stack_len _) λ _ _.
      Keeps-bind _ _ Gives-pop_key λ key _. Keeps-bind _ _ Gives-pop_bigint λ id _.
        Keeps-bind _ _ Gives-pop_bigint λ i _.
          with_account i _ λ a h.
            push_value_and_flag-Keeps _ (truthy_valid size _ (local_value-valid size id _ a h))

  pub app_local_put-Keeps : Keeps size (AppOps.app_local_put lib)
  unfolding AppOps.app_local_put
  app_local_put-Keeps = Keeps-bind _ _ (Gives-assert_min_stack_len _) λ _ _.
      Keeps-bind _ _ Gives-pop_elem λ e v. Keeps-bind _ _ Gives-pop_key λ key _.
        Keeps-bind _ _ Gives-pop_bigint λ i _.
          Keeps-bind _ _ (Gives-query_address lib i) λ address _.
            Keeps-bind _ _ (Gives-query_account address) λ _ _.
              Keeps-bind _ _ Gives-current_app_id λ id _. Keeps-on_ledger _ (
                on_account-Sound address _
                  (set_local_state-Sound id _ _ (value_of_elem-IsValue size e v)))

  pub app_local_del-Keeps : Keeps size (AppOps.app_local_del lib)
  unfolding AppOps.app_local_del
  app_local_del-Keeps = Keeps-bind _ _ (Gives-assert_min_stack_len _) λ _ _.
      Keeps-bind _ _ Gives-pop_key λ key _. Keeps-bind _ _ Gives-pop_bigint λ i _.
        Keeps-bind _ _ Gives-current_app_id λ id _.
          Keeps-bind _ _ (Gives-query_address lib i) λ address _.
            Keeps-on_ledger _ (on_account-Sound address _ (delete_local_key-Sound id _))

  pub balance-Keeps : Keeps size (Holdings.balance lib)
  unfolding Holdings.balance
  balance-Keeps = Keeps-bind _ _ (Gives-assert_min_stack_len _) λ _ _.
      Keeps-bind _ _ Gives-pop_bigint
        λ i _. with_account i _ λ a h. Keeps-push_elem _ h.amount_valid

  pub min_balance-Keeps : Keeps size (Holdings.min_balance lib)
  unfolding Holdings.min_balance
  min_balance-Keeps = Keeps-bind _ _ (Gives-assert_min_stack_len _) λ _ _.
      Keeps-bind _ _ Gives-pop_bigint
        λ i _. with_account i _ λ a h. Keeps-push_elem _ h.min_balance_valid

  pub get_asset_holding-Keeps : (f : String) → Keeps size (Holdings.get_asset_holding lib f)
  unfolding Holdings.get_asset_holding
  get_asset_holding-Keeps f = Keeps-bind _ _ (Gives-assert_min_stack_len _) λ _ _.
      Keeps-bind _ _ Gives-pop_bigint λ id _.
        Keeps-bind _ _ Gives-pop_bigint
          λ i _. with_account i _ λ a h. push_holding-Keeps size f _ (holding_of-valid size id a h)

module _ {size : ℕ} (lib : Library) (law : IsLawful lib) where
  text_elem_of-Makes : (o : Option String) → Makes size (Holdings.text_elem_of lib o) IsElem
  unfolding Holdings.text_elem_of Holdings.text_elem
  text_elem_of-Makes none = Makes-throw _
  text_elem_of-Makes (some t) =
      Makes-if _ _ _
        (Makes-bind _ _
          (Gives-require {Q = IsArray} _ _ (λ b e. IsBytes-IsArray b (law.address_is_bytes t b e)))
          λ b v. Makes-new_array b v)
        (Makes-new_array _ (law.buffer_is_bytes _ t))

  push_def-Keeps :
      (f : String) (o : Option AssetDef) → OptionIs IsDef o → Keeps size (Holdings.push_def lib f o)
  unfolding Holdings.push_def Holdings.def_field
  push_def-Keeps f none h = push_nothing-Keeps
  push_def-Keeps f (some d) h =
      Keeps-bind-Makes _ _
        (Makes-if (same f "AssetTotal") _ _ (Makes-pure (uint64 d.total) h.0) (
          Makes-if (same f "AssetDecimals") _ _ (Makes-pure (uint64 (pos d.decimals)) h.1) (
            Makes-if (same f "AssetDefaultFrozen") _ _
              (Makes-pure (Holdings.bit_of d.default_frozen) (bit_of-IsElem size d.default_frozen))
              (text_elem_of-Makes (Holdings.text_field f d)))))
        λ k e v. push_found-Keeps k e v

  pub get_asset_def-Keeps : (f : String) → Keeps size (Holdings.get_asset_def lib f)
  unfolding Holdings.get_asset_def
  get_asset_def-Keeps f = Keeps-bind _ _ (Gives-assert_min_stack_len _) λ _ _.
      Keeps-bind _ _ Gives-pop_bigint λ i _. Keeps-bind _ _ Gives-current_tx λ tx _.
        Keeps-bind _ _ (Gives-element_at _ i)
          λ id _. Keeps-bind _ _ (Gives-query_asset_def id) λ d h. push_def-Keeps f d h
