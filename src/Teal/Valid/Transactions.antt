-- ===== src/Teal/Valid/Transactions.antt =====
-- The opcodes that read transactions, globals and texts keep the state well-formed.
use Prim.Native.String.{String}
use algorand_builder.Base.{
  ℕ, zero, suc, ◌<◌, ◌^◌, ◌≡◌, refl, Bool, true, false, Option, none, some, arith,
}
use algorand_builder.Base.Int.{ℤ, pos, negsuc}
use algorand_builder.Base.Equality.{string_eq, nat_eq}
use algorand_builder.Ledger.Encoded.{Txn as TxnObject, TxValue, Fields, field_of, nested_field}
use algorand_builder.Teal.Library.{Library, IsLawful}
use algorand_builder.Teal.Checks.{check_index_bound, assert_uint8}
use algorand_builder.Teal.Fields.{Default, txn_type, field_key}
use algorand_builder.Teal.Query.{as_id, or_zero}
use algorand_builder.Teal.Txn
use algorand_builder.Teal.Valid.{AllValues, IsElem, IsTxValue, AreFields, IsTxn, IsRef}
use algorand_builder.Teal.Valid.Contexts.{AllValues-lookup}
use algorand_builder.Teal.Valid.Triples.{Gives, Keeps, Gives-pure, Gives-throw_if, Keeps-bind}
use algorand_builder.Teal.Valid.Rules.{Gives-bind, Gives-assert_min_stack_len, Gives-pop_bigint}
use algorand_builder.Teal.Valid.Scratch.{Gives-throw}
use algorand_builder.Teal.Valid.Ledger.{Any}
use algorand_builder.Teal.Valid.Makes.{
  Makes, Makes-throw, Makes-if, Makes-bind, Makes-new_array, Makes-pure, push_made,
}
use algorand_builder.Teal.Valid.Queries.{
  OptionIs, found, Gives-ctx, Gives-version, Gives-require, Gives-element, Gives-tx_at,
  Gives-current_tx,
}

pub field_valid : (s : String) (tx : TxnObject) → IsTxn tx → OptionIs IsTxValue (field_of s tx)
unfolding field_of
field_valid s tx h =
    found IsTxValue _ (λ v e. AllValues-lookup IsTxValue s tx.fields h.fields_valid e)

nested_valid :
    (s : String) (o : Option Fields) → AreFields o → OptionIs IsTxValue (nested_field s o)
unfolding nested_field
nested_valid s none h = tt
nested_valid s (some d) h = found IsTxValue _ (λ v e. AllValues-lookup IsTxValue s d h e)

at_key_valid :
    (key : Option String) (f : String → Option TxValue)
    → ((s : String) → OptionIs IsTxValue (f s))
    → OptionIs IsTxValue (Txn.value_at_key key f)
at_key_valid none f h = tt
at_key_valid (some s) f h = h s

count_valid : (o : Option TxValue) → OptionIs IsTxValue o → OptionIs IsTxValue (Txn.count_of o)
unfolding Txn.count_of
count_valid (some (TxValue.buffers l)) h = h.0
count_valid (some (TxValue.numbers l)) h = h.0
count_valid (some (TxValue.number z)) h = tt
count_valid (some (TxValue.buffer b)) h = tt
count_valid (some (TxValue.text s)) h = tt
count_valid (some (TxValue.flag b)) h = tt
count_valid none h = tt

pub id_fits : (o : Option TxValue) → OptionIs IsTxValue o → (n : ℕ) → as_id o ≡ some n → n < 2 ^ 64
id_fits (some (TxValue.number (pos k))) h n e = ground (arith, h)
id_fits (some (TxValue.number (negsuc k))) h n e = cc
id_fits (some (TxValue.buffers l)) h n e = cc
id_fits (some (TxValue.numbers l)) h n e = cc
id_fits (some (TxValue.buffer b)) h n e = cc
id_fits (some (TxValue.text s)) h n e = cc
id_fits (some (TxValue.flag b)) h n e = cc
id_fits none h n e = cc

or_zero_fits : (o : Option ℕ) → ((n : ℕ) → o ≡ some n → n < 2 ^ 64) → or_zero o < 2 ^ 64
or_zero_fits none h = omega arith
or_zero_fits (some n) h = h n refl

own_valid :
    (accounts applications : Bool) (tx : TxnObject)
    → IsTxn tx
    → OptionIs (OptionIs IsTxValue) (Txn.own_of accounts applications tx)
unfolding Txn.own_of
own_valid true b tx h = field_valid "snd" tx h
own_valid false true tx h =
    or_zero_fits (as_id (field_of "apid" tx)) (id_fits _ (field_valid "apid" tx h))
own_valid false false tx h = tt

module _ {size : ℕ} where
  default_elem-Makes : (d : Option Default) → Makes size (Txn.default_elem d) IsElem
  unfolding Txn.default_elem
  default_elem-Makes none = Makes-throw _
  default_elem-Makes (some Default.zero_uint64) = Makes-pure _ (omega arith)
  default_elem-Makes (some Default.zero_address) =
      Makes-bind _ _
        (Gives-ctx {Q = IsRef size} (λ c. c.zero_address) (λ c h. h.zero_address_valid))
        λ r h. Makes-pure _ h
  default_elem-Makes (some Default.zero_byte) =
      Makes-bind _ _ (Gives-ctx {Q = IsRef size} (λ c. c.zero_byte) (λ c h. h.zero_byte_valid))
        λ r h. Makes-pure _ h

  type_enum-Makes : (v : Option TxValue) → Makes size (Txn.type_enum v) IsElem
  unfolding Txn.type_enum
  type_enum-Makes (some (TxValue.text s)) =
      Makes-bind _ _
        (Gives-require {Q = λ n. n < 2 ^ 64} _ _
          (λ n e. AllValues-lookup (λ (k : ℕ). k < 2 ^ 64) s txn_type types_fit e))
        λ n h. Makes-pure _ h
    where
      types_fit : AllValues (λ (k : ℕ). k < 2 ^ 64) txn_type
      types_fit = omega arith
  type_enum-Makes (some (TxValue.buffer b)) = Makes-throw _
  type_enum-Makes (some (TxValue.number z)) = Makes-throw _
  type_enum-Makes (some (TxValue.flag b)) = Makes-throw _
  type_enum-Makes (some (TxValue.buffers l)) = Makes-throw _
  type_enum-Makes (some (TxValue.numbers l)) = Makes-throw _
  type_enum-Makes none = Makes-throw _

  to_index-Gives : (z : ℤ) → Gives size (Txn.to_index z) Any
  unfolding Txn.to_index
  to_index-Gives (pos i) = Gives-pure i tt
  to_index-Gives (negsuc i) = Gives-throw _

  pop_tx_index-Gives : Gives size Txn.pop_tx_index Any
  unfolding Txn.pop_tx_index assert_uint8
  pop_tx_index-Gives = Gives-bind _ _ (Gives-assert_min_stack_len _) λ _ _.
      Gives-bind _ _ Gives-pop_bigint
        λ z _. Gives-bind _ _ (Gives-throw_if _ _) λ _ _. to_index-Gives z

module _ {size : ℕ} (lib : Library) (law : IsLawful lib) where
  parse-Makes :
      (v : Option TxValue) (f : String)
      → OptionIs IsTxValue v
      → Makes size (Txn.parse_to_stack_elem lib v f) IsElem
  unfolding Txn.parse_to_stack_elem Txn.field_default
  parse-Makes (some (TxValue.buffer b)) f h = Makes-new_array b h
  parse-Makes (some (TxValue.number z)) f h = Makes-pure _ h
  parse-Makes (some (TxValue.text s)) f h = Makes-new_array _ (law.buffer_is_bytes _ s)
  parse-Makes (some (TxValue.flag b)) f h = default_elem-Makes _
  parse-Makes (some (TxValue.buffers l)) f h = default_elem-Makes _
  parse-Makes (some (TxValue.numbers l)) f h = default_elem-Makes _
  parse-Makes none f h = default_elem-Makes _

  tx_id-Makes : (v : Option TxValue) → Makes size (Txn.tx_id lib v) IsElem
  unfolding Txn.tx_id
  tx_id-Makes (some (TxValue.text s)) = Makes-new_array _ (law.buffer_is_bytes _ s)
  tx_id-Makes (some (TxValue.buffer b)) = Makes-throw _
  tx_id-Makes (some (TxValue.number z)) = Makes-throw _
  tx_id-Makes (some (TxValue.flag b)) = Makes-throw _
  tx_id-Makes (some (TxValue.buffers l)) = Makes-throw _
  tx_id-Makes (some (TxValue.numbers l)) = Makes-throw _
  tx_id-Makes none = Makes-throw _

  plain_field-Makes :
      (f : String) (tx : TxnObject) (v : ℕ) (o : Option String)
      → IsTxn tx
      → Makes size (Txn.plain_field lib f tx v o) IsElem
  unfolding Txn.plain_field
  plain_field-Makes f tx v none h =
      parse-Makes _ f (at_key_valid (field_key v f) _ (λ s. field_valid s tx h))
  plain_field-Makes f tx v (some array) h =
      parse-Makes _ f (count_valid _ (at_key_valid (field_key v array) _ (λ s. field_valid s tx h)))

  nested_elem-Makes :
      (f : String) (o : Option Fields) (v : ℕ)
      → AreFields o
      → Makes size (Txn.nested_elem lib f o v) IsElem
  unfolding Txn.nested_elem
  nested_elem-Makes f o v h =
      parse-Makes _ f (at_key_valid (field_key v f) _ (λ s. nested_valid s o h))

  spec-Makes :
      (f : String) (tx : TxnObject) (i v : ℕ)
      → IsTxn tx
      → i < 2 ^ 64
      → Makes size (Txn.txn_spec_by_field lib f tx i v) IsElem
  unfolding Txn.txn_spec_by_field Txn.switch_field
  spec-Makes f tx i v h fits = Makes-if _ _ _ (nested_elem-Makes f tx.apar v h.apar_valid) (
      Makes-if _ _ _ (nested_elem-Makes f tx.apgs v h.apgs_valid) (
        Makes-if _ _ _ (nested_elem-Makes f tx.apls v h.apls_valid) (
          Makes-if _ _ _ (Makes-throw _) (
            Makes-if _ _ _ (type_enum-Makes _) (
              Makes-if _ _ _ (tx_id-Makes _)
                (Makes-if _ _ _ (Makes-pure _ fits) (plain_field-Makes f tx v _ h)))))))

  array_element-Makes :
      (f : String) (v : TxValue) (i : ℕ)
      → IsTxValue v
      → Makes size (Txn.array_element lib f v i) IsElem
  unfolding Txn.array_element
  array_element-Makes f (TxValue.buffers l) i h =
      Makes-bind _ _ (Gives-element l i h.1) λ b q. parse-Makes (some (TxValue.buffer b)) f q
  array_element-Makes f (TxValue.numbers l) i h =
      Makes-bind _ _ (Gives-element l i h.1) λ n q. parse-Makes (some (TxValue.number (pos n))) f q
  array_element-Makes f (TxValue.buffer b) i h = Makes-throw _
  array_element-Makes f (TxValue.number z) i h = Makes-throw _
  array_element-Makes f (TxValue.text s) i h = Makes-throw _
  array_element-Makes f (TxValue.flag b) i h = Makes-throw _

  indexed-Makes :
      (f : String) (v : TxValue) (o : Option (Option TxValue)) (i : ℕ)
      → IsTxValue v
      → OptionIs (OptionIs IsTxValue) o
      → Makes size (Txn.indexed_element lib f v o i) IsElem
  unfolding Txn.indexed_element
  indexed-Makes f v none i h q = array_element-Makes f v i h
  indexed-Makes f v (some own) zero h q = parse-Makes own f q
  indexed-Makes f v (some own) (suc i) h q = array_element-Makes f v i h

  array_field-Makes :
      (f : String) (tx : TxnObject) (v : Option TxValue) (i : ℕ)
      → IsTxn tx
      → OptionIs IsTxValue v
      → Makes size (Txn.array_field lib f tx v i) IsElem
  unfolding Txn.array_field Txn.field_default
  array_field-Makes f tx none i h q = default_elem-Makes _
  array_field-Makes f tx (some v) i h q = indexed-Makes f v _ i q (own_valid _ _ tx h)

  app_arg-Makes :
      (f : String) (tx : TxnObject) (x v : ℕ)
      → IsTxn tx
      → Makes size (Txn.tx_app_arg lib f tx x v) IsElem
  unfolding Txn.tx_app_arg
  app_arg-Makes f tx x v h =
      array_field-Makes f tx _ x h (at_key_valid (field_key v f) _ (λ s. field_valid s tx h))

  field_elem-Makes :
      (f : String) (o : Option ℕ) (tx : TxnObject) (i v : ℕ)
      → IsTxn tx
      → i < 2 ^ 64
      → Makes size (Txn.field_elem lib f o tx i v) IsElem
  unfolding Txn.field_elem
  field_elem-Makes f none tx i v h fits = spec-Makes f tx i v h fits
  field_elem-Makes f (some x) tx i v h fits = app_arg-Makes f tx x v h

  pub txn-Keeps : (f : String) (o : Option ℕ) → Keeps size (Txn.txn lib f o)
  unfolding Txn.txn
  txn-Keeps f o = Keeps-bind _ _ Gives-current_tx λ tx h.
      Keeps-bind _ _ (Gives-ctx {Q = λ i. i < 2 ^ 64} (λ c. c.tx_index) (λ c v. v.tx_index_fits))
        λ i fits.
          Keeps-bind _ _ Gives-version λ v _. push_made _ (field_elem-Makes f o tx i v h fits)

  pub gtxn-Keeps : (i : ℕ) (f : String) (o : Option ℕ) → Keeps size (Txn.gtxn lib i f o)
  unfolding Txn.gtxn assert_uint8 check_index_bound
  gtxn-Keeps i f o = Keeps-bind _ _ (Gives-throw_if _ _) λ _ _.
      Keeps-bind _ _ (Gives-ctx {Q = Any} (λ c. c.gtxs) (λ c h. tt)) λ gtxs _.
        Keeps-bind _ _ (Gives-throw_if _ _) λ _ _. Keeps-bind _ _ (Gives-tx_at i) λ tx h.
          Keeps-bind _ _ Gives-version λ v _. push_made _ (field_elem-Makes f o tx i v h.0 h.1)

  pub txna-Keeps : (f : String) (x : ℕ) → Keeps size (Txn.txna lib f x)
  unfolding Txn.txna
  txna-Keeps f x =
      Keeps-bind _ _ Gives-current_tx
        λ tx h. Keeps-bind _ _ Gives-version λ v _. push_made _ (app_arg-Makes f tx x v h)

  pub gtxna-Keeps : (i : ℕ) (f : String) (x : ℕ) → Keeps size (Txn.gtxna lib i f x)
  unfolding Txn.gtxna assert_uint8 check_index_bound
  gtxna-Keeps i f x = Keeps-bind _ _ (Gives-throw_if _ _) λ _ _.
      Keeps-bind _ _ (Gives-ctx {Q = Any} (λ c. c.gtxs) (λ c h. tt)) λ gtxs _.
        Keeps-bind _ _ (Gives-throw_if _ _) λ _ _.
          Keeps-bind _ _ (Gives-tx_at i)
            λ tx h. Keeps-bind _ _ Gives-version λ v _. push_made _ (app_arg-Makes f tx x v h.0)

  pub gtxns-Keeps : (f : String) (o : Option ℕ) → Keeps size (Txn.gtxns lib f o)
  unfolding Txn.gtxns
  gtxns-Keeps f o = Keeps-bind _ _ pop_tx_index-Gives λ i _. gtxn-Keeps i f o

  pub gtxnsa-Keeps : (f : String) (x : ℕ) → Keeps size (Txn.gtxnsa lib f x)
  unfolding Txn.gtxnsa
  gtxnsa-Keeps f x = Keeps-bind _ _ pop_tx_index-Gives λ i _. gtxna-Keeps i f x
