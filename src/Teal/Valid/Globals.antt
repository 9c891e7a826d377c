-- ===== src/Teal/Valid/Globals.antt =====
-- The opcodes that read globals, texts and addresses keep the state well-formed.
use Prim.Native.String.{String}
use algorand_builder.Base.{
  inl, inr, Bool-cases, ◌==◌, ℕ, ◌<◌, ◌^◌, Option, none, some, List, length, arith,
}
use algorand_builder.Base.Equality.{string_eq}
use algorand_builder.Teal.Op.{Encoding}
use algorand_builder.Teal.Library.{Library, IsLawful, IsBytesOf}
use algorand_builder.Teal.Global
use algorand_builder.Teal.Valid.{AllValues, IsArray, IsElem, IsRef}
use algorand_builder.Teal.Valid.Contexts.{AllValues-lookup}
use algorand_builder.Teal.Valid.Triples.{Gives, Keeps, Gives-pure, Keeps-bind}
use algorand_builder.Teal.Valid.Rules.{Gives-bind}
use algorand_builder.Teal.Valid.Ledger.{Any}
use algorand_builder.Teal.Valid.Makes.{
  Makes, Makes-throw, Makes-if, Makes-bind, Makes-new_array, Makes-pure, push_made,
}
use algorand_builder.Teal.Valid.Queries.{
  OptionIs, found, Gives-ctx, Gives-version, Gives-require, Gives-current_tx, Gives-query_app,
}
use algorand_builder.Teal.Valid.Transactions.{field_valid, id_fits}

-- The constants of the tables are small.
Small : Global.GlobalValue → Type 0
Small (Global.GlobalValue.number n) = n < 2 ^ 64
Small Global.GlobalValue.zero_address = Unit
Small Global.GlobalValue.missing = Unit

AllValues-global_fields : (v : ℕ) → AllValues Small (Global.global_fields v)
unfolding Global.global_fields Small
AllValues-global_fields v = elim (Bool-cases (v == 1)) [
  | inl p ↦ rw p (omega arith)
  | inr p ↦ elim (Bool-cases (v == 2)) [
    | inl q ↦ rw (p, q) (omega arith)
    | inr q ↦ elim (Bool-cases (v == 3)) [
      | inl r ↦ rw (p, q, r) (omega arith)
      | inr r ↦ rw (p, q, r) tt
    ]
  ]
]

pub IsBytes-IsArray : (b : List ℕ) → IsBytesOf 32 b → IsArray b
IsBytes-IsArray b h = (omega (arith, h.0), h.1)

module _ {size : ℕ} where
  global_elem-Makes :
      (v : Option Global.GlobalValue) → OptionIs Small v → Makes size (Global.global_elem v) IsElem
  unfolding Global.global_elem Small
  global_elem-Makes (some (Global.GlobalValue.number n)) h = Makes-pure _ h
  global_elem-Makes (some Global.GlobalValue.zero_address) h =
      Makes-bind _ _
        (Gives-ctx {Q = IsRef size} (λ c. c.zero_address) (λ c v. v.zero_address_valid))
        λ r v. Makes-pure _ v
  global_elem-Makes (some Global.GlobalValue.missing) h = Makes-throw _
  global_elem-Makes none h = Makes-throw _

  existing-Gives : Gives size Global.existing_app_id (λ id. id < 2 ^ 64)
  unfolding Global.existing_app_id
  existing-Gives = Gives-bind _ _ Gives-current_tx λ tx h.
      Gives-bind _ _
        (Gives-require {Q = λ id. id < 2 ^ 64} _ _ (id_fits _ (field_valid "apid" tx h)))
        λ id fits. Gives-bind _ _ (Gives-query_app id) λ _ _. Gives-pure id fits

module _ {size : ℕ} (lib : Library) (law : IsLawful lib) where
  creator-Makes : Makes size (Global.creator_elem lib) IsElem
  unfolding Global.creator_elem
  creator-Makes = Makes-bind _ _ Gives-current_tx λ tx h.
      Makes-bind _ _ (Gives-require {Q = Any} _ _ (λ id e. tt)) λ id _.
        Makes-bind _ _ (Gives-query_app id) λ app _.
          Makes-bind _ _
            (Gives-require {Q = IsArray} _ _
              (λ b e. IsBytes-IsArray b (law.address_is_bytes app.creator b e)))
            λ b v. Makes-new_array b v

  pub global-Keeps : (f : String) → Keeps size (Global.global lib f)
  unfolding Global.global Global.switch_global
  global-Keeps f = Keeps-bind _ _ Gives-version λ v _. push_made _ (
      Makes-if _ _ _
        (Makes-bind _ _ (Gives-ctx {Q = λ l. length l < 2 ^ 64} (λ c. c.gtxs) (λ c h. h.gtxs_fit))
          λ l h. Makes-pure _ h)
        (Makes-if _ _ _ (Makes-bind _ _ existing-Gives λ id fits. Makes-pure _ fits) (
          Makes-if _ _ _
            (Makes-bind _ _ (Gives-ctx {Q = λ r. r < 2 ^ 64} (λ c. c.round) (λ c h. h.round_fits))
              λ r h. Makes-pure _ h)
            (Makes-if _ _ _
              (Makes-bind _ _
                (Gives-ctx {Q = λ t. t < 2 ^ 64} (λ c. c.timestamp) (λ c h. h.timestamp_fits))
                λ t h. Makes-pure _ h)
              (Makes-if _ _ _ creator-Makes (
                global_elem-Makes _ (
                  found Small _ (λ g e.
                    AllValues-lookup Small f (Global.global_fields v) (AllValues-global_fields v)
                      e))))))))

  pub byte-Keeps : (s : String) (e : Encoding) → Keeps size (Global.byte lib s e)
  unfolding Global.byte
  byte-Keeps s e = push_made _ (Makes-new_array _ (law.buffer_is_bytes e s))

  pub addr-Keeps : (s : String) → Keeps size (Global.addr lib s)
  unfolding Global.addr
  addr-Keeps s =
      Keeps-bind _ _
        (Gives-require {Q = IsArray} _ _ (λ b e. IsBytes-IsArray b (law.address_is_bytes s b e)))
        λ b v. push_made _ (Makes-new_array b v)
