-- ===== src/Teal/Valid/Contexts.antt =====
-- A context that is well-formed in a heap is so in a larger one, and the dictionaries of accounts keep
-- what holds of all their values.
use algorand_builder.Base.{ℕ, ◌≤◌, ◌≡◌, some, [], ◌∷◌, All-map, arith, Bool-cases, inl, inr}
use algorand_builder.Base.Equality.{Eq, same}
use algorand_builder.Ledger.Dict.{Dict, lookup, insert, erase}
use algorand_builder.Ledger.Data.{StateValue, AccountStore, KeyValue}
use algorand_builder.Teal.Machine.{Context}
use algorand_builder.Teal.Valid.{AllValues, IsValue, IsAccount, IsContext}

module _ {K V : Type 0} ⦃e : Eq K⦄ (P : V → Type 0) where
  pub AllValues-lookup : (k : K) (d : Dict K V) {v : V} → AllValues P d → lookup k d ≡ some v → P v
  unfolding lookup
  AllValues-lookup k [] h p = cc
  AllValues-lookup k ((j, w) ∷ d) h p = elim (Bool-cases (same k j)) [
    | inl q ↦ ground (arith, h.0)
    | inr q ↦ AllValues-lookup k d h.1 (rw (lookup, q) at p)
  ]

  pub AllValues-insert :
      (k : K) (v : V) (d : Dict K V) → P v → AllValues P d → AllValues P (insert k v d)
  unfolding insert
  AllValues-insert k v [] p h = (p, tt)
  AllValues-insert k v ((j, w) ∷ d) p h = elim (Bool-cases (same k j)) [
    | inl q ↦ rw q (p, h.1)
    | inr q ↦ rw q (h.0, AllValues-insert k v d p h.1)
  ]

  pub AllValues-erase : (k : K) (d : Dict K V) → AllValues P d → AllValues P (erase k d)
  unfolding erase
  AllValues-erase k [] h = tt
  AllValues-erase k ((j, w) ∷ d) h = elim (Bool-cases (same k j)) [
    | inl q ↦ rw q h.1
    | inr q ↦ rw q (h.0, AllValues-erase k d h.1)
  ]

IsValue-le : (size k : ℕ) → size ≤ k → (v : StateValue) → IsValue size v → IsValue k v
IsValue-le size k le (StateValue.number z) h = h
IsValue-le size k le (StateValue.array r) h = omega arith

key_value-le :
    (size k : ℕ) → size ≤ k → (d : KeyValue) → AllValues (IsValue size) d → AllValues (IsValue k) d
key_value-le size k le d h = All-map _ _ (λ kv. IsValue-le size k le kv.1) d h

IsAccount-le : (size k : ℕ) → size ≤ k → (a : AccountStore) → IsAccount size a → IsAccount k a
IsAccount-le size k le a h = record {
  amount_valid = h.amount_valid;
  min_balance_valid = h.min_balance_valid;
  holdings_valid = h.holdings_valid;
  local_states_valid =
      All-map _ _ (λ app. key_value-le size k le app.1.key_value) a.apps_local_state
        h.local_states_valid;
  global_states_valid =
      All-map _ _ (λ app. key_value-le size k le app.1.global_state) a.created_apps
        h.global_states_valid;
  defs_valid = h.defs_valid;
}

pub IsContext-le : (size k : ℕ) → size ≤ k → (c : Context) → IsContext size c → IsContext k c
IsContext-le size k le c h = record {
  ledger_valid = All-map _ _ (λ a. IsAccount-le size k le a.1) c.state.accounts h.ledger_valid;
  gtxs_valid = h.gtxs_valid;
  gtxs_fit = h.gtxs_fit;
  tx_index_fits = h.tx_index_fits;
  round_fits = h.round_fits;
  timestamp_fits = h.timestamp_fits;
  zero_address_valid = omega (arith, h.zero_address_valid);
  zero_byte_valid = omega (arith, h.zero_byte_valid);
}
