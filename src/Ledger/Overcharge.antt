-- ===== src/Ledger/Overcharge.antt =====
-- packages/runtime/src/ctx.ts, `destroyAsset`: what the removal of an asset from all accounts does to
-- the other holders.
use algorand_builder.Base.{
  ℕ, suc, ◌+◌, ◌≡◌, refl, some, [], ◌∷◌, length, arith, Bool-cases, inl, inr,
}
use algorand_builder.Base.Int.{pos}
use algorand_builder.Base.Equality.{nat_eq, string_eq, same}
use algorand_builder.Ledger.Dict.{Dict, lookup, erase, length-erase}
use algorand_builder.Ledger.Data.{AssetHolding, AccountStore, Address}
use algorand_builder.Ledger.Account.Charged.{charge, IsCharged}
use algorand_builder.Ledger.Programs.{delete_holdings}

lookup-delete_holdings :
    (id : ℕ) (address : Address) (a : AccountStore) (d : Dict Address AccountStore)
    → lookup address d ≡ some a
    → lookup address (delete_holdings id d) ≡ some (record a { assets = erase id a.assets })
unfolding lookup delete_holdings
lookup-delete_holdings id address a [] p = cc
lookup-delete_holdings id address a ((other, b) ∷ d) p = elim (Bool-cases (same address other)) [
  | inl q ↦ let e : b ≡ a = ground arith in rw (q, e) refl
  | inr q ↦ rw q (lookup-delete_holdings id address a d (rw q at p))
]

-- When an asset is destroyed, an account that still holds it, and whose minimum balance is what
-- it holds costs, loses the holding and keeps the minimum balance, which is then one asset fee
-- above what it holds costs.
pub delete_holdings-overcharges :
    (id : ℕ) (address : Address) (a : AccountStore) (h : AssetHolding)
    (d : Dict Address AccountStore)
    → lookup address d ≡ some a
    → IsCharged a
    → lookup id a.assets ≡ some h
    → (b : AccountStore) × (lookup address (delete_holdings id d) ≡ some b)
      × (suc (length b.assets) ≡ length a.assets)
      × (b.min_balance ≡ pos (charge b + 100000))
unfolding charge
delete_holdings-overcharges id address a h d p charged held = (
  record a { assets = erase id a.assets },
  lookup-delete_holdings id address a d p,
  length-erase id h a.assets held,
  ground (arith, charged, length-erase id h a.assets held),
)
