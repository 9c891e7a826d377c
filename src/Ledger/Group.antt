-- ===== src/Ledger/Group.antt =====
-- packages/runtime/src/runtime.ts, `executeTx`: what a group of transactions leaves.
use algorand_builder.Base.{
  ◌↔◌, some, ℕ, suc, All, ◌≤◌, ◌<◌, ltb, length, ◌+◌, ◌≡◌, refl, ap, ◌∙◌, false, List, [], ◌∷◌,
  arith, Bool-cases, inl, inr,
}
use algorand_builder.Base.Int.{ℤ, pos, ◌+ℤ◌, pos_part, neg_part, +ℤ_parts, eq_of_parts}
use algorand_builder.Base.Equality.{same, string_eq, nat_eq}
use algorand_builder.Ledger.Data.{State, TxError}
use algorand_builder.Ledger.Monad.{Outcome, Act, done, thrown, bind, ◌>>=◌}
use algorand_builder.Ledger.Context.Transfers.{total_algos, add_zero, deduct_fee-total}
use algorand_builder.Ledger.Programs.{Host}
use algorand_builder.Ledger.Tx.{TxParam}
use algorand_builder.Ledger.Transactions.{process_one, process_transactions, outside_rounds}
use algorand_builder.Run.Runtime.{Runtime, store_of, committed, execute_tx}
use algorand_builder.Ledger.Conservation.{Keeps, Keeps-if, Keeps-pure}
use algorand_builder.Ledger.Conservation.Dispatch.{KeepsAlgos, dispatch-Keeps, lsig-Keeps}

-- The fees of a group.
unfoldable pub fees : List TxParam → ℕ
fees [] = 0
fees (tx ∷ txs) = tx.fee + fees txs

-- The remainder of the sender's account does not go to the sender itself.
abbrev pub ClosesElsewhere : TxParam → Type 0
ClosesElsewhere tx = same tx.from tx.close_remainder_to ≡ false

-- Where `act` returns, the Algos of all accounts are fewer by `x`.
record Pays {A : Type 0} (x : ℕ) (act : Act State A) : Type 0 where
  at :
      (s : State) (a : A) (s' : State) → act s ≡ done a s' → total_algos s' +ℤ pos x ≡ total_algos s

Pays-Keeps : {A : Type 0} (act : Act State A) → Keeps act → Pays 0 act
Pays-Keeps act k = record { at = λ s a s' e. add_zero (total_algos s') ∙ k.at s a s' e }

pay_twice : (t u w : ℤ) (x y : ℕ) → u +ℤ pos x ≡ t → w +ℤ pos y ≡ u → w +ℤ pos (x + y) ≡ t
pay_twice t u w x y p q = eq_of_parts _ _ (
    omega (
      arith,
      ap pos_part p,
      ap neg_part p,
      ap pos_part q,
      ap neg_part q,
      +ℤ_parts u (pos x),
      +ℤ_parts w (pos y),
      +ℤ_parts w (pos (x + y)),
    ))

Pays-bind :
    {A B : Type 0} (x y : ℕ) (act : Act State A) (next : A → Act State B)
    → Pays x act
    → ((a : A) → Pays y (next a))
    → Pays (x + y) (act >>= next)
unfolding ◌>>=◌
Pays-bind {A} {B} x y act next h k = record {
  at = λ s b s' e. go s (act s) b s' (λ a t. h.at s a t) e;
}
  where
    go :
        (s : State) (o : Outcome State A) (b : B) (s' : State)
        → ((a : A) (t : State) → o ≡ done a t → total_algos t +ℤ pos x ≡ total_algos s)
        → bind o next ≡ done b s'
        → total_algos s' +ℤ pos (x + y) ≡ total_algos s
    go s (done a t) b s' f e =
        pay_twice (total_algos s) (total_algos t) (total_algos s') x y (f a t refl)
          ((k a).at t b s' e)
    go s (thrown err t) b s' f e = cc

module _ (host : Host) (law : KeepsAlgos host) where
  process_one-Pays :
      (tx : TxParam) → ClosesElsewhere tx → Pays (tx.fee + (0 + 0)) (process_one host tx)
  unfolding process_one
  process_one-Pays tx ne =
      Pays-bind tx.fee (0 + 0) _ _
        (record { at = λ s u s' e. deduct_fee-total tx.from tx.fee s s' e })
        λ _.
          Pays-bind 0 0 _ _
            (Pays-Keeps _
              (Keeps-if tx.by_logic_signature _ _ (lsig-Keeps host law tx.from) (Keeps-pure tt)))
            λ _. Pays-Keeps _ (dispatch-Keeps host law tx.from tx.close_remainder_to tx.kind ne)

process_transactions-Pays :
    (hosts : ℕ → Host) (laws : (idx : ℕ) → KeepsAlgos (hosts idx)) (idx : ℕ) (txs : List TxParam)
    → All ClosesElsewhere txs
    → Pays (fees txs) (process_transactions hosts idx txs)
unfolding process_transactions fees
process_transactions-Pays hosts laws idx [] h = Pays-Keeps _ (Keeps-pure tt)
process_transactions-Pays hosts laws idx (tx ∷ txs) h =
    let e : tx.fee + (0 + 0) ≡ tx.fee = omega arith in
    Pays-bind tx.fee (fees txs) _ _ (rw e at (process_one-Pays (hosts idx) (laws idx) tx h.0))
      λ _. process_transactions-Pays hosts laws (suc idx) txs h.1

committed_done :
    (r r' : Runtime) (o : Outcome State (Unit {0}))
    → committed r o ≡ done tt r'
    → o ≡ done tt (store_of r')
unfolding store_of
committed_done r r' (done u s) e = ground arith
committed_done r r' (thrown err s) e = cc

execute_tx-runs :
    (hosts : ℕ → Host) (txs : List TxParam) (r r' : Runtime)
    → execute_tx hosts txs r ≡ done tt r'
    → (process_transactions hosts 0 txs (store_of r) ≡ done tt (store_of r'))
      × (length txs ≤ 16)
      × (outside_rounds r.round txs ≡ false)
unfolding execute_tx ◌>>=◌
execute_tx-runs hosts txs r r' e = elim (Bool-cases (ltb 16 (length txs))) [
  | inl p ↦ absurd (ground arith)
  | inr p ↦ elim (Bool-cases (outside_rounds r.round txs)) [
    | inl q ↦ absurd (ground arith)
    | inr q ↦ (
      committed_done r r' (process_transactions hosts 0 txs (store_of r)) (rw (p, q) at e),
      ground arith,
      q,
    )
  ]
]

-- The same outcomes that return.
abbrev Agree : Outcome Runtime (Unit {0}) → Outcome Runtime (Unit {0}) → Runtime → Type 0
Agree o o' q = (o ≡ done tt q) ↔ (o' ≡ done tt q)

-- What a group leaves that throws, and what the next group makes of it.
abbrev Harmless : (ℕ → Host) → List TxParam → Runtime → Runtime → Runtime → Type 0
Harmless hosts txs r r' q =
    (store_of r' ≡ store_of r)
    × (r'.round ≡ r.round)
    × (r'.timestamp ≡ r.timestamp)
    × Agree (execute_tx hosts txs r') (execute_tx hosts txs r) q

committed-Agree :
    (r q : Runtime) (s : State) (o : Outcome State (Unit {0}))
    → Agree
        (committed (record r { ctx_state = s; own_store = some (store_of r) }) o)
        (committed r o)
        q
committed-Agree r q s (done u t) = (λ e. e, λ e. e)
committed-Agree r q s (thrown err t) = (λ e. cc, λ e. cc)

left-Harmless :
    (hosts : ℕ → Host) (txs : List TxParam) (r q : Runtime) (s : State)
    → Harmless hosts txs r (record r { ctx_state = s; own_store = some (store_of r) }) q
unfolding execute_tx ◌>>=◌ store_of
left-Harmless hosts txs r q s = (refl, refl, refl, agree)
  where
    agree :
        Agree
          (execute_tx hosts txs (record r { ctx_state = s; own_store = some (store_of r) }))
          (execute_tx hosts txs r)
          q
    agree = elim (Bool-cases (ltb 16 (length txs))) [
      | inl p ↦ rw p (λ e. cc, λ e. cc)
      | inr p ↦ elim (Bool-cases (outside_rounds r.round txs)) [
        | inl w ↦ rw (p, w) (λ e. cc, λ e. cc)
        | inr w ↦ rw (p, w) (committed-Agree r q s (process_transactions hosts 0 txs (store_of r)))
      ]
    ]

committed-Harmless :
    (hosts : ℕ → Host) (txs : List TxParam) (r r' q : Runtime) (err : TxError)
    (o : Outcome State (Unit {0}))
    → committed r o ≡ thrown err r'
    → Harmless hosts txs r r' q
committed-Harmless hosts txs r r' q err (done u s) e = cc
committed-Harmless hosts txs r r' q err (thrown err' s) e =
    let left : r' ≡ record r { ctx_state = s; own_store = some (store_of r) } = ground arith in
    rw left (left-Harmless hosts txs r q s)

-- A group of transactions that throws, at any of its transactions, leaves the store, the round and
-- the time as they were; and any group that is executed next succeeds if and only if it would have
-- succeeded without the first, with the same runtime.
pub execute_tx-atomic :
    (hosts hosts' : ℕ → Host) (txs txs' : List TxParam) (r r' q : Runtime) (err : TxError)
    → execute_tx hosts txs r ≡ thrown err r'
    → (store_of r' ≡ store_of r)
      × (r'.round ≡ r.round)
      × (r'.timestamp ≡ r.timestamp)
      × ((execute_tx hosts' txs' r' ≡ done tt q) ↔ (execute_tx hosts' txs' r ≡ done tt q))
unfolding execute_tx ◌>>=◌
execute_tx-atomic hosts hosts' txs txs' r r' q err e = elim (Bool-cases (ltb 16 (length txs))) [
  | inl p ↦ kept (ground arith)
  | inr p ↦ elim (Bool-cases (outside_rounds r.round txs)) [
    | inl w ↦ kept (ground arith)
    | inr w ↦
        committed-Harmless hosts' txs' r r' q err (process_transactions hosts 0 txs (store_of r))
          (rw (p, w) at e)
  ]
]
  where
    kept : r' ≡ r → Harmless hosts' txs' r r' q
    kept same_r = rw same_r (refl, refl, refl, (λ e. e, λ e. e))

-- A group of transactions that succeeds, and closes no account to its own address, lowers the
-- sum of all accounts' Algos by exactly the fees, if the programs that it runs and the checks
-- of logic signatures keep that sum, returning or throwing.
pub execute_tx-conserves :
    (hosts : ℕ → Host) (txs : List TxParam) (r r' : Runtime)
    → ((idx : ℕ) → KeepsAlgos (hosts idx))
    → All ClosesElsewhere txs
    → execute_tx hosts txs r ≡ done tt r'
    → total_algos (store_of r') +ℤ pos (fees txs) ≡ total_algos (store_of r)
execute_tx-conserves hosts txs r r' law h e =
    let (f, few, q) = execute_tx-runs hosts txs r r' e in
    (process_transactions-Pays hosts law 0 txs h).at (store_of r) tt (store_of r') f

abbrev pub InRounds : ℕ → TxParam → Type 0
InRounds round tx = (tx.first_valid < round) × (round < tx.last_valid)

outside_rounds-InRounds :
    (round : ℕ) (txs : List TxParam) → outside_rounds round txs ≡ false → All (InRounds round) txs
unfolding outside_rounds
outside_rounds-InRounds round [] e = tt
outside_rounds-InRounds round (tx ∷ txs) e =
    (ground arith, outside_rounds-InRounds round txs (ground arith))

-- A group that succeeds has at most 16 transactions, and the current round lies strictly
-- between the first and the last round of each.
pub execute_tx-InRounds :
    (hosts : ℕ → Host) (txs : List TxParam) (r r' : Runtime)
    → execute_tx hosts txs r ≡ done tt r'
    → (length txs ≤ 16) × All (InRounds r.round) txs
execute_tx-InRounds hosts txs r r' e =
    let (f, few, q) = execute_tx-runs hosts txs r r' e in
    (few, outside_rounds-InRounds r.round txs q)
