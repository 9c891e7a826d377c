-- ===== src/Run/Runtime/Commit.antt =====
-- packages/runtime/src/runtime.ts: when the runtime's store changes.
use algorand_builder.Base.{ℕ, List, ◌≡◌, ◌≤◌, length, ltb, false, some, arith}
use algorand_builder.Ledger.Data.{State, TxError, Address}
use algorand_builder.Ledger.Monad.{Outcome, done, thrown, ◌>>=◌}
use algorand_builder.Ledger.Tx.{TxParam}
use algorand_builder.Ledger.Context as Ctx
use algorand_builder.Ledger.Programs.{Host}
use algorand_builder.Ledger.Transactions.{process_transactions, outside_rounds}
use algorand_builder.Run.Runtime.{
  Runtime, store_of, on_ctx, assigned, committed, execute_tx, opt_into_asa,
}

-- The group throws at one of its transactions, on a state that was left there.
process-thrown :
    (hosts : ℕ → Host) (txs : List TxParam) (r r' : Runtime) (e : TxError)
    → length txs ≤ 16
    → outside_rounds r.round txs ≡ false
    → execute_tx hosts txs r ≡ thrown e r'
    → (s : State) × (process_transactions hosts 0 txs (store_of r) ≡ thrown e s)
      × (r' ≡ record r { ctx_state = s; own_store = some (store_of r) })
unfolding execute_tx ◌>>=◌
process-thrown hosts txs r r' e few rounds p =
    let q : ltb 16 (length txs) ≡ false = ground arith in
    go (process_transactions hosts 0 txs (store_of r)) (rw (q, rounds) at p)
  where
    go :
        (o : Outcome State (Unit {0}))
        → committed r o ≡ thrown e r'
        → (s : State) × (o ≡ thrown e s)
          × (r' ≡ record r { ctx_state = s; own_store = some (store_of r) })
    go (done u s) f = cc
    go (thrown err s) f = (s, ground arith, ground arith)

on_ctx-done :
    {A : Type 0} (r r'' : Runtime) (a : A) (o : Outcome State A)
    → assigned r o ≡ done a r''
    → o ≡ done a (store_of r'')
unfolding store_of
on_ctx-done r r'' a (done b s) p = ground arith
on_ctx-done r r'' a (thrown err s) p = cc

-- A group that throws at one of its transactions leaves what it did up to there in the context,
-- and the next opt-in to an asset that succeeds makes that the store: the effects of the failed
-- group are committed.
pub failed_group-leaks :
    (hosts : ℕ → Host) (txs : List TxParam) (r r' r'' : Runtime) (e : TxError) (asset_id : ℕ)
    (address : Address)
    → length txs ≤ 16
    → outside_rounds r.round txs ≡ false
    → execute_tx hosts txs r ≡ thrown e r'
    → opt_into_asa asset_id address r' ≡ done tt r''
    → (s : State) × (process_transactions hosts 0 txs (store_of r) ≡ thrown e s)
      × (Ctx.opt_into_asa asset_id address s ≡ done tt (store_of r''))
unfolding opt_into_asa on_ctx
failed_group-leaks hosts txs r r' r'' e asset_id address few rounds p q =
    let (s, f, g) = process-thrown hosts txs r r' e few rounds p in
    (
      s,
      f,
      on_ctx-done (record r { ctx_state = s; own_store = some (store_of r) }) r'' tt
          (Ctx.opt_into_asa asset_id address s) (rw g at q),
    )
