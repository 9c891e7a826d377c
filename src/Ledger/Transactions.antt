-- ===== src/Ledger/Transactions.antt =====
-- packages/runtime/src/ctx.ts, `processTransactions`, and packages/runtime/src/runtime.ts,
-- `validateTxRound`.
use algorand_builder.Base.{ℕ, suc, Bool, false, not, ◌||◌, List, [], ◌∷◌, leb, if◌then◌else◌}
use algorand_builder.Base.Equality.{same, nat_eq, string_eq}
use algorand_builder.Ledger.Data.{State, TxError, Address}
use algorand_builder.Ledger.Monad.{Act, done, thrown, pure, throw_if, ◌>>=◌, ◌>>◌}
use algorand_builder.Ledger.Tx.{TxKind, TxParam}
use algorand_builder.Ledger.Context.{
  get_account, get_asset_def, get_app, opt_into_asa, transfer_algo, transfer_asset, revoke_asset,
  deduct_fee,
}
use algorand_builder.Ledger.Programs.{
  Host, modify_asset, freeze_asset, destroy_ctx_asset, delete_ctx_app, close_ctx_app, add_ctx_asset,
  add_ctx_app, opt_in_ctx_app, update_app,
}

-- `try { … } catch (error) { }`: what was written before the exception stays.
abbrev pub attempt : Act State (Unit {0}) → Act State (Unit {0})
attempt act s = elim (act s) [ done _ t ↦ done tt t | thrown _ t ↦ done tt t ]

-- The sender must be the address that the asset names for the task.
abbrev pub authorized : Address → Address → TxError → Act State (Unit {0})
authorized named from error = throw_if (not (same named from)) error

module _ (host : Host) where
  -- The `switch` of `processTransactions`.
  unfoldable pub dispatch : Address → Address → TxKind → Act State (Unit {0})
  dispatch from close (TxKind.transfer_algo to amount) = transfer_algo from to amount close
  dispatch from close (TxKind.transfer_asset id to amount) = transfer_asset id from to amount close
  dispatch from close (TxKind.call_no_op_ssc id) = do
    app ← get_app id
    host.run app.approval_program
  dispatch from close (TxKind.close_ssc id) = do
    app ← get_app id
    host.run app.approval_program
    close_ctx_app from id
  dispatch from close (TxKind.update_ssc id approval clear) = update_app host id approval clear
  dispatch from close (TxKind.clear_ssc id) = do
    app ← get_app id
    attempt (host.run app.clear_state_program)
    close_ctx_app from id
  dispatch from close (TxKind.delete_ssc id) = do
    app ← get_app id
    host.run app.approval_program
    delete_ctx_app id
  dispatch from close (TxKind.modify_asset id fields) = do
    asset ← get_asset_def id
    authorized asset.manager from TxError.manager_error
    modify_asset id fields
  dispatch from close (TxKind.freeze_asset id target state) = do
    asset ← get_asset_def id
    authorized asset.freeze from TxError.freeze_error
    freeze_asset id target state
  dispatch from close (TxKind.revoke_asset recipient id target amount) = do
    asset ← get_asset_def id
    authorized asset.clawback from TxError.clawback_error
    throw_if (not (same close "")) TxError.cannot_close_asset_by_clawback
    revoke_asset recipient id target amount
  dispatch from close (TxKind.destroy_asset id) = do
    asset ← get_asset_def id
    authorized asset.manager from TxError.manager_error
    destroy_ctx_asset id
  dispatch from close (TxKind.deploy_asa name) = do
    _ ← get_account from
    _ ← add_ctx_asset host name from
    pure tt
  dispatch from close (TxKind.opt_in_asa id) = opt_into_asa id from
  dispatch from close (TxKind.deploy_ssc flags approval clear) = do
    _ ← get_account from
    _ ← add_ctx_app host from flags approval approval
    pure tt
  dispatch from close (TxKind.opt_in_ssc id) = opt_in_ctx_app host from id

  -- One round of the loop.
  unfoldable pub process_one : TxParam → Act State (Unit {0})
  process_one tx = do
    deduct_fee tx.from tx.fee
    if tx.by_logic_signature then host.validate_lsig_and_run tx.from else pure tt
    dispatch tx.from tx.close_remainder_to tx.kind

-- `processTransactions`: the transactions from the one at `idx` on; each round has its own host, since
-- programs read the transaction that is current.
unfoldable pub process_transactions : (ℕ → Host) → ℕ → List TxParam → Act State (Unit {0})
process_transactions hosts idx [] = pure tt
process_transactions hosts idx (tx ∷ txs) = do
  process_one (hosts idx) tx
  process_transactions hosts (suc idx) txs

-- `txn.fv >= this.round || txn.lv <= this.round`, of some transaction
unfoldable pub outside_rounds : ℕ → List TxParam → Bool
outside_rounds round [] = false
outside_rounds round (tx ∷ txs) =
    leb round tx.first_valid || leb tx.last_valid round || outside_rounds round txs
