-- ===== src/Ledger/Conservation/Dispatch.antt =====
-- packages/runtime/src/ctx.ts: every branch of `processTransactions` keeps the Algos of all accounts
-- together, if the programs that it runs do.
use Prim.Native.String.{String}
use algorand_builder.Base.{ℕ, ◌≡◌, refl, ap, sym, ◌∙◌, Bool, false, [], ◌∷◌}
use algorand_builder.Base.Int.{ℤ, ◌+ℤ◌}
use algorand_builder.Base.Equality.{same, string_eq, nat_eq}
use algorand_builder.Ledger.Dict.{Dict, total}
use algorand_builder.Ledger.Data.{AssetModFields, SscDeploymentFlags, AccountStore, State, Address}
use algorand_builder.Ledger.Monad.{Outcome, Act, done, thrown}
use algorand_builder.Ledger.Context.{revoke_asset, transfer_algo}
use algorand_builder.Ledger.Account.Charged.{after}
use algorand_builder.Ledger.Context.Totals.{total_of}
use algorand_builder.Ledger.Context.Transfers.{algos, total_algos, transfer_algo-keeps_total}
use algorand_builder.Ledger.Programs.{
  Host, modify_asset, freeze_asset, delete_holdings, destroy_everywhere, destroy_ctx_asset,
  delete_ctx_app, close_ctx_app, add_ctx_asset, add_ctx_app, opt_in_ctx_app, update_app,
  next_asset_id, next_app_id, set_asset_creator, set_app_creator, delete_global_app,
}
use algorand_builder.Ledger.Tx.{TxKind}
use algorand_builder.Ledger.Transactions.{attempt, dispatch}
use algorand_builder.Ledger.Conservation.{Keeps}
use algorand_builder.Ledger.Conservation.Assets.{
  queries, transfer_asset-Keeps, opt_into_asa-Keeps, move_asset-Keeps,
}

-- Programs, and the check of a logic signature, keep the Algos of all accounts together, returning or
-- throwing: version 3 of TEAL has no opcode that pays.
pub record KeepsAlgos (host : Host) : Type 0 where
  pub run_keeps :
      (program : String) (s : State) → total_algos (after (host.run program s)) ≡ total_algos s
  pub lsig_keeps :
      (from : Address) (s : State)
      → total_algos (after (host.validate_lsig_and_run from s)) ≡ total_algos s

Keeps-of-after :
    {A : Type 0} (act : Act State A)
    → ((s : State) → total_algos (after (act s)) ≡ total_algos s)
    → Keeps act
Keeps-of-after {A} act h = record {
  at = λ s a s' e. ap (λ (o : Outcome State A). total_algos (after o)) (sym e) ∙ h s;
}

attempt-after :
    (act : Act State (Unit {0})) (s : State)
    → total_algos (after (attempt act s)) ≡ total_algos (after (act s))
attempt-after act s = go (act s)
  where
    go :
        (o : Outcome State (Unit {0}))
        → total_algos
            (after {A = Unit {0}} (elim o [ done _ t ↦ done tt t | thrown _ t ↦ done tt t ]))
          ≡ total_algos (after o)
    go (done u t) = refl
    go (thrown e t) = refl

modify_asset-Keeps : (id : ℕ) (fields : AssetModFields) → Keeps (modify_asset id fields)
unfolding modify_asset
modify_asset-Keeps id fields = search queries depth 12

freeze_asset-Keeps :
    (id : ℕ) (target : Address) (state : Bool) → Keeps (freeze_asset id target state)
unfolding freeze_asset
freeze_asset-Keeps id target state = search queries depth 12

delete_holdings-total :
    (id : ℕ) (d : Dict Address AccountStore) → total algos (delete_holdings id d) ≡ total algos d
unfolding delete_holdings total
delete_holdings-total id [] = refl
delete_holdings-total id ((address, a) ∷ d) = ap (λ z. a.amount +ℤ z) (delete_holdings-total id d)

destroy_everywhere-Keeps : (id : ℕ) → Keeps (destroy_everywhere id)
unfolding destroy_everywhere total_of
destroy_everywhere-Keeps id = Keeps-of-after _ λ s. delete_holdings-total id s.accounts

destroy_ctx_asset-Keeps : (id : ℕ) → Keeps (destroy_ctx_asset id)
unfolding destroy_ctx_asset
destroy_ctx_asset-Keeps id = search (queries, destroy_everywhere-Keeps) depth 12

next_asset_id-Keeps : Keeps next_asset_id
unfolding total_of
next_asset_id-Keeps = Keeps-of-after _ λ s. refl

next_app_id-Keeps : Keeps next_app_id
unfolding total_of
next_app_id-Keeps = Keeps-of-after _ λ s. refl

set_asset_creator-Keeps : (id : ℕ) (address : Address) → Keeps (set_asset_creator id address)
unfolding total_of
set_asset_creator-Keeps id address = Keeps-of-after _ λ s. refl

set_app_creator-Keeps : (id : ℕ) (address : Address) → Keeps (set_app_creator id address)
unfolding total_of
set_app_creator-Keeps id address = Keeps-of-after _ λ s. refl

delete_global_app-Keeps : (id : ℕ) → Keeps (delete_global_app id)
unfolding total_of
delete_global_app-Keeps id = Keeps-of-after _ λ s. refl

ruleset registers = (
  queries, next_asset_id-Keeps, next_app_id-Keeps, set_asset_creator-Keeps, set_app_creator-Keeps,
  delete_global_app-Keeps,
)

delete_ctx_app-Keeps : (id : ℕ) → Keeps (delete_ctx_app id)
unfolding delete_ctx_app
delete_ctx_app-Keeps id = search registers depth 12

close_ctx_app-Keeps : (sender : Address) (id : ℕ) → Keeps (close_ctx_app sender id)
unfolding close_ctx_app
close_ctx_app-Keeps sender id = search registers depth 12

module _ (host : Host) (law : KeepsAlgos host) where
  run-Keeps : (program : String) → Keeps (host.run program)
  run-Keeps program = Keeps-of-after _ (law.run_keeps program)

  attempt-Keeps : (program : String) → Keeps (attempt (host.run program))
  attempt-Keeps program =
      Keeps-of-after _ λ s. attempt-after (host.run program) s ∙ law.run_keeps program s

  pub lsig-Keeps : (from : Address) → Keeps (host.validate_lsig_and_run from)
  lsig-Keeps from = Keeps-of-after _ (law.lsig_keeps from)

  add_ctx_asset-Keeps : (name : String) (from : Address) → Keeps (add_ctx_asset host name from)
  unfolding add_ctx_asset
  add_ctx_asset-Keeps name from = search registers depth 14

  add_ctx_app-Keeps :
      (from : Address) (flags : SscDeploymentFlags) (approval clear : String)
      → Keeps (add_ctx_app host from flags approval clear)
  unfolding add_ctx_app
  add_ctx_app-Keeps from flags approval clear = search (registers, run-Keeps) depth 20

  opt_in_ctx_app-Keeps : (address : Address) (id : ℕ) → Keeps (opt_in_ctx_app host address id)
  unfolding opt_in_ctx_app
  opt_in_ctx_app-Keeps address id = search (registers, run-Keeps) depth 12

  update_app-Keeps : (id : ℕ) (approval clear : String) → Keeps (update_app host id approval clear)
  unfolding update_app
  update_app-Keeps id approval clear = search (registers, run-Keeps) depth 14

  transfer_algo-Keeps :
      (from to : Address) (amount : ℤ) (close : Address)
      → same from close ≡ false
      → Keeps (transfer_algo from to amount close)
  transfer_algo-Keeps from to amount close ne = record {
    at = λ s u s' e. transfer_algo-keeps_total from to amount close s s' ne e;
  }

  pub dispatch-Keeps :
      (from close : Address) (kind : TxKind)
      → same from close ≡ false
      → Keeps (dispatch host from close kind)
  unfolding dispatch revoke_asset
  dispatch-Keeps from close (TxKind.transfer_algo to amount) ne =
      transfer_algo-Keeps from to amount close ne
  dispatch-Keeps from close (TxKind.transfer_asset id to amount) ne =
      transfer_asset-Keeps id from to amount close
  dispatch-Keeps from close (TxKind.call_no_op_ssc id) ne = search (registers, run-Keeps) depth 12
  dispatch-Keeps from close (TxKind.close_ssc id) ne =
      search (registers, run-Keeps, close_ctx_app-Keeps) depth 12
  dispatch-Keeps from close (TxKind.update_ssc id approval clear) ne =
      update_app-Keeps id approval clear
  dispatch-Keeps from close (TxKind.clear_ssc id) ne =
      search (registers, attempt-Keeps, close_ctx_app-Keeps) depth 12
  dispatch-Keeps from close (TxKind.delete_ssc id) ne =
      search (registers, run-Keeps, delete_ctx_app-Keeps) depth 12
  dispatch-Keeps from close (TxKind.modify_asset id fields) ne =
      search (registers, modify_asset-Keeps) depth 12
  dispatch-Keeps from close (TxKind.freeze_asset id target state) ne =
      search (registers, freeze_asset-Keeps) depth 12
  dispatch-Keeps from close (TxKind.revoke_asset recipient id target amount) ne =
      search (registers, move_asset-Keeps) depth 12
  dispatch-Keeps from close (TxKind.destroy_asset id) ne =
      search (registers, destroy_ctx_asset-Keeps) depth 12
  dispatch-Keeps from close (TxKind.deploy_asa name) ne =
      search (registers, add_ctx_asset-Keeps) depth 12
  dispatch-Keeps from close (TxKind.opt_in_asa id) ne = opt_into_asa-Keeps id from
  dispatch-Keeps from close (TxKind.deploy_ssc flags approval clear) ne =
      search (registers, add_ctx_app-Keeps) depth 12
  dispatch-Keeps from close (TxKind.opt_in_ssc id) ne = opt_in_ctx_app-Keeps from id
