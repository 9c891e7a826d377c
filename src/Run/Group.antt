-- ===== src/Run/Group.antt =====
-- packages/runtime/src/runtime.ts, `executeTx`, with the interpreter as what runs the programs.
use algorand_builder.Base.{List, All, ◌≡◌}
use algorand_builder.Base.Int.{pos, ◌+ℤ◌}
use algorand_builder.Ledger.Monad.{done}
use algorand_builder.Ledger.Tx.{TxParam}
use algorand_builder.Ledger.Context.Transfers.{total_algos}
use algorand_builder.Run.Runtime.{Runtime, store_of, execute_tx}
use algorand_builder.Ledger.Group.{fees, ClosesElsewhere, execute_tx-conserves}
use algorand_builder.Run.{Settings, host}
use algorand_builder.Run.Frame.{host-KeepsAlgos}

-- A group of transactions whose programs and logic signatures are run by the interpreter, that
-- succeeds and closes no account to its own address, lowers the sum of all accounts' Algos by
-- exactly the fees, whatever its programs are.
pub run-conserves :
    (st : Settings) (txs : List TxParam) (r r' : Runtime)
    → All ClosesElsewhere txs
    → execute_tx (host st) txs r ≡ done tt r'
    → total_algos (store_of r') +ℤ pos (fees txs) ≡ total_algos (store_of r)
run-conserves st txs r r' h e = execute_tx-conserves (host st) txs r r' (host-KeepsAlgos st) h e
