-- ===== src/Ledger/Tx.antt =====
-- packages/runtime/src/types.ts: the parameters of a transaction.
use Prim.Native.String.{String}
use algorand_builder.Base.{ℕ, Bool}
use algorand_builder.Base.Int.{ℤ}
use algorand_builder.Ledger.Data.{Address, AssetModFields, SscDeploymentFlags}

-- The parts of `ExecParams` that depend on the type of the transaction.
pub data TxKind : Type 0 where
  transfer_algo : Address → ℤ → TxKind
  transfer_asset : ℕ → Address → ℤ → TxKind
  call_no_op_ssc close_ssc clear_ssc delete_ssc opt_in_ssc : ℕ → TxKind
  update_ssc : ℕ → String → String → TxKind
  modify_asset : ℕ → AssetModFields → TxKind
  freeze_asset : ℕ → Address → Bool → TxKind
  revoke_asset : Address → ℕ → Address → ℤ → TxKind
  destroy_asset : ℕ → TxKind
  deploy_asa : String → TxKind
  opt_in_asa : ℕ → TxKind
  deploy_ssc : SscDeploymentFlags → String → String → TxKind

-- A transaction, with what the encoded object holds of it: its fee and its rounds. An address for
-- the remainder that is missing is the empty text.
pub record TxParam : Type 0 where
  pub from : Address
  pub close_remainder_to : Address
  pub by_logic_signature : Bool
  pub kind : TxKind
  pub fee : ℕ
  pub first_valid : ℕ
  pub last_valid : ℕ
