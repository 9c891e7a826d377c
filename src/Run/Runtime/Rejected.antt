-- ===== src/Run/Runtime/Rejected.antt =====
-- packages/runtime/src/runtime.ts, `optInToApp`: what an opt-in leaves whose approval program rejects.
use algorand_builder.Base.{ℕ, []}
use algorand_builder.Base.Int.{pos, ◌+ℤ◌}
use algorand_builder.Base.Equality.{nat_eq, string_eq}
use algorand_builder.Ledger.Dict.{insert}
use algorand_builder.Ledger.Data.{State, Address, AccountStore, SscAttributes, app_cost}
use algorand_builder.Ledger.Account as Account
use algorand_builder.Run.Runtime.{Runtime}

-- The account after it has opted in to an application.
abbrev pub joined : ℕ → SscAttributes → AccountStore → AccountStore
joined id app a = record a {
  min_balance =
      a.min_balance
      +ℤ pos (app_cost app.local_state_schema.num_uint app.local_state_schema.num_byte_slice);
  apps_local_state =
      insert id (record { id = id; key_value = []; schema = app.local_state_schema })
        a.apps_local_state;
}

-- The state whose account has opted in.
abbrev opted : Address → ℕ → SscAttributes → AccountStore → State → State
opted address id app a s = record s { accounts = insert address (joined id app a) s.accounts }
