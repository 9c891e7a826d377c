-- ===== src/Ledger.antt =====
-- packages/runtime/src: the simulated ledger, its accounts, and the transactions on it.
pub mod Dict
pub mod Data
pub mod Monad
pub mod Account
pub mod Context
pub mod Programs
pub mod Tx
pub mod Encoded
pub mod Overcharge
pub mod Transactions
pub mod Conservation
pub mod Group
pub mod AppState
pub mod Frame
mod Tests
