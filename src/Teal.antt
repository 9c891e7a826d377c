-- ===== src/Teal.antt =====
-- packages/runtime/src/interpreter: the TEAL interpreter.
pub mod Op
pub mod Machine
pub mod Stack
pub mod Checks
pub mod Library
pub mod Arith
pub mod Compare
pub mod Shuffle
pub mod Constants
pub mod Bytes
pub mod Binary
pub mod BitOps
pub mod Flow
pub mod Fields
pub mod Query
pub mod Txn
pub mod Global
pub mod AppOps
pub mod Holdings
pub mod Execute
pub mod Valid
pub mod Forward
pub mod Parsed
pub mod Encodings
pub mod Parser
pub mod Constructors
pub mod Build
pub mod Sentence
pub mod Numbers
pub mod Acceptance
pub mod Escapes
mod Tests
pub mod Bytewise
pub mod Jump
pub mod Moves
pub mod Wide
pub mod KeyValues
