-- ===== src/Lib.antt =====
-- Two parts of algorand-builder. The runtime, packages/runtime/src, is a simulator of the Algorand
-- blockchain for tests of smart contracts: it executes TEAL programs and keeps a ledger of accounts,
-- assets and applications. The package algob, packages/algob/src, deploys contracts by scripts, and
-- keeps checkpoints of what each script has deployed.
--
-- Teal: the interpreter of TEAL.
--   Teal/Op, Teal/Machine: the classes of opcodes (interpreter/opcode-list.ts) as a data type, the
--     state of an `Interpreter` (interpreter/interpreter.ts), and the monad in which an opcode runs.
--     A `Uint8Array` is shared by reference, so the state has a heap of arrays.
--   Teal/Stack, Teal/Checks: lib/stack.ts and the assertions of interpreter/opcode.ts.
--   Teal/Arith, Compare, Shuffle, Constants, Bytes, Binary, BitOps, Flow: the `execute` methods of
--     interpreter/opcode-list.ts, and `jumpForward` of interpreter/interpreter.ts.
--   Teal/Fields, Query, Txn, Global, AppOps, Holdings: the `execute` methods that read the group of
--     transactions, the globals and the ledger, or write the states of applications; the tables of
--     lib/constants.ts and the functions of lib/txn.ts; the queries of interpreter/interpreter.ts.
--   Teal/Execute: the loop of `Interpreter.execute` and its verdict. It runs on fuel, one round for
--     each instruction ahead and one more; branches only go forward, so that is enough
--     (Teal/Forward).
--   Teal/Parser, Teal/Build, Teal/Sentence: `wordsFromLine`, the table of opcodes and
--     `opcodeFromSentence` of parser/parser.ts. Teal/Parser reads character codes, the others read
--     texts.
--   Teal/Constructors, Teal/Encodings: the constructors of the opcodes (interpreter/opcode-list.ts),
--     and `getEncoding` of lib/parsing.ts.
--   Teal/Library: the functions of algosdk, js-sha256, js-sha512, sha3 and Node that the opcodes
--     call, as a record, with their documented laws.
--   Teal/Valid: the well-formedness of the state; Teal/Numbers, Wide, Moves, Jump, Bytewise,
--     KeyValues, Acceptance, Escapes: what single opcodes do.
--
-- Ledger: the accounts and the transactions.
--   Ledger/Data, Ledger/Tx: the data of types.ts, account.ts and lib/constants.ts.
--   Ledger/Monad: code that changes a state and may throw.
--   Ledger/Account, Ledger/AppState: the methods of `AccountStore` (account.ts) and
--     `assertValidSchema` (lib/stateful.ts).
--   Ledger/Context, Ledger/Programs, Ledger/Transactions: the methods of `Ctx` (ctx.ts).
--   Ledger/Encoded: the encoded object of a transaction, which the opcodes read.
--   Ledger/Conservation, Ledger/Group: the sum of all accounts through a group of transactions.
--   Ledger/Frame: what a write to the state of an application leaves alone.
--
-- LogicSig: the class `LogicSig` (logicsig.ts), with algosdk's and tweetnacl's cryptography as a
-- parameter.
--
-- Run: the interpreter on the ledger.
--   Run.antt: `run` and `validateLsigAndRun` of runtime.ts, which are what the ledger asks of the
--     runtime (the record `Host` of Ledger/Programs). Run/Frame, Run/Group: what they keep.
--   Run/Runtime: the class `Runtime`, with the store that may be the same object as the state of the
--     context. Run/Runtime/Commit, Run/Runtime/Rejected: what an exception leaves.
--
-- Checkpoints: what the scripts of a project have deployed, in packages/algob/src.
--   Checkpoints.antt: `appendToCheckpoint` and `CheckpointRepoImpl` of lib/script-checkpoints.ts, and
--     the queries of `DeployerBasicMode` (internal/deployer.ts). Checkpoints/Ownership: which script
--     owns a name.
--   Checkpoints/Deployer: the deployer's state. Checkpoints/Deployer/Operations: the operations of
--     `DeployerDeployMode` and `DeployerRunMode` that write checkpoints or refuse to; the node's
--     answers are arguments. Checkpoints/Deployer/Once: a name is deployed once.
--
-- Numbers that the program keeps as `bigint` are integers, so that overflow and negative results are
-- visible; lengths, indices and ids are naturals. Addresses, names and keys are texts.
--
-- Not modelled: of JavaScript's `Number`, which `#pragma`, `bytec` and `intc` call, numerals with
-- an exponent, that start with a point, or that are rounded. Run takes the whole parser as a
-- function of the mode and the arguments, with the words of Teal/Parser and the lines of
-- Teal/Sentence not joined to each other. The encoded object of a transaction is given to Run:
-- algosdk makes it from the parameters. The registers of names, transaction ids and timestamps
-- are left out of the state, and so are line numbers and the parameters of errors. Of the package
-- algob, what only talks to nodes and files, its tasks, its parsing of arguments and its
-- configuration are not modelled.
pub mod Base
pub mod Teal
pub mod LogicSig
pub mod Ledger
pub mod Run
pub mod Checkpoints
