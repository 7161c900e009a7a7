-- ===== src/Lib.antt =====
-- A verification library beside the gravity-kvstore node: a key-value chain on gravity_sdk.
--
-- The program. A client sends a signed transaction to the HTTP server (src/app/server.rs) or types
-- a command into the shell (src/app/shell.rs); both put it into the transaction pool
-- (src/txpool/mempool.rs). The consensus engine takes transactions from the pool and orders them
-- into blocks; the execute task (src/executor/executor.rs) runs each block over the state
-- (src/state/state.rs) and keeps the result until consensus commits the block, when the commit task
-- removes its transactions from the pool and writes it into the store (src/state/storage.rs).
-- Signatures and addresses are in src/crypto.rs, the data types in src/txpool/types.rs.
--
-- The model, file by file; a function has the name that it has in the code.
--   Prelude      Boolean tests, lists of native numbers, `Outcome` (a value, an error or a panic),
--                and arithmetic on machine words, which panics or wraps by the build's profile.
--   Dict, BTree  `HashMap` as an association list, `BTreeMap` as an ascending one.
--   Types        src/txpool/types.rs: data, conversions. `Types.Deps` is what the code calls of
--                other packages, a record of functions, and what it relies on, as named laws.
--   Crypto       src/crypto.rs: hash, address, signing, recovery, the Merkle root.
--   State        src/state/state.rs, with the hashing of accounts and state roots.
--   Storage      src/state/storage.rs: `trait Storage` as an interface, its contract `IsStorage`, and
--                `SledStorage`, over the calls of sled and bincode, which meets it.
--   Mempool      src/txpool/mempool.rs: the pool, with calls that run alone; in `Concurrent` the locked
--                halves of an addition mix with the steps of other calls; in `Handle` the mutexes are
--                poisoned by a panic. The other parts have the pool without them.
--   Executor     src/executor/executor.rs: one transaction, a block (`Block`), the tasks (`Tasks`)
--                for given answers of the block buffer manager, their start (`Pipeline`), and the
--                node as a step relation (`Node`): requests to the server, commands of the shell,
--                executions and commits in any order. `Ledger` says apart from the code what a block
--                means: a ledger of functions over numbers without bound. The other children prove.
--   Memory       the `Arc`s that the parts share, as addresses of one memory.
--   Blockchain   src/state/blockchain.rs, over the memory.
--   Server       src/app/server.rs: the handlers and their errors; `App` has the routes and a request
--                from its body to its reply. The reply to an error has the status and the text of
--                `ResponseError`, of which poem makes the response; `into_response` is not called.
--   Shell        src/app/shell.rs: the commands, with what they print as data; `Words` splits a line,
--                `Loop` is the loop over what rustyline answers.
--   Main         src/main.rs and src/cli.rs: how the parts are put together, over the memory; `Config` has the
--                configuration that the consensus engine asks for.
--   Samples      concrete functions in place of the other packages: with them the laws hold.
--   Tests        runs at concrete inputs.
--
-- State. A `&mut` or locked object is an argument that is given back, also by a call that panics,
-- with what was written before the panic. `unwrap` and an index out of range are the value `panic`.
-- Numbers are native; `u64` and `u8` keep their wrap-around, by `overflow_checks` of `Deps`: true
-- for a debug build, which panics, false for a release build, which wraps.
--
-- Fuel. `digits` writes a `u64` with fuel 20, which is the number of its digits at most.
-- `merkle_loop` has the number of transactions as fuel; each pass halves the hashes.
--
-- Not modelled: logging; the parsing of the options, which is clap's; how tokio schedules the tasks,
-- and the end of `main`, which waits for CTRL-C; `ExecutableBlock`, which holds ends of channels and is not used; and the packages of `Deps`,
-- `Sled`, `Bincode`, `Web`, `Gravity` and `Outside`, which are parameters. The execution and
-- the commit of a block are one step each of the node; within a commit the pool is locked anew for
-- each removal, and what mixes there is in `Mempool.Concurrent`.
pub mod Prelude
pub mod Dict
pub mod BTree
pub mod Types
pub mod Crypto
pub mod State
pub mod Storage
pub mod Mempool
pub mod Executor
pub mod Blockchain
pub mod Server
pub mod Shell
pub mod Main
pub mod Memory
pub mod Samples
pub mod Tests
