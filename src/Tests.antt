-- ===== src/Tests.antt =====
-- Runs at concrete inputs: two accounts, their signed transactions, and a database in memory.
mod Fixtures
mod Executor
mod Ledger
mod Tasks
mod Mempool
mod Storage
mod Crypto
mod Server
mod Requests
mod Shell
mod Node
mod Main
