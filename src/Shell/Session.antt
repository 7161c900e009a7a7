-- ===== src/Shell/Session.antt =====
-- A session of app/shell.rs, from the lines that are typed to the pool.
use gravity_kvstore.Types.Deps.{Deps}
use gravity_kvstore.Storage.{Storage}
use gravity_kvstore.Mempool.Holds.{Holds}
use gravity_kvstore.Shell.{Shell}
