-- ===== src/Executor/Pipeline.antt =====
-- `PipelineExecutor::run` of executor/executor.rs: the two tasks that it spawns, before they go on.
use gravity_kvstore.Prelude.{ℕ, []}
use gravity_kvstore.Memory.{Memory, arc}

-- What `execute_task` and `commit_task` are called with; all but the number are addresses.
pub record ExecuteCall : Type 0 where
  pub start_num : ℕ
  pub state : ℕ
  pub pending : ℕ

pub record CommitCall : Type 0 where
  pub start_num : ℕ
  pub store : ℕ
  pub pending : ℕ
  pub pool : ℕ

-- They share `pending_blocks`, which is new and empty.
unfoldable pub run : {S : Type 0} → ℕ → ℕ → ℕ → ℕ → Memory S → (ExecuteCall × CommitCall) × Memory S
run start_num storage state pool memory =
    let (pending, cells) = arc [] memory.pendings in
    (
      (
        record { start_num = start_num; state = state; pending = pending },
        record { start_num = start_num; store = storage; pending = pending; pool = pool },
      ),
      record memory { pendings = cells },
    )
