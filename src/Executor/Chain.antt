-- ===== src/Executor/Chain.antt =====
-- The blocks that `execute_task` of executor/executor.rs has executed form a chain.
use gravity_kvstore.Prelude.{
  ◌+◌, ◌<◌, ◌≡◌, refl, ◌∙◌, ap, sym, Text, Bytes, nat_eq, List, [], ◌∷◌, ◌++◌, Outcome, ok, err,
  panic, continue-eq-ok, arith, u64_mod, append_assoc, append-nil, length, length-append, add_wrap,
}
use gravity_kvstore.Dict.{insert}
use gravity_kvstore.Types.Deps.{Deps}
use gravity_kvstore.State.{State, get_state_root}
use gravity_kvstore.Executor.{ExecuteError}
use gravity_kvstore.Executor.Block.{
  ExternalBlock, Pending, PendingBlock, block_txns, execute_txns, execute_block,
}
use gravity_kvstore.Executor.Tasks.{
  ComputeRes, ExecuteTask, execute_ordered, execute_all, execute_round, execute_task,
}
use gravity_kvstore.Executor.Seal.{execute_block-seals}

-- The blocks that wait, after some more.
abbrev pub waits : List PendingBlock → Pending → Pending
waits [] pending = pending
waits (e ∷ es) pending = waits es (insert e.block.header.number e pending)

waits-append :
    (es es' : List PendingBlock) (p : Pending) → waits (es ++ es') p ≡ waits es' (waits es p)
waits-append [] es' p = refl
waits-append (e ∷ es) es' p = waits-append es es' (insert e.block.header.number e p)

module _ (d : Deps) where
  -- A block executed from one state to another: its receipts are those of the run of its
  -- transactions, and its roots those of the two states.
  abbrev pub IsSealed : ExternalBlock d → State → State → PendingBlock → Type 0
  IsSealed b s s' e =
      (block_txns d {E = ExecuteError} b.txns ≡ ok e.block.transactions)
      × (execute_txns d e.block.transactions s ≡ (ok e.receipts, s'))
      × (e.block.header.number ≡ b.block_number)
      × (e.block.header.usecs ≡ b.usecs)
      × (e.block.header.parent_state_root ≡ (get_state_root s).bytes)
      × (e.block.header.state_root ≡ (get_state_root s').bytes)
      × (e.root.bytes ≡ (get_state_root s').bytes)

  -- Blocks executed one after the other: each begins at the state, and so at the root, with which
  -- the one before it ends.
  abbrev pub IsChain : State → State → List (ExternalBlock d) → List PendingBlock → Type 0
  IsChain s s' [] [] = s ≡ s'
  IsChain s s' (b ∷ bs) (e ∷ es) = (s₁ : State) × IsSealed b s s₁ e × IsChain s₁ s' bs es
  IsChain s s' _ _ = ⊥

  IsChain-append :
      (bs bs' : List (ExternalBlock d)) (es es' : List PendingBlock) (s s₁ s' : State)
      → IsChain s s₁ bs es
      → IsChain s₁ s' bs' es'
      → IsChain s s' (bs ++ bs') (es ++ es')
  IsChain-append [] bs' [] es' s s₁ s' h k = rw h k
  IsChain-append (b ∷ bs) bs' (e ∷ es) es' s s₁ s' (s₂, sealed, h) k =
      (s₂, sealed, IsChain-append bs bs' es es' s₂ s₁ s' h k)
  IsChain-append [] bs' (e ∷ es) es' s s₁ s' h k = absurd h
  IsChain-append (b ∷ bs) bs' [] es' s s₁ s' h k = absurd h

  -- What is reported of the blocks: the id and number that were ordered, and the root after.
  abbrev pub reports : List (ExternalBlock d) → List PendingBlock → List ComputeRes
  reports (b ∷ bs) (e ∷ es) =
      record { block_id = b.block_id; hash = e.root.bytes; block_number = b.block_number }
      ∷ reports bs es
  reports _ _ = []

  reports-append :
      (bs bs' : List (ExternalBlock d)) (es es' : List PendingBlock) (s s' : State)
      → IsChain s s' bs es
      → reports (bs ++ bs') (es ++ es') ≡ reports bs es ++ reports bs' es'
  reports-append [] bs' [] es' s s' h = refl
  reports-append (b ∷ bs) bs' (e ∷ es) es' s s' (s₁, sealed, h) =
      rw (reports-append bs bs' es es' s₁ s' h)
  reports-append [] bs' (e ∷ es) es' s s' h = absurd h
  reports-append (b ∷ bs) bs' [] es' s s' h = absurd h

  -- From one task to another these blocks have been executed.
  abbrev pub HasRun : List (ExternalBlock d) → ExecuteTask → ExecuteTask → Type 0
  HasRun bs task task' =
      (es : List PendingBlock) × IsChain task.state task'.state bs es
      × (task'.pending ≡ waits es task.pending)
      × (task'.computed ≡ task.computed ++ reports bs es)

  HasRun-append :
      (bs bs' : List (ExternalBlock d)) (t₀ t₁ t₂ : ExecuteTask)
      → HasRun bs t₀ t₁
      → HasRun bs' t₁ t₂
      → HasRun (bs ++ bs') t₀ t₂
  HasRun-append bs bs' t₀ t₁ t₂ (es, chain, p, c) (es', chain', p', c') = (
    es ++ es',
    IsChain-append bs bs' es es' t₀.state t₁.state t₂.state chain chain',
    rw (p', p, waits-append es es' t₀.pending),
    rw (
      c',
      c,
      reports-append bs bs' es es' t₀.state t₁.state chain,
      append_assoc t₀.computed (reports bs es) (reports bs' es'),
    ),
  )

  pub execute_ordered-runs :
      (b : ExternalBlock d) (task task' : ExecuteTask)
      → execute_ordered d b task ≡ (ok tt, task')
      → HasRun (b ∷ []) task task' × (task'.start_num ≡ task.start_num)
  unfolding execute_ordered
  execute_ordered-runs b task task' h =
      let (exec_res, s₁, p₁) = execute_block d b task.state task.pending in
      let run_task : ExecuteTask = record task { state = s₁; pending = p₁ } in
      let (hash, t, e, done) = continue-eq-ok (exec_res, run_task) _ h in
      let ran : execute_block d b task.state task.pending ≡ (ok hash, s₁, p₁) =
        ap (λ (p : Outcome ExecuteError Bytes × ExecuteTask). (p.0, s₁, p₁)) e in
      let (entry, put, read, run, number, usecs, parent, root, stored, answer) =
        execute_block-seals d b task.state s₁ task.pending p₁ ran in
      let after : task' ≡ record run_task {
        computed =
            task.computed
            ++ record { block_id = b.block_id; hash = hash; block_number = b.block_number } ∷ [];
      } =
        ground arith in
      rw after (
        (
          entry ∷ [],
          (s₁, (read, run, number, usecs, parent, root, stored), refl),
          rw number put,
          rw (answer, stored),
        ),
        refl,
      )

  execute_all-runs :
      (bs : List (ExternalBlock d)) (task task' : ExecuteTask)
      → execute_all d bs task ≡ (ok tt, task')
      → HasRun bs task task' × (task'.start_num ≡ task.start_num)
  unfolding execute_all
  execute_all-runs [] task task' h =
      rw (sym (ap (λ p. p.1) h)) (([], refl, refl, sym (append-nil task.computed)), refl)
  execute_all-runs (b ∷ bs) task task' h =
      let (_, t₁, first, rest) = continue-eq-ok (execute_ordered d b task) _ h in
      let (ran, same) = execute_ordered-runs b task t₁ first in
      let (ran', same') = execute_all-runs bs t₁ task' rest in
      (HasRun-append (b ∷ []) bs task t₁ task' ran ran', same' ∙ same)

  -- The blocks that the answers give, in order.
  abbrev pub blocks_of : List (Outcome Text (List (ExternalBlock d))) → List (ExternalBlock d)
  blocks_of [] = []
  blocks_of (ok blocks ∷ answers) = blocks ++ blocks_of answers
  blocks_of (_ ∷ answers) = blocks_of answers

  pub execute_round-runs :
      (blocks : List (ExternalBlock d)) (task task' : ExecuteTask)
      → task.start_num + length blocks < u64_mod
      → execute_round d (ok blocks) task ≡ (ok tt, task')
      → HasRun blocks task task' × (task'.start_num ≡ task.start_num + length blocks)
  unfolding execute_round
  execute_round-runs blocks task task' fits h =
      let next : add_wrap {E = ExecuteError} d.overflow_checks u64_mod task.start_num
            (length blocks)
          ≡ ok (task.start_num + length blocks) =
        ground arith in
      execute_all-runs blocks (record task { start_num = task.start_num + length blocks }) task'
        (rw next at h)

  -- After rounds of the task that do not panic, where the next number asked for stays in the range
  -- of `u64`: the blocks that the answers gave have been executed in order, as a chain from the
  -- state before to the state after, each from the root at which the one before it ends; they wait
  -- under their numbers; the id, number and root of each have been reported in this order; and the
  -- next number asked for has gone up by as many.
  pub execute_task-chain :
      (answers : List (Outcome Text (List (ExternalBlock d)))) (task task' : ExecuteTask)
      → task.start_num + length (blocks_of answers) < u64_mod
      → execute_task d answers task ≡ (ok tt, task')
      → HasRun (blocks_of answers) task task'
        × (task'.start_num ≡ task.start_num + length (blocks_of answers))
  unfolding execute_task execute_round
  execute_task-chain [] task task' fits h =
      (([], ground arith, ground arith, ground (arith, append-nil task.computed)), ground arith)
  execute_task-chain (ok blocks ∷ answers) task task' fits h =
      let (_, t, first, rest) = continue-eq-ok (execute_round d (ok blocks) task) _ h in
      let len = length-append blocks (blocks_of answers) in
      let (ran, next) = execute_round-runs blocks task t (omega arith) first in
      let (ran', next') = execute_task-chain answers t task' (omega arith) rest in
      (HasRun-append blocks (blocks_of answers) task t task' ran ran', omega arith)
  execute_task-chain (err e ∷ answers) task task' fits h =
      execute_task-chain answers task task' fits h
  execute_task-chain (panic ∷ answers) task task' fits h = absurd (ground arith)
