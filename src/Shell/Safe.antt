-- ===== src/Shell/Safe.antt =====
-- The loop of app/shell.rs does not panic, and leaves alone what is not its own.
use gravity_kvstore.Prelude.{
  ◌≢◌, if◌then◌else◌, if-both, Text, Bytes, bytes_beq, List, [], ◌∷◌, Outcome, ok, err, panic, All,
  map, ascii,
}
use gravity_kvstore.Types.Deps.{Deps, HexLaws, KeccakLaws, BincodeLaws, SecpLaws, ResultLaws}
use gravity_kvstore.State.{State}
use gravity_kvstore.Storage.{Storage}
use gravity_kvstore.Shell.{Shell, Line, handle_command}
use gravity_kvstore.Shell.Keeps.{HasNonces, IsReady, handle_command-IsReady}
use gravity_kvstore.Shell.Words.{words_of}
use gravity_kvstore.Shell.Loop.{
  Event, read, interrupted, end_of_file, failed, Output, printed, End, reading, left, exited,
  panicked, obey, proceed, answer, rounds,
}
use gravity_kvstore.Shell.Commands.{
  IsAnswerable, IsHarmless, Returns, Survives, handle_command-Returns,
}

module _ (d : Deps) (results : ResultLaws d) {S : Type 0} (storage : Storage S) (s : State)
    (store : S) where
  module _ (hex : HexLaws d) (sha : KeccakLaws d) (bincode : BincodeLaws d) (secp : SecpLaws d)
      (nonces : HasNonces s) where
    module _ (stored : (hash : Bytes) → storage.get_transaction_receipt hash store ≢ panic) where
      obeyed :
          (name : Text) (run : Outcome (Unit {0}) (List Line) × Shell d S)
          → Returns d run
          → IsReady d s store run.1
          → Survives d s store (elim run.0 [
            | ok lines ↦ (
              map printed lines,
              if bytes_beq name (ascii "exit") then exited else reading,
              run.1,
            )
            | err _ ↦ ([], panicked, run.1)
            | panic ↦ ([], panicked, run.1)
          ])
      obeyed name (ok lines, shell) returns h =
          (if-both (λ end. end ≢ panicked) (bytes_beq name (ascii "exit")) (λ _ e. cc) (λ e. cc), h)
      obeyed name (err e, shell) returns h = absurd returns
      obeyed name (panic, shell) returns h = absurd returns

      obey-Survives :
          (words : List Text) (shell : Shell d S)
          → IsAnswerable d words
          → IsReady d s store shell
          → Survives d s store (obey d storage words shell)
      unfolding obey
      obey-Survives [] shell fits h = (λ e. cc, h)
      obey-Survives (name ∷ args) shell fits h =
          obeyed name (handle_command d storage (name ∷ args) shell)
            (handle_command-Returns d results storage s store hex sha bincode secp nonces stored
              name args shell fits h)
            (handle_command-IsReady d s store nonces storage (name ∷ args) shell h)

      answer-Survives :
          (event : Event) (shell : Shell d S)
          → IsHarmless d event
          → IsReady d s store shell
          → Survives d s store (answer d storage event shell)
      unfolding answer
      answer-Survives (read line added) shell (kept, fits) h =
          rw (kept, answer) (obey-Survives (words_of line) shell fits h)
      answer-Survives interrupted shell harmless h = (λ e. cc, h)
      answer-Survives end_of_file shell harmless h = (λ e. cc, h)
      answer-Survives (failed e) shell harmless h = (λ e'. cc, h)

      proceed-Survives :
          (first : List Output × End × Shell d S) (more : Shell d S → List Output × End × Shell d S)
          → Survives d s store first
          → ((shell : Shell d S) → IsReady d s store shell → Survives d s store (more shell))
          → Survives d s store (proceed d first more)
      proceed-Survives (out, reading, shell) more (ne, h) survive = survive shell h
      proceed-Survives (out, left, shell) more h survive = h
      proceed-Survives (out, exited, shell) more h survive = h
      proceed-Survives (out, panicked, shell) more h survive = h

      -- With packages that keep their laws, in a shell whose pool is well formed, over a state in
      -- which every account's next nonce fits in a `u64` and a store whose receipts are read
      -- without a panic: whatever is typed, as long as it goes into the history and no query has a
      -- hash that decodes to other than 32 bytes, and however reading ends, the loop does not
      -- panic; the state and the store are as before, and the pool is well formed.
      pub rounds-Survives :
          (events : List Event) (shell : Shell d S)
          → All (IsHarmless d) events
          → IsReady d s store shell
          → let (out, end, shell') = rounds d storage events shell in
            (end ≢ panicked) × IsReady d s store shell'
      unfolding rounds
      rounds-Survives [] shell harmless h = (λ e. cc, h)
      rounds-Survives (event ∷ events) shell harmless h =
          proceed-Survives (answer d storage event shell) (rounds d storage events)
            (answer-Survives event shell harmless.0 h)
            (λ shell' h'. rounds-Survives events shell' harmless.1 h')
