-- ===== src/Shell/Loop.antt =====
-- `Shell::new` and `Shell::run` of app/shell.rs. What rustyline answers is the argument of a run;
-- what is printed is a list. Between two lines the tasks of the node may change what the shell
-- shares with them; a run here is one in which they do not.
use gravity_kvstore.Prelude.{
  ℕ, if◌then◌else◌, Text, bytes_beq, Option, none, List, [], ◌∷◌, ◌++◌, Outcome, ok, err, panic,
  map, ascii,
}
use gravity_kvstore.Types.Deps.{Deps}
use gravity_kvstore.Crypto.{KeyPair}
use gravity_kvstore.Memory.{Handles}
use gravity_kvstore.Storage.{Storage}
use gravity_kvstore.Shell.{Shell, Line, prompt, handle_command}
use gravity_kvstore.Shell.Words.{words_of}

-- What a call of `readline` gives; for a line also what `add_history_entry` answers.
pub data Event : Type 0 where
  read : Text → Outcome Text (Unit {0}) → Event
  interrupted end_of_file : Event
  failed : Text → Event

-- What the loop writes.
pub data Output : Type 0 where
  no_previous_history ctrl_c ctrl_d : Output
  readline_error : Text → Output
  prompted : Text → Output
  printed : Line → Output

-- Where the loop is: at a `readline` that has not answered, past its `break`, out of the process
-- by `exit`, or in a panic.
pub data End : Type 0 where
  reading left exited panicked : End

-- A shell by the addresses of its `Arc`s.
pub record Handle (d : Deps) : Type 0 where
  pub context : Handles
  pub keypair : Option (KeyPair d)

-- `Shell::new`, of three `Arc`s
unfoldable pub new : (d : Deps) → ℕ → ℕ → ℕ → Handle d
new d state store mempool = record {
  context = record { state = state; store = store; mempool = mempool };
  keypair = none;
}

module _ (d : Deps) {S : Type 0} where
  -- The command of a line, and whether it lets the loop go on.
  unfoldable pub obey : Storage S → List Text → Shell d S → List Output × End × Shell d S
  obey storage [] shell = ([], reading, shell)
  obey storage (name ∷ args) shell =
      let (result, shell') = handle_command d storage (name ∷ args) shell in
      elim result [
        | ok lines ↦
            (map printed lines, if bytes_beq name (ascii "exit") then exited else reading, shell')
        | err _ ↦ ([], panicked, shell')
        | panic ↦ ([], panicked, shell')
      ]

  -- What comes after output, if the loop goes on.
  abbrev pub proceed :
      List Output × End × Shell d S
      → (Shell d S → List Output × End × Shell d S)
      → List Output × End × Shell d S
  proceed (out, reading, shell) more =
      let (out', end, shell') = more shell in (out ++ out', end, shell')
  proceed (out, left, shell) more = (out, left, shell)
  proceed (out, exited, shell) more = (out, exited, shell)
  proceed (out, panicked, shell) more = (out, panicked, shell)

  -- One round of the loop, from the answer of `readline` on.
  unfoldable pub answer : Storage S → Event → Shell d S → List Output × End × Shell d S
  answer storage (read line (ok _)) shell = obey storage (words_of line) shell
  answer storage (read line (err _)) shell = ([], panicked, shell)
  answer storage (read line panic) shell = ([], panicked, shell)
  answer storage interrupted shell = (ctrl_c ∷ [], left, shell)
  answer storage end_of_file shell = (ctrl_d ∷ [], left, shell)
  answer storage (failed e) shell = (readline_error e ∷ [], left, shell)

  -- The loop, over the answers that have come.
  unfoldable pub rounds : Storage S → List Event → Shell d S → List Output × End × Shell d S
  rounds storage [] shell = (prompted (prompt d shell) ∷ [], reading, shell)
  rounds storage (event ∷ events) shell =
      let (out, end, shell') = proceed (answer storage event shell) (rounds storage events) in
      (prompted (prompt d shell) ∷ out, end, shell')

  -- `Shell::run`, with the answers of `DefaultEditor::new` and `load_history`.
  unfoldable pub run :
      Storage S
      → Outcome Text (Unit {0})
      → Outcome Text (Unit {0})
      → List Event
      → Shell d S
      → List Output × End × Shell d S
  run storage (ok _) (ok _) events shell = rounds storage events shell
  run storage (ok _) (err _) events shell =
      let (out, end, shell') = rounds storage events shell in
      (no_previous_history ∷ out, end, shell')
  run storage (ok _) panic events shell = ([], panicked, shell)
  run storage (err _) history events shell = ([], panicked, shell)
  run storage panic history events shell = ([], panicked, shell)
