-- ===== src/State/Laws.antt =====
-- What `update_account_state` of state/state.rs does to the accounts and to the root.
use gravity_kvstore.Prelude.{ℕ, ◌≡◌, refl, Text, bytes_eq, bytes_beq, if◌then◌else◌, some, length}
use gravity_kvstore.Dict.Laws.{lookup-insert}
use gravity_kvstore.Types.{AccountId, AccountState, StateRoot}
use gravity_kvstore.Types.Deps.{Deps}
use gravity_kvstore.State.{State, get_account, update_account_state, update_root}
use gravity_kvstore.State.Encoding.{u64_be}

module _ (d : Deps) where
  pub get_account-update :
      (id : AccountId) (account : AccountState) (s : State) (a : Text)
      → get_account a (update_account_state d id account s)
        ≡ (if bytes_beq id.text a then some account else get_account a s)
  unfolding get_account update_account_state
  get_account-update id account s a = lookup-insert id.text a account s.accounts

  pub length-update_root : (root : StateRoot) (h : ℕ) → length (update_root d root h).bytes ≡ 32
  unfolding update_root u64_be
  length-update_root root h = refl
