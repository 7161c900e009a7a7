-- ===== src/State.antt =====
-- state/state.rs, and the hashing of txpool/types.rs that it calls.
pub mod Encoding
pub mod Laws
use gravity_kvstore.Prelude.{
  ℕ, Text, Bytes, bytes_eq, Option, none, some, List, [], ◌∷◌, ◌++◌, Outcome, ok, unwrap, ◌>>=◌,
  replicate, map,
}
use gravity_kvstore.Dict.{Dict, lookup, insert}
use gravity_kvstore.Types.{AccountId, AccountState, StateRoot}
use gravity_kvstore.Types.Deps.{Deps}
use gravity_kvstore.State.Encoding.{u64_le, u64_be, str_hash}

pub record State : Type 0 where
  pub accounts : Dict Text AccountState
  pub block_number : ℕ
  pub state_root : StateRoot

-- `StateRoot::default()`
unfoldable pub default_root : StateRoot
default_root = record { bytes = replicate 32 0 }

-- `State::new`; the file's content is what `read_genesis` makes of its path.
unfoldable pub new :
    {E : Type 0} → (Text → Outcome Text (Dict Text AccountState)) → Option Text → Outcome E State
unfolding default_root
new read_genesis (some path) = do
  accounts ← unwrap (read_genesis path)
  ok (record { accounts = accounts; block_number = 0; state_root = default_root })
new read_genesis none = ok (record { accounts = []; block_number = 0; state_root = default_root })

unfoldable pub get_state_root : State → StateRoot
get_state_root s = s.state_root

unfoldable pub get_current_block_number : State → ℕ
get_current_block_number s = s.block_number

unfoldable pub get_account : Text → State → Option AccountState
get_account address s = lookup address s.accounts

-- `self.kv_store.iter().for_each(…)`
unfoldable pub hash_entries : List (Text × Text) → Bytes
hash_entries [] = []
hash_entries ((k, v) ∷ rest) = str_hash k ++ str_hash v ++ hash_entries rest

module _ (d : Deps) where
  -- `Hash for AccountState`: the bytes that it writes to the hasher.
  unfoldable pub hash_account : AccountState → Bytes
  unfolding hash_entries
  hash_account a = u64_le a.nonce ++ u64_le a.balance ++ hash_entries (d.iter a.kv_store)

  -- `StateRoot::to_hex`
  unfoldable pub to_hex : StateRoot → Text
  to_hex root = d.hex_encode root.bytes

  -- `StateRoot::update`
  unfoldable pub update_root : StateRoot → ℕ → StateRoot
  update_root root other_hash = record {
    bytes = u64_be (d.finish (u64_le other_hash ++ root.bytes)) ++ replicate 24 0;
  }

  -- It returns `Ok(())` always.
  unfoldable pub update_account_state : AccountId → AccountState → State → State
  unfolding hash_account update_root
  update_account_state account_id account s = record s {
    accounts = insert account_id.text account s.accounts;
    state_root = update_root s.state_root (d.finish (account_id.text ++ hash_account account));
  }
