-- ===== src/Storage/Accounts.antt =====
-- `save_account_state` and `get_account_state` of state/storage.rs.
use gravity_kvstore.Prelude.{
  ℕ, ◌≡◌, ◌≢◌, refl, ap, Bytes, bytes_beq, bytes_beq_ne, some, ok, if◌then◌else◌, arith, get_or,
}
use gravity_kvstore.Types.{AccountId, AccountState}
use gravity_kvstore.Storage.{an_account_state, a_block, a_state_root}
use gravity_kvstore.Storage.Keys.{block_key, state_root_key, account_key, decimal}
use gravity_kvstore.Storage.Sled.{
  Sled, Bincode, save_account_state, get_account_state, get_block, get_state_root,
}
use gravity_kvstore.Storage.Reliable.{SledLaws, CodeLaws}
use gravity_kvstore.Storage.Content.{save-ok, content-saved, load-eq-read_as, saved}

account_key-test :
    (i j : AccountId) → bytes_beq (account_key i) (account_key j) ≡ bytes_beq i.text j.text
unfolding account_key
account_key-test i j = ground arith

account_key-apart :
    (i : AccountId) (n : ℕ) → (account_key i ≢ block_key n) × (account_key i ≢ state_root_key n)
unfolding account_key block_key state_root_key decimal
account_key-apart i n = (
  λ e. omega (arith, ap (λ (k : Bytes). get_or k 0 0) e),
  λ e. omega (arith, ap (λ (k : Bytes). get_or k 0 0) e),
)

module _ (sled : Sled) (code : Bincode) (laws : SledLaws sled) (codes : CodeLaws code) where
  -- Over a database and encodings that work, an account that is saved is read back; accounts under
  -- other ids, blocks and state roots are read as before.
  pub get_account_state-save :
      (i j : AccountId) (account : AccountState) (n : ℕ) (db : sled.Db)
      → let (done, db') = save_account_state sled code i account db in
        (done ≡ ok tt)
        × (get_account_state sled code j db' ≡ (
            if bytes_beq i.text j.text
            then ok (some account)
            else get_account_state sled code j db))
        × (get_block sled code n db' ≡ get_block sled code n db)
        × (get_state_root sled code n db' ≡ get_state_root sled code n db)
  unfolding save_account_state get_account_state get_block get_state_root
  get_account_state-save i j account n db =
      let k = account_key i in
      let v = codes.account_bytes account in
      let db' = saved sled laws k v db in
      let wrote : save_account_state sled code i account db ≡ (ok tt, db') =
        rw codes.serialize_account-ok (save-ok sled laws an_account_state k v db) in
      let held = content-saved sled laws k v db in
      rw wrote (
        refl,
        ground (
          arith,
          load-eq-read_as sled laws an_account_state code.deserialize_account (account_key j) db',
          load-eq-read_as sled laws an_account_state code.deserialize_account (account_key j) db,
          held (account_key j),
          account_key-test i j,
          codes.deserialize_account-bytes account,
        ),
        ground (
          arith,
          load-eq-read_as sled laws a_block code.deserialize_block (block_key n) db',
          load-eq-read_as sled laws a_block code.deserialize_block (block_key n) db,
          held (block_key n),
          bytes_beq_ne k (block_key n) (account_key-apart i n).0,
        ),
        ground (
          arith,
          load-eq-read_as sled laws a_state_root code.deserialize_root (state_root_key n) db',
          load-eq-read_as sled laws a_state_root code.deserialize_root (state_root_key n) db,
          held (state_root_key n),
          bytes_beq_ne k (state_root_key n) (account_key-apart i n).1,
        ),
      )
