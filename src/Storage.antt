-- ===== src/Storage.antt =====
-- `trait Storage` of state/storage.rs as an interface: its operations, and the contract that the
-- executor and the server rely on.
pub mod Keys
pub mod Distinct
pub mod Sled
pub mod Reliable
pub mod Content
pub mod Contract
pub mod Accounts
pub mod Receipt
use gravity_kvstore.Prelude.{
  ℕ, Text, Bytes, Option, none, some, List, Outcome, ok, ◌≡◌, ◌<◌, length, All, nat_eq, ◌==◌,
  if◌then◌else◌, u64_mod,
}
use gravity_kvstore.Types.{AccountId, AccountState, Block, StateRoot, TransactionReceipt}

-- What a message is about.
pub data Stored : Type 0 where
  a_block a_state_root an_account_state : Stored

-- The messages of the operations, with what they format.
pub data StorageError : Type 0 where
  failed_to_serialize failed_to_save failed_to_deserialize failed_to_get :
      Stored → Text → StorageError
  failed_to_flush : Text → StorageError
  failed_to_save_receipts : StorageError

-- The operations over a store `S`. One that writes gives the store back, also with an error.
pub record Storage (S : Type 0) : Type 0 where
  pub save_block : Block → S → Outcome StorageError (Unit {0}) × S
  pub get_block : ℕ → S → Outcome StorageError (Option Block)
  pub save_transaction_receipts : List TransactionReceipt → S → Outcome StorageError (Unit {0}) × S
  pub get_transaction_receipt : Bytes → S → Outcome StorageError (Option TransactionReceipt)
  pub save_state_root : ℕ → StateRoot → S → Outcome StorageError (Unit {0}) × S
  pub get_state_root : ℕ → S → Outcome StorageError (Option StateRoot)
  pub save_account_state : AccountId → AccountState → S → Outcome StorageError (Unit {0}) × S
  pub get_account_state : AccountId → S → Outcome StorageError (Option AccountState)

abbrev pub HasHash : TransactionReceipt → Type 0
HasHash receipt = length receipt.transaction_hash ≡ 32

-- The contract of a storage that works: each save goes through, at numbers in the range of `u64`
-- and hashes of 32 bytes; what it has saved is read back; and it leaves blocks and state roots
-- under other numbers, and of the other kind, alone.
pub record IsStorage {S : Type 0} (storage : Storage S) : Type 0 where
  pub saved_block : Block → S → S
  pub save_block-ok : (b : Block) (s : S) → storage.save_block b s ≡ (ok tt, saved_block b s)
  pub get_block-saved_block :
      (b : Block) (n : ℕ) (s : S)
      → b.header.number < u64_mod
      → n < u64_mod
      → storage.get_block n (saved_block b s)
        ≡ (if b.header.number == n then ok (some b) else storage.get_block n s)
  pub get_state_root-saved_block :
      (b : Block) (n : ℕ) (s : S)
      → storage.get_state_root n (saved_block b s) ≡ storage.get_state_root n s
  pub saved_root : ℕ → StateRoot → S → S
  pub save_state_root-ok :
      (n : ℕ) (r : StateRoot) (s : S) → storage.save_state_root n r s ≡ (ok tt, saved_root n r s)
  pub get_state_root-saved_root :
      (m : ℕ) (r : StateRoot) (n : ℕ) (s : S)
      → m < u64_mod
      → n < u64_mod
      → storage.get_state_root n (saved_root m r s)
        ≡ (if m == n then ok (some r) else storage.get_state_root n s)
  pub get_block-saved_root :
      (m : ℕ) (r : StateRoot) (n : ℕ) (s : S)
      → storage.get_block n (saved_root m r s) ≡ storage.get_block n s
  pub saved_receipts : List TransactionReceipt → S → S
  pub save_receipts-ok :
      (rs : List TransactionReceipt) (s : S)
      → storage.save_transaction_receipts rs s ≡ (ok tt, saved_receipts rs s)
  pub get_block-saved_receipts :
      (rs : List TransactionReceipt) (n : ℕ) (s : S)
      → All HasHash rs
      → storage.get_block n (saved_receipts rs s) ≡ storage.get_block n s
  pub get_state_root-saved_receipts :
      (rs : List TransactionReceipt) (n : ℕ) (s : S)
      → All HasHash rs
      → storage.get_state_root n (saved_receipts rs s) ≡ storage.get_state_root n s
