-- ===== src/Types.antt =====
-- The data types of txpool/types.rs.
pub mod Deps
pub mod Convert
pub mod RoundTrip
use gravity_kvstore.Prelude.{ℕ, Bool, List, Text, Bytes}
use gravity_kvstore.Dict.{Dict}

pub record AccountId : Type 0 where
  pub text : Text

pub record Account : Type 0 where
  pub balance : ℕ
  pub nonce : ℕ
  pub kv_store : Dict Text Text

pub data TransactionKind : Type 0 where
  -- receiver, amount
  transfer : Text → ℕ → TransactionKind
  -- key, value
  set_kv : Text → Text → TransactionKind

pub record UnsignedTransaction : Type 0 where
  pub nonce : ℕ
  pub kind : TransactionKind

pub record Transaction : Type 0 where
  pub unsigned : UnsignedTransaction
  pub signature : Text

pub record TransactionWithAccount : Type 0 where
  pub txn : Transaction
  pub address : Text

pub record BlockHeader : Type 0 where
  pub number : ℕ
  pub parent_state_root : Bytes
  pub state_root : Bytes
  pub usecs : ℕ

pub record RawBlock : Type 0 where
  pub block_number : ℕ
  pub transactions : List Transaction

pub record Block : Type 0 where
  pub header : BlockHeader
  pub transactions : List TransactionWithAccount

pub record AccountState : Type 0 where
  pub nonce : ℕ
  pub balance : ℕ
  pub kv_store : Dict Text Text

pub record Log : Type 0 where
  pub address : Text
  pub topics : List Bytes
  pub bytes : Bytes

pub record TransactionReceipt : Type 0 where
  pub transaction : Transaction
  pub transaction_hash : Bytes
  pub status : Bool
  pub gas_used : ℕ
  pub state_updates : List (AccountId × AccountState)
  pub logs : List Log

pub record StateRoot : Type 0 where
  pub bytes : Bytes

-- The three that follow are declared by the code, and not used in it.
pub record BlockExecutionResult : Type 0 where
  pub block_number : ℕ
  pub state_updates : Dict AccountId AccountState
  pub receipts : List TransactionReceipt

pub record BlockExecutionPlan : Type 0 where
  pub block : RawBlock
  pub account_dependencies : Dict AccountId (List AccountId)

pub record TransactionWithLocation : Type 0 where
  pub transaction : Transaction
  pub block_number : ℕ
  pub tx_index : ℕ
