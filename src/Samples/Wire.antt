-- ===== src/Samples/Wire.antt =====
-- A wire format of numbers and length-prefixed fields, for serde_json and bincode.
use gravity_kvstore.Prelude.{
  ℕ, zero, suc, ◌≡◌, refl, Bytes, Text, List, [], ◌∷◌, ◌++◌, arith, length, get_or, take, drop,
  take-length_append, drop-length_append,
}
use gravity_kvstore.Dict.{Dict}
use gravity_kvstore.Types.{
  TransactionKind, transfer, set_kv, TransactionWithAccount, Block, AccountState,
}

abbrev pub put : Bytes → Bytes → Bytes
put xs rest = length xs ∷ xs ++ rest

abbrev pub field : Bytes → Bytes × Bytes
field [] = ([], [])
field (n ∷ rest) = (take n rest, drop n rest)

pub field-put : (xs rest : Bytes) → field (put xs rest) ≡ (xs, rest)
field-put xs rest = ground (arith, take-length_append xs rest, drop-length_append xs rest)

abbrev put_kind : TransactionKind → Bytes → Bytes
put_kind (transfer receiver amount) rest = 0 ∷ amount ∷ put receiver rest
put_kind (set_kv key value) rest = 1 ∷ put key (put value rest)

abbrev kind_field : Bytes → TransactionKind × Bytes
kind_field [] = (set_kv [] [], [])
kind_field (zero ∷ []) = (set_kv [] [], [])
kind_field (zero ∷ amount ∷ rest) =
    let (receiver, more) = field rest in (transfer receiver amount, more)
kind_field (suc _ ∷ rest) =
    let (key, more) = field rest in let (value, last) = field more in (set_kv key value, last)

kind_field-put_kind :
    (k : TransactionKind) (rest : Bytes) → kind_field (put_kind k rest) ≡ (k, rest)
kind_field-put_kind (transfer receiver amount) rest = ground (arith, field-put receiver rest)
kind_field-put_kind (set_kv key value) rest =
    ground (arith, field-put key (put value rest), field-put value rest)

unfoldable pub write_txn : TransactionWithAccount → Bytes
write_txn t =
    t.txn.unsigned.nonce ∷ put_kind t.txn.unsigned.kind (put t.txn.signature (put t.address []))

unfoldable pub read_txn : Bytes → TransactionWithAccount
read_txn bytes =
    let (kind, more) = kind_field (drop 1 bytes) in
    let (signature, last) = field more in
    let (address, _) = field last in
    record {
      txn = record {
        unsigned = record { nonce = get_or bytes 0 0; kind = kind };
        signature = signature;
      };
      address = address;
    }

pub read_txn-write_txn : (t : TransactionWithAccount) → read_txn (write_txn t) ≡ t
unfolding read_txn write_txn
read_txn-write_txn t = ground (
  arith,
  kind_field-put_kind t.txn.unsigned.kind (put t.txn.signature (put t.address [])),
  field-put t.txn.signature (put t.address []),
  field-put t.address [],
)

abbrev put_txns : List TransactionWithAccount → Bytes
put_txns [] = []
put_txns (t ∷ ts) = put (write_txn t) (put_txns ts)

abbrev txns_field : ℕ → Bytes → List TransactionWithAccount
txns_field zero bytes = []
txns_field (suc n) bytes = let (t, rest) = field bytes in read_txn t ∷ txns_field n rest

txns_field-put_txns : (ts : List TransactionWithAccount) → txns_field (length ts) (put_txns ts) ≡ ts
txns_field-put_txns [] = refl
txns_field-put_txns (t ∷ ts) =
    ground
      (arith, field-put (write_txn t) (put_txns ts), read_txn-write_txn t, txns_field-put_txns ts)

unfoldable pub write_block : Block → Bytes
write_block b =
    b.header.number
    ∷ b.header.usecs
    ∷ length b.transactions
    ∷ put b.header.parent_state_root (put b.header.state_root (put_txns b.transactions))

unfoldable pub read_block : Bytes → Block
unfolding read_txn
read_block bytes =
    let (parent, more) = field (drop 3 bytes) in
    let (root, last) = field more in
    record {
      header = record {
        number = get_or bytes 0 0;
        parent_state_root = parent;
        state_root = root;
        usecs = get_or bytes 1 0;
      };
      transactions = txns_field (get_or bytes 2 0) last;
    }

pub read_block-write_block : (b : Block) → read_block (write_block b) ≡ b
unfolding read_block write_block
read_block-write_block b = ground (
  arith,
  field-put b.header.parent_state_root (put b.header.state_root (put_txns b.transactions)),
  field-put b.header.state_root (put_txns b.transactions),
  txns_field-put_txns b.transactions,
)

abbrev put_entries : Dict Text Text → Bytes
put_entries [] = []
put_entries ((k, v) ∷ es) = put k (put v (put_entries es))

abbrev entries_field : ℕ → Bytes → Dict Text Text
entries_field zero bytes = []
entries_field (suc n) bytes =
    let (k, more) = field bytes in let (v, rest) = field more in (k, v) ∷ entries_field n rest

entries_field-put_entries : (es : Dict Text Text) → entries_field (length es) (put_entries es) ≡ es
entries_field-put_entries [] = refl
entries_field-put_entries ((k, v) ∷ es) = ground (
  arith,
  field-put k (put v (put_entries es)),
  field-put v (put_entries es),
  entries_field-put_entries es,
)

unfoldable pub write_account : AccountState → Bytes
write_account a = a.nonce ∷ a.balance ∷ length a.kv_store ∷ put_entries a.kv_store

unfoldable pub read_account : Bytes → AccountState
read_account bytes = record {
  nonce = get_or bytes 0 0;
  balance = get_or bytes 1 0;
  kv_store = entries_field (get_or bytes 2 0) (drop 3 bytes);
}

pub read_account-write_account : (a : AccountState) → read_account (write_account a) ≡ a
unfolding read_account write_account
read_account-write_account a = ground (arith, entries_field-put_entries a.kv_store)
