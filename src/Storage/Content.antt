-- ===== src/Storage/Content.antt =====
-- What a key of the database of state/storage.rs holds, after a save and for a load.
use gravity_kvstore.Prelude.{
  ℕ, ◌<◌, ◌≡◌, ◌≢◌, refl, ◌∙◌, Text, Bytes, bytes_eq, bytes_beq, bytes_beq_ne, bytes_beq_refl,
  Option, none, some, [], ◌∷◌, Outcome, ok, ◌==◌, if◌then◌else◌, All, u64_mod, arith, inl, inr,
  replicate, map_err, ◌>>=◌, eq_or_ne,
}
use gravity_kvstore.Dict.{Dict, insert}
use gravity_kvstore.Types.{AccountId}
use gravity_kvstore.Storage.{Stored, StorageError, failed_to_deserialize}
use gravity_kvstore.Storage.Keys.{block_key, state_root_key}
use gravity_kvstore.Storage.Distinct.{keys-injective, keys_distinct}
use gravity_kvstore.Storage.Sled.{Sled, insert_and_flush, save, load}
use gravity_kvstore.Storage.Reliable.{SledLaws, last_of}

-- A batch leaves a key alone that is not among its own.
pub last_of-apart :
    (k : Bytes) (pairs : Dict Bytes Bytes) (old : Option Bytes)
    → All (λ p. p.0 ≢ k) pairs
    → last_of k pairs old ≡ old
last_of-apart k [] old h = refl
last_of-apart k ((j, v) ∷ pairs) old h = rw (bytes_beq_ne j k h.0) (last_of-apart k pairs old h.1)

pub insert-apart :
    (k j v : Bytes) (pairs : Dict Bytes Bytes)
    → j ≢ k
    → All (λ p. p.0 ≢ k) pairs
    → All (λ p. p.0 ≢ k) (insert j v pairs)
insert-apart k j v [] ne h = (ne, tt)
insert-apart k j v ((i, w) ∷ pairs) ne h = ground (arith, insert-apart k j v pairs ne h.1)

pub block_key-test :
    (m n : ℕ) → m < u64_mod → n < u64_mod → bytes_beq (block_key m) (block_key n) ≡ (m == n)
block_key-test m n hm hn = elim (eq_or_ne m n) [
  | inl e ↦ rw e (bytes_beq_refl (block_key n) ∙ ground arith)
  | inr ne ↦
      bytes_beq_ne (block_key m) (block_key n) (λ e. ne (keys-injective m n hm hn (inl e)))
      ∙ ground arith
]

pub root_key-test :
    (m n : ℕ)
    → m < u64_mod
    → n < u64_mod
    → bytes_beq (state_root_key m) (state_root_key n) ≡ (m == n)
root_key-test m n hm hn = elim (eq_or_ne m n) [
  | inl e ↦ rw e (bytes_beq_refl (state_root_key n) ∙ ground arith)
  | inr ne ↦
      bytes_beq_ne (state_root_key m) (state_root_key n)
        (λ e. ne (keys-injective m n hm hn (inr e)))
      ∙ ground arith
]

-- An id that is no bytes of a hash, to take the distinctness of the other keys from.
abbrev no_id : AccountId
no_id = record { text = [] }

pub keys_apart : (n m : ℕ) → block_key n ≢ state_root_key m
keys_apart n m = (keys_distinct n m no_id (replicate 32 0) refl (omega arith)).0

-- What `load` makes of the value under a key.
abbrev pub read_as :
    {A : Type 0}
    → Stored
    → (Bytes → Outcome Text A)
    → Option Bytes
    → Outcome StorageError (Option A)
read_as kind deserialize none = ok none
read_as kind deserialize (some bytes) =
    map_err (failed_to_deserialize kind) (deserialize bytes) >>= λ value. ok (some value)

module _ (sled : Sled) (laws : SledLaws sled) where
  abbrev pub saved : Bytes → Bytes → sled.Db → sled.Db
  saved k v db = laws.flushed (laws.inserted k v db)

  pub save-ok :
      (kind : Stored) (k v : Bytes) (db : sled.Db)
      → save sled kind k (ok v) db ≡ (ok tt, saved k v db)
  unfolding save insert_and_flush
  save-ok kind k v db = ground (arith, laws.insert-ok k v db, laws.flush-ok (laws.inserted k v db))

  pub content-saved :
      (k v : Bytes) (db : sled.Db) (j : Bytes)
      → laws.content (saved k v db) j ≡ (if bytes_beq k j then some v else laws.content db j)
  content-saved k v db j = rw (laws.content-flushed, laws.content-inserted)

  pub load-eq-read_as :
      {A : Type 0} (kind : Stored) (des : Bytes → Outcome Text A) (k : Bytes) (db : sled.Db)
      → load sled kind des k db ≡ read_as kind des (laws.content db k)
  unfolding load
  load-eq-read_as kind des k db = rw laws.get-content (ground arith)
