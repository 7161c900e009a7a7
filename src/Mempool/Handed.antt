-- ===== src/Mempool/Handed.antt =====
-- `best_txns` of txpool/mempool.rs hands out what the pool holds.
use gravity_kvstore.Prelude.{
  ℕ, ◌≡◌, ap, sym, subst, ◌∙◌, Bytes, bytes_eq, bytes_beq, none, some, List, [], ◌∷◌, ◌++◌, ok,
  arith, append_assoc, Bool-cases, inl, inr, >>=-eq-ok, ◌>>=◌, eq_or_ne, ok-inj,
}
use gravity_kvstore.Dict
use gravity_kvstore.Dict.{Dict}
use gravity_kvstore.BTree
use gravity_kvstore.BTree.{BTree}
use gravity_kvstore.Types.Deps.{Deps}
use gravity_kvstore.Types.{TransactionWithAccount}
use gravity_kvstore.Types.Convert.{into_verified, sequence_number}
use gravity_kvstore.Mempool.{MempoolTxn, Pool, best_of_account, best_of_all, best_txns}
use gravity_kvstore.Mempool.Holds.{Holds}

-- The list has the element.
abbrev pub Has : {A : Type 0} → A → List A → Type 0
Has {A} a list = (before : List A) × (after : List A) × (list ≡ before ++ a ∷ after)

Has-left : {A : Type 0} (a : A) (xs ys : List A) → Has a xs → Has a (xs ++ ys)
Has-left a xs ys (before, after, e) =
    (before, after ++ ys, ap (λ q. q ++ ys) e ∙ append_assoc before (a ∷ after) ys)

Has-right : {A : Type 0} (a : A) (xs ys : List A) → Has a ys → Has a (xs ++ ys)
Has-right a xs ys (before, after, e) =
    (xs ++ before, after, ap (λ q. xs ++ q) e ∙ sym (append_assoc xs before (a ∷ after)))

module _ (d : Deps) (E : Type 0) where
  best_of_account-Has :
      (sender : Bytes) (n : ℕ) (txns : BTree MempoolTxn) (entry : MempoolTxn)
      {vs : List d.VerifiedTxn}
      → BTree.lookup n txns ≡ some entry
      → best_of_account d {E = E} none sender txns ≡ ok vs
      → (v : d.VerifiedTxn) × (into_verified d {E = E} entry.raw_txn ≡ ok v) × Has v vs
  unfolding best_of_account
  best_of_account-Has sender n [] entry found h = cc
  best_of_account-Has sender n ((k, txn) ∷ txns) entry {vs} found h =
      let add = λ (v : d.VerifiedTxn).
        best_of_account d {E = E} none sender txns >>= λ rest. ok (v ∷ rest) in
      let (v, into, h₁) = >>=-eq-ok (into_verified d {E = E} txn.raw_txn) add h in
      let (rest, more, h₂) =
        >>=-eq-ok (best_of_account d {E = E} none sender txns) (λ rest. ok (v ∷ rest)) h₁ in
      let same : v ∷ rest ≡ vs = ok-inj h₂ in
      elim (eq_or_ne n k) [
        | inl here ↦
            let is : txn ≡ entry = ground arith in
            (v, subst (λ q. into_verified d {E = E} q.raw_txn ≡ ok v) is into, ([], rest, sym same))
        | inr there ↦
            let found' : BTree.lookup n txns ≡ some entry = ground arith in
            let (w, into', has) = best_of_account-Has sender n txns entry found' more in
            (w, into', subst (Has w) same (Has-right w (v ∷ []) rest has))
      ]

  best_of_all-Has :
      (a : Bytes) (n : ℕ) (all : Dict Bytes (BTree MempoolTxn)) (txns : BTree MempoolTxn)
      (entry : MempoolTxn) {vs : List d.VerifiedTxn}
      → Dict.lookup a all ≡ some txns
      → BTree.lookup n txns ≡ some entry
      → best_of_all d {E = E} none all ≡ ok vs
      → (v : d.VerifiedTxn) × (into_verified d {E = E} entry.raw_txn ≡ ok v) × Has v vs
  unfolding best_of_all
  best_of_all-Has a n [] txns entry at found h = cc
  best_of_all-Has a n ((sender, entries) ∷ more) txns entry {vs} at found h =
      let add = λ (first : List d.VerifiedTxn).
        best_of_all d {E = E} none more >>= λ rest. ok (first ++ rest) in
      let (first, one, h₁) = >>=-eq-ok (best_of_account d {E = E} none sender entries) add h in
      let (rest, others, h₂) =
        >>=-eq-ok (best_of_all d {E = E} none more) (λ rest. ok (first ++ rest)) h₁ in
      let same : first ++ rest ≡ vs = ok-inj h₂ in
      elim (Bool-cases (bytes_beq sender a)) [
        | inl here ↦
            let is : entries ≡ txns = ground arith in
            let (v, into, has) = best_of_account-Has sender n entries entry (rw is found) one in
            (v, into, subst (Has v) same (Has-left v first rest has))
        | inr there ↦
            let at' : Dict.lookup a more ≡ some txns = ground arith in
            let (v, into, has) = best_of_all-Has a n more txns entry at' found others in
            (v, into, subst (Has v) same (Has-right v first rest has))
      ]

  -- What the pool holds is among what it hands out, when it does so without a panic.
  pub best_txns-Has :
      (a : Bytes) (t : TransactionWithAccount) (pool : Pool) {vs : List d.VerifiedTxn}
      → Holds a t pool
      → best_txns d {E = E} none pool ≡ ok vs
      → (v : d.VerifiedTxn) × (into_verified d {E = E} t ≡ ok v) × Has v vs
  unfolding best_txns
  best_txns-Has a t pool (entries, entry, at, found, raw) h =
      let (v, into, has) =
        best_of_all-Has a (sequence_number t) pool.mempool entries entry at found h in
      (v, subst (λ q. into_verified d {E = E} q ≡ ok v) raw into, has)
