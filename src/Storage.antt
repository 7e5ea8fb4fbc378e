-- ===== src/Storage.antt =====
-- The storage engine `sietch` (the crate `storage`), which is not part of the repository: the
-- operations of `TransactionalStore` and `Transaction` that the crates call, and what they rely on.
pub mod Memory
use choam.Base.{
  Bool, true, false, Option, none, some, List, [], ◌∷◌, ◌≡◌, ◌≢◌, ◌⊎◌, Bytes, All, Result, ok, err,
  bytes_eq, starts_with, if◌then◌else◌,
}
use choam.Base.Order.{compare_bytes}
use Prim.Native.Nat.{Ordering}

-- `TxnError`
pub data TxnError (StoreError : Type 0) : Type 0 where
  conflict : Bytes → TxnError StoreError
  store : StoreError → TxnError StoreError

-- `Store` is what the shared store holds, `Txn` an open transaction. `commit` gives its answer and
-- the store after it.
pub record Storage : Type 1 where
  pub StoreError : Type 0
  pub Store : Type 0
  pub Txn : Type 0
  pub get : Store → Bytes → Option Bytes
  pub begin : Store → Txn
  pub txn_get : Txn → Bytes → Option Bytes
  pub txn_put : Txn → Bytes → Bytes → Txn
  pub txn_delete : Txn → Bytes → Txn
  pub txn_scan : Txn → Bytes → List (Bytes × Bytes)
  pub commit : Store → Txn → Result (TxnError StoreError) (Unit {0}) × Store

abbrev pub In : Bytes × Bytes → List (Bytes × Bytes) → Type 0
In x [] = ⊥
In x (y ∷ ys) = (x ≡ y) ⊎ In x ys

-- Strictly ascending keys.
abbrev pub Ascending : List (Bytes × Bytes) → Type 0
Ascending [] = Unit
Ascending ((k, v) ∷ m) =
    All (λ (e : Bytes × Bytes). compare_bytes k e.0 ≡ Ordering.lt) m × Ascending m

-- What `sietch` documents: a transaction reads its own writes over a snapshot, a scan lists the
-- live keys with a prefix in order, and a commit applies the writes as a whole or not at all.
-- `wrote` says which keys a transaction has written, and `snapshot` what it began on.
pub record StorageLaws (st : Storage) : Type 1 where
  pub wrote : st.Txn → Bytes → Bool
  pub snapshot : st.Txn → st.Store
  pub get_begin : (s : st.Store) (k : Bytes) → st.txn_get (st.begin s) k ≡ st.get s k
  pub wrote_begin : (s : st.Store) (k : Bytes) → wrote (st.begin s) k ≡ false
  pub snapshot_begin : (s : st.Store) → snapshot (st.begin s) ≡ s
  pub get_put :
      (t : st.Txn) (k v j : Bytes)
      → st.txn_get (st.txn_put t k v) j ≡ (if bytes_eq k j then some v else st.txn_get t j)
  pub wrote_put :
      (t : st.Txn) (k v j : Bytes)
      → wrote (st.txn_put t k v) j ≡ (if bytes_eq k j then true else wrote t j)
  pub snapshot_put : (t : st.Txn) (k v : Bytes) → snapshot (st.txn_put t k v) ≡ snapshot t
  pub get_delete :
      (t : st.Txn) (k j : Bytes)
      → st.txn_get (st.txn_delete t k) j ≡ (if bytes_eq k j then none else st.txn_get t j)
  pub wrote_delete :
      (t : st.Txn) (k j : Bytes)
      → wrote (st.txn_delete t k) j ≡ (if bytes_eq k j then true else wrote t j)
  pub snapshot_delete : (t : st.Txn) (k : Bytes) → snapshot (st.txn_delete t k) ≡ snapshot t
  pub scan_ascending : (t : st.Txn) (p : Bytes) → Ascending (st.txn_scan t p)
  pub scan_sound :
      (t : st.Txn) (p k v : Bytes)
      → In (k, v) (st.txn_scan t p)
      → (starts_with p k ≡ true) × (st.txn_get t k ≡ some v)
  pub scan_complete :
      (t : st.Txn) (p k v : Bytes)
      → starts_with p k ≡ true
      → st.txn_get t k ≡ some v
      → In (k, v) (st.txn_scan t p)
  pub commit_ok :
      (s : st.Store) (t : st.Txn) (k : Bytes)
      → (st.commit s t).0 ≡ ok tt
      → st.get (st.commit s t).1 k ≡ (if wrote t k then st.txn_get t k else st.get s k)
  pub commit_err :
      (s : st.Store) (t : st.Txn) (e : TxnError st.StoreError)
      → (st.commit s t).0 ≡ err e
      → (st.commit s t).1 ≡ s
  pub commit_conflict :
      (s : st.Store) (t : st.Txn) (k : Bytes)
      → (st.commit s t).0 ≡ err (conflict k)
      → wrote t k ≡ true
  pub commit_alone : (t : st.Txn) (k : Bytes) → (st.commit (snapshot t) t).0 ≢ err (conflict k)
