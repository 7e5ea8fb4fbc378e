-- ===== src/Txn/Database/Commit.antt =====
-- What a commit makes visible, and to whom.
use choam.Base.{
  ◌≡◌, ◌≢◌, refl, ap, some, List, Bytes, Result, ok, err, panic, if◌then◌else◌, Bool-cases, inl,
  inr,
}
use choam.Row.Value.{Value, HasType}
use choam.Row.Key.Laws.{component, split-row_key_prefix, decode_key_component-component}
use choam.Row.Schema.{primary_key_type}
use choam.Storage.{Storage, StorageLaws, TxnError, conflict}
use choam.Catalog.Tables.{TableHandle, list_tables}
use choam.Txn.Error.{DbError}
use choam.Txn.Database.{begin, read, commit, committed, conflict_error, find_table, raise}
use choam.Txn.Database.Rows.{IsTable, IsKey, key_bytes, read-key}

module _ (st : Storage) (laws : StorageLaws st) where
  committed-err :
      (r : Result (TxnError st.StoreError) (Unit {0}) × st.Store) (now : st.Store)
      (e : DbError st.StoreError)
      → ((x : TxnError st.StoreError) → r.0 ≡ err x → r.1 ≡ now)
      → (committed st r).0 ≡ err e
      → (committed st r).1 ≡ now
  committed-err (ok u, after) now e k h = cc
  committed-err (err (conflict key), after) now e k h = k (conflict key) refl
  committed-err (err (TxnError.store x), after) now e k h = k (TxnError.store x) refl
  committed-err (panic, after) now e k h = cc

  -- The storage's law on commits that fail, for the errors of a database.
  pub commit-err :
      (now : st.Store) (t : st.Txn) (e : DbError st.StoreError)
      → (commit st now t).0 ≡ err e
      → (commit st now t).1 ≡ now
  unfolding commit
  commit-err now t e h = committed-err (st.commit now t) now e (laws.commit_err now t) h

  committed-ok :
      (r : Result (TxnError st.StoreError) (Unit {0}) × st.Store)
      → (committed st r).0 ≡ ok tt
      → (r.0 ≡ ok tt) × ((committed st r).1 ≡ r.1)
  committed-ok (ok u, after) h = (refl, refl)
  committed-ok (err (conflict key), after) h = absurd (raise-ne-ok (conflict_error st after key) h)
    where
      raise-ne-ok :
          (r : Result (DbError st.StoreError) (DbError st.StoreError)) → raise st r ≢ ok tt
      raise-ne-ok (ok x) e = cc
      raise-ne-ok (err x) e = cc
      raise-ne-ok panic e = cc
  committed-ok (err (TxnError.store x), after) h = cc
  committed-ok (panic, after) h = cc

  -- Over a storage engine that obeys `StorageLaws`, after a commit that succeeds a new transaction
  -- reads each row that the committed one wrote or deleted as that one saw it, and every other row
  -- as the store held it before; for a table of the catalog after the commit whose schema obeys the
  -- rules and whose id has 32 bits, and a primary key of its key type.
  pub commit-read :
      (now after : st.Store) (t : st.Txn) (name : Bytes) (handle : TableHandle) (pk : Value)
      (tbl : IsTable st after name handle)
      → commit st now t ≡ (ok tt, after)
      → HasType pk tbl.schema.key.ty
      → read st after (begin st after) name pk ≡ (
          if laws.wrote t (key_bytes handle pk)
          then read st after t name pk
          else read st after (begin st now) name pk)
  unfolding commit begin
  commit-read now after t name handle pk tbl done ty =
      let key = key_bytes handle pk in
      let (fine, kept) =
        committed-ok (st.commit now t)
          (ap (λ (p : Result (DbError st.StoreError) (Unit {0}) × st.Store). p.0) done) in
      let end : after ≡ (st.commit now t).1 =
        cc (kept, ap (λ (p : Result (DbError st.StoreError) (Unit {0}) × st.Store). p.1) done) in
      let law : st.get after key ≡ (if laws.wrote t key then st.txn_get t key else st.get now key) =
        rw end (laws.commit_ok now t key fine) in
      rw
        (
          read-key st laws after name handle tbl (st.begin after) pk ty,
          read-key st laws after name handle tbl t pk ty,
          read-key st laws after name handle tbl (st.begin now) pk ty,
          laws.get_begin after key,
          laws.get_begin now key,
        )
        (elim (Bool-cases (laws.wrote t key)) [ inl w ↦ rw (law, w) | inr n ↦ rw (law, n) ])

  -- The error that names the row of a conflicting key.
  conflict_error-row :
      (now : st.Store) (name : Bytes) (handle : TableHandle) (pk : Value)
      (tables : List TableHandle) (tbl : IsTable st now name handle)
      → IsKey tbl pk
      → list_tables st now ≡ ok tables
      → find_table handle.table_id tables ≡ some handle
      → conflict_error st now (key_bytes handle pk)
        ≡ ok (DbError.conflict handle.schema.table_name pk)
  unfolding conflict_error key_bytes primary_key_type
  conflict_error-row now name handle pk tables tbl k listed found = rw (
    split-row_key_prefix handle.table_id (component pk) tbl.id,
    listed,
    found,
    tbl.schema.key_at,
    decode_key_component-component pk tbl.schema.key.ty k.0 k.1,
  )

  -- Over a storage engine that obeys `StorageLaws`, a commit that the storage refuses for the key
  -- of a row answers with a conflict that names the table and the primary key of that row, and
  -- leaves the store as it is; for a valid primary key of a table of the catalog whose schema obeys
  -- the rules, whose id has 32 bits, and which is the first with its id in the catalog's list.
  pub commit-conflict :
      (now : st.Store) (t : st.Txn) (name : Bytes) (handle : TableHandle) (pk : Value)
      (tables : List TableHandle) (tbl : IsTable st now name handle)
      → IsKey tbl pk
      → list_tables st now ≡ ok tables
      → find_table handle.table_id tables ≡ some handle
      → (st.commit now t).0 ≡ err (conflict (key_bytes handle pk))
      → commit st now t ≡ (err (DbError.conflict handle.schema.table_name pk), now)
  unfolding commit
  commit-conflict now t name handle pk tables tbl k listed found lost =
      let key = key_bytes handle pk in
      let same = laws.commit_err now t (conflict key) lost in
      let whole : st.commit now t ≡ (err (conflict key), now) = λ i. (lost i, same i) in
      rw (whole, conflict_error-row now name handle pk tables tbl k listed found)
