-- ===== src/Txn/Database/Rows.antt =====
-- What a transaction reads after its own writes and deletions.
use choam.Base.{
  ℕ, zero, suc, ◌^◌, ◌<◌, ◌≡◌, ◌≢◌, ◌⊎◌, refl, sym, false, none, some, List, [], ◌∷◌, ◌++◌, Bytes,
  ok, get_elem?, bytes_eq, bytes_eq_iff, bytes_eq_refl, Bool-cases, inl, inr,
}
use mathlib.Core.Path.{subst}
use choam.Row.Value.{Value, HasType, IsValid}
use choam.Row.Schema.{ColumnDef, primary_key_type}
use choam.Row.Schema.Rules.{IsSchema}
use choam.Row.Row.RoundTrip.{
  FitsColumn, FitsColumns, row_bytes, encode_row-ok, decode_row-row_bytes,
}
use choam.Row.Key.{row_key, row_key_prefix}
use choam.Row.Key.Laws.{component, row_key-ok}
use choam.Row.Key.Separation.{row_key-injective, row_key-table}
use choam.Storage.{Storage, StorageLaws}
use choam.Catalog.Tables
use choam.Catalog.Tables.{TableHandle}
use choam.Txn.Database.{table_handle, handle_key, read, write, delete, decode_found}

FitsColumns-at :
    (cs : List ColumnDef) (vs : List Value) (i : ℕ) (c : ColumnDef)
    → FitsColumns cs vs
    → get_elem? cs i ≡ some c
    → (v : Value) × (get_elem? vs i ≡ some v) × FitsColumn c v
FitsColumns-at [] vs i c h e = cc
FitsColumns-at (d ∷ cs) [] i c h e = absurd h
FitsColumns-at (d ∷ cs) (v ∷ vs) zero c h e =
    let same : d ≡ c = cc in (v, refl, subst (λ x. FitsColumn x v) same h.0)
FitsColumns-at (d ∷ cs) (v ∷ vs) (suc i) c h e = FitsColumns-at cs vs i c h.1 e

-- A value of a column that is not nullable has the column's type.
key_value :
    (c : ColumnDef) (v : Value) → c.nullable ≡ false → FitsColumn c v → HasType v c.ty × IsValid v
key_value c Value.null n h = cc
key_value c v n h = (h.0, h.1)

-- A table of the catalog, with a schema that obeys the rules and an id of 32 bits.
pub record IsTable (st : Storage) (now : st.Store) (name : Bytes) (handle : TableHandle)
    : Type 0 where
  pub found : Tables.get_table st now name ≡ ok (some handle)
  pub schema : IsSchema handle.schema
  pub id : handle.table_id < 2 ^ 32

-- A value that can be the primary key of a row of the table.
abbrev pub IsKey :
    {st : Storage} {now : st.Store} {name : Bytes} {handle : TableHandle}
    → IsTable st now name handle
    → Value
    → Type 0
IsKey tbl pk = HasType pk tbl.schema.key.ty × IsValid pk

-- The storage key of a row.
unfoldable pub key_bytes : TableHandle → Value → Bytes
key_bytes handle pk = row_key_prefix handle.table_id ++ component pk

-- Two rows in different tables, or two rows of one table.
abbrev pub DifferentRow : TableHandle → Value → TableHandle → Value → Type 0
DifferentRow handle pk handle' pk' =
    (handle.table_id ≢ handle'.table_id) ⊎ ((handle ≡ handle') × (pk ≢ pk'))

module _ (st : Storage) (laws : StorageLaws st) (now : st.Store) where
  module _ (name : Bytes) (handle : TableHandle) (tbl : IsTable st now name handle) where
    pub table_handle-ok : table_handle st now name ≡ ok handle
    unfolding table_handle
    table_handle-ok = rw tbl.found

    pub handle_key-ok :
        (pk : Value)
        → HasType pk tbl.schema.key.ty
        → handle_key st handle pk ≡ ok (key_bytes handle pk)
    unfolding handle_key primary_key_type key_bytes
    handle_key-ok pk h = rw (tbl.schema.key_at, row_key-ok handle.table_id pk tbl.schema.key.ty h)

    pub read-key :
        (t : st.Txn) (pk : Value)
        → HasType pk tbl.schema.key.ty
        → read st now t name pk ≡ decode_found st handle.schema (st.txn_get t (key_bytes handle pk))
    unfolding read
    read-key t pk h = rw (table_handle-ok, handle_key-ok pk h)

    -- The value in the primary-key column of a row that fits.
    pub row_key_value :
        (vs : List Value)
        → FitsColumns handle.schema.columns vs
        → (pk : Value) × (get_elem? vs handle.schema.primary_key ≡ some pk)
          × (HasType pk tbl.schema.key.ty × IsValid pk)
    row_key_value vs h =
        let (v, at, fits) =
          FitsColumns-at handle.schema.columns vs handle.schema.primary_key tbl.schema.key h
            tbl.schema.key_at in
        (v, at, key_value tbl.schema.key v tbl.schema.key_not_null fits)

    pub write-key :
        (t : st.Txn) (vs : List Value) (pk : Value)
        → FitsColumns handle.schema.columns vs
        → get_elem? vs handle.schema.primary_key ≡ some pk
        → HasType pk tbl.schema.key.ty
        → write st now t name vs
          ≡ ok (st.txn_put t (key_bytes handle pk) (row_bytes handle.schema vs))
    unfolding write
    write-key t vs pk h at ty =
        rw (table_handle-ok, at, handle_key-ok pk ty, encode_row-ok handle.schema vs h)

    pub delete-key :
        (t : st.Txn) (pk : Value)
        → HasType pk tbl.schema.key.ty
        → delete st now t name pk ≡ ok (st.txn_delete t (key_bytes handle pk))
    unfolding delete
    delete-key t pk ty = rw (table_handle-ok, handle_key-ok pk ty)

    -- Over a storage engine that obeys `StorageLaws`, in a table of the catalog whose schema obeys
    -- the rules and whose id has 32 bits: a row that fits the schema can be written in a
    -- transaction, and reading its primary key in that transaction then gives the row.
    pub read-write :
        (t : st.Txn) (vs : List Value)
        → FitsColumns handle.schema.columns vs
        → (pk : Value) × (t' : st.Txn) × (get_elem? vs handle.schema.primary_key ≡ some pk)
          × (write st now t name vs ≡ ok t')
          × (read st now t' name pk ≡ ok (some vs))
    read-write t vs h =
        let (pk, at, (ty, valid)) = row_key_value vs h in
        let t' = st.txn_put t (key_bytes handle pk) (row_bytes handle.schema vs) in
        (
          pk,
          t',
          at,
          write-key t vs pk h at ty,
          rw (
            read-key t' pk ty,
            laws.get_put t (key_bytes handle pk) (row_bytes handle.schema vs) (key_bytes handle pk),
            bytes_eq_refl (key_bytes handle pk),
            decode_row-row_bytes handle.schema vs h,
          ),
        )

    -- Over a storage engine that obeys `StorageLaws`, in a table of the catalog whose schema obeys
    -- the rules and whose id has 32 bits: deleting a primary key of the key type succeeds, and the
    -- transaction then reads no row there.
    pub read-delete :
        (t : st.Txn) (pk : Value)
        → HasType pk tbl.schema.key.ty
        → (t' : st.Txn) × (delete st now t name pk ≡ ok t') × (read st now t' name pk ≡ ok none)
    read-delete t pk ty =
        let t' = st.txn_delete t (key_bytes handle pk) in
        (
          t',
          delete-key t pk ty,
          rw (
            read-key t' pk ty,
            laws.get_delete t (key_bytes handle pk) (key_bytes handle pk),
            bytes_eq_refl (key_bytes handle pk),
          ),
        )

  module _ (name name' : Bytes) (handle handle' : TableHandle) (tbl : IsTable st now name handle)
      (tbl' : IsTable st now name' handle') where
    rows_apart :
        (pk pk' : Value)
        → IsKey tbl pk
        → IsKey tbl' pk'
        → DifferentRow handle pk handle' pk'
        → bytes_eq (key_bytes handle pk) (key_bytes handle' pk') ≡ false
    unfolding key_bytes
    rows_apart pk pk' k k' d =
        elim (Bool-cases (bytes_eq (key_bytes handle pk) (key_bytes handle' pk'))) [
          | inr miss ↦ miss
          | inl hit ↦
              let same : key_bytes handle pk ≡ key_bytes handle' pk' = (bytes_eq_iff _ _).0 hit in
              let mine = row_key-ok handle.table_id pk tbl.schema.key.ty k.0 in
              let other = row_key-ok handle'.table_id pk' tbl'.schema.key.ty k'.0 in
              elim d [
                | inl tables ↦ absurd (
                    tables (
                      row_key-table handle.table_id handle'.table_id pk pk' tbl.schema.key.ty
                        tbl'.schema.key.ty (key_bytes handle' pk') tbl.id tbl'.id k.1 k'.1
                        (rw same at mine) other))
                | inr (one, rows) ↦
                    let at : get_elem? handle.schema.columns handle.schema.primary_key
                        ≡ some tbl'.schema.key =
                      subst
                        (λ (h : TableHandle).
                          get_elem? h.schema.columns h.schema.primary_key ≡ some tbl'.schema.key)
                        (sym one) tbl'.schema.key_at in
                    let keys : tbl.schema.key ≡ tbl'.schema.key = cc (at, tbl.schema.key_at) in
                    let other' : row_key handle'.table_id pk' tbl.schema.key.ty
                        ≡ ok (key_bytes handle' pk') =
                      rw keys other in
                    absurd (
                      rows
                        (row_key-injective handle.table_id handle'.table_id pk pk' tbl.schema.key.ty
                          (key_bytes handle' pk') tbl.id tbl'.id k.1 k'.1 (rw same at mine)
                          other').1)
              ]
        ]

    -- Over a storage engine that obeys `StorageLaws`, a successful write of a row that fits its
    -- table leaves what every other row reads as it was: another primary key of the same table, or
    -- any primary key of a table with another id; for valid primary keys of tables of the catalog
    -- whose schemas obey the rules and whose ids have 32 bits.
    pub read-write_other :
        (t t' : st.Txn) (vs : List Value) (pk pk' : Value)
        → FitsColumns handle.schema.columns vs
        → get_elem? vs handle.schema.primary_key ≡ some pk
        → IsKey tbl' pk'
        → DifferentRow handle pk handle' pk'
        → write st now t name vs ≡ ok t'
        → read st now t' name' pk' ≡ read st now t name' pk'
    read-write_other t t' vs pk pk' h at k' d w =
        let (pk₁, at₁, k) = row_key_value name handle tbl vs h in
        let one : pk₁ ≡ pk = cc (at, at₁) in
        let k₂ : IsKey tbl pk = subst (λ p. IsKey tbl p) one k in
        let final : t' ≡ st.txn_put t (key_bytes handle pk) (row_bytes handle.schema vs) =
          cc (w, write-key name handle tbl t vs pk h at k₂.0) in
        rw (
          read-key name' handle' tbl' t' pk' k'.0,
          read-key name' handle' tbl' t pk' k'.0,
          final,
          laws.get_put t (key_bytes handle pk) (row_bytes handle.schema vs) (key_bytes handle' pk'),
          rows_apart pk pk' k₂ k' d,
        )
