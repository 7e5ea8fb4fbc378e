-- ===== src/Storage/Memory.antt =====
-- A small store in memory that has the behaviour that `Storage` documents: it shows that the
-- assumptions on the storage engine can be met, and it runs the tests.
pub mod Sorted
use choam.Base.{
  Bool, true, false, not, ◌||◌, Option, none, some, List, [], ◌∷◌, ◌≡◌, ◌≢◌, refl, sym, ap, Bytes,
  Result, ok, err, bytes_eq, bytes_eq_iff, bytes_eq_refl, starts_with, if◌then◌else◌, arith,
  Bool-cases, inl, inr,
}
use choam.Storage.{Storage, StorageLaws, TxnError, conflict, Ascending}
use Sorted.{
  Entry, lookup, insert, without, with_prefix, lookup-insert, lookup-without, insert-Ascending,
  without-Ascending, with_prefix-Ascending, entry_sound, entry_complete,
}

pub record Table : Type 0 where
  pub entries : List Entry
  pub sorted : Ascending entries

-- The table a transaction began on, what it sees now, and the keys it has written.
pub record MemoryTxn : Type 0 where
  pub base : Table
  pub seen : Table
  pub writes : List Bytes

abbrev pub get : Table → Bytes → Option Bytes
get t k = lookup k t.entries

abbrev pub store_entry : Table → Bytes → Bytes → Table
store_entry t k v = record {
  entries = insert k v t.entries;
  sorted = insert-Ascending k v t.entries t.sorted;
}

abbrev pub drop_entry : Table → Bytes → Table
drop_entry t k = record {
  entries = without k t.entries;
  sorted = without-Ascending k t.entries t.sorted;
}

abbrev same_value : Option Bytes → Option Bytes → Bool
same_value none none = true
same_value (some a) (some b) = bytes_eq a b
same_value _ _ = false

same_value_refl : (o : Option Bytes) → same_value o o ≡ true
same_value_refl none = refl
same_value_refl (some a) = bytes_eq_refl a

-- The first written key that has changed since the transaction began.
unfoldable pub first_conflict : Table → Table → List Bytes → Option Bytes
first_conflict now base [] = none
first_conflict now base (k ∷ ks) =
    let later = first_conflict now base ks in
    if same_value (get now k) (get base k) then later else some k

abbrev write_key : Table → Bytes → Option Bytes → Table
write_key t k none = drop_entry t k
write_key t k (some v) = store_entry t k v

unfoldable pub apply_writes : Table → Table → List Bytes → Table
apply_writes seen now [] = now
apply_writes seen now (k ∷ ks) = write_key (apply_writes seen now ks) k (get seen k)

unfoldable pub written : List Bytes → Bytes → Bool
written [] j = false
written (k ∷ ks) j = if bytes_eq k j then true else written ks j

abbrev finish : Table → MemoryTxn → Option Bytes → Result (TxnError ⊥) (Unit {0}) × Table
finish now t none = (ok tt, apply_writes t.seen now t.writes)
finish now t (some k) = (err (conflict k), now)

abbrev pub memory : Storage
memory = record {
  StoreError = ⊥;
  Store = Table;
  Txn = MemoryTxn;
  get = get;
  begin = λ s. record { base = s; seen = s; writes = [] };
  txn_get = λ t k. get t.seen k;
  txn_put = λ t k v. record t { seen = store_entry t.seen k v; writes = k ∷ t.writes };
  txn_delete = λ t k. record t { seen = drop_entry t.seen k; writes = k ∷ t.writes };
  txn_scan = λ t p. with_prefix p t.seen.entries;
  commit = λ s t. finish s t (first_conflict s t.base t.writes);
}

get-write_key :
    (t : Table) (k : Bytes) (o : Option Bytes) (j : Bytes)
    → get (write_key t k o) j ≡ (if bytes_eq k j then o else get t j)
get-write_key t k none j = lookup-without k j t.entries
get-write_key t k (some v) j = lookup-insert k v j t.entries

get-apply_writes :
    (seen now : Table) (ks : List Bytes) (j : Bytes)
    → get (apply_writes seen now ks) j ≡ (if written ks j then get seen j else get now j)
unfolding apply_writes written
get-apply_writes seen now [] j = refl
get-apply_writes seen now (k ∷ ks) j = elim (Bool-cases (bytes_eq k j)) [
  | inl hit ↦
      rw (get-write_key (apply_writes seen now ks) k (get seen k) j, hit)
        (ap (get seen) ((bytes_eq_iff k j).0 hit))
  | inr miss ↦ rw (
    get-write_key (apply_writes seen now ks) k (get seen k) j,
    miss,
    get-apply_writes seen now ks j,
  )
]

pub conflict-written :
    (now base : Table) (ks : List Bytes) (k : Bytes)
    → first_conflict now base ks ≡ some k
    → written ks k ≡ true
unfolding first_conflict written
conflict-written now base [] k h = cc
conflict-written now base (j ∷ ks) k h =
    ground (arith, conflict-written now base ks k, bytes_eq_iff j k)

pub no_conflict : (t : Table) (ks : List Bytes) → first_conflict t t ks ≡ none
unfolding first_conflict
no_conflict t [] = refl
no_conflict t (k ∷ ks) = rw (same_value_refl (get t k), no_conflict t ks)

pub finish-ok :
    (s : Table) (t : MemoryTxn) (o : Option Bytes) (k : Bytes)
    → (finish s t o).0 ≡ ok tt
    → get (finish s t o).1 k ≡ (if written t.writes k then get t.seen k else get s k)
finish-ok s t none k h = get-apply_writes t.seen s t.writes k
finish-ok s t (some c) k h = cc

pub finish-err :
    (s : Table) (t : MemoryTxn) (o : Option Bytes) (e : TxnError ⊥)
    → (finish s t o).0 ≡ err e
    → (finish s t o).1 ≡ s
finish-err s t none e h = cc
finish-err s t (some c) e h = refl

pub finish-conflict :
    (s : Table) (t : MemoryTxn) (o : Option Bytes) (k : Bytes)
    → (finish s t o).0 ≡ err (conflict k)
    → o ≡ some k
finish-conflict s t none k h = cc
finish-conflict s t (some c) k h = cc

-- The store in memory obeys the laws.
unfoldable pub memory_laws : StorageLaws memory
unfolding written
memory_laws = record {
  wrote = λ t. written t.writes;
  snapshot = λ t. t.base;
  get_begin = λ s k. refl;
  wrote_begin = λ s k. refl;
  snapshot_begin = λ s. refl;
  get_put = λ t k v j. lookup-insert k v j t.seen.entries;
  wrote_put = λ t k v j. refl;
  snapshot_put = λ t k v. refl;
  get_delete = λ t k j. lookup-without k j t.seen.entries;
  wrote_delete = λ t k j. refl;
  snapshot_delete = λ t k. refl;
  scan_ascending = λ t p. with_prefix-Ascending p t.seen.entries t.seen.sorted;
  scan_sound = λ t p k v i. entry_sound p k v t.seen.entries t.seen.sorted i;
  scan_complete = λ t p k v h e. entry_complete p k v t.seen.entries h e;
  commit_ok = λ s t k h. finish-ok s t (first_conflict s t.base t.writes) k h;
  commit_err = λ s t e h. finish-err s t (first_conflict s t.base t.writes) e h;
  commit_conflict = λ s t k h.
      conflict-written s t.base t.writes k
        (finish-conflict s t (first_conflict s t.base t.writes) k h);
  commit_alone = λ t k h. cc (
    no_conflict t.base t.writes,
    finish-conflict t.base t (first_conflict t.base t.base t.writes) k h,
  );
}
