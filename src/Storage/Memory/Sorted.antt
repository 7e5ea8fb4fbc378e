-- ===== src/Storage/Memory/Sorted.antt =====
-- Sorted association lists by byte keys.
use Prim.Native.Nat.{Ordering}
use choam.Base.{
  true, false, Option, none, some, List, [], ◌∷◌, ◌≡◌, refl, sym, ◌⊎◌, inl, inr, Bytes, All,
  bytes_eq, bytes_eq_iff, bytes_eq_refl, starts_with, if◌then◌else◌, arith, Bool-cases,
}
use choam.Storage.{In, Ascending}
use mathlib.Core.Path.{subst}
use choam.Base.Order.{compare_bytes, compare_bytes-eq, compare_bytes_refl}

abbrev pub Entry : Type 0
Entry = Bytes × Bytes

unfoldable pub lookup : Bytes → List Entry → Option Bytes
lookup k [] = none
lookup k ((j, w) ∷ m) = if bytes_eq j k then some w else lookup k m

abbrev place : Ordering → Bytes → Bytes → Entry → List Entry → List Entry → List Entry
place Ordering.lt k v e m rest = (k, v) ∷ e ∷ m
place Ordering.eq k v e m rest = (k, v) ∷ m
place Ordering.gt k v e m rest = e ∷ rest

unfoldable pub insert : Bytes → Bytes → List Entry → List Entry
insert k v [] = (k, v) ∷ []
insert k v ((j, w) ∷ m) = place (compare_bytes k j) k v (j, w) m (insert k v m)

unfoldable pub without : Bytes → List Entry → List Entry
without k [] = []
without k ((j, w) ∷ m) = let rest = without k m in if bytes_eq k j then rest else (j, w) ∷ rest

unfoldable pub with_prefix : Bytes → List Entry → List Entry
with_prefix p [] = []
with_prefix p ((j, w) ∷ m) =
    let rest = with_prefix p m in if starts_with p j then (j, w) ∷ rest else rest

compare_bytes_trans :
    (a b c : Bytes)
    → compare_bytes a b ≡ Ordering.lt
    → compare_bytes b c ≡ Ordering.lt
    → compare_bytes a c ≡ Ordering.lt
unfolding compare_bytes
compare_bytes_trans [] [] c h k = cc
compare_bytes_trans [] (y ∷ b) [] h k = cc
compare_bytes_trans [] (y ∷ b) (z ∷ c) h k = refl
compare_bytes_trans (x ∷ a) [] c h k = cc
compare_bytes_trans (x ∷ a) (y ∷ b) [] h k = cc
compare_bytes_trans (x ∷ a) (y ∷ b) (z ∷ c) h k = ground (arith, compare_bytes_trans a b c)

compare_bytes-gt : (a b : Bytes) → compare_bytes a b ≡ Ordering.gt → compare_bytes b a ≡ Ordering.lt
unfolding compare_bytes
compare_bytes-gt [] [] h = cc
compare_bytes-gt [] (y ∷ b) h = cc
compare_bytes-gt (x ∷ a) [] h = refl
compare_bytes-gt (x ∷ a) (y ∷ b) h = ground (arith, compare_bytes-gt a b)

lt_ne : (a b : Bytes) → compare_bytes a b ≡ Ordering.lt → bytes_eq a b ≡ false
lt_ne a b h = ground (arith, bytes_eq_iff a b, compare_bytes_refl a)

pub lookup-insert :
    (k v j : Bytes) (m : List Entry)
    → lookup j (insert k v m) ≡ (if bytes_eq k j then some v else lookup j m)
unfolding lookup insert
lookup-insert k v j [] = refl
lookup-insert k v j ((i, w) ∷ m) = ground (
  arith,
  lookup-insert k v j m,
  compare_bytes-eq k i,
  bytes_eq_iff k j,
  bytes_eq_iff i j,
  compare_bytes_refl k,
)

pub lookup-without :
    (k j : Bytes) (m : List Entry)
    → lookup j (without k m) ≡ (if bytes_eq k j then none else lookup j m)
unfolding lookup without
lookup-without k j [] = ground arith
lookup-without k j ((i, w) ∷ m) =
    ground (arith, lookup-without k j m, bytes_eq_iff k i, bytes_eq_iff k j, bytes_eq_iff i j)

above :
    (a b : Bytes) (m : List Entry)
    → compare_bytes a b ≡ Ordering.lt
    → All (λ (e : Entry). compare_bytes b e.0 ≡ Ordering.lt) m
    → All (λ (e : Entry). compare_bytes a e.0 ≡ Ordering.lt) m
above a b [] h k = tt
above a b (e ∷ m) h k = (compare_bytes_trans a b e.0 h k.0, above a b m h k.1)

place-All :
    (P : Entry → Type 0) (o : Ordering) (k v : Bytes) (e : Entry) (m rest : List Entry)
    → P (k, v)
    → P e
    → All P m
    → All P rest
    → All P (place o k v e m rest)
place-All P Ordering.lt k v e m rest pk pe pm pr = (pk, (pe, pm))
place-All P Ordering.eq k v e m rest pk pe pm pr = (pk, pm)
place-All P Ordering.gt k v e m rest pk pe pm pr = (pe, pr)

insert-All :
    (P : Entry → Type 0) (k v : Bytes) (m : List Entry) → P (k, v) → All P m → All P (insert k v m)
unfolding insert
insert-All P k v [] h a = (h, tt)
insert-All P k v ((j, w) ∷ m) h a =
    place-All P (compare_bytes k j) k v (j, w) m (insert k v m) h a.0 a.1 (insert-All P k v m h a.1)

Ordering-cases : (o : Ordering) → (o ≡ Ordering.lt) ⊎ ((o ≡ Ordering.eq) ⊎ (o ≡ Ordering.gt))
Ordering-cases Ordering.lt = inl refl
Ordering-cases Ordering.eq = inr (inl refl)
Ordering-cases Ordering.gt = inr (inr refl)

pub insert-Ascending : (k v : Bytes) (m : List Entry) → Ascending m → Ascending (insert k v m)
unfolding insert
insert-Ascending k v [] s = (tt, tt)
insert-Ascending k v ((j, w) ∷ m) s =
    let rest = insert-Ascending k v m s.1 in
    elim (Ordering-cases (compare_bytes k j)) [
      | inl lower ↦ rw lower ((lower, above k j m lower s.0), s)
      | inr (inl same) ↦ rw same (
        subst (λ b. All (λ (e : Entry). compare_bytes b e.0 ≡ Ordering.lt) m)
            (sym (compare_bytes-eq k j same)) s.0,
        s.1,
      )
      | inr (inr higher) ↦ rw higher (
        insert-All (λ e. compare_bytes j e.0 ≡ Ordering.lt) k v m (compare_bytes-gt k j higher) s.0,
        rest,
      )
    ]

without-All : (P : Entry → Type 0) (k : Bytes) (m : List Entry) → All P m → All P (without k m)
unfolding without
without-All P k [] a = tt
without-All P k ((j, w) ∷ m) a = elim (Bool-cases (bytes_eq k j)) [
  | inl hit ↦ rw hit (without-All P k m a.1)
  | inr miss ↦ rw miss (a.0, without-All P k m a.1)
]

pub without-Ascending : (k : Bytes) (m : List Entry) → Ascending m → Ascending (without k m)
unfolding without
without-Ascending k [] s = tt
without-Ascending k ((j, w) ∷ m) s =
    let rest = without-Ascending k m s.1 in
    let over = without-All (λ e. compare_bytes j e.0 ≡ Ordering.lt) k m s.0 in
    elim (Bool-cases (bytes_eq k j)) [ inl hit ↦ rw hit rest | inr miss ↦ rw miss (over, rest) ]

with_prefix-All :
    (P : Entry → Type 0) (p : Bytes) (m : List Entry) → All P m → All P (with_prefix p m)
unfolding with_prefix
with_prefix-All P p [] a = tt
with_prefix-All P p ((j, w) ∷ m) a = elim (Bool-cases (starts_with p j)) [
  | inl hit ↦ rw hit (a.0, with_prefix-All P p m a.1)
  | inr miss ↦ rw miss (with_prefix-All P p m a.1)
]

pub with_prefix-Ascending : (p : Bytes) (m : List Entry) → Ascending m → Ascending (with_prefix p m)
unfolding with_prefix
with_prefix-Ascending p [] s = tt
with_prefix-Ascending p ((j, w) ∷ m) s =
    let rest = with_prefix-Ascending p m s.1 in
    let over = with_prefix-All (λ e. compare_bytes j e.0 ≡ Ordering.lt) p m s.0 in
    elim (Bool-cases (starts_with p j)) [ inl hit ↦ rw hit (over, rest) | inr miss ↦ rw miss rest ]

In-All : (P : Entry → Type 0) (e : Entry) (m : List Entry) → All P m → In e m → P e
In-All P e [] a i = absurd i
In-All P e (x ∷ m) a (inl same) = subst P (sym same) a.0
In-All P e (x ∷ m) a (inr i) = In-All P e m a.1 i

In-lookup : (k v : Bytes) (m : List Entry) → Ascending m → In (k, v) m → lookup k m ≡ some v
unfolding lookup
In-lookup k v [] s i = absurd i
In-lookup k v ((j, w) ∷ m) s (inl same) = ground (arith, same, bytes_eq_refl k)
In-lookup k v ((j, w) ∷ m) s (inr i) =
    let below = In-All (λ e. compare_bytes j e.0 ≡ Ordering.lt) (k, v) m s.0 i in
    rw (lt_ne j k below) (In-lookup k v m s.1 i)

lookup-In : (k v : Bytes) (m : List Entry) → lookup k m ≡ some v → In (k, v) m
unfolding lookup
lookup-In k v [] h = cc
lookup-In k v ((j, w) ∷ m) h = elim (Bool-cases (bytes_eq j k)) [
  | inl hit ↦ inl (ground (arith, bytes_eq_iff j k))
  | inr miss ↦ inr (lookup-In k v m (ground arith))
]

with_prefix-In :
    (p k v : Bytes) (m : List Entry)
    → In (k, v) (with_prefix p m)
    → (starts_with p k ≡ true) × In (k, v) m
unfolding with_prefix
with_prefix-In p k v [] i = absurd i
with_prefix-In p k v ((j, w) ∷ m) i = elim (Bool-cases (starts_with p j)) [
  | inl hit ↦
      let i' : (◌≡◌ {A = Entry} (k, v) (j, w)) ⊎ In (k, v) (with_prefix p m) = rw hit at i in
      elim i' [
        | inl same ↦ (subst (λ (e : Entry). starts_with p e.0 ≡ true) (sym same) hit, inl same)
        | inr later ↦ let (q, r) = with_prefix-In p k v m later in (q, inr r)
      ]
  | inr miss ↦ let (q, r) = with_prefix-In p k v m (rw miss at i) in (q, inr r)
]

In-with_prefix :
    (p k v : Bytes) (m : List Entry)
    → starts_with p k ≡ true
    → In (k, v) m
    → In (k, v) (with_prefix p m)
unfolding with_prefix
In-with_prefix p k v [] h i = absurd i
In-with_prefix p k v ((j, w) ∷ m) h (inl same) =
    let hit : starts_with p j ≡ true = subst (λ (e : Entry). starts_with p e.0 ≡ true) same h in
    rw hit (inl same)
In-with_prefix p k v ((j, w) ∷ m) h (inr i) =
    let later = In-with_prefix p k v m h i in
    elim (Bool-cases (starts_with p j)) [ inl hit ↦ rw hit (inr later) | inr miss ↦ rw miss later ]

pub entry_sound :
    (p k v : Bytes) (m : List Entry)
    → Ascending m
    → In (k, v) (with_prefix p m)
    → (starts_with p k ≡ true) × (lookup k m ≡ some v)
entry_sound p k v m s i = let (q, r) = with_prefix-In p k v m i in (q, In-lookup k v m s r)

pub entry_complete :
    (p k v : Bytes) (m : List Entry)
    → starts_with p k ≡ true
    → lookup k m ≡ some v
    → In (k, v) (with_prefix p m)
entry_complete p k v m h e = In-with_prefix p k v m h (lookup-In k v m e)
