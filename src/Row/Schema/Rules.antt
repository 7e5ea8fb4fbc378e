-- ===== src/Row/Schema/Rules.antt =====
-- What `Schema::new` accepts.
use choam.Base.{
  ℕ, zero, suc, ◌<◌, ◌≡◌, ◌≢◌, refl, false, none, some, List, [], ◌∷◌, Bytes, ok, panic, length,
  leb, All, arith, bytes_eq_iff, get_elem?, get_elem?-lt, Bool-cases, Option-cases, inl, inr,
}
use choam.Row.Schema.{ColumnDef, Schema, new, is_repeated, first_duplicate}

-- No two columns have one name.
abbrev pub Distinct : List ColumnDef → Type 0
Distinct [] = Unit
Distinct (c ∷ cs) = All (λ d. c.name ≢ d.name) cs × Distinct cs

-- The rules that every schema in the system obeys.
pub record IsSchema (s : Schema) : Type 0 where
  pub key : ColumnDef
  pub key_at : get_elem? s.columns s.primary_key ≡ some key
  pub key_not_null : key.nullable ≡ false
  pub distinct : Distinct s.columns

fresh_name :
    (name : Bytes) (cs : List ColumnDef) → is_repeated name cs ≡ false → All (λ d. name ≢ d.name) cs
unfolding is_repeated
fresh_name name [] h = tt
fresh_name name (c ∷ cs) h =
    (λ e. ground (arith, bytes_eq_iff name c.name, e), fresh_name name cs (ground arith))

fresh_is_repeated :
    (name : Bytes) (cs : List ColumnDef) → All (λ d. name ≢ d.name) cs → is_repeated name cs ≡ false
unfolding is_repeated
fresh_is_repeated name [] h = refl
fresh_is_repeated name (c ∷ cs) h =
    ground (arith, bytes_eq_iff name c.name, h.0, fresh_is_repeated name cs h.1)

no_duplicate : (cs : List ColumnDef) → first_duplicate cs ≡ none → Distinct cs
unfolding first_duplicate
no_duplicate [] h = tt
no_duplicate (c ∷ cs) h = (fresh_name c.name cs (ground arith), no_duplicate cs (ground arith))

Distinct-first_duplicate : (cs : List ColumnDef) → Distinct cs → first_duplicate cs ≡ none
unfolding first_duplicate
Distinct-first_duplicate [] h = refl
Distinct-first_duplicate (c ∷ cs) h =
    ground (arith, fresh_is_repeated c.name cs h.0, Distinct-first_duplicate cs h.1)

get_elem?-length :
    {A : Type 0} (xs : List A) (i : ℕ) {a : A} → get_elem? xs i ≡ some a → i < length xs
get_elem?-length [] i h = cc
get_elem?-length (x ∷ xs) zero h = omega arith
get_elem?-length (x ∷ xs) (suc i) h = omega (arith, get_elem?-length xs i h)

new_inverts :
    (t : Bytes) (cs : List ColumnDef) (k : ℕ) {s : Schema}
    → new t cs k ≡ ok s
    → (c : ColumnDef) × (get_elem? cs k ≡ some c)
      × (c.nullable ≡ false)
      × (first_duplicate cs ≡ none)
      × (s ≡ record { table_name = t; columns = cs; primary_key = k })
unfolding new
new_inverts t cs k {s} h = elim (Option-cases (get_elem? cs k)) [
  | inl out ↦ ground arith
  | inr (c, at) ↦ (c, at, ground arith, ground arith, ground arith)
]

-- A schema that `Schema::new` accepts keeps its arguments and obeys the rules: the primary key is
-- one of its columns and is not nullable, and no two columns have one name.
pub new-IsSchema :
    (t : Bytes) (cs : List ColumnDef) (k : ℕ) {s : Schema}
    → new t cs k ≡ ok s
    → IsSchema s × (s.table_name ≡ t) × (s.columns ≡ cs) × (s.primary_key ≡ k)
unfolding new
new-IsSchema t cs k {s} h =
    let (c, at, nn, fresh, same) = new_inverts t cs k h in
    rw same (
      record { key = c; key_at = at; key_not_null = nn; distinct = no_duplicate cs fresh },
      refl,
      refl,
      refl,
    )

-- `Schema::new` accepts the name, the columns and the primary key of every schema that obeys the
-- rules, and gives back that schema.
pub IsSchema-new : (s : Schema) → IsSchema s → new s.table_name s.columns s.primary_key ≡ ok s
unfolding new
IsSchema-new s v = ground (
  arith,
  get_elem?-length s.columns s.primary_key v.key_at,
  v.key_at,
  v.key_not_null,
  Distinct-first_duplicate s.columns v.distinct,
)

-- `Schema::new` never panics: its index into the columns is always in range.
pub new-ne-panic : (t : Bytes) (cs : List ColumnDef) (k : ℕ) → new t cs k ≢ panic
unfolding new
new-ne-panic t cs k h = elim (Bool-cases (leb (length cs) k)) [
  | inl far ↦ ground arith
  | inr near ↦ let (c, at) = get_elem?-lt cs k (ground arith) in ground (arith, at)
]
