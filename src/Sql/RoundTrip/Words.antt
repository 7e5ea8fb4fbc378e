-- ===== src/Sql/RoundTrip/Words.antt =====
-- A word that is not reserved is none of the keywords.
use choam.Base.{
  ℕ, zero, suc, ◌≡◌, refl, Bool, true, false, ◌||◌, ◌==◌, some, List, [], ◌∷◌, Bytes, get_elem?,
  arith,
}
use choam.Sql.Keyword.{upper, eq_ignore_ascii_case, keywords, is_any, is_keyword}

==_sym : (a b : ℕ) → (a == b) ≡ (b == a)
==_sym a b = ground arith

pub eq_ignore_ascii_case_sym :
    (as₁ bs : Bytes) → eq_ignore_ascii_case as₁ bs ≡ eq_ignore_ascii_case bs as₁
unfolding eq_ignore_ascii_case
eq_ignore_ascii_case_sym [] [] = refl
eq_ignore_ascii_case_sym [] (b ∷ bs) = refl
eq_ignore_ascii_case_sym (a ∷ as₁) [] = refl
eq_ignore_ascii_case_sym (a ∷ as₁) (b ∷ bs) =
    rw (==_sym (upper a) (upper b), eq_ignore_ascii_case_sym as₁ bs)

or_false : (a b : Bool) → (a || b) ≡ false → (a ≡ false) × (b ≡ false)
or_false false b h = (refl, h)
or_false true b h = cc

any_at :
    (ks : List Bytes) (w k : Bytes) (i : ℕ)
    → is_any ks w ≡ false
    → get_elem? ks i ≡ some k
    → eq_ignore_ascii_case k w ≡ false
unfolding is_any
any_at [] w k i h at = cc
any_at (x ∷ ks) w k zero h at =
    let (first, others) = or_false (eq_ignore_ascii_case x w) (is_any ks w) h in
    let same : x ≡ k = cc at in rw (← same) first
any_at (x ∷ ks) w k (suc i) h at =
    any_at ks w k i (or_false (eq_ignore_ascii_case x w) (is_any ks w) h).1 at

-- `i` is the keyword's place in the list.
pub not_reserved :
    (w k : Bytes) (i : ℕ)
    → is_keyword w ≡ false
    → get_elem? keywords i ≡ some k
    → eq_ignore_ascii_case w k ≡ false
unfolding is_keyword
not_reserved w k i h at = rw (eq_ignore_ascii_case_sym w k) (any_at keywords w k i h at)
