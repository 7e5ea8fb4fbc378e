-- ===== src/Cli/Split.antt =====
-- crates/cli/src/lib.rs: `split_statement`.
pub mod Laws
use choam.Base.{
  ℕ, Bool, true, false, not, ◌&&◌, ◌==◌, Option, none, some, List, [], ◌∷◌, Bytes, if◌then◌else◌,
}

abbrev pub cons_first : ℕ → Option (Bytes × Bytes) → Option (Bytes × Bytes)
cons_first b none = none
cons_first b (some (stmt, rest)) = some (b ∷ stmt, rest)

-- 39 is the quote and 59 the semicolon; no byte of a longer character is either.
abbrev pub flips : Bool → ℕ → Bool
flips in_str b = if b == 39 then not in_str else in_str

-- The loop, from a place that is inside a string literal or not.
unfoldable pub split_from : Bool → Bytes → Option (Bytes × Bytes)
split_from in_str [] = none
split_from in_str (b ∷ bs) =
    let later = cons_first b (split_from (flips in_str b) bs) in
    if b == 59 && not in_str then some ([], bs) else later

unfoldable pub split_statement : Bytes → Option (Bytes × Bytes)
unfolding split_from
split_statement buf = split_from false buf
