-- ===== src/Cli/Split/Laws.antt =====
-- What `split_statement` splits, and where.
use choam.Base.{
  ==_iff, sym, ◌∙◌, zero, suc, ◌+◌, ◌%◌, ◌≢◌, ◌⊎◌, take, get_elem?, ℕ, Bool, true, false, not, ◌&&◌,
  ◌==◌, ◌≡◌, ◌↔◌, refl, ap, Option, none, some, Option-cases, Bool-cases, inl, inr, [], ◌∷◌, ◌++◌,
  Bytes, if◌then◌else◌, arith,
}
use choam.Cli.Split.{cons_first, flips, split_from, split_statement}

-- Is the end of a text inside a string literal?
unfoldable pub ends_in_string : Bool → Bytes → Bool
ends_in_string in_str [] = in_str
ends_in_string in_str (b ∷ bs) = ends_in_string (flips in_str b) bs

-- What the scan finds of a statement: nothing to split off, and no open literal at its end.
abbrev Scanned : Bool → Bytes → Type 0
Scanned in_str s = (split_from in_str s ≡ none) × (ends_in_string in_str s ≡ false)

-- How many quotes a text has; 39 is the quote.
abbrev quote : ℕ → ℕ
quote b = if b == 39 then 1 else 0

unfoldable pub quotes : Bytes → ℕ
quotes [] = 0
quotes (b ∷ bs) = quote b + quotes bs

-- A statement: its quotes are even in number, and each of its semicolons has an odd number of quotes
-- in front of it.
abbrev pub IsStatement : Bytes → Type 0
IsStatement s =
    (quotes s % 2 ≡ 0) × ((i : ℕ) → (get_elem? s i ≢ some 59) ⊎ (quotes (take i s) % 2 ≡ 1))

either :
    (found : Bool) (b : ℕ) (bs : Bytes) (later : Option (Bytes × Bytes))
    → (if found then some ([], bs) else cons_first b later) ≡ none
    → (found ≡ false) × (later ≡ none)
either true b bs later h = cc
either false b bs none h = (refl, refl)
either false b bs (some (s, r)) h = cc

split_none :
    (in_str : Bool) (b : ℕ) (bs : Bytes)
    → split_from in_str (b ∷ bs) ≡ none
    → ((b == 59 && not in_str) ≡ false) × (split_from (flips in_str b) bs ≡ none)
unfolding split_from
split_none in_str b bs h = either (b == 59 && not in_str) b bs (split_from (flips in_str b) bs) h

split_complete :
    (in_str : Bool) (stmt rest : Bytes)
    → Scanned in_str stmt
    → split_from in_str (stmt ++ 59 ∷ rest) ≡ some (stmt, rest)
unfolding split_from ends_in_string
split_complete in_str [] rest (n, e) = rw e
split_complete in_str (b ∷ bs) rest (n, e) =
    let (other, later) = split_none in_str b bs n in
    rw (other, split_complete (flips in_str b) bs rest (later, e))

semicolon : (b : ℕ) (in_str : Bool) → (b == 59 && not in_str) ≡ true → (b ≡ 59) × (in_str ≡ false)
semicolon b in_str h = ground arith

split_sound :
    (in_str : Bool) (buf stmt rest : Bytes)
    → split_from in_str buf ≡ some (stmt, rest)
    → (buf ≡ stmt ++ 59 ∷ rest) × Scanned in_str stmt
unfolding split_from ends_in_string
split_sound in_str [] stmt rest h = cc
split_sound in_str (b ∷ bs) stmt rest h = elim (Bool-cases (b == 59 && not in_str)) [
  | inl here ↦
      let found : some ([], bs) ≡ some (stmt, rest) = rw here at h in
      let (same, plain) = semicolon b in_str here in
      let front : [] ≡ stmt = cc found in
      let back : bs ≡ rest = cc found in rw (← front, ← back, same, plain) (refl, (refl, refl))
  | inr other ↦ elim (Option-cases (split_from (flips in_str b) bs)) [
    | inl nothing ↦ cc (rw (other, nothing) at h)
    | inr ((s, r), later) ↦
        let found : some (b ∷ s, r) ≡ some (stmt, rest) = rw (other, later) at h in
        let (whole, (clean, closed)) = split_sound (flips in_str b) bs s r later in
        let front : b ∷ s ≡ stmt = cc found in
        let back : r ≡ rest = cc found in
        rw (← front, ← back, other, clean) (ap (◌∷◌ b) whole, (refl, closed))
  ]
]

abbrev odd : ℕ → Bool
odd n = n % 2 == 1

flips-odd : (n b : ℕ) → flips (odd n) b ≡ odd (n + quote b)
flips-odd n b = ground arith

ends_odd : (n : ℕ) (s : Bytes) → ends_in_string (odd n) s ≡ odd (n + quotes s)
unfolding ends_in_string quotes
ends_odd n [] = let same : n ≡ n + 0 = omega arith in ap odd same
ends_odd n (b ∷ bs) =
    let same : n + quote b + quotes bs ≡ n + (quote b + quotes bs) = omega arith in
    rw (flips-odd n b, ends_odd (n + quote b) bs, same) refl

-- Each semicolon has an odd number of quotes in front of it, `n` of them before the text.
abbrev Inside : ℕ → Bytes → Type 0
Inside n s = (i : ℕ) → (get_elem? s i ≢ some 59) ⊎ (odd (n + quotes (take i s)) ≡ true)

at_semicolon : (n b : ℕ) → (b == 59 && not (odd n)) ≡ false → (some b ≢ some 59) ⊎ (odd n ≡ true)
at_semicolon n b h = elim (Bool-cases (odd n)) [
  | inl inside ↦ inr inside
  | inr outside ↦ inl (λ e. let same : b ≡ 59 = cc e in ground (arith, h, outside, same))
]

scan-Inside : (n : ℕ) (s : Bytes) → split_from (odd n) s ≡ none → Inside n s
unfolding quotes
scan-Inside n [] h i = inl (λ e. cc e)
scan-Inside n (b ∷ bs) h zero =
    let same : n + 0 ≡ n = omega arith in rw same (at_semicolon n b (split_none (odd n) b bs h).0)
scan-Inside n (b ∷ bs) h (suc i) =
    let later : split_from (odd (n + quote b)) bs ≡ none =
      rw (flips-odd n b) at ((split_none (odd n) b bs h).1) in
    let same : n + quote b + quotes (take i bs) ≡ n + (quote b + quotes (take i bs)) =
      omega arith in
    rw same at (scan-Inside (n + quote b) bs later i)

not_at : (n b : ℕ) → (some b ≢ some 59) ⊎ (odd (n + 0) ≡ true) → (b == 59 && not (odd n)) ≡ false
not_at n b (inl other) = elim (Bool-cases (b == 59)) [
  | inl is ↦ absurd (other (ap some ((==_iff b 59).0 is)))
  | inr not_is ↦ rw not_is refl
]
not_at n b (inr inside) =
    let same : n + 0 ≡ n = omega arith in
    let now : odd n ≡ true = rw same at inside in
    elim (Bool-cases (b == 59)) [ inl is ↦ rw (is, now) refl | inr not_is ↦ rw not_is refl ]

scan_nothing : (in_str : Bool) → split_from in_str [] ≡ none
unfolding split_from
scan_nothing in_str = refl

scan_next :
    (n b : ℕ) (bs : Bytes)
    → (b == 59 && not (odd n)) ≡ false
    → split_from (odd (n + quote b)) bs ≡ none
    → split_from (odd n) (b ∷ bs) ≡ none
unfolding split_from
scan_next n b bs other later = rw (other, flips-odd n b, later) refl

Inside-scan : (n : ℕ) (s : Bytes) → Inside n s → split_from (odd n) s ≡ none
unfolding quotes
Inside-scan n [] h = scan_nothing (odd n)
Inside-scan n (b ∷ bs) h =
    let later : Inside (n + quote b) bs = λ i.
      let same : n + (quote b + quotes (take i bs)) ≡ n + quote b + quotes (take i bs) =
        omega arith in
      rw same at (h (suc i)) in
    scan_next n b bs (not_at n b (h 0)) (Inside-scan (n + quote b) bs later)

odd_or_not : (n : ℕ) (A : Type 0) → A ⊎ (odd (0 + n) ≡ true) → A ⊎ (n % 2 ≡ 1)
odd_or_not n A (inl a) = inl a
odd_or_not n A (inr h) = inr (ground arith)

not_or_odd : (n : ℕ) (A : Type 0) → A ⊎ (n % 2 ≡ 1) → A ⊎ (odd (0 + n) ≡ true)
not_or_odd n A (inl a) = inl a
not_or_odd n A (inr h) = inr (ground arith)

Scanned-IsStatement : (s : Bytes) → Scanned false s ↔ IsStatement s
Scanned-IsStatement s = (
  λ h.
      let even : odd (0 + quotes s) ≡ false = sym (ends_odd 0 s) ∙ h.1 in
      (ground arith, λ i. odd_or_not (quotes (take i s)) _ (scan-Inside 0 s h.0 i)),
  λ h.
      let even : odd (0 + quotes s) ≡ false = ground arith in
      (Inside-scan 0 s (λ i. not_or_odd (quotes (take i s)) _ (h.1 i)), ends_odd 0 s ∙ even),
)

-- `split_statement` splits a text into a statement and a rest exactly if the text is the statement,
-- a semicolon and the rest, the statement has an even number of quotes, and each semicolon in it
-- has an odd number of quotes in front of it.
pub split_statement_iff :
    (buf stmt rest : Bytes)
    → (split_statement buf ≡ some (stmt, rest)) ↔ ((buf ≡ stmt ++ 59 ∷ rest) × IsStatement stmt)
unfolding split_statement
split_statement_iff buf stmt rest = (
  λ h.
      let (whole, scanned) = split_sound false buf stmt rest h in
      (whole, (Scanned-IsStatement stmt).0 scanned),
  λ h. rw h.0 (split_complete false stmt rest ((Scanned-IsStatement stmt).1 h.1)),
)
