-- ===== src/Base/Text.antt =====
-- Rust's `String` and `&str` as their bytes. `utf8 "..."` is the text of an ASCII literal.
use Prim.Native.Nat.{ℕ, ◌<◌}
use Prim.Native.Char.{code}
use Prim.Native.String.{String}
use mathlib.Core.Path.{◌≡◌, refl}
use mathlib.Core.Logic.{◌↔◌}
use mathlib.Core.Bool.{Bool, true, false, ◌&&◌}
use mathlib.Core.List.{List, [], ◌∷◌, ◌++◌}
use native.Mathlib.Omega.{arith}
use choam.Base.Lists.{length}
use choam.Base.Tests.{◌==◌}

-- A sequence of bytes: `Vec<u8>`, `&[u8]`, and the contents of a `String`.
abbrev pub Bytes : Type 0
Bytes = List ℕ

abbrev pub IsByte : ℕ → Type 0
IsByte b = b < 256

unfoldable pub utf8 : String → Bytes
utf8 String.[] = []
utf8 (String.◌∷◌ c s) = code c ∷ utf8 s

-- `==` on strings and byte slices.
unfoldable pub bytes_eq : Bytes → Bytes → Bool
bytes_eq [] [] = true
bytes_eq [] (y ∷ ys) = false
bytes_eq (x ∷ xs) [] = false
bytes_eq (x ∷ xs) (y ∷ ys) = x == y && bytes_eq xs ys

pub bytes_eq_iff : (xs ys : Bytes) → (bytes_eq xs ys ≡ true) ↔ (xs ≡ ys)
unfolding bytes_eq
bytes_eq_iff [] [] = (λ h. refl, λ h. refl)
bytes_eq_iff [] (y ∷ ys) = (λ h. cc, λ h. cc)
bytes_eq_iff (x ∷ xs) [] = (λ h. cc, λ h. cc)
bytes_eq_iff (x ∷ xs) (y ∷ ys) = ground (arith, bytes_eq_iff xs ys)

pub bytes_eq_refl : (xs : Bytes) → bytes_eq xs xs ≡ true
bytes_eq_refl xs = (bytes_eq_iff xs xs).1 refl

-- `key.starts_with(prefix)`
unfoldable pub starts_with : Bytes → Bytes → Bool
starts_with [] key = true
starts_with (p ∷ ps) [] = false
starts_with (p ∷ ps) (k ∷ ks) = p == k && starts_with ps ks

pub starts_with-append : (p xs : Bytes) → starts_with p (p ++ xs) ≡ true
unfolding starts_with
starts_with-append [] xs = refl
starts_with-append (x ∷ p) xs = ground (arith, starts_with-append p xs)

-- A prefix of the same length as the front of a key is that front.
pub starts_with-eq : (p q xs : Bytes) → length p ≡ length q → starts_with p (q ++ xs) ≡ true → p ≡ q
unfolding starts_with
starts_with-eq [] [] xs l h = refl
starts_with-eq [] (y ∷ q) xs l h = absurd (omega arith)
starts_with-eq (x ∷ p) [] xs l h = absurd (omega arith)
starts_with-eq (x ∷ p) (y ∷ q) xs l h = ground (arith, starts_with-eq p q xs)
