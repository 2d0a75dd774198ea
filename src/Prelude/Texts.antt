-- ===== src/Prelude/Texts.antt =====
-- Texts as lists of code points, which is what a Python `str` is, and their tests.
use Prim.Native.Nat.{ℕ}
use Prim.Native.Char.{code}
use Prim.Native.String.{String}
use mathlib.Core.Path.{◌≡◌, refl}
use mathlib.Core.Logic.{◌↔◌}
use mathlib.Core.Bool.{Bool, true, false, ◌&&◌, ◌||◌, not}
use mathlib.Core.List.{List, [], ◌∷◌}
use native.Mathlib.Omega.{arith}
use postgre_data_migration_a.Prelude.Tests.{◌==◌}

abbrev pub Text : Type 0
Text = List ℕ

-- The code points of a literal. `String` has its own `[]` and `∷`.
abbrev pub codes : String → Text
codes String.[] = []
codes (String.◌∷◌ c s) = code c ∷ codes s

-- `==` on `str`.
abbrev pub same : Text → Text → Bool
same [] [] = true
same (x ∷ xs) (y ∷ ys) = x == y && same xs ys
same _ _ = false

-- `in` on a collection of `str`.
abbrev pub member : Text → List Text → Bool
member t [] = false
member t (x ∷ xs) = same t x || member t xs

-- `str.startswith`; the prefix comes second, as in the call.
abbrev pub starts_with : Text → Text → Bool
starts_with s [] = true
starts_with [] (p ∷ ps) = false
starts_with (c ∷ s) (p ∷ ps) = c == p && starts_with s ps

pub same_iff : (a b : Text) → (same a b ≡ true) ↔ (a ≡ b)
same_iff [] [] = ground arith
same_iff [] (y ∷ ys) = ground arith
same_iff (x ∷ xs) [] = ground arith
same_iff (x ∷ xs) (y ∷ ys) = ground (arith, same_iff xs ys)

pub same_refl : (a : Text) → same a a ≡ true
same_refl a = (same_iff a a).1 refl

pub same_sym : (a b : Text) → same a b ≡ same b a
same_sym a b = ground (arith, same_iff a b, same_iff b a)

-- No text occurs twice.
abbrev pub distinct : List Text → Bool
distinct [] = true
distinct (x ∷ xs) = not (member x xs) && distinct xs

-- `==` on lists of `str`.
abbrev pub same_texts : List Text → List Text → Bool
same_texts [] [] = true
same_texts (x ∷ xs) (y ∷ ys) = same x y && same_texts xs ys
same_texts _ _ = false
