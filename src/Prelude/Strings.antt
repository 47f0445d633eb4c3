-- ===== src/Prelude/Strings.antt =====
-- C strings: a list of the bytes before the terminator, none of which is zero.
use Prim.Native.Nat.{ℕ}
use mathlib.Core.Path.{◌≡◌, refl}
use mathlib.Core.Bool.{Bool, true, false, ◌&&◌}
use mathlib.Core.List.{List, [], ◌∷◌}
use native.Mathlib.Omega.{arith}
use nach_operator_system.Prelude.Tests.{◌==◌}
use nach_operator_system.Prelude.Lists.{take}

abbrev pub CString : Type 0
CString = List ℕ

-- `strcmp(a, b) == 0`.
unfoldable pub str_eq : CString → CString → Bool
str_eq [] [] = true
str_eq [] (y ∷ ys) = false
str_eq (x ∷ xs) [] = false
str_eq (x ∷ xs) (y ∷ ys) = x == y && str_eq xs ys

pub str_eq→eq : (a b : CString) → str_eq a b ≡ true → a ≡ b
unfolding str_eq
str_eq→eq [] [] h = refl
str_eq→eq [] (y ∷ ys) h = absurd (cc)
str_eq→eq (x ∷ xs) [] h = absurd (cc)
str_eq→eq (x ∷ xs) (y ∷ ys) h = ground (arith, str_eq→eq xs ys)

pub str_eq_refl : (a : CString) → str_eq a a ≡ true
unfolding str_eq
str_eq_refl [] = refl
str_eq_refl (x ∷ xs) = ground (arith, str_eq_refl xs)

-- `strncmp(a, b, n) == 0`.
unfoldable pub strncmp_eq : CString → CString → ℕ → Bool
strncmp_eq a b n = str_eq (take n a) (take n b)
