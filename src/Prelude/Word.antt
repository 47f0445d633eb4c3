-- ===== src/Prelude/Word.antt =====
-- A C `int` or `unsigned int` of the machine simulation is kept as its pattern of 32 bits, a
-- number below 2 ^ 32; `to_int` is the signed reading.
use Prim.Native.Nat.{ℕ, ◌+◌, ◌-◌, ◌*◌, ◌/◌, ◌%◌, ◌^◌, ◌<◌, bit_and}
use mathlib.Core.Bool.{Bool, not}
use mathlib.Core.Path.{◌≡◌}
use native.Mathlib.Omega.{arith}
use nach_operator_system.Prelude.Tests.{ltb, ◌==◌, if◌then◌else◌}
use nach_operator_system.Prelude.Int.{ℤ, pos, negsuc}

abbrev pub word_mod : ℕ
word_mod = 2 ^ 32

abbrev pub to_int : ℕ → ℤ
to_int w = if ltb w (2 ^ 31) then pos w else negsuc (word_mod - w - 1)

abbrev pub of_int : ℤ → ℕ
of_int (pos n) = n % word_mod
of_int (negsuc n) = word_mod - 1 - n % word_mod

pub of_int-to_int : (w : ℕ) → w < word_mod → of_int (to_int w) ≡ w
of_int-to_int w h = ground arith

pub of_int-lt : (z : ℤ) → of_int z < word_mod
of_int-lt (pos n) = omega arith
of_int-lt (negsuc n) = omega arith

-- Arithmetic on the patterns. Overflow of a signed operation wraps around.
abbrev pub wrap_add : ℕ → ℕ → ℕ
wrap_add a b = (a + b) % word_mod

abbrev pub wrap_sub : ℕ → ℕ → ℕ
wrap_sub a b = (a + word_mod - b) % word_mod

abbrev pub wrap_neg : ℕ → ℕ
wrap_neg a = (word_mod - a) % word_mod

abbrev pub shift_left : ℕ → ℕ → ℕ
shift_left a k = a * 2 ^ k % word_mod

-- `>>` of an `int` keeps the sign.
abbrev pub shift_right : ℕ → ℕ → ℕ
shift_right a k = if ltb a (2 ^ 31) then a / 2 ^ k else word_mod - 1 - (word_mod - 1 - a) / 2 ^ k

-- The sign bit, as `& SIGN_BIT` tests it.
abbrev pub is_negative : ℕ → Bool
is_negative a = not (bit_and a 0x8000_0000 == 0)
