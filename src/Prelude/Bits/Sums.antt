-- ===== src/Prelude/Bits/Sums.antt =====
-- `|` and `&` of words as sums and parts of them.
use Prim.Native.Nat.{
  ℕ, zero, suc, ◌+◌, ◌*◌, ◌/◌, ◌%◌, ◌^◌, ◌≤◌, ◌<◌, min, max, bit_and, bit_or, digits,
  bit_and-bitwise, bit_or-bitwise,
}
use mathlib.Core.Path.{◌≡◌, refl, ap, ◌∙◌}
use native.Mathlib.Omega.{arith}
use native.Mathlib.Nat.{pow-suc}
use nach_operator_system.Prelude.Bits.{digits-and-mask}

digits-or-apart :
    (k n a q : ℕ) → a ≤ n → a < 2 ^ k → digits (λ y. y) max n a (q * 2 ^ k) ≡ a + q * 2 ^ k
digits-or-apart k zero zero q h fits = omega arith
digits-or-apart k zero (suc a) q h fits = absurd (omega arith)
digits-or-apart k (suc n) zero q h fits = omega arith
digits-or-apart zero (suc n) (suc a) q h fits = absurd (omega arith)
digits-or-apart (suc k) (suc n) (suc a) q h fits =
    let double : 2 ^ suc k ≡ 2 * 2 ^ k = omega (arith, pow-suc 2 k) in
    let product : q * 2 ^ suc k ≡ 2 * (q * 2 ^ k) = omega (arith, ap (λ (t : ℕ). q * t) double) in
    let half : q * 2 ^ suc k / 2 ≡ q * 2 ^ k = omega arith in
    let even : q * 2 ^ suc k % 2 ≡ 0 = omega arith in
    let ih = digits-or-apart k n (suc a / 2) q (omega arith) (omega arith) in
    rw (half, ih, even) (omega arith)

-- The bits of numbers that do not overlap add up.
pub bit_or-apart : (k a q : ℕ) → a < 2 ^ k → bit_or a (q * 2 ^ k) ≡ a + q * 2 ^ k
bit_or-apart k a q fits = bit_or-bitwise a (q * 2 ^ k) ∙ digits-or-apart k a a q (omega arith) fits

digits-or-zero : (n a : ℕ) → a ≤ n → digits (λ y. y) max n a 0 ≡ a
digits-or-zero zero zero h = refl
digits-or-zero zero (suc a) h = absurd (omega arith)
digits-or-zero (suc n) zero h = refl
digits-or-zero (suc n) (suc a) h = omega (arith, digits-or-zero n (suc a / 2) (omega arith))

digits-or-one : (n a : ℕ) → a ≤ n → a % 2 ≡ 0 → digits (λ y. y) max n a 1 ≡ a + 1
digits-or-one zero zero h even = refl
digits-or-one zero (suc a) h even = absurd (omega arith)
digits-or-one (suc n) zero h even = refl
digits-or-one (suc n) (suc a) h even = omega (arith, digits-or-zero n (suc a / 2) (omega arith))

pub bit_or-one : (a : ℕ) → a % 2 ≡ 0 → bit_or a 1 ≡ a + 1
bit_or-one a even = bit_or-bitwise a 1 ∙ digits-or-one a a (omega arith) even

-- All bits of a word but the lowest.
pub bit_and-even_mask : (a : ℕ) → a < 2 ^ 32 → bit_and a 0xffff_fffe ≡ a / 2 * 2
bit_and-even_mask zero h = bit_and-bitwise 0 0xffff_fffe ∙ omega arith
bit_and-even_mask (suc a) h =
    let half : digits (λ y. 0) min a (suc a / 2) 0x7fff_ffff ≡ suc a / 2 =
      digits-and-mask 31 a (suc a / 2) 0 (suc a / 2) (omega arith) (omega arith) (omega arith) in
    bit_and-bitwise (suc a) 0xffff_fffe ∙ omega (arith, half)

digits-or_self : (n a : ℕ) → a ≤ n → digits (λ y. y) max n a a ≡ a
digits-or_self zero a h = refl
digits-or_self (suc n) zero h = refl
digits-or_self (suc n) (suc a) h = omega (arith, digits-or_self n (suc a / 2) (omega arith))

pub bit_or_self : (a : ℕ) → bit_or a a ≡ a
bit_or_self a = bit_or-bitwise a a ∙ digits-or_self a a (omega arith)
