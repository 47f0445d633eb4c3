-- ===== src/Prelude/Bits/Bounds.antt =====
-- A number below 2 ^ k is one whose bits from `k` on are zero; so `|` and `&` stay below.
use nach_operator_system.Prelude.{
  ℕ, zero, suc, ◌*◌, ◌/◌, ◌^◌, ◌≤◌, ◌<◌, max, min, bit_or, bit_and, ◌≡◌, ◌∙◌, ap, ap₂, arith,
}
use native.Mathlib.Nat.{pow-suc, one-le-pow}
use nach_operator_system.Prelude.Bits.{bit, bit-bit_or, bit-bit_and, eq-zero_of_bits, bit-zero}

double : (k : ℕ) → 2 ^ suc k ≡ 2 * 2 ^ k
double k = omega (arith, pow-suc 2 k)

bit_above : (k j w : ℕ) → w < 2 ^ k → k ≤ j → bit j w ≡ 0
unfolding bit
bit_above zero j w h le = let e : w ≡ 0 = omega arith in rw e (bit-zero j)
bit_above (suc k) zero w h le = absurd (omega arith)
bit_above (suc k) (suc j) w h le = bit_above k j (w / 2) (omega (arith, double k)) (omega arith)

lt_of_bits : (k w : ℕ) → ((j : ℕ) → k ≤ j → bit j w ≡ 0) → w < 2 ^ k
unfolding bit
lt_of_bits zero w h =
    let e : w ≡ 0 = eq-zero_of_bits w w (omega arith) (λ j. h j (omega arith)) in omega arith
lt_of_bits (suc k) w h =
    let half : w / 2 < 2 ^ k = lt_of_bits k (w / 2) (λ j le. h (suc j) (omega arith)) in
    omega (arith, double k)

pub bit_or-lt : (k a b : ℕ) → a < 2 ^ k → b < 2 ^ k → bit_or a b < 2 ^ k
bit_or-lt k a b ha hb =
    lt_of_bits k (bit_or a b)
      (λ j le. bit-bit_or j a b ∙ ap₂ max (bit_above k j a ha le) (bit_above k j b hb le))

pub bit_and-lt : (k a b : ℕ) → a < 2 ^ k → bit_and a b < 2 ^ k
bit_and-lt k a b ha =
    lt_of_bits k (bit_and a b)
      (λ j le. bit-bit_and j a b ∙ ap (λ n. min n (bit j b)) (bit_above k j a ha le) ∙ omega arith)

pub pow-lt : (k j : ℕ) → j < k → 2 ^ j < 2 ^ k
pow-lt zero j h = absurd (omega arith)
pow-lt (suc k) zero h = omega (arith, double k, one-le-pow k 2)
pow-lt (suc k) (suc j) h = omega (arith, double k, double j, pow-lt k j (omega arith))
