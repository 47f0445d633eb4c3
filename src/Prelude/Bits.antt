-- ===== src/Prelude/Bits.antt =====
-- Single bits of a machine word, for the words of `BitMap` and the fields of a MIPS instruction.
pub mod Sums
pub mod Bounds
use Prim.Native.Nat.{
  ℕ, zero, suc, ◌+◌, ◌-◌, ◌*◌, ◌/◌, ◌%◌, ◌^◌, ◌≤◌, ◌<◌, min, max, bit_and, bit_or, digits,
  bit_and-bitwise, bit_or-bitwise, bit_xor, bit_xor-bitwise, differ,
}
use mathlib.Core.Path.{◌≡◌, refl, ap, ◌∙◌}
use mathlib.Core.Logic.{inl, inr}
use mathlib.Core.Bool.{Bool, true, ◌&&◌}
use native.Mathlib.Omega.{arith}
use native.Mathlib.Nat.{pow-suc, one-le-pow}
use nach_operator_system.Prelude.Tests.{◌==◌, ==_iff, Bool-cases, if◌then◌else◌}

-- The bit of weight 2 ^ j.
unfoldable pub bit : ℕ → ℕ → ℕ
bit zero w = w % 2
bit (suc j) w = bit j (w / 2)

pub bit-lt-two : (j w : ℕ) → bit j w < 2
unfolding bit
bit-lt-two zero w = omega arith
bit-lt-two (suc j) w = bit-lt-two j (w / 2)

bit-zero : (j : ℕ) → bit j 0 ≡ 0
unfolding bit
bit-zero zero = refl
bit-zero (suc j) = bit-zero j

-- The native operations run over the digits on fuel, for which the first number serves: the laws
-- hold for every fuel that covers it.
bit-digits-or : (j n a b : ℕ) → a ≤ n → bit j (digits (λ y. y) max n a b) ≡ max (bit j a) (bit j b)
unfolding bit
bit-digits-or zero zero zero b h = omega arith
bit-digits-or zero zero (suc a) b h = absurd (omega arith)
bit-digits-or zero (suc n) zero b h = omega arith
bit-digits-or zero (suc n) (suc a) b h = omega arith
bit-digits-or (suc j) zero zero b h = omega (arith, bit-zero j)
bit-digits-or (suc j) zero (suc a) b h = absurd (omega arith)
bit-digits-or (suc j) (suc n) zero b h = omega (arith, bit-zero j)
bit-digits-or (suc j) (suc n) (suc a) b h =
    let rest = digits (λ y. y) max n (suc a / 2) (b / 2) in
    let drop_digit : (rest * 2 + max (suc a % 2) (b % 2)) / 2 ≡ rest = omega arith in
    ap (bit j) drop_digit ∙ bit-digits-or j n (suc a / 2) (b / 2) (omega arith)

bit-digits-and : (j n a b : ℕ) → a ≤ n → bit j (digits (λ y. 0) min n a b) ≡ min (bit j a) (bit j b)
unfolding bit
bit-digits-and zero zero zero b h = omega arith
bit-digits-and zero zero (suc a) b h = absurd (omega arith)
bit-digits-and zero (suc n) zero b h = omega arith
bit-digits-and zero (suc n) (suc a) b h = omega arith
bit-digits-and (suc j) zero zero b h = omega (arith, bit-zero j)
bit-digits-and (suc j) zero (suc a) b h = absurd (omega arith)
bit-digits-and (suc j) (suc n) zero b h = omega (arith, bit-zero j)
bit-digits-and (suc j) (suc n) (suc a) b h =
    let rest = digits (λ y. 0) min n (suc a / 2) (b / 2) in
    let drop_digit : (rest * 2 + min (suc a % 2) (b % 2)) / 2 ≡ rest = omega arith in
    ap (bit j) drop_digit ∙ bit-digits-and j n (suc a / 2) (b / 2) (omega arith)

pub bit-bit_or : (j a b : ℕ) → bit j (bit_or a b) ≡ max (bit j a) (bit j b)
bit-bit_or j a b = ap (bit j) (bit_or-bitwise a b) ∙ bit-digits-or j a a b (omega arith)

pub bit-bit_and : (j a b : ℕ) → bit j (bit_and a b) ≡ min (bit j a) (bit j b)
bit-bit_and j a b = ap (bit j) (bit_and-bitwise a b) ∙ bit-digits-and j a a b (omega arith)

-- A number all of whose bits are zero is zero.
pub eq-zero_of_bits : (n w : ℕ) → w ≤ n → ((j : ℕ) → bit j w ≡ 0) → w ≡ 0
unfolding bit
eq-zero_of_bits zero w h all = omega arith
eq-zero_of_bits (suc n) zero h all = refl
eq-zero_of_bits (suc n) (suc w) h all =
    let low = all 0 in
    let high = eq-zero_of_bits n (suc w / 2) (omega arith) (λ j. all (suc j)) in omega arith

-- One in place `k`, as `1 << k`.
pub bit-pow : (j k : ℕ) → bit j (2 ^ k) ≡ (if j == k then 1 else 0)
unfolding bit
bit-pow zero zero = refl
bit-pow zero (suc k) = ground (arith, pow-suc 2 k)
bit-pow (suc j) zero = ground (arith, bit-zero j)
bit-pow (suc j) (suc k) =
    let halved : 2 ^ suc k / 2 ≡ 2 ^ k = omega (arith, pow-suc 2 k) in
    ap (bit j) halved ∙ bit-pow j k ∙ ground arith

-- The complement of a word of 32 bits, C's `~`.
abbrev pub bit_not : ℕ → ℕ
bit_not w = 2 ^ 32 - 1 - w

-- Whether a test passes on each of 0 … bound - 1.
passes_upto : (test : ℕ → Bool) → (bound : ℕ) → Bool
passes_upto test zero = true
passes_upto test (suc bound) = passes_upto test bound && test bound

passes_upto-at :
    (test : ℕ → Bool) (bound i : ℕ) → i < bound → passes_upto test bound ≡ true → test i ≡ true
unfolding passes_upto
passes_upto-at test zero i below passed = absurd (omega arith)
passes_upto-at test (suc bound) i below passed = ground (arith, passes_upto-at test bound i)

abbrev complement_ok : ℕ → ℕ → Bool
complement_ok k j = bit j (bit_not (2 ^ k)) == (if j == k then 0 else 1)

complements : passes_upto (λ k. passes_upto (complement_ok k) 32) 32 ≡ true
unfolding passes_upto bit
complements = refl

-- All ones but in place `k`, as `~(1 << k)`.
pub bit-bit_not-pow :
    (j k : ℕ) → j < 32 → k < 32 → bit j (bit_not (2 ^ k)) ≡ (if j == k then 0 else 1)
bit-bit_not-pow j k hj hk =
    let at_k = passes_upto-at (λ i. passes_upto (complement_ok i) 32) 32 k hk complements in
    (==_iff _ _).0 (passes_upto-at (complement_ok k) 32 j hj at_k)

-- `w & (1 << k)` is zero exactly when bit `k` of `w` is.
pub bit_and-pow-eq-zero : (w k : ℕ) → (bit_and w (2 ^ k) == 0) ≡ (bit k w == 0)
bit_and-pow-eq-zero w k = elim (Bool-cases (bit k w == 0)) [
  | inl clear ↦
      let none_set : (j : ℕ) → bit j (bit_and w (2 ^ k)) ≡ 0 =
        λ j. ground (arith, bit-bit_and j w (2 ^ k), bit-pow j k) in
      let zero_word =
        eq-zero_of_bits (bit_and w (2 ^ k)) (bit_and w (2 ^ k)) (omega arith) none_set in
      rw (zero_word, clear)
  | inr marked ↦
      ground (arith, bit-bit_and k w (2 ^ k), bit-pow k k, bit-lt-two k w, bit-zero k, ap (bit k))
]

digits-and-zero : (n a : ℕ) → digits (λ y. 0) min n a 0 ≡ 0
digits-and-zero zero a = refl
digits-and-zero (suc n) zero = refl
digits-and-zero (suc n) (suc a) = omega (arith, digits-and-zero n (suc a / 2))

digits-and-mask :
    (k n a q r : ℕ)
    → a ≤ n
    → a ≡ q * 2 ^ k + r
    → r < 2 ^ k
    → digits (λ y. 0) min n a (2 ^ k - 1) ≡ r
digits-and-mask zero n a q r h e fits = omega (arith, digits-and-zero n a)
digits-and-mask (suc k) zero zero q r h e fits = omega arith
digits-and-mask (suc k) zero (suc a) q r h e fits = absurd (omega arith)
digits-and-mask (suc k) (suc n) zero q r h e fits = omega arith
digits-and-mask (suc k) (suc n) (suc a) q r h e fits =
    let double : 2 ^ suc k ≡ 2 * 2 ^ k = omega (arith, pow-suc 2 k) in
    let product : q * 2 ^ suc k ≡ 2 * (q * 2 ^ k) = omega (arith, ap (λ (t : ℕ). q * t) double) in
    let half_mask : (2 ^ suc k - 1) / 2 ≡ 2 ^ k - 1 = omega arith in
    let half : digits (λ y. 0) min n (suc a / 2) (2 ^ k - 1) ≡ r / 2 =
      digits-and-mask k n (suc a / 2) q (r / 2) (omega arith) (omega arith) (omega arith) in
    rw (half_mask, half) (omega arith)

-- A mask of `k` low bits is the remainder by `2 ^ k`.
pub bit_and-mask : (k a : ℕ) → bit_and a (2 ^ k - 1) ≡ a % 2 ^ k
bit_and-mask k a =
    bit_and-bitwise a (2 ^ k - 1)
    ∙ digits-and-mask k a a (a / 2 ^ k) (a % 2 ^ k) (omega arith) (ground arith)
        (ground (arith, one-le-pow k 2))

differ-eq : (x y : ℕ) → x < 2 → y < 2 → differ x y ≡ (if x == y then 0 else 1)
differ-eq zero zero p q = refl
differ-eq zero (suc zero) p q = refl
differ-eq (suc zero) zero p q = refl
differ-eq (suc zero) (suc zero) p q = refl
differ-eq zero (suc (suc y)) p q = absurd (omega arith)
differ-eq (suc zero) (suc (suc y)) p q = absurd (omega arith)
differ-eq (suc (suc x)) y p q = absurd (omega arith)

bit-digits-xor :
    (j n a b : ℕ)
    → a ≤ n
    → bit j (digits (λ y. y) differ n a b) ≡ (if bit j a == bit j b then 0 else 1)
unfolding bit
bit-digits-xor zero zero zero b h = ground arith
bit-digits-xor zero zero (suc a) b h = absurd (omega arith)
bit-digits-xor zero (suc n) zero b h = ground arith
bit-digits-xor zero (suc n) (suc a) b h =
    let digit = differ-eq (suc a % 2) (b % 2) (omega arith) (omega arith) in
    let small : differ (suc a % 2) (b % 2) < 2 = ground (arith, digit) in
    let rest = digits (λ y. y) differ n (suc a / 2) (b / 2) in
    let low : (rest * 2 + differ (suc a % 2) (b % 2)) % 2 ≡ differ (suc a % 2) (b % 2) =
      omega (arith, small) in
    low ∙ digit
bit-digits-xor (suc j) zero zero b h = ground (arith, bit-zero j, bit-lt-two j (b / 2))
bit-digits-xor (suc j) zero (suc a) b h = absurd (omega arith)
bit-digits-xor (suc j) (suc n) zero b h = ground (arith, bit-zero j, bit-lt-two j (b / 2))
bit-digits-xor (suc j) (suc n) (suc a) b h =
    let rest = digits (λ y. y) differ n (suc a / 2) (b / 2) in
    let small : differ (suc a % 2) (b % 2) < 2 =
      ground (arith, differ-eq (suc a % 2) (b % 2) (omega arith) (omega arith)) in
    let drop_digit : (rest * 2 + differ (suc a % 2) (b % 2)) / 2 ≡ rest = omega arith in
    ap (bit j) drop_digit ∙ bit-digits-xor j n (suc a / 2) (b / 2) (omega arith)

pub bit-bit_xor : (j a b : ℕ) → bit j (bit_xor a b) ≡ (if bit j a == bit j b then 0 else 1)
bit-bit_xor j a b = ap (bit j) (bit_xor-bitwise a b) ∙ bit-digits-xor j a a b (omega arith)

pub bit-sign : (w : ℕ) → w < 2 ^ 32 → bit 31 w ≡ w / 2 ^ 31
unfolding bit
bit-sign w h = omega arith

pub bit-half : (w : ℕ) → w < 2 ^ 16 → bit 15 w ≡ w / 2 ^ 15
unfolding bit
bit-half w h = omega arith
