-- ===== src/Cpu/Mult/Loop.antt =====
-- The main loop of `Mult`: what one round does, and what the rounds add up to.
use nach_operator_system.Prelude.{
  ℕ, zero, suc, ◌+◌, ◌*◌, ◌/◌, ◌%◌, ◌^◌, ◌≤◌, ◌<◌, ◌≡◌, refl, sym, ap, ◌∙◌, bit_and, bit_or, Bool,
  not, ◌&&◌, ◌==◌, inl, inr, ltb, if◌then◌else◌, Bool-cases, arith, word_mod, shift_left,
  shift_right, is_negative,
}
use nach_operator_system.Prelude.Bits
use nach_operator_system.Prelude.Bits.{bit_and-mask, bit_and-pow-eq-zero, bit-sign}
use nach_operator_system.Prelude.Bits.Sums.{bit_or-one, bit_and-even_mask}
use native.Mathlib.Nat.{pow-suc, pow-succ', mul_comm, mul-add, add-mul, mul_assoc}
use nach_operator_system.Cpu.Mult.{Product, add_shifted, shift_high, mult_loop}

abbrev double_mod : ℕ
double_mod = 2 ^ 64

abbrev pub IsWord : ℕ → Type 0
IsWord w = w < word_mod

pub record Words (p : Product) : Type 0 where
  pub hi_fits : p.hi < word_mod
  pub lo_fits : p.lo < word_mod

-- The double word.
abbrev pub amount : Product → ℕ
amount p = p.hi * 2 ^ 32 + p.lo

pub is_negative_lem : (w : ℕ) → w < word_mod → is_negative w ≡ not (ltb w (2 ^ 31))
is_negative_lem w h =
    let sign : (bit_and w 0x8000_0000 == 0) ≡ (Bits.bit 31 w == 0) = bit_and-pow-eq-zero w 31 in
    rw (sign, bit-sign w h) (ground arith)

-- One round, with the `t` that falls off the top.
shifted :
    (b_lo b_hi : ℕ)
    → b_lo < word_mod
    → b_hi < word_mod
    → (t : ℕ) × (shift_high b_lo b_hi < word_mod)
      × (shift_high b_lo b_hi * 2 ^ 32 + shift_left b_lo 1 + t * 2 ^ 64
          ≡ 2 * (b_hi * 2 ^ 32 + b_lo))
shifted b_lo b_hi hl hh =
    let one : bit_or (shift_left b_hi 1) 1 ≡ shift_left b_hi 1 + 1 =
      bit_or-one (shift_left b_hi 1) (omega arith) in
    (
      b_hi / 2 ^ 31,
      ground (arith, one, is_negative_lem b_lo hl),
      ground (arith, one, is_negative_lem b_lo hl),
    )

added :
    (b_lo b_hi : ℕ) (p : Product)
    → b_lo < word_mod
    → b_hi < word_mod
    → Words p
    → (s : ℕ) × Words (add_shifted b_lo b_hi p)
      × (amount (add_shifted b_lo b_hi p) + s * 2 ^ 64 ≡ amount p + (b_hi * 2 ^ 32 + b_lo))
added b_lo b_hi p hl hh w = (
  (amount p + (b_hi * 2 ^ 32 + b_lo)) / 2 ^ 64,
  record { hi_fits = omega arith; lo_fits = omega arith },
  ground (arith, w),
)

-- The low bits of `a` that `left` rounds look at.
pub low_bits : ℕ → ℕ → ℕ
low_bits zero a = 0
low_bits (suc left) a = a % 2 + 2 * low_bits left (shift_right a 1)

low_bits-zero : (left : ℕ) → low_bits left 0 ≡ 0
unfolding low_bits
low_bits-zero zero = refl
low_bits-zero (suc left) = omega (arith, low_bits-zero left)

pow-sum : (n s k : ℕ) → n + s ≡ k → 2 ^ n * 2 ^ s ≡ 2 ^ k
pow-sum zero s k h = let e : s ≡ k = omega arith in rw e (omega arith)
pow-sum (suc n) s zero h = absurd (omega arith)
pow-sum (suc n) s (suc k) h =
    let ih = pow-sum n s k (omega arith) in
    let left : 2 ^ suc n * 2 ^ s ≡ 2 * (2 ^ n * 2 ^ s) =
      ap (λ (x : ℕ). x * 2 ^ s) (pow-succ' 2 n) ∙ mul_assoc 2 (2 ^ n) (2 ^ s) in
    omega (arith, pow-suc 2 k)

pub low_bits-mod :
    (n s a q r : ℕ) → n + s ≡ 32 → a < word_mod → a ≡ q * 2 ^ n + r → r < 2 ^ n → low_bits n a ≡ r
unfolding low_bits
low_bits-mod zero s a q r sum fits e small = omega arith
low_bits-mod (suc n) s a q r sum fits e small =
    let double : 2 ^ suc n ≡ 2 * 2 ^ n = omega (arith, pow-suc 2 n) in
    let product : q * 2 ^ suc n ≡ 2 * (q * 2 ^ n) = omega (arith, ap (λ (x : ℕ). q * x) double) in
    let top : 2 ^ n * 2 ^ s ≡ 2 ^ 31 = pow-sum n s 31 (omega arith) in
    elim (Bool-cases (ltb a (2 ^ 31))) [
      | inl low ↦
          let ih =
            low_bits-mod n (suc s) (a / 2) q (r / 2) (omega arith) (omega arith) (omega arith)
              (omega arith) in
          rw (low, ih) (omega arith)
      | inr high ↦
          let apart : (q + 2 ^ s) * 2 ^ n ≡ q * 2 ^ n + 2 ^ s * 2 ^ n = add-mul q (2 ^ s) (2 ^ n) in
          let half : shift_right a 1 ≡ a / 2 + 2 ^ 31 = ground arith in
          let ih =
            low_bits-mod n (suc s) (a / 2 + 2 ^ 31) (q + 2 ^ s) (r / 2) (omega arith) (ground arith)
              (omega (arith, mul_comm (2 ^ n) (2 ^ s))) (omega arith) in
          omega (arith, ap (low_bits n) half)
    ]

-- Doubling of the second factor, under the first one.
doubled : (x b b' t : ℕ) → b' + t * 2 ^ 64 ≡ 2 * b → x * b' + x * t * 2 ^ 64 ≡ 2 * (x * b)
doubled x b b' t e =
    let spread = mul-add x b' (t * 2 ^ 64) in
    let out = mul_assoc x t (2 ^ 64) in
    let both : x * (b' + t * 2 ^ 64) ≡ x * (2 * b) = ap (λ (y : ℕ). x * y) e in
    let swap : x * (2 * b) ≡ 2 * (x * b) =
      sym (mul_assoc x 2 b) ∙ ap (λ (y : ℕ). y * b) (mul_comm x 2) ∙ mul_assoc 2 x b in
    omega arith

abbrev is_odd : ℕ → Bool
is_odd a = not (bit_and a 1 == 0)

abbrev next_product : ℕ → ℕ → ℕ → Product → Product
next_product a b_lo b_hi p = if is_odd a then add_shifted b_lo b_hi p else p

is_odd_lem : (a : ℕ) → is_odd a ≡ not (a % 2 == 0)
is_odd_lem a = let low : bit_and a 1 ≡ a % 2 = bit_and-mask 1 a in rw low refl

next_product-amount :
    (a b_lo b_hi : ℕ) (p : Product)
    → b_lo < word_mod
    → b_hi < word_mod
    → Words p
    → (s : ℕ) × Words (next_product a b_lo b_hi p)
      × (amount (next_product a b_lo b_hi p) + s * 2 ^ 64
          ≡ amount p + a % 2 * (b_hi * 2 ^ 32 + b_lo))
next_product-amount a b_lo b_hi p hl hh w = elim (Bool-cases (is_odd a)) [
  | inl odd ↦
      let (s, fits, e) = added b_lo b_hi p hl hh w in
      let one : a % 2 ≡ 1 = ground (arith, is_odd_lem a) in
      (s, rw odd fits, rw (odd, one) (omega arith))
  | inr even ↦
      let none : a % 2 ≡ 0 = ground (arith, is_odd_lem a) in
      (0, rw even w, rw (even, none) (omega arith))
]

-- The loop adds up the products of the bits that it looks at.
pub mult_loop-amount :
    (left a b_lo b_hi : ℕ) (p : Product)
    → left ≤ 32
    → a < word_mod
    → b_lo < word_mod
    → b_hi < word_mod
    → Words p
    → Words (mult_loop left a b_lo b_hi p)
      × (amount (mult_loop left a b_lo b_hi p)
          ≡ (amount p + low_bits left a * (b_hi * 2 ^ 32 + b_lo)) % 2 ^ 64)
unfolding mult_loop low_bits
mult_loop-amount zero a b_lo b_hi p le ha hl hh w = (w, omega (arith, w.hi_fits, w.lo_fits))
mult_loop-amount (suc left) a b_lo b_hi p le ha hl hh w =
    let b = b_hi * 2 ^ 32 + b_lo in
    let a' : ℕ = shift_right a 1 in
    let next = next_product a b_lo b_hi p in
    let x = low_bits left a' in
    let (s, next_fits, sum) = next_product-amount a b_lo b_hi p hl hh w in
    let (t, fits, twice) = shifted b_lo b_hi hl hh in
    let grown = doubled x b (shift_high b_lo b_hi * 2 ^ 32 + shift_left b_lo 1) t twice in
    let split : (a % 2 + 2 * x) * b ≡ a % 2 * b + 2 * (x * b) =
      add-mul (a % 2) (2 * x) b ∙ ap (λ (y : ℕ). a % 2 * b + y) (mul_assoc 2 x b) in
    let (rest_fits, rest) =
      mult_loop-amount left a' (shift_left b_lo 1) (shift_high b_lo b_hi) next (omega arith)
        (ground arith) (omega arith) fits next_fits in
    elim (Bool-cases (is_odd a && (bit_and a 0xffff_fffe == 0))) [
      | inl last ↦
          let one : a ≡ 1 = ground (arith, is_odd_lem a, bit_and-even_mask a ha) in
          let gone : x ≡ 0 =
            ap (λ (y : ℕ). low_bits left (shift_right y 1)) one ∙ low_bits-zero left in
          let vanish : x * b ≡ 0 = ap (λ (y : ℕ). y * b) gone ∙ omega arith in
          rw last
            (next_fits, omega (arith, next_fits.hi_fits, next_fits.lo_fits, split, sum, vanish))
      | inr more ↦ rw more (rest_fits, omega (arith, rest, grown, split, sum))
    ]
