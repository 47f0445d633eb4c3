-- ===== src/Cpu/Mult/Laws.antt =====
-- `Mult` of machine/mipssim.cc computes the product of 64 bits, signed or not.
use nach_operator_system.Prelude.{
  ℕ, zero, suc, ◌+◌, ◌-◌, ◌*◌, ◌%◌, ◌^◌, ◌≤◌, ◌<◌, ◌≡◌, refl, sym, ap, ◌∙◌, true, false, ◌||◌, ◌==◌,
  inl, inr, ltb, if◌then◌else◌, Bool-cases, arith, word_mod, wrap_neg,
}
use native.Mathlib.Nat.{mul-le-mul, mul_comm, add-mul}
use nach_operator_system.Cpu.Mult.{Product, mult, mult_loop, complement, magnitude, opposite}
use nach_operator_system.Cpu.Mult.Loop.{Words, amount, low_bits, low_bits-mod, mult_loop-amount}

abbrev start : Product
start = record { hi = 0; lo = 0 }

-- The product of two words fits in a double word.
product-fits : (a b : ℕ) → a < word_mod → b < word_mod → a * b < 2 ^ 64
product-fits a b ha hb =
    let la : a ≤ 0xffff_ffff = omega arith in
    let lb : b ≤ 0xffff_ffff = omega arith in
    let le : a * b ≤ 0xffff_ffff * 0xffff_ffff = mul-le-mul la lb in omega arith

loop-product :
    (a b : ℕ)
    → a < word_mod
    → b < word_mod
    → Words (mult_loop 32 a b 0 start) × (amount (mult_loop 32 a b 0 start) ≡ a * b)
loop-product a b ha hb =
    let (fits, sum) =
      mult_loop-amount 32 a b 0 start (omega arith) ha hb (omega arith)
        (record { hi_fits = omega arith; lo_fits = omega arith }) in
    let all : low_bits 32 a ≡ a = low_bits-mod 32 0 a 0 a refl ha (omega arith) ha in
    let same : low_bits 32 a * b ≡ a * b = ap (λ (x : ℕ). x * b) all in
    (fits, sum ∙ omega (arith, product-fits a b ha hb, same))

-- One factor is zero.
zero-product : (a b : ℕ) → ((a == 0) || (b == 0)) ≡ true → a * b ≡ 0
zero-product zero b h = omega arith
zero-product (suc a) zero h = omega arith
zero-product (suc a) (suc b) h = absurd (ground arith)

-- Mult of two words as unsigned numbers: the words hi and lo together are the product.
pub mult-unsigned : (a b : ℕ) → a < word_mod → b < word_mod → amount (mult a b false) ≡ a * b
unfolding mult
mult-unsigned a b ha hb = elim (Bool-cases ((a == 0) || (b == 0))) [
  | inl z ↦ rw z (sym (zero-product a b z))
  | inr n ↦ rw n (loop-product a b ha hb).1
]

-- The word with its sign extended to 64 bits.
abbrev pub sign_extend : ℕ → ℕ
sign_extend a = if ltb a (2 ^ 31) then a else 2 ^ 64 - (word_mod - a)

complement-amount : (p : Product) → Words p → amount (complement p) ≡ (2 ^ 64 - amount p) % 2 ^ 64
complement-amount p w = ground (arith, w)

-- Products with a factor of the other sign, modulo 2 ^ 64.
negated : (x m b : ℕ) → x + m ≡ 2 ^ 64 → x * b + m * b ≡ 2 ^ 64 * b
negated x m b e = sym (add-mul x m b) ∙ ap (λ (y : ℕ). y * b) e

signed-zero : (a b : ℕ) → ((a == 0) || (b == 0)) ≡ true → sign_extend a * sign_extend b ≡ 0
signed-zero zero b h = omega arith
signed-zero (suc a) zero h = omega arith
signed-zero (suc a) (suc b) h = absurd (ground arith)

signed-product :
    (a b : ℕ)
    → a < word_mod
    → b < word_mod
    → (let m = magnitude true a * magnitude true b in
        if opposite a b then (2 ^ 64 - m) % 2 ^ 64 else m)
      ≡ sign_extend a * sign_extend b % 2 ^ 64
signed-product a b ha hb = elim (Bool-cases (ltb a (2 ^ 31))) [
  | inl pa ↦ elim (Bool-cases (ltb b (2 ^ 31))) [
    | inl pb ↦ rw (pa, pb) (omega (arith, product-fits a b ha hb))
    | inr nb ↦
        let n : ℕ = word_mod - b in
        let y : ℕ = 2 ^ 64 - n in
        let e = negated y n a (ground arith) in
        let nn : wrap_neg b ≡ n = ground arith in
        rw (pa, nb, nn, mul_comm a y)
          (omega (arith, product-fits a n ha (ground arith), mul_comm a n))
  ]
  | inr na ↦ elim (Bool-cases (ltb b (2 ^ 31))) [
    | inl pb ↦
        let m : ℕ = word_mod - a in
        let x : ℕ = 2 ^ 64 - m in
        let e = negated x m b (ground arith) in
        let mm : wrap_neg a ≡ m = ground arith in
        rw (na, pb, mm) (omega (arith, product-fits m b (ground arith) hb))
    | inr nb ↦
        let m : ℕ = word_mod - a in
        let x : ℕ = 2 ^ 64 - m in
        let n : ℕ = word_mod - b in
        let y : ℕ = 2 ^ 64 - n in
        let e1 = negated x m n (ground arith) in
        let e2 = negated y n x (ground arith) in
        let mm : wrap_neg a ≡ m = ground arith in
        let nn : wrap_neg b ≡ n = ground arith in
        rw (na, nb, mm, nn)
          (omega
            (arith, product-fits m n (ground arith) (ground arith), mul_comm x y, mul_comm n x))
  ]
]

product-opposite :
    (a b : ℕ)
    → a < word_mod
    → b < word_mod
    → opposite a b ≡ true
    → (2 ^ 64 - magnitude true a * magnitude true b) % 2 ^ 64
      ≡ sign_extend a * sign_extend b % 2 ^ 64
product-opposite a b ha hb o = rw o at (signed-product a b ha hb)

product-alike :
    (a b : ℕ)
    → a < word_mod
    → b < word_mod
    → opposite a b ≡ false
    → magnitude true a * magnitude true b ≡ sign_extend a * sign_extend b % 2 ^ 64
product-alike a b ha hb o = rw o at (signed-product a b ha hb)

-- Mult of two words as signed numbers: the words hi and lo together are the product of the
-- sign-extended words, modulo 2 ^ 64.
pub mult-signed :
    (a b : ℕ)
    → a < word_mod
    → b < word_mod
    → amount (mult a b true) ≡ sign_extend a * sign_extend b % 2 ^ 64
unfolding mult
mult-signed a b ha hb = elim (Bool-cases ((a == 0) || (b == 0))) [
  | inl z ↦ rw (z, signed-zero a b z) refl
  | inr n ↦
      let (fits, e) =
        loop-product (magnitude true a) (magnitude true b) (ground arith) (ground arith) in
      let p = mult_loop 32 (magnitude true a) (magnitude true b) 0 start in
      elim (Bool-cases (opposite a b)) [
        | inl o ↦
            rw (n, o)
              (complement-amount p fits
                ∙ ap (λ (x : ℕ). (2 ^ 64 - x) % 2 ^ 64) e
                ∙ product-opposite a b ha hb o)
        | inr s ↦ rw (n, s) (e ∙ product-alike a b ha hb s)
      ]
]
