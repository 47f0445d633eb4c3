-- ===== src/Kernel/Numbers/Reading.antt =====
-- The number that SC_ReadInt of userprog/exception.cc makes of a line, against the value that the
-- line spells.
use nach_operator_system.Prelude.{
  ℕ, zero, suc, ◌+◌, ◌-◌, ◌*◌, ◌%◌, ◌^◌, ◌≤◌, ◌<◌, ◌≡◌, refl, ◌⊎◌, inl, inr, Bool, true, false,
  ◌&&◌, List, [], ◌∷◌, ltb, leb, ◌==◌, if◌then◌else◌, arith, word_mod, wrap_neg, Bool-cases, ◌∙◌,
  tests,
}
use native.Mathlib.Nat.{pow-suc}
use nach_operator_system.Kernel.Numbers.{digit_zero, minus_sign, too_large, read_digits, parse_int}

abbrev pub is_digit : ℕ → Bool
is_digit c = leb digit_zero c && leb c 57

abbrev pub all_digits : List ℕ → Bool
all_digits [] = true
all_digits (c ∷ rest) = is_digit c && all_digits rest

-- The number that digits spell behind `n`, with no bound.
abbrev pub value : ℕ → List ℕ → ℕ
value n [] = n
value n (c ∷ rest) = value (n * 10 + (c - digit_zero)) rest

-- The largest magnitude of an `int` of this sign.
abbrev pub limit : Bool → ℕ
limit true = 2 ^ 31
limit false = 2 ^ 31 - 1

abbrev pub exact : Bool → ℕ → List ℕ → ℕ
exact neg n text = if all_digits text && leb (value n text) (limit neg) then value n text else 0

-- What ReadInt promises: the `int` that the line spells, as its 32 bits, or 0.
abbrev pub spelled : List ℕ → ℕ
spelled [] = 0
spelled (c ∷ rest) =
    if c == minus_sign then wrap_neg (exact true 0 rest) else exact false 0 (c ∷ rest)

-- `ele` counts the digits of `num`.
abbrev Counts : ℕ → ℕ → Type 0
Counts num ele = (num < 10 ^ ele) × (((num ≡ 0) × (ele ≡ 0)) ⊎ (10 ^ ele ≤ 10 * num))

limit_le : (neg : Bool) → limit neg ≤ 2 ^ 31
limit_le true = omega arith
limit_le false = omega arith

le-value : (text : List ℕ) (n : ℕ) → n ≤ value n text
le-value [] n = omega arith
le-value (c ∷ rest) n = omega (arith, le-value rest (n * 10 + (c - digit_zero)))

exact-large : (neg : Bool) (text : List ℕ) (n : ℕ) → limit neg < n → exact neg n text ≡ 0
exact-large neg text n h = grind (arith, le-value text n)

pow_mono : (a k : ℕ) → 10 ^ a ≤ 10 ^ (a + k)
pow_mono a zero = grind arith
pow_mono a (suc k) = grind (arith, pow_mono a k, pow-suc 10 (a + k))

Counts-next :
    (num ele d : ℕ)
    → Counts num ele
    → d < 10
    → Counts (num * 10 + d) (if (num * 10 + d) == 0 then ele else suc ele)
Counts-next num ele d h hd = grind (arith, pow-suc 10 ele)

exact-cons :
    (neg : Bool) (c : ℕ) (rest : List ℕ) (num : ℕ)
    → exact neg num (c ∷ rest)
      ≡ (if is_digit c then exact neg (num * 10 + (c - digit_zero)) rest else 0)
exact-cons neg c rest num = grind arith

Counts-ten : (num : ℕ) → Counts num 10 → 10 ^ 9 ≤ num
Counts-ten num h = grind arith

-- -2147483648 is kept as 2 ^ 31, with its ten digits.
Counts-min : (ele : ℕ) → Counts (2 ^ 31) ele → ele ≡ 10
Counts-min ele h = grind (arith, pow_mono 11 (ele - 11), pow_mono ele (9 - ele))

exact-stop :
    (neg : Bool) (c : ℕ) (rest : List ℕ) (num : ℕ)
    → limit neg < num * 10 + (c - digit_zero)
    → exact neg num (c ∷ rest) ≡ 0
exact-stop neg c rest num h =
    exact-cons neg c rest num ∙ ground (arith, exact-large neg rest (num * 10 + (c - digit_zero)) h)

too_large-exact :
    (neg : Bool) (num c : ℕ)
    → num < 2 ^ 31
    → is_digit c ≡ true
    → too_large neg num c ≡ ltb (limit neg) (num * 10 + (c - digit_zero))
too_large-exact true num c h hc = ground arith
too_large-exact false num c h hc = ground arith

ten_digits-large :
    (neg : Bool) (num c : ℕ) → Counts num 10 → limit neg < num * 10 + (c - digit_zero)
ten_digits-large neg num c h = omega (arith, Counts-ten num h, limit_le neg)

fewer_digits-small :
    (neg : Bool) (num ele : ℕ)
    → num ≤ limit neg
    → Counts num ele
    → (ele == 10) ≡ false
    → num < 2 ^ 31
fewer_digits-small neg num ele h counts less = elim (Bool-cases (num == 2 ^ 31)) [
  | inl same ↦ absurd (grind (arith, Counts-min ele))
  | inr other ↦ ground (arith, limit_le neg)
]

module _ (neg : Bool) (c : ℕ) (rest : List ℕ) (num ele : ℕ) where
  pub Next : Type 0
  Next =
      Counts (num * 10 + (c - digit_zero))
        (if (num * 10 + (c - digit_zero)) == 0 then ele else suc ele)
      → num * 10 + (c - digit_zero) ≤ limit neg
      → read_digits neg rest (num * 10 + (c - digit_zero))
          (if (num * 10 + (c - digit_zero)) == 0 then ele else suc ele)
        ≡ exact neg (num * 10 + (c - digit_zero)) rest

  read_digits-digit :
      num ≤ limit neg
      → Counts num ele
      → (ele == 10) ≡ false
      → is_digit c ≡ true
      → Next
      → read_digits neg (c ∷ rest) num ele ≡ exact neg num (c ∷ rest)
  unfolding read_digits Next
  read_digits-digit h counts less digit next =
      let num' = num * 10 + (c - digit_zero) in
      let large = too_large-exact neg num c (fewer_digits-small neg num ele h counts less) digit in
      elim (Bool-cases (ltb (limit neg) num')) [
        | inl beyond ↦ ground (arith, exact-stop neg c rest num (omega (tests, beyond)))
        | inr fits ↦
            let fits' : num' ≤ limit neg = ground arith in
            let same : (num * 10 + c - digit_zero) % word_mod ≡ num' =
              ground (arith, limit_le neg) in
            let counts' = Counts-next num ele (c - digit_zero) counts (ground arith) in
            ground (arith, same, fits, exact-cons neg c rest num, next counts' fits')
      ]

read_digits-exact :
    (neg : Bool) (text : List ℕ) (num ele : ℕ)
    → num ≤ limit neg
    → Counts num ele
    → read_digits neg text num ele ≡ exact neg num text
unfolding read_digits Next
read_digits-exact neg [] num ele h counts = ground arith
read_digits-exact neg (c ∷ rest) num ele h counts = elim (Bool-cases (ele == 10)) [
  | inl ten ↦
      ground
        (arith, ten, exact-stop neg c rest num (ten_digits-large neg num c (grind (arith, ten))))
  | inr less ↦ elim (Bool-cases (is_digit c)) [
    | inr other ↦ ground (arith, less, other, exact-cons neg c rest num)
    | inl digit ↦
        read_digits-digit neg c rest num ele h counts less digit
          (λ counts' fits. read_digits-exact neg rest _ _ fits counts')
  ]
]

-- The number that a line spells, on every line.
pub parse_int-spelled : (line : List ℕ) → parse_int line ≡ spelled line
unfolding parse_int
parse_int-spelled [] = refl
parse_int-spelled (c ∷ rest) = ground (
  arith,
  read_digits-exact true rest 0 0 (omega arith),
  read_digits-exact false (c ∷ rest) 0 0 (omega arith),
)
