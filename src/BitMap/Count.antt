-- ===== src/BitMap/Count.antt =====
-- `BitMap::NumClear` counts the clear positions, and `Find` uses one of them up.
use nach_operator_system.Prelude.{
  ℕ, zero, suc, ◌+◌, ◌≤◌, ◌<◌, ◌≡◌, ◌≢◌, refl, ◌∙◌, ap, ◌⊎◌, inl, inr, Bool, true, false, some, pos,
  minus_one, if◌then◌else◌, arith, Bool-cases, ◌==◌,
}
use nach_operator_system.BitMap.{BitMap, num_clear_loop, num_clear, find}
use nach_operator_system.BitMap.Laws.{
  IsValid, marked, set_bit, clear_bit, test_lem, marked-set_bit, marked-clear_bit,
}
use nach_operator_system.BitMap.Find.{find-Finds}

-- How many of the `left` positions from `i` on are clear.
pub clears : (ℕ → Bool) → ℕ → ℕ → ℕ
clears f i zero = 0
clears f i (suc left) = (if f i then 0 else 1) + clears f (suc i) left

pub clears-ext :
    (f g : ℕ → Bool) (i left : ℕ)
    → ((k : ℕ) → i ≤ k → k < i + left → f k ≡ g k)
    → clears f i left ≡ clears g i left
unfolding clears
clears-ext f g i zero h = refl
clears-ext f g i (suc left) h = ground (
  arith,
  h i (omega arith) (omega arith),
  clears-ext f g (suc i) left (λ k p q. h k (omega arith) (omega arith)),
)

-- Two sets that differ in one position of the range, marked in the second only.
pub clears-suc :
    (f g : ℕ → Bool) (i left n : ℕ)
    → i ≤ n
    → n < i + left
    → f n ≡ false
    → g n ≡ true
    → ((k : ℕ) → k < i + left → k ≢ n → f k ≡ g k)
    → clears f i left ≡ suc (clears g i left)
unfolding clears
clears-suc f g i zero n p q fn gn h = absurd (omega arith)
clears-suc f g i (suc left) n p q fn gn h = elim (Bool-cases (i == n)) [
  | inl here ↦
      ground (arith, clears-ext f g (suc i) left (λ k a b. h k (omega arith) (ground arith)))
  | inr later ↦ ground (
    arith,
    h i (omega arith) (ground arith),
    clears-suc f g (suc i) left n (ground arith) (omega arith) fn gn (λ k a b. h k (omega arith) b),
  )
]

pub clears-eq-zero :
    (f : ℕ → Bool) (i left : ℕ)
    → ((k : ℕ) → i ≤ k → k < i + left → f k ≡ true)
    → clears f i left ≡ 0
unfolding clears
clears-eq-zero f i zero h = refl
clears-eq-zero f i (suc left) h = ground (
  arith,
  h i (omega arith) (omega arith),
  clears-eq-zero f (suc i) left (λ k p q. h k (omega arith) (omega arith)),
)

num_clear_loop_lem :
    (left i : ℕ) (b : BitMap) (count : ℕ)
    → i + left ≤ b.num_bits
    → num_clear_loop left i b count ≡ some (count + clears (marked b) i left)
unfolding num_clear_loop clears
num_clear_loop_lem zero i b count h = ground arith
num_clear_loop_lem (suc left) i b count h = ground (
  arith,
  test_lem b i (omega arith),
  num_clear_loop_lem left (suc i) b count,
  num_clear_loop_lem left (suc i) b (suc count),
)

-- The number of clear positions.
pub free_count : BitMap → ℕ
free_count b = clears (marked b) 0 b.num_bits

-- `NumClear` returns the number of positions that `Test` finds clear.
pub num_clear_lem : (b : BitMap) → num_clear b ≡ some (free_count b)
unfolding num_clear free_count
num_clear_lem b = num_clear_loop_lem b.num_bits 0 b 0 (omega arith) ∙ ground arith

pub free_count-set_bit :
    (b : BitMap) (n : ℕ)
    → IsValid b
    → n < b.num_bits
    → marked b n ≡ false
    → free_count b ≡ suc (free_count (set_bit b n))
unfolding free_count
free_count-set_bit b n v h free =
    clears-suc (marked b) (marked (set_bit b n)) 0 b.num_bits n (omega arith) (omega arith) free
      (ground (arith, marked-set_bit b v n n h))
      (λ k p ne. ground (arith, marked-set_bit b v n k h))

pub free_count-clear_bit :
    (b : BitMap) (n : ℕ)
    → IsValid b
    → n < b.num_bits
    → marked b n ≡ true
    → free_count (clear_bit b n) ≡ suc (free_count b)
unfolding free_count
free_count-clear_bit b n v h full =
    clears-suc (marked (clear_bit b n)) (marked b) 0 b.num_bits n (omega arith) (omega arith)
      (ground (arith, marked-clear_bit b v n n h)) full
      (λ k p ne. ground (arith, marked-clear_bit b v n k h))

-- With a position free, Find takes one.
pub find-free :
    (b : BitMap)
    → IsValid b
    → 1 ≤ free_count b
    → (n : ℕ) × (find b ≡ some (pos n, set_bit b n))
      × (n < b.num_bits)
      × (marked b n ≡ false)
      × (free_count b ≡ suc (free_count (set_bit b n)))
unfolding free_count
find-free b v free = elim (find-Finds b) [
  | inl (e, all) ↦
      absurd
        (omega (arith, clears-eq-zero (marked b) 0 b.num_bits (λ k p q. all k p (omega arith))))
  | inr (n, e, first) ↦
      (n, e, first.below, first.is_clear, free_count-set_bit b n v first.below first.is_clear)
]

-- `Find` and `NumClear` agree: with no position free, `Find` reports -1; otherwise it returns a
-- position, and the bit map that it leaves has one free position less.
pub find-num_clear :
    (b : BitMap)
    → IsValid b
    → ((num_clear b ≡ some 0) × (find b ≡ some (minus_one, b)))
      ⊎ ((n : ℕ) × (b' : BitMap) × (free : ℕ) × (find b ≡ some (pos n, b'))
          × (n < b.num_bits)
          × (num_clear b ≡ some (suc free))
          × (num_clear b' ≡ some free))
find-num_clear b v = elim (find-Finds b) [
  | inl (e, all) ↦ inl (
    num_clear_lem b
        ∙ ap some (
            unfold free_count in
            clears-eq-zero (marked b) 0 b.num_bits (λ k p q. all k p (omega arith))),
    e,
  )
  | inr (n, e, first) ↦ inr (
    n,
    set_bit b n,
    free_count (set_bit b n),
    e,
    first.below,
    num_clear_lem b ∙ ap some (free_count-set_bit b n v first.below first.is_clear),
    num_clear_lem (set_bit b n),
  )
]
