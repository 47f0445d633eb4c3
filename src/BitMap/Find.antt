-- ===== src/BitMap/Find.antt =====
-- `BitMap::Find` and `BitMap::Find(a, b)`: the first clear bit of a range, then marked.
use nach_operator_system.Prelude.{
  ℕ, zero, suc, ◌+◌, ◌-◌, ◌≤◌, ◌<◌, ◌≡◌, refl, ◌⊎◌, inl, inr, true, false, Option, some, ℤ, pos,
  minus_one, if◌then◌else◌, arith, Bool-cases,
}
use nach_operator_system.BitMap.{BitMap, find_loop, find, find_between}
use nach_operator_system.BitMap.Laws.{marked, set_bit, mark_lem, test_lem}

-- Every position from `i` up to `hi` is marked.
abbrev pub AllMarked : BitMap → ℕ → ℕ → Type 0
AllMarked b i hi = (k : ℕ) → i ≤ k → k < hi → marked b k ≡ true

-- Position `n` is the first clear one from `i` on, below `hi`.
pub record IsFirstClear (b : BitMap) (i hi n : ℕ) : Type 0 where
  pub from : i ≤ n
  pub below : n < hi
  pub is_clear : marked b n ≡ false
  pub before : AllMarked b i n

-- A search that finds nothing reports -1 and changes nothing; one that finds a position marks it
-- and nothing else.
abbrev pub Finds : BitMap → ℕ → ℕ → Option (ℤ × BitMap) → Type 0
Finds b i hi r =
    ((r ≡ some (minus_one, b)) × AllMarked b i hi)
    ⊎ ((n : ℕ) × (r ≡ some (pos n, set_bit b n)) × IsFirstClear b i hi n)

find_loop-step :
    (left i : ℕ) (b : BitMap)
    → i < b.num_bits
    → find_loop (suc left) i b
      ≡ (if marked b i then find_loop left (suc i) b else some (pos i, set_bit b i))
unfolding find_loop
find_loop-step left i b h = ground (arith, test_lem b i h, mark_lem b i h)

Finds-skip :
    (b : BitMap) (i hi : ℕ) (r : Option (ℤ × BitMap))
    → marked b i ≡ true
    → Finds b (suc i) hi r
    → Finds b i hi r
Finds-skip b i hi r here (inl (e, all)) = inl (e, λ k p q. ground (arith, all k))
Finds-skip b i hi r here (inr (n, e, first)) = inr (
  n,
  e,
  record {
    from = omega (arith, first.from);
    below = first.below;
    is_clear = first.is_clear;
    before = λ k p q. ground (arith, first.before k);
  },
)

pub find_loop-Finds :
    (left i hi : ℕ) (b : BitMap)
    → i + left ≡ hi
    → hi ≤ b.num_bits
    → Finds b i hi (find_loop left i b)
find_loop-Finds zero i hi b e h = inl (unfold find_loop in refl, λ k p q. absurd (omega arith))
find_loop-Finds (suc left) i hi b e h = elim (Bool-cases (marked b i)) [
  | inl here ↦
      rw (find_loop-step left i b (omega arith), here)
        (Finds-skip b i hi (find_loop left (suc i) b) here
          (find_loop-Finds left (suc i) hi b (omega arith) h))
  | inr free ↦
      rw (find_loop-step left i b (omega arith), free)
        (inr (
          i,
          refl,
          record {
            from = omega arith;
            below = omega arith;
            is_clear = free;
            before = λ k p q. absurd (omega arith);
          },
        ))
]

-- `Find()` takes the lowest clear position, marks it and nothing else; it reports -1 exactly when
-- every position is marked, and changes nothing then.
pub find-Finds : (b : BitMap) → Finds b 0 b.num_bits (find b)
unfolding find
find-Finds b = find_loop-Finds b.num_bits 0 b.num_bits b (omega arith) (omega arith)

-- `Find(a, b)`, for positions `a` to `b` of the bit map, takes the lowest clear one of them, both
-- ends included, marks it and nothing else; it reports -1 exactly when all of them are marked.
pub find_between-Finds :
    (b : BitMap) (lo hi : ℕ)
    → lo ≤ suc hi
    → hi < b.num_bits
    → Finds b lo (suc hi) (find_between b lo hi)
unfolding find_between
find_between-Finds b lo hi p q = find_loop-Finds (suc hi - lo) lo (suc hi) b (omega arith) q
