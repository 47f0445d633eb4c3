-- ===== src/BitMap/Laws.antt =====
-- One bit at a time: `mark`, `clear` and `test` of userprog/bitmap.cc against the set of marked
-- positions.
use nach_operator_system.Prelude.{
  ℕ, ◌/◌, ◌%◌, ◌≤◌, ◌<◌, ◌>>=◌, none, bit_and, bit_or, ◌≡◌, ◌&&◌, ◌||◌, Bool, not, some, pos, ◌==◌,
  if◌then◌else◌, length, length-set, get_or-set_self, get_or-set_ne, ap, ◌∙◌, arith,
}
use nach_operator_system.Prelude.Bits.{
  bit, bit_not, bit-lt-two, bit-bit_or, bit-bit_and, bit-pow, bit-bit_not-pow, bit_and-pow-eq-zero,
}
use native.Mathlib.Decide.{ℕ_discrete, dec_lt}
use nach_operator_system.BitMap.{
  BitMap, bits_in_word, word_at, with_word, mask, mark, clear, test, div_round_up,
}

-- The words hold every bit.
abbrev pub IsValid : BitMap → Type 0
IsValid b = length b.map ≡ div_round_up b.num_bits bits_in_word

abbrev pub marked : BitMap → ℕ → Bool
marked b i = not (bit_and (word_at b i) (mask i) == 0)

abbrev pub set_bit : BitMap → ℕ → BitMap
set_bit b i = with_word b i (bit_or (word_at b i) (mask i))

abbrev pub clear_bit : BitMap → ℕ → BitMap
clear_bit b i = with_word b i (bit_and (word_at b i) (bit_not (mask i)))

pub mark_lem : (b : BitMap) (i : ℕ) → i < b.num_bits → mark b (pos i) ≡ some (set_bit b i)
unfolding mark
mark_lem b i h = ground arith

pub clear_lem : (b : BitMap) (i : ℕ) → i < b.num_bits → clear b (pos i) ≡ some (clear_bit b i)
unfolding clear
clear_lem b i h = ground arith

pub test_lem : (b : BitMap) (i : ℕ) → i < b.num_bits → test b (pos i) ≡ some (marked b i)
unfolding test
test_lem b i h = ground arith

pub set_bit-IsValid : (b : BitMap) (i : ℕ) → IsValid b → IsValid (set_bit b i)
set_bit-IsValid b i v = length-set b.map _ _ ∙ v

pub clear_bit-IsValid : (b : BitMap) (i : ℕ) → IsValid b → IsValid (clear_bit b i)
clear_bit-IsValid b i v = length-set b.map _ _ ∙ v

marked-bit : (b : BitMap) (i : ℕ) → marked b i ≡ not (bit (i % 32) (word_at b i) == 0)
marked-bit b i = ap not (bit_and-pow-eq-zero (word_at b i) (i % 32))

module _ (b : BitMap) (v : IsValid b) (i j : ℕ) (hi : i < b.num_bits) where
  word-with_word :
      (w : ℕ) → word_at (with_word b i w) j ≡ (if (i / 32) == (j / 32) then w else word_at b j)
  word-with_word w = elim (ℕ_discrete (i / 32) (j / 32)) [
    | yes e ↦ ground (arith, get_or-set_self b.map (i / 32) w 0)
    | no ne ↦ ground (arith, get_or-set_ne b.map (i / 32) (j / 32) w 0 ne)
  ]

  pub marked-set_bit : marked (set_bit b i) j ≡ (i == j || marked b j)
  marked-set_bit = ground (
    arith,
    marked-bit (set_bit b i) j,
    marked-bit b j,
    word-with_word (bit_or (word_at b i) (mask i)),
    bit-bit_or (j % 32) (word_at b i) (mask i),
    bit-pow (j % 32) (i % 32),
  )

  pub marked-clear_bit : marked (clear_bit b i) j ≡ (not (i == j) && marked b j)
  marked-clear_bit = ground (
    arith,
    marked-bit (clear_bit b i) j,
    marked-bit b j,
    word-with_word (bit_and (word_at b i) (bit_not (mask i))),
    bit-bit_and (j % 32) (word_at b i) (bit_not (mask i)),
    bit-bit_not-pow (j % 32) (i % 32),
    bit-lt-two (j % 32) (word_at b i),
  )

test-past : (b : BitMap) (j : ℕ) → b.num_bits ≤ j → test b (pos j) ≡ none
unfolding test
test-past b j h = ground arith

module _ (b : BitMap) (v : IsValid b) (i : ℕ) (hi : i < b.num_bits) where
  -- Mark, at a position of the bit map, sets the bit of that position and keeps every other, as Test
  -- reads them; the bit map stays valid.
  pub test-mark :
      (b' : BitMap) × (mark b (pos i) ≡ some b')
      × IsValid b'
      × ((j : ℕ) → test b' (pos j) ≡ (test b (pos j) >>= λ x. some (i == j || x)))
  test-mark = (
    set_bit b i,
    mark_lem b i hi,
    set_bit-IsValid b i v,
    λ j. elim (dec_lt j b.num_bits) [
      | yes h ↦
          ground (arith, test_lem (set_bit b i) j h, test_lem b j h, marked-set_bit b v i j hi)
      | no h ↦ ground (arith, test-past (set_bit b i) j, test-past b j)
    ],
  )

  -- Clear, at a position of the bit map, clears the bit of that position and keeps every other, as
  -- Test reads them; the bit map stays valid.
  pub test-clear :
      (b' : BitMap) × (clear b (pos i) ≡ some b')
      × IsValid b'
      × ((j : ℕ) → test b' (pos j) ≡ (test b (pos j) >>= λ x. some (not (i == j) && x)))
  test-clear = (
    clear_bit b i,
    clear_lem b i hi,
    clear_bit-IsValid b i v,
    λ j. elim (dec_lt j b.num_bits) [
      | yes h ↦
          ground (arith, test_lem (clear_bit b i) j h, test_lem b j h, marked-clear_bit b v i j hi)
      | no h ↦ ground (arith, test-past (clear_bit b i) j, test-past b j)
    ],
  )
