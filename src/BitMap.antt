-- ===== src/BitMap.antt =====
-- userprog/bitmap.cc and bitmap.h: an array of bits in 32-bit words.
-- `map` is the array `unsigned int *map`, and `numWords` is its length. A position is a C `int`;
-- `none` is a failed ASSERT.
mod Examples
pub mod Laws
pub mod Find
pub mod Count
pub mod Fresh
use nach_operator_system.Prelude.{
  ℕ, zero, suc, ◌+◌, ◌-◌, ◌/◌, ◌%◌, ◌^◌, bit_and, bit_or, ◌&&◌, Bool, not, Option, some, List, ℤ,
  pos, negsuc, minus_one, ltb, ltb_ℤ, leb_ℤ, ◌==◌, if◌then◌else◌, get_or, set, assert, ◌>>=◌, ◌>>◌,
}
use nach_operator_system.Prelude.Bits.{bit_not}

abbrev pub bits_in_word : ℕ
bits_in_word = 32

pub record BitMap : Type 0 where
  pub num_bits : ℕ
  pub map : List ℕ

abbrev pub div_round_up : ℕ → ℕ → ℕ
div_round_up n s = n / s + (if ltb 0 (n % s) then 1 else 0)

-- `which >= 0 && which < numBits`.
abbrev pub in_range : BitMap → ℤ → Bool
in_range b which = leb_ℤ (pos 0) which && ltb_ℤ which (pos b.num_bits)

-- `map[which / BitsInWord]` and `1 << (which % BitsInWord)`, for a position that is in range.
abbrev pub word_at : BitMap → ℕ → ℕ
word_at b i = get_or b.map (i / bits_in_word) 0

abbrev pub with_word : BitMap → ℕ → ℕ → BitMap
with_word b i w = record b { map = set b.map (i / bits_in_word) w }

abbrev pub mask : ℕ → ℕ
mask i = 2 ^ (i % bits_in_word)

abbrev pub index : ℤ → ℕ
index (pos i) = i
index (negsuc i) = 0

unfoldable pub mark : BitMap → ℤ → Option BitMap
mark b which = do
  assert (in_range b which)
  let i = index which
  some (with_word b i (bit_or (word_at b i) (mask i)))

unfoldable pub clear : BitMap → ℤ → Option BitMap
clear b which = do
  assert (in_range b which)
  let i = index which
  some (with_word b i (bit_and (word_at b i) (bit_not (mask i))))

unfoldable pub test : BitMap → ℤ → Option Bool
test b which = do
  assert (in_range b which)
  let i = index which
  some (not (bit_and (word_at b i) (mask i) == 0))

-- `for (i = 0; i < numBits; i++) Clear(i)`, at `i` with `left` rounds to go.
clear_loop : ℕ → ℕ → BitMap → Option BitMap
clear_loop zero i b = some b
clear_loop (suc left) i b = clear b (pos i) >>= clear_loop left (suc i)

-- The constructor. `new unsigned int[numWords]` leaves the words as they are found in memory:
-- `garbage` stands for them.
unfoldable pub new_bit_map : ℕ → List ℕ → Option BitMap
unfolding clear_loop clear
new_bit_map nitems garbage = clear_loop nitems 0 (record { num_bits = nitems; map = garbage })

-- The body of both `Find`s: the first clear bit from `i` on within `left` positions, marked.
pub find_loop : ℕ → ℕ → BitMap → Option (ℤ × BitMap)
find_loop zero i b = some (minus_one, b)
find_loop (suc left) i b =
    let rest = find_loop left (suc i) b in
    let found = mark b (pos i) >>= λ b'. some (pos i, b') in
    test b (pos i) >>= λ marked. if not marked then found else rest

unfoldable pub find : BitMap → Option (ℤ × BitMap)
unfolding find_loop mark test
find b = find_loop b.num_bits 0 b

-- `Find(int a, int b)`, over `a <= i <= b`.
unfoldable pub find_between : BitMap → ℕ → ℕ → Option (ℤ × BitMap)
unfolding find_loop mark test
find_between b lo hi = find_loop (suc hi - lo) lo b

num_clear_loop : ℕ → ℕ → BitMap → ℕ → Option ℕ
num_clear_loop zero i b count = some count
num_clear_loop (suc left) i b count = test b (pos i) >>= λ marked.
    num_clear_loop left (suc i) b (if not marked then suc count else count)

unfoldable pub num_clear : BitMap → Option ℕ
unfolding num_clear_loop test
num_clear b = num_clear_loop b.num_bits 0 b 0
