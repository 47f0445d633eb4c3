-- ===== src/BitMap/Fresh.antt =====
-- The constructor of `BitMap`: every bit is cleared, whatever the memory held before.
use nach_operator_system.Prelude.{
  ℕ, zero, suc, ◌+◌, ◌≤◌, ◌<◌, ◌≡◌, refl, ◌∙◌, false, Option, some, List, length, arith,
}
use nach_operator_system.BitMap.{BitMap, bits_in_word, div_round_up, clear_loop, new_bit_map}
use nach_operator_system.BitMap.Laws.{
  IsValid, marked, clear_bit, clear_lem, clear_bit-IsValid, marked-clear_bit,
}

-- The loop up to `i` has cleared what lies below `hi` from `i` on.
record Cleared (i hi : ℕ) (b : BitMap) (r : Option BitMap) : Type 0 where
  out : BitMap
  returns : r ≡ some out
  valid : IsValid out
  same_bits : out.num_bits ≡ b.num_bits
  bits : (j : ℕ) → i ≤ j → j < hi → marked out j ≡ false
  others : (j : ℕ) → j < i → j < hi → marked out j ≡ marked b j

clear_loop-step :
    (left i : ℕ) (b : BitMap)
    → i < b.num_bits
    → clear_loop (suc left) i b ≡ clear_loop left (suc i) (clear_bit b i)
unfolding clear_loop
clear_loop-step left i b h = rw (clear_lem b i h)

clear_loop-Cleared :
    (left i : ℕ) (b : BitMap)
    → IsValid b
    → i + left ≡ b.num_bits
    → Cleared i b.num_bits b (clear_loop left i b)
clear_loop-Cleared zero i b v h = record {
  out = b;
  returns = unfold clear_loop in refl;
  valid = v;
  same_bits = refl;
  bits = λ j p q. absurd (omega arith);
  others = λ j p q. refl;
}
clear_loop-Cleared (suc left) i b v h =
    let rest =
      clear_loop-Cleared left (suc i) (clear_bit b i) (clear_bit-IsValid b i v) (omega arith) in
    record {
      out = rest.out;
      returns = clear_loop-step left i b (omega arith) ∙ rest.returns;
      valid = rest.valid;
      same_bits = rest.same_bits;
      bits = λ j p q.
          ground (arith, rest.bits j, rest.others j, marked-clear_bit b v i j (omega arith));
      others = λ j p q. ground (arith, rest.others j, marked-clear_bit b v i j (omega arith));
    }

-- The constructor never fails its ASSERTs, and yields a bit map of `nitems` positions, all clear,
-- from whatever the new words held.
pub new_bit_map-clear :
    (nitems : ℕ) (garbage : List ℕ)
    → length garbage ≡ div_round_up nitems bits_in_word
    → (b : BitMap) × (new_bit_map nitems garbage ≡ some b)
      × IsValid b
      × (b.num_bits ≡ nitems)
      × ((j : ℕ) → j < nitems → marked b j ≡ false)
unfolding new_bit_map
new_bit_map-clear nitems garbage h =
    let done =
      clear_loop-Cleared nitems 0 (record { num_bits = nitems; map = garbage }) h (omega arith) in
    (done.out, done.returns, done.valid, done.same_bits, λ j p. done.bits j (omega arith) p)
