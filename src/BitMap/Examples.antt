-- ===== src/BitMap/Examples.antt =====
-- The bit map at concrete words: tests of the code, and the laws at inputs that meet their
-- hypotheses.
use nach_operator_system.Prelude.{◌≡◌, refl, some, none, [], ◌∷◌, pos, negsuc}
use nach_operator_system.BitMap.{BitMap, mark, test, find, find_between, num_clear, new_bit_map}
use nach_operator_system.BitMap.Find.{Finds, find-Finds}

-- Ten positions, the first three marked.
abbrev sample : BitMap
sample = record { num_bits = 10; map = 7 ∷ [] }

find-sample : find sample ≡ some (pos 3, record { num_bits = 10; map = 15 ∷ [] })
unfolding find
find-sample = refl

find_between-sample :
    find_between sample 5 9 ≡ some (pos 5, record { num_bits = 10; map = 39 ∷ [] })
unfolding find_between
find_between-sample = refl

out_of_range :
    (test sample (pos 10) ≡ none)
    × (mark sample (negsuc 0) ≡ none)
    × (find_between sample 3 12 ≡ some (pos 3, record { num_bits = 10; map = 15 ∷ [] }))
unfolding test mark find_between
out_of_range = (refl, refl, refl)

num_clear-sample : num_clear sample ≡ some 7
unfolding num_clear
num_clear-sample = refl

new_from_garbage :
    new_bit_map 5 (0xffff_ffff ∷ []) ≡ some (record { num_bits = 5; map = 0xffff_ffe0 ∷ [] })
unfolding new_bit_map
new_from_garbage = refl

find-Finds_example : Finds sample 0 10 (find sample)
find-Finds_example = find-Finds sample
