-- ===== src/FileHeader/Examples.antt =====
-- A disk of 64 sectors, of which the two first are taken: files on it.
use nach_operator_system.Prelude.{
  ℕ, ◌≤◌, ◌<◌, ◌≡◌, refl, ◌⊎◌, true, false, some, none, [], ◌∷◌, pos, replicate, arith,
}
use nach_operator_system.BitMap.{BitMap, num_clear, find, div_round_up}
use nach_operator_system.FileHeader.{FileHeader, sector_size, allocate, byte_to_sector}
use nach_operator_system.FileHeader.Allocating.{
  Allocated, sized, allocate-outcome, allocate-overrun,
}

abbrev disk_map : BitMap
disk_map = record { num_bits = 64; map = 3 ∷ 0 ∷ [] }

abbrev blank_header : FileHeader
blank_header = record { num_bytes = 0; num_sectors = 0; data_sectors = replicate 30 (pos 0) }

abbrev with_file : BitMap
with_file = record { num_bits = 64; map = 31 ∷ 0 ∷ [] }

abbrev file_header : FileHeader
file_header = record {
  num_bytes = 300;
  num_sectors = 3;
  data_sectors = pos 2 ∷ pos 3 ∷ pos 4 ∷ replicate 27 (pos 0);
}

allocate_file : allocate blank_header disk_map 300 ≡ some (true, file_header, with_file)
unfolding allocate num_clear find
allocate_file = refl

last_byte : byte_to_sector file_header 299 ≡ some (pos 4)
unfolding byte_to_sector
last_byte = refl

allocate-outcome_example :
    (free : ℕ) × (num_clear disk_map ≡ some free)
    × (((free < div_round_up 300 sector_size)
          × (allocate blank_header disk_map 300 ≡ some (false, sized blank_header 300, disk_map)))
        ⊎ ((div_round_up 300 sector_size ≤ free)
            × (header' : FileHeader) × (b' : BitMap) × (allocate blank_header disk_map 300
                ≡ some (true, header', b'))
            × Allocated
                (sized blank_header 300)
                disk_map
                0
                (div_round_up 300 sector_size)
                (some (header', b'))))
allocate-outcome_example = allocate-outcome blank_header disk_map 300 refl refl (omega arith)

count_clear : num_clear disk_map ≡ some 62
unfolding num_clear
count_clear = refl

allocate-overrun_example : allocate blank_header disk_map 4000 ≡ none
allocate-overrun_example =
    allocate-overrun blank_header disk_map 4000 refl refl (omega arith) 62 count_clear (omega arith)
