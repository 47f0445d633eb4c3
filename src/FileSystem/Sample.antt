-- ===== src/FileSystem/Sample.antt =====
-- A disk with an empty directory and one file that no entry leads to.
use nach_operator_system.Prelude.{
  ℕ, zero, suc, ◌*◌, ◌<◌, ◌≡◌, ◌≢◌, refl, ap, ◌∙◌, true, false, some, [], ◌∷◌, ℤ, pos, replicate,
  CString, arith, get_elem?,
}
use nach_operator_system.BitMap.{BitMap}
use nach_operator_system.BitMap.Laws.{marked}
use nach_operator_system.Directory.{DirectoryEntry, Directory}
use nach_operator_system.Directory.Lookup.{Unique}
use nach_operator_system.OpenFile.{Disk, is_sector}
use nach_operator_system.OpenFile.Sectors.{Distinct}
use nach_operator_system.FileSystem.{FileSystem, Fresh}
use nach_operator_system.FileSystem.Layout.{words_of, entries_of, entry_of, string_of}
use nach_operator_system.FileSystem.Codec.{IsWords, AreInts}
use nach_operator_system.FileSystem.Entries.{AreEntries}
use nach_operator_system.FileSystem.Storing.{IsVolume, Stores, IsFresh, Elsewhere}
use nach_operator_system.FileSystem.Created.{IsSound}

abbrev pub blank_entry : DirectoryEntry
blank_entry = record { in_use = false; sector = pos 0; name = [] }

abbrev pub fresh : Fresh
fresh = record {
  chars = λ i. 0;
  padding = λ i. 0;
  words = replicate 32 0;
  entries = replicate 10 blank_entry;
  header = record { num_bytes = 0; num_sectors = 0; data_sectors = replicate 30 (pos 0) };
}

-- The bit map is in sector 2, the directory in 3 and 4, and these five sectors are taken.
abbrev pub volume : FileSystem
volume = record {
  free_map_file = record {
    num_bytes = 128;
    num_sectors = 1;
    data_sectors = pos 2 ∷ replicate 29 (pos 0);
  };
  directory_file = record {
    num_bytes = 200;
    num_sectors = 2;
    data_sectors = pos 3 ∷ pos 4 ∷ replicate 28 (pos 0);
  };
}

abbrev pub maps : ℕ → ℤ
maps k = pos 2

abbrev pub dirs : ℕ → ℤ
dirs zero = pos 3
dirs (suc k) = pos 4

-- A file of 100 bytes has its header in sector 0 and its data in sector 1.
abbrev pub disk : Disk
disk (pos zero) zero = 100
disk (pos zero) (suc (suc (suc (suc zero)))) = 1
disk (pos zero) (suc (suc (suc (suc (suc (suc (suc (suc zero)))))))) = 1
disk (pos (suc (suc zero))) zero = 31
disk s o = 0

abbrev pub empty_directory : Directory
empty_directory = record { table_size = 10; table = replicate 10 blank_entry }

abbrev pub free_map : BitMap
free_map = record { num_bits = 1024; map = 31 ∷ replicate 31 0 }

pub map-placed :
    (k : ℕ) → k * 128 < 128 → get_elem? volume.free_map_file.data_sectors k ≡ some (maps k)
map-placed zero h = refl
map-placed (suc k) h = absurd (omega arith)

pub dir-placed :
    (k : ℕ) → k * 128 < 200 → get_elem? volume.directory_file.data_sectors k ≡ some (dirs k)
dir-placed zero h = refl
dir-placed (suc zero) h = refl
dir-placed (suc (suc k)) h = absurd (omega arith)

pub dirs-on_disk : (k : ℕ) → k * 128 < 200 → is_sector (dirs k) ≡ true
dirs-on_disk zero h = refl
dirs-on_disk (suc k) h = refl

pub dirs-Distinct : Distinct volume.directory_file dirs
dirs-Distinct zero zero hk hl e = refl
dirs-Distinct zero (suc l) hk hl e = absurd (ground (arith, e))
dirs-Distinct (suc k) zero hk hl e = absurd (ground (arith, e))
dirs-Distinct (suc k) (suc l) hk hl e = omega arith

pub maps-dirs : (l : ℕ) → l * 128 < 200 → maps 0 ≢ dirs l
maps-dirs zero h e = ground (arith, e)
maps-dirs (suc l) h e = ground (arith, e)

pub volume-IsVolume : IsVolume volume maps dirs
volume-IsVolume = record {
  map_placed = record { placed = map-placed; on_disk = λ k h. refl };
  map_distinct = λ k l hk hl e. omega arith;
  map_size = refl;
  dir_placed = record { placed = dir-placed; on_disk = dirs-on_disk };
  dir_distinct = dirs-Distinct;
  dir_size = refl;
  apart = maps-dirs;
}

pub disk-Stores : Stores maps dirs disk empty_directory free_map
unfolding entries_of entry_of string_of words_of
disk-Stores = record { table_size = refl; table = refl; num_bits = refl; words = refl }

pub zeros-AreInts : (n : ℕ) → AreInts (replicate n (pos 0))
zeros-AreInts zero = tt
zeros-AreInts (suc n) = (refl, zeros-AreInts n)

pub zeros-IsWords : (n : ℕ) → IsWords (replicate n 0)
zeros-IsWords zero = tt
zeros-IsWords (suc n) = (omega arith, zeros-IsWords n)

pub blank-AreEntries : (n : ℕ) → AreEntries (replicate n blank_entry)
blank-AreEntries zero = tt
blank-AreEntries (suc n) = ((refl, tt), blank-AreEntries n)

pub blank-Unique : (n : ℕ) → Unique (replicate n blank_entry)
blank-Unique zero = tt
blank-Unique (suc n) = (λ h. absurd (ground (arith, h)), blank-Unique n)

pub fresh-IsFresh : IsFresh fresh
fresh-IsFresh = record { words = refl; entries = refl; sectors = refl; ints = zeros-AreInts 30 }

pub taken_sector : (n j : ℕ) → marked free_map n ≡ false → marked free_map j ≡ true → pos n ≢ pos j
taken_sector n j free full e =
    let same : n ≡ j = ground (arith, e) in
    let both : marked free_map n ≡ true = ap (marked free_map) same ∙ full in cc (free, both)

pub dirs-taken : (n k : ℕ) → marked free_map n ≡ false → pos n ≢ dirs k
dirs-taken n zero free = taken_sector n 3 free refl
dirs-taken n (suc k) free = taken_sector n 4 free refl

pub free-Elsewhere : (n : ℕ) → n < 1024 → marked free_map n ≡ false → Elsewhere maps dirs (pos n)
free-Elsewhere n h free = (taken_sector n 2 free refl, λ k inside. dirs-taken n k free)

pub disk-IsSound : IsSound maps dirs empty_directory free_map
disk-IsSound = record {
  directory = record { sized = refl; unique = blank-Unique 10 };
  entries = blank-AreEntries 10;
  free_map = refl;
  words = (omega arith, zeros-IsWords 31);
  reserved = free-Elsewhere;
}

-- "a".
abbrev pub name : CString
name = 97 ∷ []
