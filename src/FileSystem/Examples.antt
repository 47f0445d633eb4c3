-- ===== src/FileSystem/Examples.antt =====
-- Tests of the operations on a small disk, and their laws there.
use nach_operator_system.Prelude.{
  ℕ, zero, suc, ◌-◌, ◌<◌, ◌≡◌, ◌≢◌, refl, ap, ◌⊎◌, inl, inr, Bool, true, false, Option, some, none,
  [], ◌∷◌, pos, min, replicate, CString, arith, ◌>>=◌, strncmp_eq, str_eq,
}
use nach_operator_system.BitMap.{BitMap, new_bit_map, mark, clear, test, find, num_clear}
use nach_operator_system.BitMap.Laws.{marked}
use nach_operator_system.Directory
use nach_operator_system.Directory.{
  DirectoryEntry, Directory, find_index, find_index_loop, add_loop,
}
use nach_operator_system.Directory.Lookup.{has}
use nach_operator_system.FileHeader.{allocate, deallocate, byte_to_sector}
use nach_operator_system.OpenFile.{Disk, read_at, write_at}
use nach_operator_system.OpenFile.Writing.{Writes}
use nach_operator_system.FileSystem.{FileSystem, format, create, open_file, remove}
use nach_operator_system.FileSystem.Layout.{
  header_of, words_of, fetch_header, fetch_bit_map, fetch_directory, write_header, write_directory,
  write_bit_map,
}
use nach_operator_system.FileSystem.Storing.{Stores, Elsewhere}
use nach_operator_system.FileSystem.Creating.{create-Created}
use nach_operator_system.FileSystem.Created.{IsSound, Refusal, Created}
use nach_operator_system.FileSystem.Undoing.{remove-create}
use nach_operator_system.FileSystem.Opening.{write_at-create, sectors_of}
use nach_operator_system.FileHeader.Allocating.{elem, Holds, NoDup}
use nach_operator_system.Prelude.{◌||◌, ◌==◌, sym, subst}
use nach_operator_system.FileSystem.Removing.{IsFile}
use nach_operator_system.FileSystem.Isolation.{create-IsFile}
use nach_operator_system.FileSystem.Sample.{
  fresh, volume, maps, dirs, disk, empty_directory, free_map, volume-IsVolume, disk-Stores,
  fresh-IsFresh, disk-IsSound, name,
}

abbrev success : Option (Bool × Disk) → Bool
success none = false
success (some (b, d)) = b

-- The first file of a disk that was formatted is created, found and removed.
life_of_a_file :
    success (
      format fresh (λ s o. 0) >>= λ (r : FileSystem × Disk).
      create fresh r.0 name 300 r.1 >>= λ (c : Bool × Disk). remove fresh r.0 name c.1)
    ≡ true
unfolding format create new_bit_map mark clear test find find_index allocate Directory.find
    Directory.add fetch_directory fetch_bit_map write_header write_directory write_bit_map read_at
    write_at byte_to_sector num_clear fetch_header header_of words_of remove deallocate
    Directory.remove strncmp_eq str_eq
life_of_a_file = refl

none_there : has empty_directory.table name ≡ false
unfolding has
none_there = refl

create_succeeds : success (create fresh volume name 300 disk) ≡ true
unfolding create new_bit_map mark clear test find find_index allocate Directory.find Directory.add
    fetch_directory fetch_bit_map write_header write_directory write_bit_map read_at write_at
    byte_to_sector num_clear
create_succeeds = refl

create-Created_example :
    ((create fresh volume name 300 disk ≡ some (false, disk))
      × Refusal empty_directory free_map name 300)
    ⊎ Created fresh maps dirs disk empty_directory free_map name 300
        (create fresh volume name 300 disk)
create-Created_example =
    create-Created fresh volume maps dirs volume-IsVolume fresh-IsFresh disk empty_directory
      free_map name 300 disk-Stores disk-IsSound (omega arith, tt) (omega arith)

file :
    Created fresh maps dirs disk empty_directory free_map name 300
      (create fresh volume name 300 disk)
file = elim create-Created_example [
  | inl (refused, why) ↦ absurd (ground (arith, create_succeeds, ap success refused))
  | inr c ↦ c
]

remove-create_example :
    (disk2 : Disk) × (d2 : Directory) × (m2 : BitMap) × (remove fresh volume name file.disk'
      ≡ some (true, disk2))
    × Stores maps dirs disk2 d2 m2
    × IsSound maps dirs d2 m2
    × ((other : CString) → Directory.find d2 other ≡ Directory.find empty_directory other)
    × ((j : ℕ) → j < 1024 → marked m2 j ≡ marked free_map j)
remove-create_example =
    remove-create fresh volume maps dirs volume-IsVolume fresh-IsFresh disk empty_directory free_map
      name 300 disk-Stores disk-IsSound none_there file

write_at-create_example :
    (open_file fresh volume name file.disk'
      ≡ some (some (record { hdr = file.header; seek_position = 0 })))
    × (disk2 : Disk) × (write_at file.header file.disk'
          (λ i. 0)
          (record { size = 200; bytes = λ i. i })
          (pos 190)
          120
        ≡ some (min 190 (300 - 120), disk2))
    × Writes file.header
        (sectors_of file.allocated.taken)
        120
        (min 190 (300 - 120))
        (record { size = 200; bytes = λ i. i })
        file.disk'
        disk2
    × Stores maps dirs disk2 file.d' file.m'
    × (header_of (disk2 (pos file.sector)) ≡ some file.header)
write_at-create_example =
    write_at-create fresh volume maps dirs volume-IsVolume fresh-IsFresh disk empty_directory
      free_map name 300 disk-Stores disk-IsSound none_there file (λ i. 0)
      (record { size = 200; bytes = λ i. i }) 190 120 (omega arith) (omega arith) (omega arith)

only-one : (j : ℕ) → elem j (1 ∷ []) ≡ true → 1 ≡ j
unfolding elem
only-one j h = ground (arith, h)

dirs-not_header : (n k : ℕ) → n < 2 → pos n ≢ dirs k
dirs-not_header n zero h e = ground (arith, e)
dirs-not_header n (suc k) h e = ground (arith, e)

header-Elsewhere : (n : ℕ) → n < 2 → Elsewhere maps dirs (pos n)
header-Elsewhere n h = (ground arith, λ k inside. dirs-not_header n k h)

header-IsFile : IsFile maps dirs disk free_map 0 (1 ∷ [])
unfolding header_of words_of elem
header-IsFile = record {
  header = record { num_bytes = 100; num_sectors = 1; data_sectors = pos 1 ∷ replicate 29 (pos 0) };
  parsed = refl;
  listed = Holds.next refl Holds.end;
  count = refl;
  distinct = NoDup.cons refl NoDup.nil;
  taken = λ j h. (omega (arith, only-one j h), ap (marked free_map) (sym (only-one j h)));
  own = λ j h.
      subst (λ x. Elsewhere maps dirs (pos x)) (only-one j h) (header-Elsewhere 1 (omega arith));
  in_range = omega arith;
  sector_taken = refl;
  sector_own = header-Elsewhere 0 (omega arith);
  apart = refl;
}

create-IsFile_example :
    (create fresh volume name 300 disk ≡ some (false, disk))
    ⊎ ((c : Created fresh maps dirs disk empty_directory free_map name 300
          (create fresh volume name 300 disk))
        × IsFile maps dirs c.disk' c.m' c.sector c.allocated.taken
        × IsFile maps dirs c.disk' c.m' 0 (1 ∷ [])
        × ((o : ℕ) → c.disk' (pos 0) o ≡ disk (pos 0) o)
        × ((j o : ℕ) → elem j (1 ∷ []) ≡ true → c.disk' (pos j) o ≡ disk (pos j) o)
        × ((c.sector == 0 || elem c.sector (1 ∷ [])) ≡ false)
        × ((j : ℕ) → elem j c.allocated.taken ≡ true → (0 == j || elem j (1 ∷ [])) ≡ false))
create-IsFile_example =
    create-IsFile fresh volume maps dirs volume-IsVolume fresh-IsFresh disk empty_directory free_map
      name 300 disk-Stores disk-IsSound 0 (1 ∷ []) header-IsFile (omega arith, tt) (omega arith)
