-- ===== src/FileSystem/Storing.antt =====
-- The directory and the bit map of free sectors as the two open files hold them, and what the
-- copies to and from these files do.
use nach_operator_system.Prelude.{
  ℕ, ◌+◌, ◌*◌, ◌/◌, ◌%◌, ◌<◌, ◌≡◌, ◌≢◌, refl, ap, sym, ◌∙◌, some, List, ℤ, length, arith, subst,
}
use nach_operator_system.BitMap.{BitMap}
use nach_operator_system.BitMap.Fresh.{new_bit_map-clear}
use nach_operator_system.Directory.{DirectoryEntry, Directory, new_directory}
use nach_operator_system.OpenFile.{Disk, Buffer}
use nach_operator_system.OpenFile.Reading.{IsPlaced, file_byte, read_at-Reads}
use nach_operator_system.OpenFile.Sectors.{Distinct}
use nach_operator_system.OpenFile.Writing.{write_at-Writes}
use nach_operator_system.FileSystem.{FileSystem, Fresh, load_directory, load_free_map}
use nach_operator_system.FileSystem.Layout.{
  word_byte, words_of, entries_byte, entries_of, fetch_bit_map, write_bit_map, fetch_directory,
  write_directory,
}
use nach_operator_system.FileSystem.Codec.{IsWords, words_of-Agree, words_of-word_byte, AreInts}
use nach_operator_system.FileSystem.Entries.{AreEntries, entries_of-Agree, entries_of-entries_byte}

-- The two files have their sizes, and their parts have sectors of their own: `maps` are those of the
-- bit map, `dirs` those of the directory.
pub record IsVolume (fs : FileSystem) (maps dirs : ℕ → ℤ) : Type 0 where
  pub map_placed : IsPlaced fs.free_map_file maps
  pub map_distinct : Distinct fs.free_map_file maps
  pub map_size : fs.free_map_file.num_bytes ≡ 128
  pub dir_placed : IsPlaced fs.directory_file dirs
  pub dir_distinct : Distinct fs.directory_file dirs
  pub dir_size : fs.directory_file.num_bytes ≡ 200
  pub apart : (l : ℕ) → l * 128 < 200 → maps 0 ≢ dirs l

-- The disk holds a directory and a bit map of their sizes.
pub record Stores (maps dirs : ℕ → ℤ) (disk : Disk) (d : Directory) (m : BitMap) : Type 0 where
  pub table_size : d.table_size ≡ 10
  pub table : entries_of 10 (file_byte dirs disk) 0 ≡ d.table
  pub num_bits : m.num_bits ≡ 1024
  pub words : words_of 32 (file_byte maps disk) 0 ≡ m.map

-- What new finds in memory has the sizes of the objects.
pub record IsFresh (fresh : Fresh) : Type 0 where
  pub words : length fresh.words ≡ 32
  pub entries : length fresh.entries ≡ 10
  pub sectors : length fresh.header.data_sectors ≡ 30
  pub ints : AreInts fresh.header.data_sectors

-- A sector that neither of the two files has.
abbrev pub Elsewhere : (ℕ → ℤ) → (ℕ → ℤ) → ℤ → Type 0
Elsewhere maps dirs s = (s ≢ maps 0) × ((k : ℕ) → k * 128 < 200 → s ≢ dirs k)

directory_eq :
    (size : ℕ) (d : Directory) (es : List DirectoryEntry)
    → size ≡ d.table_size
    → es ≡ d.table
    → some (record { table_size = size; table = es }) ≡ some d
directory_eq size d es p q = cc

bit_map_eq :
    (bits : ℕ) (b : BitMap) (ws : List ℕ)
    → bits ≡ b.num_bits
    → ws ≡ b.map
    → some (record { num_bits = bits; map = ws }) ≡ some b
bit_map_eq bits b ws p q = cc

module _ (fresh : Fresh) (fs : FileSystem) (maps dirs : ℕ → ℤ) (v : IsVolume fs maps dirs) where
  fetch_directory-table :
      (disk : Disk) (d0 : Directory)
      → d0.table_size ≡ 10
      → fetch_directory fs.directory_file disk fresh.chars fresh.padding d0
        ≡ some (record d0 { table = entries_of 10 (file_byte dirs disk) 0 })
  unfolding fetch_directory
  fetch_directory-table disk d0 size =
      let into : Buffer = record {
        size = d0.table_size * 20;
        bytes = entries_byte fresh.padding d0.table;
      } in
      let (into', runs, reads) =
        read_at-Reads fs.directory_file disk dirs v.dir_placed fresh.chars into 0
          (d0.table_size * 20) 0 (omega (arith, size)) (omega arith) in
      let same : entries_of 10 into'.bytes 0 ≡ entries_of 10 (file_byte dirs disk) 0 =
        entries_of-Agree 10 into'.bytes (file_byte dirs disk) 0 0
          (λ i l. reads.copied i (omega (arith, v.dir_size, size))) in
      rw runs (rw size (rw same refl))

  pub load_directory-Stores :
      (disk : Disk) (d : Directory) (m : BitMap)
      → Stores maps dirs disk d m
      → load_directory fresh fs disk ≡ some d
  unfolding load_directory
  load_directory-Stores disk d m stored =
      fetch_directory-table disk (new_directory 10 fresh.entries) refl
      ∙ directory_eq 10 d (entries_of 10 (file_byte dirs disk) 0) (sym stored.table_size)
          stored.table

  pub load_free_map-Stores :
      IsFresh fresh
      → (disk : Disk) (d : Directory) (m : BitMap) → Stores maps dirs disk d m
      → load_free_map fresh fs disk ≡ some m
  unfolding load_free_map fetch_bit_map
  load_free_map-Stores f disk d m stored =
      let (b, made, valid, bits, clear) = new_bit_map-clear 1024 fresh.words (f.words ∙ refl) in
      let size : length b.map ≡ 32 = valid ∙ rw bits refl in
      let into : Buffer = record { size = length b.map * 4; bytes = word_byte b.map } in
      let (into', runs, reads) =
        read_at-Reads fs.free_map_file disk maps v.map_placed fresh.chars into 0 (length b.map * 4)
          0 (omega (arith, size)) (omega arith) in
      let same : words_of 32 into'.bytes 0 ≡ words_of 32 (file_byte maps disk) 0 =
        words_of-Agree 32 into'.bytes (file_byte maps disk) 0 0
          (λ i l. reads.copied i (omega (arith, v.map_size, size))) in
      rw made (
        rw runs (
          rw size (
            rw same (
              bit_map_eq b.num_bits m (words_of 32 (file_byte maps disk) 0)
                (bits ∙ sym stored.num_bits) stored.words))))

  pub write_directory-Stores :
      (disk : Disk) (d d' : Directory) (m : BitMap)
      → Stores maps dirs disk d m
      → d'.table_size ≡ 10
      → length d'.table ≡ 10
      → AreEntries d'.table
      → (disk' : Disk) × (write_directory fs.directory_file disk fresh.chars fresh.padding d'
          ≡ some disk')
        × Stores maps dirs disk' d' m
        × ((s : ℤ) (o : ℕ) → Elsewhere maps dirs s → disk' s o ≡ disk s o)
  unfolding write_directory
  write_directory-Stores disk d d' m stored size count good =
      let from : Buffer = record {
        size = d'.table_size * 20;
        bytes = entries_byte fresh.padding d'.table;
      } in
      let (disk', runs, writes) =
        write_at-Writes fs.directory_file dirs v.dir_placed v.dir_distinct disk fresh.chars from
          (d'.table_size * 20) 0 (omega (arith, v.dir_size)) (omega (arith, size)) (omega arith) in
      let back : entries_of (length d'.table) (file_byte dirs disk') 0 ≡ d'.table =
        entries_of-entries_byte fresh.padding d'.table (file_byte dirs disk') 0 good
          (λ i l. writes.written i (omega (arith, v.dir_size, size, count))) in
      (
        disk',
        rw runs refl,
        record {
          table_size = size;
          table = subst (λ n. entries_of n (file_byte dirs disk') 0 ≡ d'.table) count back;
          num_bits = stored.num_bits;
          words =
              words_of-Agree 32 (file_byte maps disk') (file_byte maps disk) 0 0 (λ i l.
                let only : 0 ≡ (0 + i) / 128 = omega arith in
                writes.others (maps ((0 + i) / 128)) ((0 + i) % 128)
                  (λ k h e. v.apart k (omega (arith, v.dir_size)) (ap maps only ∙ e)))
              ∙ stored.words;
        },
        λ s o other. writes.others s o (λ k h. other.1 k (omega (arith, v.dir_size))),
      )

  pub write_bit_map-Stores :
      (disk : Disk) (d : Directory) (m m' : BitMap)
      → Stores maps dirs disk d m
      → m'.num_bits ≡ 1024
      → length m'.map ≡ 32
      → IsWords m'.map
      → (disk' : Disk) × (write_bit_map fs.free_map_file disk fresh.chars m' ≡ some disk')
        × Stores maps dirs disk' d m'
        × ((s : ℤ) (o : ℕ) → Elsewhere maps dirs s → disk' s o ≡ disk s o)
  unfolding write_bit_map
  write_bit_map-Stores disk d m m' stored bits count good =
      let from : Buffer = record { size = length m'.map * 4; bytes = word_byte m'.map } in
      let (disk', runs, writes) =
        write_at-Writes fs.free_map_file maps v.map_placed v.map_distinct disk fresh.chars from
          (length m'.map * 4) 0 (omega (arith, v.map_size)) (omega (arith, count)) (omega arith) in
      let back : words_of (length m'.map) (file_byte maps disk') 0 ≡ m'.map =
        words_of-word_byte m'.map (file_byte maps disk') 0 good
          (λ i l. writes.written i (omega (arith, v.map_size, count))) in
      (
        disk',
        rw runs refl,
        record {
          table_size = stored.table_size;
          table =
              entries_of-Agree 10 (file_byte dirs disk') (file_byte dirs disk) 0 0 (λ i l.
                writes.others (dirs ((0 + i) / 128)) ((0 + i) % 128) (λ k h e.
                  let only : 0 ≡ k = omega (arith, v.map_size) in
                  v.apart ((0 + i) / 128) (omega arith) (ap maps only ∙ sym e)))
              ∙ stored.table;
          num_bits = bits;
          words = subst (λ n. words_of n (file_byte maps disk') 0 ≡ m'.map) count back;
        },
        λ s o other.
            writes.others s o
              (λ k h e. let only : k ≡ 0 = omega (arith, v.map_size) in other.0 (e ∙ ap maps only)),
      )
