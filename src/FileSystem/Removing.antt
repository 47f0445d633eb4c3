-- ===== src/FileSystem/Removing.antt =====
-- FileSystem::Remove of filesys/filesys.cc: the name, the sector of the header and those of the data
-- are given back; after Create it takes back all that Create did.
use nach_operator_system.Prelude.{
  ℕ, ◌<◌, ◌≡◌, refl, ap, sym, ◌∙◌, inl, inr, Bool, true, false, not, ◌&&◌, ◌||◌, ◌==◌, Option, some,
  List, ℤ, pos, minus_one, length, if◌then◌else◌, CString, arith, subst, Bool-cases, ==_iff, lt→ltb,
}
use nach_operator_system.BitMap.{BitMap, clear}
use nach_operator_system.BitMap.Laws.{
  marked, clear_bit, clear_lem, clear_bit-IsValid, marked-clear_bit,
}
use nach_operator_system.Directory
use nach_operator_system.Directory.{Directory}
use nach_operator_system.Directory.Lookup.{has, lookup, same_name, find_lem}
use nach_operator_system.Directory.Removing.{remove-outcome, lookup-absent}
use nach_operator_system.FileHeader.{FileHeader, deallocate, deallocate_loop}
use nach_operator_system.FileHeader.Allocating.{elem, NoDup, Holds}
use nach_operator_system.FileHeader.Releasing.{Released, deallocate_loop-Released}
use nach_operator_system.OpenFile.{Disk}
use nach_operator_system.FileSystem.{FileSystem, Fresh, remove, remove_file}
use nach_operator_system.FileSystem.Layout.{header_of}
use nach_operator_system.FileSystem.Storing.{
  IsVolume, Stores, IsFresh, Elsewhere, load_directory-Stores, load_free_map-Stores,
  write_directory-Stores, write_bit_map-Stores,
}
use nach_operator_system.FileSystem.Headers.{fetch_header-header_of}
use nach_operator_system.FileSystem.Keeping.{clear-Fits, deallocate-Fits}
use nach_operator_system.FileSystem.Tables.{remove-Fits}
use nach_operator_system.FileSystem.Created.{IsSound, pos-ne-minus_one}

both_cleared : (a b c x : Bool) → x ≡ (not b && c) → (not a && x) ≡ (not (a || b) && c)
both_cleared a b c x h = ground (arith, h)

-- The file whose header is in `sector`: its data sectors are `blocks`, each another, and all of them
-- are marked as taken and none is one of the two open files'.
pub record IsFile (maps dirs : ℕ → ℤ) (disk : Disk) (m : BitMap) (sector : ℕ) (blocks : List ℕ)
    : Type 0 where
  pub header : FileHeader
  pub parsed : header_of (disk (pos sector)) ≡ some header
  pub listed : Holds header.data_sectors 0 blocks
  pub count : length blocks ≡ header.num_sectors
  pub distinct : NoDup blocks
  pub taken : (j : ℕ) → elem j blocks ≡ true → (j < 1024) × (marked m j ≡ true)
  pub own : (j : ℕ) → elem j blocks ≡ true → Elsewhere maps dirs (pos j)
  pub in_range : sector < 1024
  pub sector_taken : marked m sector ≡ true
  pub sector_own : Elsewhere maps dirs (pos sector)
  pub apart : elem sector blocks ≡ false

-- What Remove of this file leaves.
pub record Removed (maps dirs : ℕ → ℤ) (disk : Disk) (d : Directory) (m : BitMap) (name : CString)
    (sector : ℕ) (blocks : List ℕ) (r : Option (Bool × Disk)) : Type 0 where
  pub disk' : Disk
  pub d' : Directory
  pub m' : BitMap
  pub returns : r ≡ some (true, disk')
  pub stores : Stores maps dirs disk' d' m'
  pub sound : IsSound maps dirs d' m'
  pub named :
      (other : CString)
      → Directory.find d' other
        ≡ (if same_name name other then some minus_one else Directory.find d other)
  pub marks : (j : ℕ) → j < 1024 → marked m' j ≡ (not (sector == j || elem j blocks) && marked m j)
  pub others : (s : ℤ) (o : ℕ) → Elsewhere maps dirs s → disk' s o ≡ disk s o

module _ (fresh : Fresh) (fs : FileSystem) (maps dirs : ℕ → ℤ) (v : IsVolume fs maps dirs)
    (f : IsFresh fresh) (disk : Disk) (d : Directory) (m : BitMap) (name : CString)
    (stored : Stores maps dirs disk d m) (sound : IsSound maps dirs d m) where
  -- Remove of a name that the directory does not have returns FALSE, and the disk is what it was.
  remove-absent : has d.table name ≡ false → remove fresh fs name disk ≡ some (false, disk)
  unfolding remove
  remove-absent absent =
      let dl = load_directory-Stores fresh fs maps dirs v disk d m stored in
      let fd = find_lem d name sound.directory.sized in
      rw dl (rw fd (rw (lookup-absent d.table name absent) refl))

  module _ (sector : ℕ) (blocks : List ℕ) (file : IsFile maps dirs disk m sector blocks) where
    -- What is clear after the marks of the file are taken away is no sector of the two open files.
    freed-Elsewhere :
        (j : ℕ)
        → j < 1024
        → (not (sector == j || elem j blocks) && marked m j) ≡ false
        → Elsewhere maps dirs (pos j)
    freed-Elsewhere j hj h = elim (Bool-cases (sector == j)) [
      | inl same ↦
          let e : sector ≡ j = (==_iff sector j).0 same in
          subst (λ x. Elsewhere maps dirs (pos x)) e file.sector_own
      | inr other ↦ elim (Bool-cases (elem j blocks)) [
        | inl mine ↦ file.own j mine
        | inr not_mine ↦ sound.reserved j hj (ground (arith, other, not_mine, h))
      ]
    ]

  module _ (sector : ℕ) (blocks : List ℕ) (file : IsFile maps dirs disk m sector blocks)
      (there : lookup d.table name ≡ pos sector) (here : has d.table name ≡ true) where
    released : Released m blocks (deallocate file.header m)
    unfolding deallocate
    released =
        subst (λ n. Released m blocks (deallocate_loop n 0 file.header m)) file.count
          (deallocate_loop-Released file.header m 0 blocks sound.free_map file.listed file.distinct
            (λ j h. let (below, full) = file.taken j h in (omega (arith, stored.num_bits), full)))

    -- Remove of a name that the directory has, and whose file is whole: it fails no ASSERT and returns
    -- TRUE; the name is not found any more and every other name is found as before, the sector of the
    -- header and those of the data are free and the marks of the others stay, and no sector but those
    -- of the directory and the bit map is written.
    pub remove-Removed : Removed maps dirs disk d m name sector blocks (remove fresh fs name disk)
    unfolding remove remove_file
    remove-Removed =
        let dl = load_directory-Stores fresh fs maps dirs v disk d m stored in
        let fl = load_free_map-Stores fresh fs maps dirs v f disk d m stored in
        let fd = find_lem d name sound.directory.sized ∙ ap some there in
        let found = pos-ne-minus_one sector in
        let fh =
          fetch_header-header_of fresh fs maps dirs v disk (pos sector)
            (lt→ltb sector 1024 file.in_range)
          ∙ file.parsed in
        let r = released in
        let bits : r.b'.num_bits ≡ 1024 = r.bits ∙ stored.num_bits in
        let below : sector < r.b'.num_bits = omega (arith, bits, file.in_range) in
        let m' : BitMap = clear_bit r.b' sector in
        let cleared : clear r.b' (pos sector) ≡ some m' = clear_lem r.b' sector below in
        let (words1, count1) = deallocate-Fits file.header m r.b' sound.words r.returns in
        let (words2, count2) = clear-Fits r.b' m' (pos sector) words1 cleared in
        let map_size : length m'.map ≡ 32 =
          count2 ∙ count1 ∙ sound.free_map ∙ rw (stored.num_bits) refl in
        let marks : (j : ℕ)
            → j < 1024
            → marked m' j ≡ (not (sector == j || elem j blocks) && marked m j) =
          λ j hj.
            marked-clear_bit r.b' r.valid sector j below
            ∙ both_cleared (sector == j) (elem j blocks) (marked m j) (marked r.b' j)
                (r.marks j (omega (arith, stored.num_bits))) in
        elim (remove-outcome d name sound.directory) [
          | inl (absent, e) ↦ absurd (ground (arith, absent, here))
          | inr (h, d', removed, valid, named) ↦
              let k = remove-Fits name d d' true sound.entries removed in
              let count : length d'.table ≡ 10 =
                k.count ∙ sym sound.directory.sized ∙ stored.table_size in
              let (disk1, run1, stored1, kept1) =
                write_bit_map-Stores fresh fs maps dirs v disk d m m' stored bits map_size words2 in
              let (disk2, run2, stored2, kept2) =
                write_directory-Stores fresh fs maps dirs v disk1 d d' m' stored1
                  (k.table_size ∙ stored.table_size) count k.entries in
              record {
                disk' = disk2;
                d' = d';
                m' = m';
                returns = rw dl (
                    rw fd (
                      rw found (
                        rw fh (
                          rw fl
                            (rw (r.returns) (rw cleared (rw removed (rw run1 (rw run2 refl)))))))));
                stores = stored2;
                sound = record {
                  directory = valid;
                  entries = k.entries;
                  free_map = clear_bit-IsValid r.b' sector r.valid;
                  words = words2;
                  reserved = λ j hj clear_now.
                      freed-Elsewhere sector blocks file j hj (sym (marks j hj) ∙ clear_now);
                };
                named = named;
                marks = marks;
                others = λ s o e. kept2 s o e ∙ kept1 s o e;
              }
        ]
