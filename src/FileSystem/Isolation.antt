-- ===== src/FileSystem/Isolation.antt =====
-- FileSystem::Create of filesys/filesys.cc and the other files on the disk.
use nach_operator_system.Prelude.{
  ℕ, ◌≤◌, ◌<◌, ◌≡◌, refl, ap, sym, ◌∙◌, ◌⊎◌, inl, inr, Bool, true, false, ◌||◌, ◌==◌, some, List, ℤ,
  pos, CString, arith, ==_iff,
}
use mathlib.Core.Path.{fun_ext}
use nach_operator_system.BitMap.{BitMap}
use nach_operator_system.BitMap.Laws.{marked}
use nach_operator_system.Directory.{Directory}
use nach_operator_system.FileHeader.Allocating.{elem}
use nach_operator_system.OpenFile.{Disk}
use nach_operator_system.FileSystem.{FileSystem, Fresh, create}
use nach_operator_system.FileSystem.Layout.{header_of}
use nach_operator_system.FileSystem.Storing.{IsVolume, Stores, IsFresh, Elsewhere}
use nach_operator_system.FileSystem.Created.{IsSound, Created}
use nach_operator_system.FileSystem.Creating.{create-Created}
use nach_operator_system.FileSystem.Tables.{NoZero}
use nach_operator_system.FileSystem.Removing.{IsFile}
use nach_operator_system.FileSystem.Undoing.{created_blocks, created_marks, created-IsFile, either}

-- Two ways to be taken, and neither for what is free.
not_taken :
    (a b x : Bool) → x ≡ false → (a ≡ true → x ≡ true) → (b ≡ true → x ≡ true) → (a || b) ≡ false
not_taken true b x free h1 h2 = absurd (let full = h1 refl in cc (free, full))
not_taken false true x free h1 h2 = absurd (let full = h2 refl in cc (free, full))
not_taken false false x free h1 h2 = refl

module _ (fresh : Fresh) (fs : FileSystem) (maps dirs : ℕ → ℤ) (v : IsVolume fs maps dirs)
    (f : IsFresh fresh) (disk : Disk) (d : Directory) (m : BitMap) (name : CString) (size : ℕ)
    (stored : Stores maps dirs disk d m) (sound : IsSound maps dirs d m) (sector : ℕ)
    (blocks : List ℕ) (file : IsFile maps dirs disk m sector blocks) where
  module _ (c : Created fresh maps dirs disk d m name size (create fresh fs name size disk)) where
    -- A sector that was taken is not written by Create, unless it is one of the two open files'.
    taken-kept :
        (j o : ℕ)
        → Elsewhere maps dirs (pos j)
        → marked m j ≡ true
        → c.disk' (pos j) o ≡ disk (pos j) o
    taken-kept j o other full = c.others (pos j) o other (λ e.
        let same : j ≡ c.sector = ground (arith, e) in
        let both : marked m c.sector ≡ true = ap (marked m) (sym same) ∙ full in
        cc (c.was_free, both))

    taken-marked : (j : ℕ) → j < 1024 → marked m j ≡ true → marked c.m' j ≡ true
    taken-marked j hj full =
        created_marks fresh fs maps dirs v f disk d m name size stored sound c j hj
        ∙ either (elem j c.allocated.taken) (c.sector == j || marked m j)
            (inr (either (c.sector == j) (marked m j) (inr full)))

    kept-IsFile : IsFile maps dirs c.disk' c.m' sector blocks
    kept-IsFile = record {
      header = file.header;
      parsed =
          ap header_of (fun_ext (λ o. taken-kept sector o file.sector_own file.sector_taken))
          ∙ file.parsed;
      listed = file.listed;
      count = file.count;
      distinct = file.distinct;
      taken = λ j h. let (inside, full) = file.taken j h in (inside, taken-marked j inside full);
      own = file.own;
      in_range = file.in_range;
      sector_taken = taken-marked sector file.in_range file.sector_taken;
      sector_own = file.sector_own;
      apart = file.apart;
    }

    disjoint : (j : ℕ) → elem j c.allocated.taken ≡ true → (sector == j || elem j blocks) ≡ false
    disjoint j h =
        let (inside, clear, other) =
          created_blocks fresh fs maps dirs v f disk d m name size stored sound c j h in
        not_taken (sector == j) (elem j blocks) (marked m j) clear
          (λ e.
            let same : sector ≡ j = (==_iff sector j).0 e in
            ap (marked m) (sym same) ∙ file.sector_taken)
          (λ e. (file.taken j e).1)

    header_outside : (c.sector == sector || elem c.sector blocks) ≡ false
    header_outside =
        not_taken (c.sector == sector) (elem c.sector blocks) (marked m c.sector) c.was_free
          (λ e.
            let same : c.sector ≡ sector = (==_iff c.sector sector).0 e in
            ap (marked m) same ∙ file.sector_taken)
          (λ e. (file.taken c.sector e).1)

  module _ (no_zero : NoZero name) (fits : size ≤ 3840) where
    -- Create of a file of at most MaxFileSize bytes, on a disk whose directory and bit map are
    -- whole, and another file that is whole there. Create fails no ASSERT: it returns FALSE and the
    -- disk is what it was, or it returns TRUE and both files are whole. Then the header and the data
    -- of the other file are as they were, its sectors are still marked as taken, and no sector
    -- belongs to both.
    pub create-IsFile :
        (create fresh fs name size disk ≡ some (false, disk))
        ⊎ ((c : Created fresh maps dirs disk d m name size (create fresh fs name size disk))
            × IsFile maps dirs c.disk' c.m' c.sector c.allocated.taken
            × IsFile maps dirs c.disk' c.m' sector blocks
            × ((o : ℕ) → c.disk' (pos sector) o ≡ disk (pos sector) o)
            × ((j o : ℕ) → elem j blocks ≡ true → c.disk' (pos j) o ≡ disk (pos j) o)
            × ((c.sector == sector || elem c.sector blocks) ≡ false)
            × ((j : ℕ) → elem j c.allocated.taken ≡ true → (sector == j || elem j blocks) ≡ false))
    create-IsFile =
        elim (create-Created fresh fs maps dirs v f disk d m name size stored sound no_zero fits) [
          | inl (refused, why) ↦ inl refused
          | inr c ↦ inr (
            c,
            created-IsFile fresh fs maps dirs v f disk d m name size stored sound c,
            kept-IsFile c,
            λ o. taken-kept c sector o file.sector_own file.sector_taken,
            λ j o h. taken-kept c j o (file.own j h) ((file.taken j h).1),
            header_outside c,
            disjoint c,
          )
        ]
