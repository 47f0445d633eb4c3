-- ===== src/FileSystem/Created.antt =====
-- What FileSystem::Create of filesys/filesys.cc may leave on the disk.
use nach_operator_system.Prelude.{
  ℕ, ◌+◌, ◌^◌, ◌≤◌, ◌<◌, ◌≡◌, ◌≢◌, refl, sym, ◌∙◌, ◌⊎◌, inl, inr, Bool, true, false, not, ◌||◌,
  Option, some, List, [], ◌∷◌, ℤ, pos, minus_one, eqb_ℤ, if◌then◌else◌, CString, arith, eq_of_some,
  Bool-cases,
}
use nach_operator_system.BitMap.{BitMap, div_round_up, num_clear}
use nach_operator_system.BitMap.Laws
use nach_operator_system.BitMap.Laws.{marked, set_bit, set_bit-IsValid, marked-set_bit}
use nach_operator_system.BitMap.Find.{AllMarked}
use nach_operator_system.BitMap.Count.{free_count, num_clear_lem, free_count-set_bit}
use nach_operator_system.Directory
use nach_operator_system.Directory.{DirectoryEntry, Directory, matches}
use nach_operator_system.Directory.Lookup
use nach_operator_system.Directory.Lookup.{has, lookup, same_name, find_lem}
use nach_operator_system.Directory.Adding.{AllUsed}
use nach_operator_system.FileHeader.{FileHeader}
use nach_operator_system.FileHeader.Allocating.{Allocated, sized}
use nach_operator_system.OpenFile.{Disk}
use nach_operator_system.FileSystem.{Fresh}
use nach_operator_system.FileSystem.Layout.{header_of}
use nach_operator_system.FileSystem.Codec.{IsWords}
use nach_operator_system.FileSystem.Entries.{AreEntries}
use nach_operator_system.FileSystem.Storing.{Stores, Elsewhere}

-- The objects on the disk are whole, and the sectors of the two files are marked as taken.
pub record IsSound (maps dirs : ℕ → ℤ) (d : Directory) (m : BitMap) : Type 0 where
  pub directory : Lookup.IsValid d
  pub entries : AreEntries d.table
  pub free_map : Laws.IsValid m
  pub words : IsWords m.map
  pub reserved : (n : ℕ) → n < 1024 → marked m n ≡ false → Elsewhere maps dirs (pos n)

abbrev pub needed : ℕ → ℕ
needed size = div_round_up size 128

pub needed-lt : (size : ℕ) → size ≤ 3840 → needed size < 2 ^ 31
needed-lt size h = ground arith

-- What is clear after the marks of Create was clear before.
pub still_clear :
    (m m' : BitMap) (n j : ℕ) (more : Bool)
    → Laws.IsValid m
    → n < m.num_bits
    → marked m' j ≡ (more || marked (set_bit m n) j)
    → marked m' j ≡ false
    → marked m j ≡ false
still_clear m m' n j more v below marks clear =
    ground (arith, marks, clear, marked-set_bit m v n j below)

-- Why Create may return FALSE: the name is there, no sector or no entry is free, or too few sectors
-- are free for the header and the data.
abbrev pub Refusal : Directory → BitMap → CString → ℕ → Type 0
Refusal d m name size =
    (has d.table name ≡ true)
    ⊎ AllMarked m 0 m.num_bits
    ⊎ AllUsed d 0
    ⊎ (free_count m < 1 + needed size)

-- A file was created: its header is in a sector that was free, its data sectors were free too and
-- are each another, the name leads to the header, and nothing else has changed.
pub record Created (fresh : Fresh) (maps dirs : ℕ → ℤ) (disk : Disk) (d : Directory) (m : BitMap)
    (name : CString) (size : ℕ) (r : Option (Bool × Disk)) : Type 0 where
  pub disk' : Disk
  pub d' : Directory
  pub m' : BitMap
  pub sector : ℕ
  pub header : FileHeader
  pub returns : r ≡ some (true, disk')
  pub stores : Stores maps dirs disk' d' m'
  pub sound : IsSound maps dirs d' m'
  pub named :
      (other : CString)
      → Directory.find d' other
        ≡ (if same_name name other then some (pos sector) else Directory.find d other)
  pub in_range : sector < 1024
  pub was_free : marked m sector ≡ false
  pub written : header_of (disk' (pos sector)) ≡ some header
  pub allocated :
      Allocated (sized fresh.header size) (set_bit m sector) 0 (needed size) (some (header, m'))
  pub others : (s : ℤ) (o : ℕ) → Elsewhere maps dirs s → s ≢ pos sector → disk' s o ≡ disk s o

pub has_of_lookup :
    (es : List DirectoryEntry) (name : CString)
    → not (eqb_ℤ (lookup es name) minus_one) ≡ true
    → has es name ≡ true
unfolding has lookup
has_of_lookup [] name h = absurd (cc)
has_of_lookup (e ∷ es) name h = elim (Bool-cases (matches name e)) [
  | inl here ↦ rw here refl
  | inr other ↦ rw other (has_of_lookup es name (rw other at h))
]

pub pos-ne-minus_one : (n : ℕ) → eqb_ℤ (pos n) minus_one ≡ false
pos-ne-minus_one n = ground arith

pub too_few :
    (m : BitMap) (n free size : ℕ)
    → Laws.IsValid m
    → n < m.num_bits
    → marked m n ≡ false
    → num_clear (set_bit m n) ≡ some free
    → free < needed size
    → free_count m < 1 + needed size
too_few m n free size v below clear counted less =
    let same : free ≡ free_count (set_bit m n) =
      eq_of_some free (free_count (set_bit m n)) (sym counted ∙ num_clear_lem (set_bit m n)) in
    omega (arith, same, free_count-set_bit m n v below clear)
