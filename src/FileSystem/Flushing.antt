-- ===== src/FileSystem/Flushing.antt =====
-- The three writes at the end of FileSystem::Create of filesys/filesys.cc.
use nach_operator_system.Prelude.{ℕ, ◌≡◌, ◌≢◌, refl, ap, ◌∙◌, true, some, ℤ, length}
use mathlib.Core.Path.{fun_ext}
use nach_operator_system.BitMap.{BitMap}
use nach_operator_system.Directory.{Directory}
use nach_operator_system.FileHeader.{FileHeader}
use nach_operator_system.OpenFile.{Disk, is_sector}
use nach_operator_system.FileSystem.{FileSystem, Fresh, flush_create}
use nach_operator_system.FileSystem.Layout.{header_of}
use nach_operator_system.FileSystem.Codec.{IsWords, IsHeader}
use nach_operator_system.FileSystem.Entries.{AreEntries}
use nach_operator_system.FileSystem.Storing.{
  IsVolume, Stores, Elsewhere, write_directory-Stores, write_bit_map-Stores,
}
use nach_operator_system.FileSystem.Headers.{write_header-Stores}

module _ (fresh : Fresh) (fs : FileSystem) (maps dirs : ℕ → ℤ) (v : IsVolume fs maps dirs) where
  pub flush_create-Stores :
      (disk : Disk) (d d' : Directory) (m m' : BitMap) (h : FileHeader) (sector : ℤ)
      → Stores maps dirs disk d m
      → IsHeader h
      → is_sector sector ≡ true
      → Elsewhere maps dirs sector
      → d'.table_size ≡ 10
      → length d'.table ≡ 10
      → AreEntries d'.table
      → m'.num_bits ≡ 1024
      → length m'.map ≡ 32
      → IsWords m'.map
      → (disk' : Disk) × (flush_create fresh fs sector h d' m' disk ≡ some (true, disk'))
        × Stores maps dirs disk' d' m'
        × (header_of (disk' sector) ≡ some h)
        × ((s : ℤ) (o : ℕ) → Elsewhere maps dirs s → s ≢ sector → disk' s o ≡ disk s o)
  unfolding flush_create
  flush_create-Stores disk d d' m m' h sector stored good on_disk other size count entries bits
        words all =
      let (disk1, run1, stored1, header1, kept1) =
        write_header-Stores fresh fs maps dirs v disk d m h sector stored good on_disk other in
      let (disk2, run2, stored2, kept2) =
        write_directory-Stores fresh fs maps dirs v disk1 d d' m stored1 size count entries in
      let (disk3, run3, stored3, kept3) =
        write_bit_map-Stores fresh fs maps dirs v disk2 d' m m' stored2 bits words all in
      let same : disk3 sector ≡ disk1 sector =
        fun_ext (λ o. kept3 sector o other ∙ kept2 sector o other) in
      (
        disk3,
        rw run1 (rw run2 (rw run3 refl)),
        stored3,
        ap header_of same ∙ header1,
        λ s o e ne. kept3 s o e ∙ kept2 s o e ∙ kept1 s o ne,
      )
