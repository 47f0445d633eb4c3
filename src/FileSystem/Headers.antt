-- ===== src/FileSystem/Headers.antt =====
-- The copies of a file header to and from its sector, beside the directory and the bit map.
use nach_operator_system.Prelude.{
  ℕ, ◌+◌, ◌-◌, ◌*◌, ◌/◌, ◌%◌, ◌≡◌, ◌≢◌, refl, ap, sym, ◌∙◌, true, ◌&&◌, some, leb, le→leb, lt→ltb,
  of_int, ℤ, length, length-map, eqb_ℤ, eqb_ℤ_iff, ltb, if◌then◌else◌, arith,
}
use nach_operator_system.BitMap.{BitMap}
use nach_operator_system.Directory.{Directory}
use nach_operator_system.FileHeader.{FileHeader}
use nach_operator_system.OpenFile.{Disk, is_sector}
use nach_operator_system.OpenFile.Reading.{file_byte}
use nach_operator_system.OpenFile.Sectors.{not_same}
use nach_operator_system.FileSystem.{FileSystem, Fresh}
use nach_operator_system.FileSystem.Layout.{
  word_byte, header_words, header_of, fetch_header, write_header,
}
use nach_operator_system.FileSystem.Codec.{
  words_of-Agree, IsHeader, header_of-header_words, header_of-Agree,
}
use nach_operator_system.FileSystem.Entries.{entries_of-Agree}
use nach_operator_system.FileSystem.Storing.{IsVolume, Stores, Elsewhere}

module _ (fresh : Fresh) (fs : FileSystem) (maps dirs : ℕ → ℤ) (v : IsVolume fs maps dirs) where
  pub write_header-Stores :
      (disk : Disk) (d : Directory) (m : BitMap) (h : FileHeader) (sector : ℤ)
      → Stores maps dirs disk d m
      → IsHeader h
      → is_sector sector ≡ true
      → Elsewhere maps dirs sector
      → (disk' : Disk) × (write_header disk h sector ≡ some disk')
        × Stores maps dirs disk' d m
        × (header_of (disk' sector) ≡ some h)
        × ((s : ℤ) (o : ℕ) → s ≢ sector → disk' s o ≡ disk s o)
  unfolding write_header
  write_header-Stores disk d m h sector stored good on_disk other =
      let disk' : Disk = λ s i.
        if eqb_ℤ s sector && ltb i 128 then word_byte (header_words h) (0 + i) else disk s i in
      let size : length (header_words h) * 4 ≡ 128 =
        omega (arith, length-map h.data_sectors of_int, good.size) in
      let fits : leb (0 + 128) (length (header_words h) * 4) ≡ true =
        le→leb (0 + 128) (length (header_words h) * 4) (omega (arith, size)) in
      let kept : (s : ℤ) (o : ℕ) → s ≢ sector → disk' s o ≡ disk s o =
        λ s o ne. rw (not_same s sector ne) refl in
      (
        disk',
        rw on_disk (rw fits refl),
        record {
          table_size = stored.table_size;
          table =
              entries_of-Agree 10 (file_byte dirs disk') (file_byte dirs disk) 0 0 (λ i l.
                kept (dirs ((0 + i) / 128)) ((0 + i) % 128)
                  (λ e. other.1 ((0 + i) / 128) (omega arith) (sym e)))
              ∙ stored.table;
          num_bits = stored.num_bits;
          words =
              words_of-Agree 32 (file_byte maps disk') (file_byte maps disk) 0 0 (λ i l.
                kept (maps ((0 + i) / 128)) ((0 + i) % 128) (λ e.
                  let only : 0 ≡ (0 + i) / 128 = omega arith in other.0 (sym (ap maps only ∙ e))))
              ∙ stored.words;
        },
        header_of-header_words h (disk' sector) good (λ i l.
            let below : ltb i 128 ≡ true = lt→ltb i 128 l in
            let itself : eqb_ℤ sector sector ≡ true = (eqb_ℤ_iff sector sector).1 refl in
            let start : 0 + i ≡ i = omega arith in
            rw itself (rw below (ap (word_byte (header_words h)) start))),
        kept,
      )

  pub fetch_header-header_of :
      (disk : Disk) (sector : ℤ)
      → is_sector sector ≡ true
      → fetch_header disk fresh.chars sector ≡ header_of (disk sector)
  unfolding fetch_header
  fetch_header-header_of disk sector on_disk = rw on_disk (
      header_of-Agree (λ i. if leb 0 i && ltb i 128 then disk sector (i - 0) else fresh.chars i)
        (disk sector) (λ i l. let start : i - 0 ≡ i = omega arith in ground (arith, start)))
