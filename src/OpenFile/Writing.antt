-- ===== src/OpenFile/Writing.antt =====
-- filesys/openfile.cc: what WriteAt leaves on the disk, against the file as a sequence of bytes.
use nach_operator_system.Prelude.{
  false, eqb_ℤ, ℕ, ◌+◌, ◌-◌, ◌*◌, ◌/◌, ◌%◌, ◌^◌, ◌<◌, ◌≤◌, min, Bool, true, not, ◌&&◌, ◌||◌, ◌==◌,
  ◌≡◌, ◌≢◌, refl, ap, ◌⊎◌, inl, inr, Bool-cases, le→leb, lt→ltb, sym, ◌∙◌, some, ℤ, pos, ltb, leb,
  if◌then◌else◌, arith, subst,
}
use nach_operator_system.FileHeader.{max_file_size, FileHeader}
use nach_operator_system.OpenFile.{Disk, Buffer, write_sectors, write_at, read_at}
use nach_operator_system.OpenFile.Reading.{IsPlaced, file_byte, read_at-Reads}
use nach_operator_system.OpenFile.Partial.{
  copied_in, copied_out, both, shifted, beyond, read_partial-Prepared, byte_before_write,
}
use nach_operator_system.OpenFile.Sectors.{Distinct, not_same, other_sector, write_loop-Written}

-- What a WriteAt of `count` bytes leaves: they are the bytes of the file from `position` on, the
-- file's other bytes are as before, and so is every sector that is not the file's.
pub record Writes (header : FileHeader) (sectors : ℕ → ℤ) (position count : ℕ) (from : Buffer)
    (disk disk' : Disk) : Type 0 where
  pub written : (k : ℕ) → k < count → file_byte sectors disk' (position + k) ≡ from.bytes k
  pub kept :
      (j : ℕ)
      → j < header.num_bytes
      → (j < position) ⊎ (position + count ≤ j)
      → file_byte sectors disk' j ≡ file_byte sectors disk j
  pub others :
      (s : ℤ) (o : ℕ)
      → ((k : ℕ) → k * 128 < header.num_bytes → s ≢ sectors k)
      → disk' s o ≡ disk s o

module _ (header : FileHeader) (sectors : ℕ → ℤ) (p : IsPlaced header sectors)
    (distinct : Distinct header sectors) where
  -- The sectors `first` to `last` were written back from a buffer that holds the new bytes over the
  -- old ones.
  written_back-Writes :
      (disk disk' : Disk) (from buf : Buffer) (n position first last : ℕ)
      → header.num_bytes ≤ 3840
      → position + n ≤ header.num_bytes
      → first ≤ last
      → first * 128 ≤ position
      → last * 128 < position + n
      → position + n ≤ last * 128 + 128
      → ((j : ℕ)
          → j < (1 + last - first) * 128
          → file_byte sectors disk' (first * 128 + j) ≡ (
              if leb (position - first * 128) j && ltb j (position - first * 128 + n)
              then from.bytes (0 + (j - (position - first * 128)))
              else buf.bytes j))
      → ((s : ℤ) (o : ℕ)
          → ((k : ℕ) → k < 1 + last - first → eqb_ℤ s (sectors (first + k)) ≡ false)
          → disk' s o ≡ disk s o)
      → ((j : ℕ)
          → first * 128 + j < last * 128 + 128
          → first * 128 + j < header.num_bytes
          → (first * 128 + j < position) ⊎ (position + n ≤ first * 128 + j)
          → buf.bytes j ≡ file_byte sectors disk (first * 128 + j))
      → Writes header sectors position n from disk disk'
  written_back-Writes disk disk' from buf n position first last small inside order start end end'
        written kept old =
      let skipped : ℕ = position - first * 128 in
      let source : ℕ → ℕ = λ i. from.bytes (0 + i) in
      record {
        written = λ k h.
            let place : position + k ≡ first * 128 + (skipped + k) = omega arith in
            ap (file_byte sectors disk') place
            ∙ written (skipped + k) (omega arith)
            ∙ copied_in skipped n k source buf.bytes h
            ∙ ap from.bytes (omega arith);
        kept = λ j inside_file out.
            elim (Bool-cases (leb (first * 128) j && ltb j (last * 128 + 128))) [
              | inl near ↦
                  let (low, high) = both (first * 128) (last * 128 + 128) j near in
                  let i : ℕ = j - first * 128 in
                  let place : j ≡ first * 128 + i = omega arith in
                  ap (file_byte sectors disk') place
                  ∙ written i (omega arith)
                  ∙ copied_out skipped n i source buf.bytes
                      (shifted (first * 128) position n j start low out)
                  ∙ old i (omega arith) (omega arith)
                      (subst (λ a. (a < position) ⊎ (position + n ≤ a)) place out)
                  ∙ ap (file_byte sectors disk) (sym place)
              | inr far ↦ kept (sectors (j / 128)) (j % 128) (λ k h2.
                  other_sector header sectors p distinct (j / 128) (first + k) (omega arith)
                    (omega arith) (beyond first last j k order far h2))
            ];
        others = λ s o foreign.
            kept s o (λ k h2. not_same s (sectors (first + k)) (foreign (first + k) (omega arith)));
      }

  write_sectors-Writes :
      (disk : Disk) (garbage : ℕ → ℕ) (from : Buffer) (n position : ℕ)
      → header.num_bytes ≤ 3840
      → 0 < n
      → position + n ≤ header.num_bytes
      → n ≤ from.size
      → (disk' : Disk) × (write_sectors header disk garbage from n position ≡ some (n, disk'))
        × Writes header sectors position n from disk disk'
  unfolding write_sectors
  write_sectors-Writes disk garbage from n position small some_bytes inside room =
      let first : ℕ = position / 128 in
      let last : ℕ = (position + n - 1) / 128 in
      let rounds : ℕ = 1 + last - first in
      let skipped : ℕ = position - first * 128 in
      let order : first ≤ last = omega arith in
      let start : first * 128 ≤ position = omega arith in
      let start' : position < first * 128 + 128 = omega arith in
      let end : last * 128 < position + n = omega arith in
      let end' : position + n ≤ last * 128 + 128 = omega arith in
      let first_aligned : Bool = position == first * 128 in
      let b2 : Bool =
        not (position + n == (last + 1) * 128) && (not (first == last) || first_aligned) in
      let buf : Buffer = record { size = rounds * 128; bytes = garbage } in
      let (buf1, run1, r1) =
        read_partial-Prepared header sectors p disk garbage (not first_aligned) 0 (first * 128) buf
          (omega arith) (omega arith) in
      let size1 : buf1.size ≡ rounds * 128 = r1.size in
      let (buf2, run2, r2) =
        read_partial-Prepared header sectors p disk garbage b2 ((last - first) * 128) (last * 128)
          buf1 (omega arith) (omega arith) in
      let size2 : buf2.size ≡ rounds * 128 = r2.size ∙ size1 in
      let source : ℕ → ℕ = λ i. from.bytes (0 + i) in
      let buf3 : Buffer = record buf2 {
        bytes = λ i.
            if leb skipped i && ltb i (skipped + n) then source (i - skipped) else buf2.bytes i;
      } in
      let held : leb (0 + n) from.size ≡ true = le→leb (0 + n) from.size (omega arith) in
      let fits : leb (skipped + n) buf2.size ≡ true =
        le→leb (skipped + n) buf2.size (omega arith) in
      let (disk', runs, written, kept) =
        write_loop-Written header sectors p distinct rounds 0 first buf3 disk (omega arith)
          (λ k h. omega arith) in
      (
        disk',
        rw run1 (rw run2 (rw held (rw fits (rw runs refl)))),
        written_back-Writes disk disk' from buf2 n position first last small inside order start end
            end' (λ j h. written j (omega arith) (omega arith))
            (λ s o apart. kept s o (λ k h1 h2. apart k (omega arith)))
            (λ j h1 h2 out.
              byte_before_write header sectors p disk (not first_aligned) b2 first last position n j
                buf buf1 buf2 r1 r2 refl refl order start start' end end' h1 h2 out),
      )

  -- WriteAt of a file of at most MaxFileSize bytes whose parts all have a sector, each another, where
  -- the position and the number of bytes add up to an `int` and the buffer holds that many: it writes the bytes that were given and that the file has from `position` on, and returns their
  -- number. The file's other bytes stay, also those that share a sector with the written ones, and
  -- so do all sectors that are not the file's. No access is outside an array, and no ASSERT of the
  -- disk fails.
  pub write_at-Writes :
      (disk : Disk) (garbage : ℕ → ℕ) (from : Buffer) (n position : ℕ)
      → header.num_bytes ≤ max_file_size
      → position + n < 2 ^ 31
      → n ≤ from.size
      → (disk' : Disk) × (write_at header disk garbage from (pos n) position
          ≡ some (min n (header.num_bytes - position), disk'))
        × Writes header sectors position (min n (header.num_bytes - position)) from disk disk'
  unfolding write_at
  write_at-Writes disk garbage from n position short small room =
      let count : ℕ = min n (header.num_bytes - position) in
      elim (Bool-cases (n == 0 || leb header.num_bytes position)) [
        | inl nothing ↦
            let none_written : 0 ≡ count = ground arith in
            subst
              (λ c.
                (disk' : Disk) × (write_at header disk garbage from (pos n) position
                  ≡ some (c, disk'))
                × Writes header sectors position c from disk disk')
              none_written
              (
                disk,
                rw nothing refl,
                record {
                  written = λ k h. absurd (omega arith);
                  kept = λ j h out. refl;
                  others = λ s o foreign. refl;
                },
              )
        | inr asked ↦
            let chosen : (if ltb header.num_bytes (position + n)
                  then header.num_bytes - position
                  else n)
                ≡ count =
              ground arith in
            let fits : ltb (position + n) (2 ^ 31) ≡ true = lt→ltb (position + n) (2 ^ 31) small in
            let (disk', runs, writes) =
              write_sectors-Writes disk garbage from count position short (ground arith)
                (ground arith) (ground arith) in
            (disk', rw asked (rw fits (rw chosen runs)), writes)
      ]

  -- Under the same conditions, a ReadAt of the same length at the same position, into a buffer with
  -- room for it, reads as many bytes as the WriteAt wrote, and these are the bytes written.
  pub read_at-write_at :
      (disk : Disk) (garbage garbage' : ℕ → ℕ) (from into : Buffer) (at n position : ℕ)
      → header.num_bytes ≤ max_file_size
      → position + n < 2 ^ 31
      → n ≤ from.size
      → at + n ≤ into.size
      → (disk' : Disk) × (into' : Buffer) × (count : ℕ) × (write_at header disk garbage from
            (pos n)
            position
          ≡ some (count, disk'))
        × (read_at header disk' garbage' into at (pos n) position ≡ some (count, into'))
        × ((k : ℕ) → k < count → into'.bytes (at + k) ≡ from.bytes k)
  read_at-write_at disk garbage garbage' from into at n position short small room room' =
      let (disk', writes_it, writes) =
        write_at-Writes disk garbage from n position short small room in
      let (into', reads_it, reads) =
        read_at-Reads header disk' sectors p garbage' into at n position small room' in
      (
        disk',
        into',
        min n (header.num_bytes - position),
        writes_it,
        reads_it,
        λ k h. reads.copied k h ∙ writes.written k h,
      )
