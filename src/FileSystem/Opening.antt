-- ===== src/FileSystem/Opening.antt =====
-- FileSystem::Open of filesys/filesys.cc, and files that are apart: what is written to a file that
-- Create has made changes neither the directory nor the bit map nor a header.
use nach_operator_system.Prelude.{
  ℕ, zero, suc, ◌+◌, ◌-◌, ◌*◌, ◌/◌, ◌^◌, ◌≤◌, ◌<◌, min, ◌≡◌, refl, ap, sym, ◌∙◌, true, false, ◌==◌,
  some, List, [], ◌∷◌, ℤ, pos, length, get_elem?, get_or, CString, arith, subst, lt→ltb,
}
use mathlib.Core.Path.{fun_ext}
use nach_operator_system.BitMap.{BitMap}
use nach_operator_system.BitMap.Laws.{marked}
use nach_operator_system.Directory.{Directory}
use nach_operator_system.Directory.Lookup.{has, find_lem}
use nach_operator_system.FileHeader.{FileHeader}
use nach_operator_system.FileHeader.Allocating.{elem, NoDup, nil, cons, Holds, end, next}
use nach_operator_system.OpenFile.{Disk, Buffer, write_at}
use nach_operator_system.OpenFile.Reading.{IsPlaced, file_byte}
use nach_operator_system.OpenFile.Sectors.{Distinct}
use nach_operator_system.OpenFile.Writing.{write_at-Writes, Writes}
use nach_operator_system.FileSystem.{FileSystem, Fresh, create, open_file}
use nach_operator_system.FileSystem.Layout.{new_open_file, header_of}
use nach_operator_system.FileSystem.Codec.{words_of-Agree}
use nach_operator_system.FileSystem.Entries.{entries_of-Agree}
use nach_operator_system.FileSystem.Storing.{IsVolume, Stores, IsFresh, load_directory-Stores}
use nach_operator_system.FileSystem.Headers.{fetch_header-header_of}
use nach_operator_system.FileSystem.Created.{IsSound, Created, needed}
use nach_operator_system.FileSystem.Undoing.{created_blocks, created_lookup}

-- The sector of each part of a file, from the list of its sectors.
abbrev pub sectors_of : List ℕ → ℕ → ℤ
sectors_of blocks k = pos (get_or blocks k 0)

Holds-get_elem? :
    (xs : List ℤ) (i k : ℕ) (ss : List ℕ)
    → Holds xs i ss
    → k < length ss
    → get_elem? xs (i + k) ≡ some (sectors_of ss k)
Holds-get_elem? xs i k [] end h = absurd (omega arith)
Holds-get_elem? xs i zero (s ∷ ss) (next here there) h = ap (get_elem? xs) (omega arith) ∙ here
Holds-get_elem? xs i (suc k) (s ∷ ss) (next here there) h =
    ap (get_elem? xs) (omega arith) ∙ Holds-get_elem? xs (suc i) k ss there (omega arith)

elem-get_or : (ss : List ℕ) (k : ℕ) → k < length ss → elem (get_or ss k 0) ss ≡ true
unfolding elem
elem-get_or [] k h = absurd (omega arith)
elem-get_or (s ∷ ss) zero h = ground arith
elem-get_or (s ∷ ss) (suc k) h = ground (arith, elem-get_or ss k (omega arith))

NoDup-get_or :
    (ss : List ℕ) (k l : ℕ)
    → NoDup ss
    → k < length ss
    → l < length ss
    → get_or ss k 0 ≡ get_or ss l 0
    → k ≡ l
NoDup-get_or [] k l nil hk hl e = absurd (omega arith)
NoDup-get_or (s ∷ ss) zero zero (cons apart d) hk hl e = refl
NoDup-get_or (s ∷ ss) zero (suc l) (cons apart d) hk hl e =
    let here : elem s ss ≡ true = ap (λ x. elem x ss) e ∙ elem-get_or ss l (omega arith) in
    absurd (ground (arith, here, apart))
NoDup-get_or (s ∷ ss) (suc k) zero (cons apart d) hk hl e =
    let here : elem s ss ≡ true = ap (λ x. elem x ss) (sym e) ∙ elem-get_or ss k (omega arith) in
    absurd (ground (arith, here, apart))
NoDup-get_or (s ∷ ss) (suc k) (suc l) (cons apart d) hk hl e =
    ap suc (NoDup-get_or ss k l d (omega arith) (omega arith) e)

part-lt : (k size : ℕ) → k * 128 < size → k < needed size
part-lt k size h = ground arith

module _ (fresh : Fresh) (fs : FileSystem) (maps dirs : ℕ → ℤ) (v : IsVolume fs maps dirs)
    (f : IsFresh fresh) (disk : Disk) (d : Directory) (m : BitMap) (name : CString) (size : ℕ)
    (stored : Stores maps dirs disk d m) (sound : IsSound maps dirs d m)
    (absent : has d.table name ≡ false)
    (c : Created fresh maps dirs disk d m name size (create fresh fs name size disk)) where
  open_created :
      open_file fresh fs name c.disk' ≡ some (some (record { hdr = c.header; seek_position = 0 }))
  unfolding open_file new_open_file
  open_created =
      let dl = load_directory-Stores fresh fs maps dirs v c.disk' c.d' c.m' c.stores in
      let fd =
        find_lem c.d' name c.sound.directory.sized
        ∙ ap some
            (created_lookup fresh fs maps dirs v f disk d m name size stored sound absent c) in
      let fh =
        fetch_header-header_of fresh fs maps dirs v c.disk' (pos c.sector)
          (lt→ltb c.sector 1024 c.in_range)
        ∙ c.written in
      rw dl (rw fd (rw fh (ground arith)))

  abbrev blocks : List ℕ
  blocks = c.allocated.taken

  same_header : c.allocated.header' ≡ c.header
  same_header = cc (c.allocated.returns)

  created_size : c.header.num_bytes ≡ size
  created_size = ap (λ (h : FileHeader). h.num_bytes) (sym same_header) ∙ c.allocated.bytes

  part-inside : (k : ℕ) → k * 128 < c.header.num_bytes → k < length blocks
  part-inside k h =
      let few : k < needed size = part-lt k size (omega (arith, h, created_size)) in
      omega (arith, few, c.allocated.count)

  block-of :
      (k : ℕ)
      → k * 128 < c.header.num_bytes
      → (get_or blocks k 0 < 1024)
        × (marked m (get_or blocks k 0) ≡ false)
        × ((c.sector == get_or blocks k 0) ≡ false)
  block-of k h =
      created_blocks fresh fs maps dirs v f disk d m name size stored sound c (get_or blocks k 0)
        (elem-get_or blocks k (part-inside k h))

  created-IsPlaced : IsPlaced c.header (sectors_of blocks)
  created-IsPlaced = record {
    placed = λ k h.
        subst (λ (x : FileHeader). get_elem? x.data_sectors k ≡ some (sectors_of blocks k))
          same_header
          (ap (get_elem? c.allocated.header'.data_sectors) (omega arith)
            ∙ Holds-get_elem? c.allocated.header'.data_sectors 0 k blocks c.allocated.listed
                (part-inside k h));
    on_disk =
        λ k h. let (inside, clear, other) = block-of k h in lt→ltb (get_or blocks k 0) 1024 inside;
  }

  created-Distinct : Distinct c.header (sectors_of blocks)
  created-Distinct k l hk hl e =
      NoDup-get_or blocks k l c.allocated.distinct (part-inside k hk) (part-inside l hl)
        (ground (arith, e))

  -- A file that Create has made can be opened, and gives the header that Create has written, at
  -- position 0. A WriteAt to it writes as many bytes as the file has room for, and leaves the
  -- directory, the bit map and the header of the file on the disk as Create has left them.
  pub write_at-create :
      (garbage : ℕ → ℕ) (from : Buffer) (n position : ℕ)
      → size ≤ 3840
      → position + n < 2 ^ 31
      → n ≤ from.size
      → (open_file fresh fs name c.disk'
          ≡ some (some (record { hdr = c.header; seek_position = 0 })))
        × (disk2 : Disk) × (write_at c.header c.disk' garbage from (pos n) position
            ≡ some (min n (size - position), disk2))
        × Writes c.header (sectors_of blocks) position (min n (size - position)) from c.disk' disk2
        × Stores maps dirs disk2 c.d' c.m'
        × (header_of (disk2 (pos c.sector)) ≡ some c.header)
  write_at-create garbage from n position short small room =
      let (disk2, runs, writes) =
        write_at-Writes c.header (sectors_of blocks) created-IsPlaced created-Distinct c.disk'
          garbage from n position (omega (arith, created_size)) small room in
      let count : min n (c.header.num_bytes - position) ≡ min n (size - position) =
        ap (λ s. min n (s - position)) created_size in
      let own = λ (k : ℕ) (h : k * 128 < c.header.num_bytes).
        let (inside, clear, other) = block-of k h in
        sound.reserved (get_or blocks k 0) inside clear in
      (
        open_created,
        disk2,
        runs ∙ ap (λ k. some (k, disk2)) count,
        subst (λ k. Writes c.header (sectors_of blocks) position k from c.disk' disk2) count writes,
        record {
          table_size = c.stores.table_size;
          table =
              entries_of-Agree 10 (file_byte dirs disk2) (file_byte dirs c.disk') 0 0 (λ i l.
                writes.others (dirs ((0 + i) / 128)) _
                  (λ k h e. (own k h).1 ((0 + i) / 128) (omega arith) (sym e)))
              ∙ c.stores.table;
          num_bits = c.stores.num_bits;
          words =
              words_of-Agree 32 (file_byte maps disk2) (file_byte maps c.disk') 0 0 (λ i l.
                writes.others (maps ((0 + i) / 128)) _ (λ k h e.
                  let only : 0 ≡ (0 + i) / 128 = omega arith in
                  (own k h).0 (sym (ap maps only ∙ e))))
              ∙ c.stores.words;
        },
        ap header_of (
              fun_ext (λ o. writes.others (pos c.sector) o (λ k h e.
                let (inside, clear, other) = block-of k h in
                let same : c.sector ≡ get_or blocks k 0 = ground (arith, e) in
                absurd (ground (arith, other, same)))))
            ∙ c.written,
      )
