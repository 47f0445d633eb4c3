-- ===== src/FileSystem/Layout.antt =====
-- The bytes of the objects that the file system copies to and from the disk, as the compiler lays
-- them out for a little-endian host with an `int` of four bytes: FetchFrom and WriteBack of
-- userprog/bitmap.cc, filesys/directory.cc and filesys/filehdr.cc.
use nach_operator_system.Prelude.{
  ℕ, zero, suc, ◌+◌, ◌-◌, ◌*◌, ◌/◌, ◌%◌, ◌^◌, not, ◌&&◌, ◌==◌, Option, some, List, [], ◌∷◌, ℤ, map,
  pos, ltb, leb, get_or, length, if◌then◌else◌, assert, ◌>>=◌, ◌>>◌, CString, to_int, of_int,
}
use nach_operator_system.BitMap.{BitMap}
use nach_operator_system.Directory.{DirectoryEntry, Directory, file_name_max_len}
use nach_operator_system.FileHeader.{FileHeader, sector_size, num_direct}
use nach_operator_system.OpenFile.{
  OpenFile, Disk, Buffer, read_sector, write_sector, read_at, write_at,
}

-- Byte `r` of a word, for `r` from 0 to 3.
abbrev pub byte : ℕ → ℕ → ℕ
byte r w =
    if r == 0
    then w % 2 ^ 8
    else if r == 1
    then w / 2 ^ 8 % 2 ^ 8
    else if r == 2
    then w / 2 ^ 16 % 2 ^ 8
    else w / 2 ^ 24

abbrev pub word_byte : List ℕ → ℕ → ℕ
word_byte ws i = byte (i % 4) (get_or ws (i / 4) 0)

abbrev pub word_of : (ℕ → ℕ) → ℕ → ℕ
word_of f at = f at + f (at + 1) * 2 ^ 8 + f (at + 2) * 2 ^ 16 + f (at + 3) * 2 ^ 24

unfoldable pub words_of : ℕ → (ℕ → ℕ) → ℕ → List ℕ
words_of zero f at = []
words_of (suc n) f at = word_of f at ∷ words_of n f (at + 4)

-- FetchFrom and WriteBack of a BitMap. `garbage` is what `new char[]` finds in memory.
unfoldable pub fetch_bit_map : FileHeader → Disk → (ℕ → ℕ) → BitMap → Option BitMap
unfolding words_of
fetch_bit_map file disk garbage b =
    let size = length b.map * 4 in
    read_at file disk garbage (record { size = size; bytes = word_byte b.map }) 0 (pos size) 0
    >>= λ (r : ℕ × Buffer). some (record b { map = words_of (length b.map) r.1.bytes 0 })

unfoldable pub write_bit_map : FileHeader → Disk → (ℕ → ℕ) → BitMap → Option Disk
write_bit_map file disk garbage b =
    let size = length b.map * 4 in
    write_at file disk garbage (record { size = size; bytes = word_byte b.map }) (pos size) 0
    >>= λ (r : ℕ × Disk). some r.1

-- The bytes of an array of `char` that holds a C string; `pad` stands behind the terminator.
unfoldable pub name_byte : ℕ → CString → ℕ → ℕ
name_byte pad [] zero = 0
name_byte pad [] (suc i) = pad
name_byte pad (c ∷ cs) zero = c
name_byte pad (c ∷ cs) (suc i) = name_byte pad cs i

unfoldable pub string_of : ℕ → (ℕ → ℕ) → ℕ → CString
string_of zero f at = []
string_of (suc left) f at =
    let rest = string_of left f (at + 1) in if f at == 0 then [] else f at ∷ rest

-- sizeof(DirectoryEntry): `inUse`, three bytes of padding, `sector`, the ten bytes of `name` and
-- two of padding. The model has no value for the padding and the tenth byte: `pad` gives them.
abbrev pub entry_size : ℕ
entry_size = 20

unfoldable pub entry_byte : (ℕ → ℕ) → DirectoryEntry → ℕ → ℕ
unfolding name_byte
entry_byte pad e i =
    if i == 0
    then (if e.in_use then 1 else 0)
    else if leb 4 i && ltb i 8
    then byte (i - 4) (of_int e.sector)
    else if leb 8 i && ltb i 17
    then name_byte (pad i) e.name (i - 8)
    else pad i

unfoldable pub entries_byte : (ℕ → ℕ) → List DirectoryEntry → ℕ → ℕ
unfolding entry_byte
entries_byte pad [] i = pad i
entries_byte pad (e ∷ es) i =
    if ltb i entry_size then entry_byte pad e i else entries_byte pad es (i - entry_size)

unfoldable pub entry_of : (ℕ → ℕ) → ℕ → DirectoryEntry
unfolding string_of
entry_of f at = record {
  in_use = not (f at == 0);
  sector = to_int (word_of f (at + 4));
  name = string_of file_name_max_len f (at + 8);
}

unfoldable pub entries_of : ℕ → (ℕ → ℕ) → ℕ → List DirectoryEntry
unfolding entry_of
entries_of zero f at = []
entries_of (suc n) f at = entry_of f at ∷ entries_of n f (at + entry_size)

-- FetchFrom and WriteBack of a Directory.
unfoldable pub fetch_directory :
    FileHeader → Disk → (ℕ → ℕ) → (ℕ → ℕ) → Directory → Option Directory
unfolding entries_byte entries_of
fetch_directory file disk garbage pad d =
    let size = d.table_size * entry_size in
    read_at file disk garbage (record { size = size; bytes = entries_byte pad d.table }) 0
      (pos size) 0
    >>= λ (r : ℕ × Buffer). some (record d { table = entries_of d.table_size r.1.bytes 0 })

unfoldable pub write_directory : FileHeader → Disk → (ℕ → ℕ) → (ℕ → ℕ) → Directory → Option Disk
unfolding entries_byte
write_directory file disk garbage pad d =
    let size = d.table_size * entry_size in
    write_at file disk garbage (record { size = size; bytes = entries_byte pad d.table }) (pos size)
      0
    >>= λ (r : ℕ × Disk). some r.1

abbrev pub header_words : FileHeader → List ℕ
header_words h = h.num_bytes ∷ h.num_sectors ∷ map of_int h.data_sectors

-- A size that is negative as an `int` is undefined.
unfoldable pub header_of : (ℕ → ℕ) → Option FileHeader
header_of f = do
  assert (ltb (word_of f 0) (2 ^ 31))
  assert (ltb (word_of f 4) (2 ^ 31))
  some (record {
    num_bytes = word_of f 0;
    num_sectors = word_of f 4;
    data_sectors = map to_int (words_of num_direct f 8);
  })

-- FetchFrom and WriteBack of a FileHeader, whose size is that of a sector.
unfoldable pub fetch_header : Disk → (ℕ → ℕ) → ℤ → Option FileHeader
unfolding header_of
fetch_header disk garbage sector =
    read_sector disk sector 0 (record { size = sector_size; bytes = garbage }) >>= λ buf.
    header_of buf.bytes

-- OpenFile(sector), the constructor.
unfoldable pub new_open_file : Disk → (ℕ → ℕ) → ℤ → Option OpenFile
unfolding fetch_header
new_open_file disk garbage sector =
    fetch_header disk garbage sector >>= λ hdr. some (record { hdr = hdr; seek_position = 0 })

unfoldable pub write_header : Disk → FileHeader → ℤ → Option Disk
write_header disk h sector =
    write_sector disk sector 0
      (record { size = length (header_words h) * 4; bytes = word_byte (header_words h) })
