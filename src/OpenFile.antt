-- ===== src/OpenFile.antt =====
-- filesys/openfile.cc: the bytes of a file, read from the sectors of the disk. A disk is the bytes
-- of each of its sectors; an ASSERT of machine/disk.cc says which numbers have a sector.
mod Examples
pub mod Reading
pub mod Partial
pub mod Sectors
pub mod Writing
use nach_operator_system.Prelude.{
  ℕ, zero, suc, ◌+◌, ◌-◌, ◌*◌, ◌/◌, ◌^◌, Bool, true, false, not, eqb_ℤ, ◌&&◌, ◌||◌, ◌==◌, Option,
  some, ℤ, pos, negsuc, ltb, leb, if◌then◌else◌, assert, ◌>>=◌, ◌>>◌,
}
use nach_operator_system.FileHeader.{FileHeader, sector_size, byte_to_sector, file_length}

-- SectorsPerTrack * NumTracks.
abbrev pub num_sectors_of_disk : ℕ
num_sectors_of_disk = 32 * 32

abbrev pub Disk : Type 0
Disk = ℤ → ℕ → ℕ

-- An array of `char`; an access past its size is undefined.
pub record Buffer : Type 0 where
  pub size : ℕ
  pub bytes : ℕ → ℕ

abbrev pub is_sector : ℤ → Bool
is_sector (pos n) = ltb n num_sectors_of_disk
is_sector (negsuc n) = false

-- `n` bytes, which `source` gives, to `&buf[at]`.
abbrev pub store_bytes : ℕ → ℕ → (ℕ → ℕ) → Buffer → Option Buffer
store_bytes n at source buf =
    assert (leb (at + n) buf.size)
    >> some (record buf {
      bytes = λ i. if leb at i && ltb i (at + n) then source (i - at) else buf.bytes i;
    })

-- ReadSector(sector, &buf[at]).
abbrev pub read_sector : Disk → ℤ → ℕ → Buffer → Option Buffer
read_sector disk sector at buf =
    assert (is_sector sector) >> store_bytes sector_size at (disk sector) buf

-- bcopy(&buf[offset], &into[at], n).
abbrev pub bcopy : Buffer → ℕ → Buffer → ℕ → ℕ → Option Buffer
bcopy buf offset into at n =
    assert (leb (offset + n) buf.size) >> store_bytes n at (λ i. buf.bytes (offset + i)) into

-- The loop over the sectors, at sector `first + i` of the file with `left` rounds to go.
unfoldable pub read_loop : ℕ → ℕ → ℕ → FileHeader → Disk → Buffer → Option Buffer
unfolding byte_to_sector
read_loop zero i first header disk buf = some buf
read_loop (suc left) i first header disk buf =
    byte_to_sector header ((first + i) * sector_size) >>= λ sector.
    read_sector disk sector (i * sector_size) buf >>= λ buf'.
    read_loop left (suc i) first header disk buf'

-- ReadAt behind its checks: `n` bytes from `position` on. The memory that `new char[]` gives holds
-- `garbage`.
unfoldable pub read_sectors : FileHeader → Disk → (ℕ → ℕ) → Buffer → ℕ → ℕ → ℕ → Option (ℕ × Buffer)
unfolding read_loop
read_sectors header disk garbage into at n position =
    let first = position / sector_size in
    let last = (position + n - 1) / sector_size in
    let buf : Buffer = record { size = (1 + last - first) * sector_size; bytes = garbage } in
    read_loop (1 + last - first) 0 first header disk buf >>= λ buf'.
    bcopy buf' (position - first * sector_size) into at n >>= λ into'. some (n, into')

-- ReadAt(&into[at], num_bytes, position). The sum of the two numbers is undefined where it is not
-- an `int`.
unfoldable pub read_at : FileHeader → Disk → (ℕ → ℕ) → Buffer → ℕ → ℤ → ℕ → Option (ℕ × Buffer)
unfolding read_sectors
read_at header disk garbage into at (negsuc n) position = some (0, into)
read_at header disk garbage into at (pos n) position =
    let length = file_length header in
    if n == 0 || leb length position
    then some (0, into)
    else (assert (ltb (position + n) (2 ^ 31))
        >> read_sectors header disk garbage into at
            (if ltb length (position + n) then length - position else n) position)

-- WriteSector(sector, &buf[at]).
abbrev pub write_sector : Disk → ℤ → ℕ → Buffer → Option Disk
write_sector disk sector at buf =
    assert (is_sector sector)
    >> assert (leb (at + sector_size) buf.size)
    >> some (λ s i. if eqb_ℤ s sector && ltb i sector_size then buf.bytes (at + i) else disk s i)

unfoldable pub write_loop : ℕ → ℕ → ℕ → FileHeader → Buffer → Disk → Option Disk
unfolding byte_to_sector
write_loop zero i first header buf disk = some disk
write_loop (suc left) i first header buf disk =
    byte_to_sector header ((first + i) * sector_size) >>= λ sector.
    write_sector disk sector (i * sector_size) buf >>= λ disk'.
    write_loop left (suc i) first header buf disk'

-- ReadAt(&buf[at], SectorSize, position), if the sector is to be written in part only.
unfoldable pub read_partial : Bool → FileHeader → Disk → (ℕ → ℕ) → Buffer → ℕ → ℕ → Option Buffer
unfolding read_at
read_partial false header disk garbage buf at position = some buf
read_partial true header disk garbage buf at position =
    read_at header disk garbage buf at (pos sector_size) position >>= λ (r : ℕ × Buffer). some r.1

-- WriteAt behind its checks.
unfoldable pub write_sectors : FileHeader → Disk → (ℕ → ℕ) → Buffer → ℕ → ℕ → Option (ℕ × Disk)
unfolding read_partial write_loop
write_sectors header disk garbage from n position =
    let first = position / sector_size in
    let last = (position + n - 1) / sector_size in
    let buf : Buffer = record { size = (1 + last - first) * sector_size; bytes = garbage } in
    let first_aligned = position == first * sector_size in
    let last_aligned = position + n == (last + 1) * sector_size in
    read_partial (not first_aligned) header disk garbage buf 0 (first * sector_size) >>= λ buf1.
    read_partial (not last_aligned && (not (first == last) || first_aligned)) header disk garbage
      buf1 ((last - first) * sector_size) (last * sector_size)
    >>= λ buf2. bcopy from 0 buf2 (position - first * sector_size) n >>= λ buf3.
        write_loop (1 + last - first) 0 first header buf3 disk >>= λ disk'. some (n, disk')

unfoldable pub write_at : FileHeader → Disk → (ℕ → ℕ) → Buffer → ℤ → ℕ → Option (ℕ × Disk)
unfolding write_sectors
write_at header disk garbage from (negsuc n) position = some (0, disk)
write_at header disk garbage from (pos n) position =
    let length = file_length header in
    if n == 0 || leb length position
    then some (0, disk)
    else (assert (ltb (position + n) (2 ^ 31))
        >> write_sectors header disk garbage from
            (if ltb length (position + n) then length - position else n) position)

-- The state of an OpenFile, and Read with its step of the seek position.
pub record OpenFile : Type 0 where
  pub hdr : FileHeader
  pub seek_position : ℕ

unfoldable pub read : OpenFile → Disk → (ℕ → ℕ) → Buffer → ℤ → Option (ℕ × Buffer × OpenFile)
unfolding read_at
read f disk garbage into num_bytes =
    read_at f.hdr disk garbage into 0 num_bytes f.seek_position >>= λ (r : ℕ × Buffer).
    some (r.0, r.1, record f { seek_position = f.seek_position + r.0 })

unfoldable pub write : OpenFile → Disk → (ℕ → ℕ) → Buffer → ℤ → Option (ℕ × Disk × OpenFile)
unfolding write_at
write f disk garbage from num_bytes =
    write_at f.hdr disk garbage from num_bytes f.seek_position >>= λ (r : ℕ × Disk).
    some (r.0, r.1, record f { seek_position = f.seek_position + r.0 })

abbrev pub seek : OpenFile → ℕ → OpenFile
seek f position = record f { seek_position = position }
