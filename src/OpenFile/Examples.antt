-- ===== src/OpenFile/Examples.antt =====
-- A file of 300 bytes in three sectors: tests of Read, and its law at them.
use nach_operator_system.Prelude.{
  ℕ, zero, suc, ◌+◌, ◌-◌, ◌*◌, ◌%◌, ◌<◌, ◌≡◌, refl, true, Option, some, none, ℤ, pos, negsuc, [],
  ◌∷◌, arith, min, get_elem?,
}
use nach_operator_system.FileHeader.{FileHeader, byte_to_sector}
use nach_operator_system.OpenFile.{
  Disk, Buffer, OpenFile, read, read_at, read_sectors, read_loop, is_sector, write, write_at,
  write_sectors, write_loop, read_partial, seek,
}
use nach_operator_system.OpenFile.Reading.{IsPlaced, Reads, read_at-Reads}
use nach_operator_system.OpenFile.Sectors.{Distinct}
use nach_operator_system.OpenFile.Writing.{Writes, write_at-Writes, read_at-write_at}

abbrev header : FileHeader
header = record { num_bytes = 300; num_sectors = 3; data_sectors = pos 5 ∷ pos 9 ∷ pos 7 ∷ [] }

abbrev sectors : ℕ → ℤ
sectors zero = pos 5
sectors (suc zero) = pos 9
sectors (suc (suc k)) = pos 7

abbrev disk : Disk
disk (pos s) o = (10 * s + o) % 256
disk (negsuc s) o = 0

abbrev zeros : ℕ → ℕ
zeros i = 0

abbrev into : Buffer
into = record { size = 200; bytes = zeros }

abbrev taken : Option (ℕ × Buffer × OpenFile) → ℕ → ℕ × ℕ × ℕ
taken none j = (0, 0, 0)
taken (some (n, b, f)) j = (n, b.bytes j, f.seek_position)

-- 100 bytes from 120 on: the last of the first sector, and then those of the second.
across :
    taken (read (record { hdr = header; seek_position = 120 }) disk zeros into (pos 100)) 9
    ≡ (100, 91, 220)
unfolding read read_at read_sectors read_loop byte_to_sector
across = refl

-- At 250, 50 bytes are left.
at_the_end :
    taken (read (record { hdr = header; seek_position = 250 }) disk zeros into (pos 100)) 50
    ≡ (50, 0, 300)
unfolding read read_at read_sectors read_loop byte_to_sector
at_the_end = refl

header-placed : (k : ℕ) → k * 128 < 300 → get_elem? header.data_sectors k ≡ some (sectors k)
header-placed zero h = refl
header-placed (suc zero) h = refl
header-placed (suc (suc zero)) h = refl
header-placed (suc (suc (suc k))) h = absurd (omega arith)

sectors-on_disk : (k : ℕ) → k * 128 < 300 → is_sector (sectors k) ≡ true
sectors-on_disk zero h = refl
sectors-on_disk (suc zero) h = refl
sectors-on_disk (suc (suc k)) h = refl

sample-IsPlaced : IsPlaced header sectors
sample-IsPlaced = record { placed = header-placed; on_disk = sectors-on_disk }

read_at-Reads_example :
    (into' : Buffer) × (read_at header disk zeros into 3 (pos 190) 120
      ≡ some (min 190 (300 - 120), into'))
    × Reads sectors disk 120 (min 190 (300 - 120)) 3 into into'
read_at-Reads_example =
    read_at-Reads header disk sectors sample-IsPlaced zeros into 3 190 120 (omega arith)
      (omega arith)

sectors-Distinct : Distinct header sectors
sectors-Distinct zero zero hk hl e = refl
sectors-Distinct zero (suc zero) hk hl e = absurd (ground (arith, e))
sectors-Distinct zero (suc (suc l)) hk hl e = absurd (ground (arith, e))
sectors-Distinct (suc zero) zero hk hl e = absurd (ground (arith, e))
sectors-Distinct (suc zero) (suc zero) hk hl e = refl
sectors-Distinct (suc zero) (suc (suc l)) hk hl e = absurd (ground (arith, e))
sectors-Distinct (suc (suc k)) zero hk hl e = absurd (ground (arith, e))
sectors-Distinct (suc (suc k)) (suc zero) hk hl e = absurd (ground (arith, e))
sectors-Distinct (suc (suc k)) (suc (suc l)) hk hl e = omega arith

-- Bytes that count up from 7.
abbrev from : Buffer
from = record { size = 200; bytes = λ i. i + 7 }

abbrev at_byte : Option (ℕ × Disk × OpenFile) → ℤ → ℕ → ℕ × ℕ × ℕ
at_byte none s o = (0, 0, 0)
at_byte (some (n, d, f)) s o = (n, d s o, f.seek_position)

-- 20 bytes from 120 on: the first of the second sector is the byte 8 of the buffer.
writes_across :
    at_byte
      (write (seek (record { hdr = header; seek_position = 0 }) 120) disk zeros from (pos 20))
      (pos 9)
      0
    ≡ (20, 15, 140)
unfolding write write_at write_sectors write_loop read_partial read_at read_sectors read_loop
    byte_to_sector
writes_across = refl

write_at-Writes_example :
    (disk' : Disk) × (write_at header disk zeros from (pos 190) 120
      ≡ some (min 190 (300 - 120), disk'))
    × Writes header sectors 120 (min 190 (300 - 120)) from disk disk'
write_at-Writes_example =
    write_at-Writes header sectors sample-IsPlaced sectors-Distinct disk zeros from 190 120
      (omega arith) (omega arith) (omega arith)

read_at-write_at_example :
    (disk' : Disk) × (into' : Buffer) × (count : ℕ) × (write_at header disk zeros from (pos 190) 120
      ≡ some (count, disk'))
    × (read_at header disk' zeros into 3 (pos 190) 120 ≡ some (count, into'))
    × ((k : ℕ) → k < count → into'.bytes (3 + k) ≡ from.bytes k)
read_at-write_at_example =
    read_at-write_at header sectors sample-IsPlaced sectors-Distinct disk zeros zeros from into 3
      190 120 (omega arith) (omega arith) (omega arith) (omega arith)
