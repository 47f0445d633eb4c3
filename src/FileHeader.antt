-- ===== src/FileHeader.antt =====
-- filesys/filehdr.cc and filehdr.h: the header of a file on the disk, and its data sectors.
-- `data_sectors` is the array `dataSectors[NumDirect]`; a store past its end is undefined.
mod Examples
pub mod Allocating
pub mod Releasing
use nach_operator_system.Prelude.{
  ℕ, zero, suc, ◌*◌, ◌/◌, ◌-◌, Bool, true, false, Option, some, List, ℤ, ltb, get_elem?,
  if◌then◌else◌, assert, ◌>>=◌, ◌>>◌,
}
use nach_operator_system.Machine.{store_at}
use nach_operator_system.BitMap.{BitMap, div_round_up, find, num_clear, test, clear}

abbrev pub sector_size : ℕ
sector_size = 128

-- `sizeof(int)` is 4.
abbrev pub num_direct : ℕ
num_direct = (sector_size - 2 * 4) / 4

abbrev pub max_file_size : ℕ
max_file_size = num_direct * sector_size

pub record FileHeader : Type 0 where
  pub num_bytes : ℕ
  pub num_sectors : ℕ
  pub data_sectors : List ℤ

-- `dataSectors[i] = freeMap->Find()`, at `i` with `left` rounds to go.
unfoldable pub allocate_loop : ℕ → ℕ → FileHeader → BitMap → Option (FileHeader × BitMap)
allocate_loop zero i header free_map = some (header, free_map)
allocate_loop (suc left) i header free_map = find free_map >>= λ (r : ℤ × BitMap).
    store_at header.data_sectors i r.0 >>= λ sectors.
    allocate_loop left (suc i) (record header { data_sectors = sectors }) r.1

unfoldable pub allocate : FileHeader → BitMap → ℕ → Option (Bool × FileHeader × BitMap)
unfolding allocate_loop
allocate header free_map file_size =
    let sized = record header {
      num_bytes = file_size;
      num_sectors = div_round_up file_size sector_size;
    } in
    num_clear free_map >>= λ free.
    if ltb free sized.num_sectors
    then some (false, sized, free_map)
    else (allocate_loop sized.num_sectors 0 sized free_map >>= λ (r : FileHeader × BitMap).
        some (true, r.0, r.1))

unfoldable pub deallocate_loop : ℕ → ℕ → FileHeader → BitMap → Option BitMap
deallocate_loop zero i header free_map = some free_map
deallocate_loop (suc left) i header free_map = get_elem? header.data_sectors i >>= λ sector.
    test free_map sector >>= λ taken.
    assert taken
    >> (clear free_map sector >>= λ cleared. deallocate_loop left (suc i) header cleared)

unfoldable pub deallocate : FileHeader → BitMap → Option BitMap
unfolding deallocate_loop
deallocate header free_map = deallocate_loop header.num_sectors 0 header free_map

unfoldable pub byte_to_sector : FileHeader → ℕ → Option ℤ
byte_to_sector header offset = get_elem? header.data_sectors (offset / sector_size)

abbrev pub file_length : FileHeader → ℕ
file_length header = header.num_bytes
