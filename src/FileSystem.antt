-- ===== src/FileSystem.antt =====
-- filesys/filesys.cc: files by name, on a disk whose directory and bit map of free sectors are
-- themselves files, with their headers in sectors 0 and 1. The size of a new file, an int of the
-- code, is not negative here.
mod Examples
mod Sample
pub mod Layout
pub mod Codec
pub mod Entries
pub mod Storing
pub mod Headers
pub mod Keeping
pub mod Tables
pub mod Created
pub mod Flushing
pub mod Creating
pub mod Removing
pub mod Undoing
pub mod Opening
pub mod Isolation
use nach_operator_system.Prelude.{
  ℕ, ◌/◌, ◌*◌, Bool, true, false, not, ◌==◌, Option, some, none, List, ℤ, pos, minus_one, eqb_ℤ,
  leb_ℤ, if◌then◌else◌, assert, ◌>>=◌, ◌>>◌, CString,
}
use nach_operator_system.BitMap
use nach_operator_system.BitMap.{BitMap, new_bit_map, mark, clear}
use nach_operator_system.Directory
use nach_operator_system.Directory.{DirectoryEntry, Directory, new_directory}
use nach_operator_system.FileHeader.{FileHeader, allocate, deallocate}
use nach_operator_system.OpenFile.{Disk, OpenFile, num_sectors_of_disk}
use nach_operator_system.FileSystem.Layout.{
  new_open_file, entry_size, fetch_bit_map, write_bit_map, fetch_directory, write_directory,
  fetch_header, write_header,
}

abbrev pub free_map_sector : ℤ
free_map_sector = pos 0

abbrev pub directory_sector : ℤ
directory_sector = pos 1

abbrev pub num_dir_entries : ℕ
num_dir_entries = 10

abbrev pub free_map_file_size : ℕ
free_map_file_size = num_sectors_of_disk / 8

abbrev pub directory_file_size : ℕ
directory_file_size = entry_size * num_dir_entries

-- The two files that stay open. Only their headers matter: ReadAt and WriteAt use no position.
pub record FileSystem : Type 0 where
  pub free_map_file : FileHeader
  pub directory_file : FileHeader

-- What `new` finds in memory, for each object that an operation makes.
pub record Fresh : Type 0 where
  pub chars : ℕ → ℕ
  pub padding : ℕ → ℕ
  pub words : List ℕ
  pub entries : List DirectoryEntry
  pub header : FileHeader

-- ASSERT(header->Allocate(freeMap, size)).
abbrev pub allocate_all : FileHeader → BitMap → ℕ → Option (FileHeader × BitMap)
unfolding allocate
allocate_all header free_map size =
    allocate header free_map size >>= λ (r : Bool × FileHeader × BitMap).
    assert r.0 >> some (r.1, r.2)

-- FileSystem(TRUE), which formats the disk.
unfoldable pub format : Fresh → Disk → Option (FileSystem × Disk)
format fresh disk = do
  free0 ← new_bit_map num_sectors_of_disk fresh.words
  let directory = new_directory num_dir_entries fresh.entries
  free1 ← mark free0 free_map_sector
  free2 ← mark free1 directory_sector
  map_allocated ← allocate_all fresh.header free2 free_map_file_size
  dir_allocated ← allocate_all fresh.header map_allocated.1 directory_file_size
  disk1 ← write_header disk map_allocated.0 free_map_sector
  disk2 ← write_header disk1 dir_allocated.0 directory_sector
  free_map_file ← fetch_header disk2 fresh.chars free_map_sector
  directory_file ← fetch_header disk2 fresh.chars directory_sector
  disk3 ← write_bit_map free_map_file disk2 fresh.chars dir_allocated.1
  disk4 ← write_directory directory_file disk3 fresh.chars fresh.padding directory
  some (record { free_map_file = free_map_file; directory_file = directory_file }, disk4)

-- FileSystem(FALSE).
unfoldable pub mount : Fresh → Disk → Option FileSystem
mount fresh disk = do
  free_map_file ← fetch_header disk fresh.chars free_map_sector
  directory_file ← fetch_header disk fresh.chars directory_sector
  some (record { free_map_file = free_map_file; directory_file = directory_file })

module _ (fresh : Fresh) (fs : FileSystem) where
  pub load_directory : Disk → Option Directory
  load_directory disk =
      fetch_directory fs.directory_file disk fresh.chars fresh.padding
        (new_directory num_dir_entries fresh.entries)

  pub load_free_map : Disk → Option BitMap
  load_free_map disk =
      new_bit_map num_sectors_of_disk fresh.words
      >>= fetch_bit_map fs.free_map_file disk fresh.chars

  -- The three writes of Create, where everything worked.
  pub flush_create : ℤ → FileHeader → Directory → BitMap → Disk → Option (Bool × Disk)
  flush_create sector hdr directory free_map disk = do
    disk1 ← write_header disk hdr sector
    disk2 ← write_directory fs.directory_file disk1 fresh.chars fresh.padding directory
    disk3 ← write_bit_map fs.free_map_file disk2 fresh.chars free_map
    some (true, disk3)

  -- Create behind Directory::Add.
  pub enter_file : ℤ → BitMap → ℕ → Disk → Bool × Directory → Option (Bool × Disk)
  unfolding flush_create
  enter_file sector free_map initial_size disk a =
      if not a.0
      then some (false, disk)
      else (allocate fresh.header free_map initial_size >>= λ (h : Bool × FileHeader × BitMap).
          if not h.0 then some (false, disk) else flush_create sector h.1 a.1 h.2 disk)

  -- Create behind the search of the directory.
  pub create_file : CString → ℕ → Directory → Disk → Option (Bool × Disk)
  unfolding load_free_map enter_file
  create_file name initial_size directory disk = load_free_map disk >>= λ free_map.
      BitMap.find free_map >>= λ (f : ℤ × BitMap).
      if eqb_ℤ f.0 minus_one
      then some (false, disk)
      else (Directory.add name f.0 directory >>= enter_file f.0 f.1 initial_size disk)

  unfoldable pub create : CString → ℕ → Disk → Option (Bool × Disk)
  unfolding load_directory create_file
  create name initial_size disk = load_directory disk >>= λ directory.
      Directory.find directory name >>= λ sector.
      if not (eqb_ℤ sector minus_one)
      then some (false, disk)
      else create_file name initial_size directory disk

  unfoldable pub open_file : CString → Disk → Option (Option OpenFile)
  unfolding load_directory
  open_file name disk = load_directory disk >>= λ directory.
      Directory.find directory name >>= λ sector.
      if leb_ℤ (pos 0) sector
      then (new_open_file disk fresh.chars sector >>= λ opened. some (some opened))
      else some none

  -- Remove behind the search of the directory.
  pub remove_file : CString → ℤ → Directory → Disk → Option (Bool × Disk)
  unfolding load_free_map
  remove_file name sector directory disk = do
    file_hdr ← fetch_header disk fresh.chars sector
    free_map ← load_free_map disk
    free1 ← deallocate file_hdr free_map
    free2 ← clear free1 sector
    removed ← Directory.remove name directory
    disk1 ← write_bit_map fs.free_map_file disk fresh.chars free2
    disk2 ← write_directory fs.directory_file disk1 fresh.chars fresh.padding removed.1
    some (true, disk2)

  unfoldable pub remove : CString → Disk → Option (Bool × Disk)
  unfolding load_directory remove_file
  remove name disk = load_directory disk >>= λ directory.
      Directory.find directory name >>= λ sector.
      if eqb_ℤ sector minus_one then some (false, disk) else remove_file name sector directory disk
