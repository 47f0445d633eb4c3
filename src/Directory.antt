-- ===== src/Directory.antt =====
-- filesys/directory.cc and directory.h: the table from file names to the sectors of their headers.
-- `name` is what strncpy has put into the first FileNameMaxLen bytes of the array, up to the
-- terminator; no operation that is modelled reads the last byte.
mod Examples
pub mod Lookup
pub mod Adding
pub mod Removing
use nach_operator_system.Prelude.{
  ℕ, zero, suc, Bool, true, false, not, ◌&&◌, Option, some, List, map, ℤ, pos, minus_one, eqb_ℤ,
  ltb, length, get_elem?, set, take, if◌then◌else◌, assert, ◌>>=◌, ◌>>◌, CString, strncmp_eq,
}
use nach_operator_system.Machine.{store_at}
use nach_operator_system.FdTable.{slot_of}

abbrev pub file_name_max_len : ℕ
file_name_max_len = 9

pub record DirectoryEntry : Type 0 where
  pub in_use : Bool
  pub sector : ℤ
  pub name : CString

pub record Directory : Type 0 where
  pub table_size : ℕ
  pub table : List DirectoryEntry

-- The constructor; `new` leaves the other fields as they are found.
abbrev pub new_directory : ℕ → List DirectoryEntry → Directory
new_directory size garbage = record {
  table_size = size;
  table = map (λ (e : DirectoryEntry). record e { in_use = false }) garbage;
}

abbrev pub matches : CString → DirectoryEntry → Bool
matches name e = e.in_use && strncmp_eq e.name name file_name_max_len

pub find_index_loop : ℕ → ℕ → Directory → CString → Option ℤ
find_index_loop zero i d name = some minus_one
find_index_loop (suc left) i d name =
    let rest = find_index_loop left (suc i) d name in
    get_elem? d.table i >>= λ e. if matches name e then some (pos i) else rest

unfoldable pub find_index : Directory → CString → Option ℤ
unfolding find_index_loop
find_index d name = find_index_loop d.table_size 0 d name

unfoldable pub find : Directory → CString → Option ℤ
find d name = do
  i ← find_index d name
  if eqb_ℤ i minus_one
      then some minus_one
      else (do n ← slot_of i; e ← get_elem? d.table n; some e.sector)

-- `strncpy(table[i].name, name, FileNameMaxLen)` and the two other stores.
abbrev pub new_entry : CString → ℤ → DirectoryEntry
new_entry name new_sector = record {
  in_use = true;
  sector = new_sector;
  name = take file_name_max_len name;
}

unfoldable pub add_loop : ℕ → ℕ → CString → ℤ → Directory → Option (Bool × Directory)
add_loop zero i name new_sector d = some (false, d)
add_loop (suc left) i name new_sector d =
    let rest = add_loop left (suc i) name new_sector d in
    get_elem? d.table i >>= λ e.
    if not e.in_use
    then some (true, record d { table = set d.table i (new_entry name new_sector) })
    else rest

unfoldable pub add : CString → ℤ → Directory → Option (Bool × Directory)
unfolding add_loop
add name new_sector d = find_index d name >>= λ i.
    if not (eqb_ℤ i minus_one) then some (false, d) else add_loop d.table_size 0 name new_sector d

unfoldable pub remove : CString → Directory → Option (Bool × Directory)
remove name d = find_index d name >>= λ i. if eqb_ℤ i minus_one then some (false, d) else (do
  n ← slot_of i
  e ← get_elem? d.table n
  some (true, record d { table = set d.table n (record e { in_use = false }) }))
