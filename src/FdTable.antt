-- ===== src/FdTable.antt =====
-- filesys/fdtable.h and fdtable.cc: the files that a thread has open, by number.
-- The file system is a parameter: `open_file` is `fileSystem->Open`, with `none` for NULL.
mod Examples
pub mod Invariant
pub mod Slot
pub mod Opening
pub mod Closing
use nach_operator_system.Prelude.{
  ℕ, zero, suc, ◌+◌, ◌-◌, ◌≡◌, Bool, true, false, not, ◌&&◌, ◌||◌, Option, some, none, List, ltb,
  leb, ◌==◌, if◌then◌else◌, length, get_elem?, set, assert, ◌>>=◌, ◌>>◌, ℤ, pos, negsuc, minus_one,
  ltb_ℤ, leb_ℤ, eqb_ℤ, CString, str_eq, [], ◌∷◌,
}
use nach_operator_system.BitMap.{BitMap, new_bit_map, mark, clear, test, find_between}

-- `#define MAX_FILE 10`. The member functions below write the bound 10 out.
abbrev pub max_file : ℕ
max_file = 10

-- An `OpenFile *`: NULL, an address that no longer or never was an object, or an object.
pub data Pointer (File : Type 0) : Type 0 where
  null wild : Pointer File
  live : File → Pointer File

pub record FilePtr (File : Type 0) : Type 0 where
  pub p_file : Pointer File
  pub type : ℤ

pub record FdTable (File : Type 0) : Type 0 where
  pub size : ℕ
  pub flags : BitMap
  pub list_file : List (FilePtr File)

-- "cin" and "cout".
abbrev pub cin : CString
cin = 99 ∷ 105 ∷ 110 ∷ []

abbrev pub cout : CString
cout = 99 ∷ 111 ∷ 117 ∷ 116 ∷ []

-- `new` leaves the words of the bit map and the entries of `listFile` as they are found.
unfoldable pub new_fd_table :
    {File : Type 0} → ℕ → List ℕ → List (FilePtr File) → Option (FdTable File)
new_fd_table size garbage entries = new_bit_map size garbage >>= λ flags.
    some (record { size = size; flags = flags; list_file = entries })

-- An index of the array: below zero or past its end the access is undefined.
abbrev pub slot_of : ℤ → Option ℕ
slot_of (pos i) = some i
slot_of (negsuc i) = none

module _ {File : Type 0} where
  unfoldable pub entry : FdTable File → ℤ → Option (FilePtr File)
  entry t id = slot_of id >>= get_elem? t.list_file

  unfoldable pub set_entry : FdTable File → ℤ → FilePtr File → Option (FdTable File)
  set_entry t id p = do
    i ← slot_of id
    assert (ltb i (length t.list_file))
    some (record t { list_file = set t.list_file i p })

  -- What remains of FindIdFile once a slot is found: the two stores, then the check for NULL.
  pub bind_file : Option File → ℤ → ℤ → FdTable File → Option (ℤ × FdTable File)
  unfolding set_entry
  bind_file (some f) type id t =
      set_entry t id (record { p_file = live f; type = type }) >>= λ t'. some (id, t')
  bind_file none type id t = do
    t' ← set_entry t id (record { p_file = null; type = type })
    flags ← clear t'.flags id
    some (minus_one, record t' { flags = flags })

  pub take_slot : Option File → ℤ → FdTable File → Option (ℤ × FdTable File)
  unfolding bind_file
  take_slot opened type t = find_between t.flags 2 (t.size - 1) >>= λ (r : ℤ × BitMap).
      let t' = record t { flags = r.1 } in
      if eqb_ℤ r.0 minus_one then some (minus_one, t') else bind_file opened type r.0 t'

  module _ (open_file : CString → Option File) where
    unfoldable pub find_id_file : CString → ℤ → FdTable File → Option (ℤ × FdTable File)
    unfolding take_slot
    find_id_file name type t =
        if ltb_ℤ type (pos 0) || ltb_ℤ (pos 1) type
        then some (minus_one, t)
        else if str_eq name cin
        then (mark t.flags (pos 0) >>= λ flags. some (pos 0, record t { flags = flags }))
        else if str_eq name cout
        then (mark t.flags (pos 1) >>= λ flags. some (pos 1, record t { flags = flags }))
        else take_slot (open_file name) type t

  unfoldable pub open_fd : ℤ → FdTable File → Option (Pointer File)
  unfolding entry
  open_fd id t =
      if leb_ℤ (pos 2) id && ltb_ℤ id (pos 10)
      then (entry t id >>= λ p. some p.p_file)
      else some null

  -- `||` reads the entry only where its left side fails.
  unfoldable pub is_write : ℤ → FdTable File → Option Bool
  unfolding entry
  is_write id t =
      if leb_ℤ (pos 0) id && ltb_ℤ id (pos 10)
      then (test t.flags id >>= λ marked.
          if not marked
          then some false
          else if eqb_ℤ id (pos 1)
          then some true
          else (entry t id >>= λ p. some (eqb_ℤ p.type (pos 0))))
      else some false

  unfoldable pub is_read : ℤ → FdTable File → Option Bool
  unfolding entry
  is_read id t =
      if leb_ℤ (pos 0) id && ltb_ℤ id (pos 10)
      then (test t.flags id >>= λ marked.
          if not marked
          then some false
          else if eqb_ℤ id (pos 0)
          then some true
          else (entry t id >>= λ p. some (eqb_ℤ p.type (pos 0) || eqb_ℤ p.type (pos 1))))
      else some false

  -- `delete p`: NULL is let be, an object ends, anything else is undefined.
  pub delete : Pointer File → Option (Pointer File)
  delete null = some null
  delete wild = none
  delete (live f) = some wild

  unfoldable pub close : ℤ → FdTable File → Option (ℤ × FdTable File)
  unfolding entry set_entry delete
  close id t =
      if leb_ℤ (pos 0) id && ltb_ℤ id (pos 2)
      then (clear t.flags id >>= λ flags. some (pos 0, record t { flags = flags }))
      else if leb_ℤ (pos 2) id && ltb_ℤ id (pos 10)
      then (do
        p ← entry t id
        freed ← delete p.p_file
        t' ← set_entry t id (record p { p_file = freed })
        flags ← clear t'.flags id
        some (pos 0, record t' { flags = flags }))
      else some (minus_one, t)

  -- The destructor's loop, at descriptor `i` with `left` to go: the objects of the marked ones end.
  pub delete_loop : ℕ → ℕ → FdTable File → Option (Unit {0})
  delete_loop zero i t = some tt
  delete_loop (suc left) i t =
      let rest = delete_loop left (suc i) t in
      test t.flags (pos i) >>= λ marked.
      if marked then (do p ← get_elem? t.list_file i; _ ← delete p.p_file; rest) else rest

  unfoldable pub delete_fd_table : FdTable File → Option (Unit {0})
  unfolding delete_loop delete
  delete_fd_table t = delete_loop (t.size - 2) 2 t
