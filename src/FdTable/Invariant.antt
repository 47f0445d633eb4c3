-- ===== src/FdTable/Invariant.antt =====
-- The descriptors that a table of filesys/fdtable.cc has open, and the invariant of the table.
use nach_operator_system.Prelude.{
  ℕ, ◌≤◌, ◌<◌, ◌≡◌, refl, ◌⊎◌, true, false, some, List, length, get_elem?, ℤ, pos, arith,
}
use nach_operator_system.BitMap.Laws.{
  marked, set_bit, clear_bit, marked-set_bit, marked-clear_bit, set_bit-IsValid, clear_bit-IsValid,
  test_lem, clear_lem,
}
use nach_operator_system.BitMap.Laws
use nach_operator_system.BitMap.Fresh.{new_bit_map-clear}
use nach_operator_system.FdTable.{live, FilePtr, FdTable, new_fd_table, is_read, is_write}

abbrev pub IsType : ℤ → Type 0
IsType type = (type ≡ pos 0) ⊎ (type ≡ pos 1)

module _ {File : Type 0} where
  -- Descriptor `i` is open on the file `f`, in the mode `type`.
  pub record IsOpen (t : FdTable File) (i : ℕ) (f : File) (type : ℤ) : Type 0 where
    pub is_marked : marked t.flags i ≡ true
    pub entry : get_elem? t.list_file i ≡ some (record { p_file = live f; type = type })
    pub mode : IsType type

  pub record IsValid (t : FdTable File) : Type 0 where
    pub sized : t.size ≡ 10
    pub bits : t.flags.num_bits ≡ 10
    pub words : Laws.IsValid t.flags
    pub entries : length t.list_file ≡ 10
    pub opened :
        (i : ℕ)
        → 2 ≤ i
        → i < 10
        → marked t.flags i ≡ true
        → (f : File) × (type : ℤ) × IsOpen t i f type

  -- A new table is valid and has no descriptor marked, whatever the memory held.
  pub new_fd_table-IsValid :
      (garbage : List ℕ) (files : List (FilePtr File))
      → length garbage ≡ 1
      → length files ≡ 10
      → (t : FdTable File) × (new_fd_table 10 garbage files ≡ some t)
        × IsValid t
        × ((i : ℕ) → i < 10 → marked t.flags i ≡ false)
  unfolding new_fd_table
  new_fd_table-IsValid garbage files one ten =
      let (b, made, words, bits, all_clear) = new_bit_map-clear 10 garbage one in
      (
        record { size = 10; flags = b; list_file = files },
        rw made,
        record {
          sized = refl;
          bits = bits;
          words = words;
          entries = ten;
          opened = λ i lo hi m. ground (arith, all_clear i hi);
        },
        all_clear,
      )

  module _ (t : FdTable File) (v : IsValid t) where
    -- An open descriptor can be read from, and written to exactly in mode 0.
    pub is_read-IsOpen :
        (i : ℕ) (f : File) (type : ℤ)
        → 2 ≤ i
        → i < 10
        → IsOpen t i f type
        → (is_read (pos i) t ≡ some true)
          × (((is_write (pos i) t ≡ some true) × (type ≡ pos 0))
              ⊎ ((is_write (pos i) t ≡ some false) × (type ≡ pos 1)))
    unfolding is_read is_write
    is_read-IsOpen i f type lo hi o =
        (ground (arith, v.bits, test_lem t.flags i), ground (arith, v.bits, test_lem t.flags i))

    -- A descriptor that is not marked can be neither read from nor written to.
    pub is_read-clear :
        (i : ℕ)
        → i < 10
        → marked t.flags i ≡ false
        → (is_read (pos i) t ≡ some false) × (is_write (pos i) t ≡ some false)
    unfolding is_read is_write
    is_read-clear i hi m =
        (ground (arith, v.bits, test_lem t.flags i), ground (arith, v.bits, test_lem t.flags i))
