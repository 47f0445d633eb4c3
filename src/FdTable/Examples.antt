-- ===== src/FdTable/Examples.antt =====
-- A descriptor table over numbers for files: tests of the calls, and the laws at concrete tables.
use nach_operator_system.Prelude.{
  ℕ, ◌<◌, ◌≡◌, ◌≢◌, refl, ◌⊎◌, inr, true, false, Option, some, none, List, [], ◌∷◌, get_elem?,
  arith, ℤ, pos, minus_one, sym, ◌∙◌, subst, ap, eq_of_some, CString, if◌then◌else◌, str_eq,
}
use nach_operator_system.BitMap.{new_bit_map, find_between, test, mark}
use nach_operator_system.BitMap.Laws.{marked}
use nach_operator_system.BitMap.Find.{AllMarked}
use nach_operator_system.FdTable.{
  wild, live, FilePtr, FdTable, new_fd_table, find_id_file, is_read, is_write, open_fd, close, cin,
  cout,
}
use nach_operator_system.FdTable.Invariant.{IsOpen, IsValid, new_fd_table-IsValid}
use nach_operator_system.FdTable.Slot.{Opened, Unopened}
use nach_operator_system.FdTable.Opening.{find_id_file-outcome, find_id_file-IsValid}
use nach_operator_system.FdTable.Closing.{close-IsOpen, close_twice}

-- The memory as `new` found it: wild pointers, and types that look like modes.
abbrev unset : FilePtr ℕ
unset = record { p_file = wild; type = pos 0 }

abbrev ten_unset : List (FilePtr ℕ)
ten_unset = unset ∷ unset ∷ unset ∷ unset ∷ unset ∷ unset ∷ unset ∷ unset ∷ unset ∷ unset ∷ []

abbrev empty : FdTable ℕ
empty = record { size = 10; flags = record { num_bits = 10; map = 0 ∷ [] }; list_file = ten_unset }

abbrev readme : CString
readme = 114 ∷ 109 ∷ []

-- A file system with one file, number 7, of the name `readme`.
abbrev open_file : CString → Option ℕ
open_file name = if str_eq name readme then some 7 else none

new_is_empty : new_fd_table 10 (0 ∷ []) ten_unset ≡ some empty
unfolding new_fd_table new_bit_map
new_is_empty = refl

-- Descriptor 2 open on file 7, to read only.
abbrev opened : FdTable ℕ
opened = record {
  size = 10;
  flags = record { num_bits = 10; map = 4 ∷ [] };
  list_file =
      unset
      ∷ unset
      ∷ record { p_file = live 7; type = pos 1 }
      ∷ unset
      ∷ unset
      ∷ unset
      ∷ unset
      ∷ unset
      ∷ unset
      ∷ unset
      ∷ [];
}

open_runs : find_id_file open_file readme (pos 1) empty ≡ some (pos 2, opened)
unfolding find_id_file find_between str_eq
open_runs = refl

reads_only : (is_read (pos 2) opened ≡ some true) × (is_write (pos 2) opened ≡ some false)
unfolding is_read is_write test
reads_only = (refl, refl)

-- After Open of "cin" a program may write to descriptor 0, if the type that `new` left there
-- happens to be 0.
cin_is_writable :
    (t : FdTable ℕ) × (find_id_file open_file cin (pos 1) empty ≡ some (pos 0, t))
    × (is_write (pos 0) t ≡ some true)
unfolding find_id_file is_write test mark str_eq
cin_is_writable = (record empty { flags = record { num_bits = 10; map = 1 ∷ [] } }, refl, refl)

-- Close of a descriptor that was never open deletes what `new` left there.
close_unopened : close (pos 5) empty ≡ none
unfolding close
close_unopened = refl

empty-IsValid : IsValid empty
empty-IsValid =
    let (t, made, valid, _) = new_fd_table-IsValid (0 ∷ []) ten_unset refl refl in
    let same : ◌≡◌ {A = Option (FdTable ℕ)} (some t) (some empty) = sym made ∙ new_is_empty in
    subst IsValid (eq_of_some t empty same) valid

opened-IsValid : IsValid opened
opened-IsValid =
    let (id, t, run, valid) = find_id_file-IsValid empty empty-IsValid open_file readme (pos 1) in
    let same : ◌≡◌ {A = Option (ℤ × FdTable ℕ)} (some (id, t)) (some (pos 2, opened)) =
      sym run ∙ open_runs in
    subst IsValid (ap (λ (r : ℤ × FdTable ℕ). r.1) (eq_of_some (id, t) (pos 2, opened) same)) valid

two-IsOpen : IsOpen opened 2 7 (pos 1)
two-IsOpen = record { is_marked = refl; entry = refl; mode = inr refl }

not_cin : str_eq readme cin ≡ false
unfolding str_eq
not_cin = refl

not_cout : str_eq readme cout ≡ false
unfolding str_eq
not_cout = refl

find_id_file-outcome_example :
    ((n : ℕ) × (f : ℕ) × (t' : FdTable ℕ) × (open_file readme ≡ some f)
      × (find_id_file open_file readme (pos 1) opened ≡ some (pos n, t'))
      × AllMarked opened.flags 2 n
      × Opened opened n f (pos 1) t')
    ⊎ ((t' : FdTable ℕ) × (find_id_file open_file readme (pos 1) opened ≡ some (minus_one, t'))
        × (AllMarked opened.flags 2 10 ⊎ (open_file readme ≡ none))
        × Unopened opened t')
find_id_file-outcome_example =
    find_id_file-outcome opened opened-IsValid open_file readme (pos 1) not_cin not_cout (inr refl)

close-IsOpen_example :
    (t' : FdTable ℕ) × (close (pos 2) opened ≡ some (pos 0, t'))
    × IsValid t'
    × (is_read (pos 2) t' ≡ some false)
    × (is_write (pos 2) t' ≡ some false)
    × ((i : ℕ)
        → i < 10
        → i ≢ 2
        → (marked t'.flags i ≡ marked opened.flags i)
          × (get_elem? t'.list_file i ≡ get_elem? opened.list_file i))
close-IsOpen_example =
    close-IsOpen opened opened-IsValid 2 7 (pos 1) (omega arith) (omega arith) two-IsOpen

close_twice_example :
    (t' : FdTable ℕ) × (close (pos 2) opened ≡ some (pos 0, t'))
    × (close (pos 2) t' ≡ none)
    × (open_fd (pos 2) t' ≡ some wild)
close_twice_example =
    close_twice opened opened-IsValid 2 7 (pos 1) (omega arith) (omega arith) two-IsOpen
