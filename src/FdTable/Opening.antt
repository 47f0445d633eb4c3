-- ===== src/FdTable/Opening.antt =====
-- `FDTable::FindIdFile`: which descriptor it opens, and what it leaves alone.
use nach_operator_system.Prelude.{
  ℕ, zero, suc, ◌<◌, ◌≡◌, refl, ◌⊎◌, inl, inr, true, false, ◌||◌, Option, some, none, ℤ, pos,
  negsuc, minus_one, arith, CString, str_eq, ltb_ℤ, Bool-cases,
}
use nach_operator_system.BitMap.Laws.{marked, set_bit, marked-set_bit, set_bit-IsValid, mark_lem}
use nach_operator_system.BitMap.Find.{AllMarked}
use nach_operator_system.FdTable.{FdTable, find_id_file, take_slot, cin, cout}
use nach_operator_system.FdTable.Invariant.{IsType, IsValid}
use nach_operator_system.FdTable.Slot.{Opened, Unopened, take_slot-outcome}

mode-cases :
    (type : ℤ)
    → ((ltb_ℤ type (pos 0) || ltb_ℤ (pos 1) type) ≡ true)
      ⊎ (((ltb_ℤ type (pos 0) || ltb_ℤ (pos 1) type) ≡ false) × IsType type)
mode-cases (pos zero) = inr (refl, inl refl)
mode-cases (pos (suc zero)) = inr (refl, inr refl)
mode-cases (pos (suc (suc n))) = inl (ground arith)
mode-cases (negsuc n) = inl (ground arith)

module _ {File : Type 0} (t : FdTable File) (v : IsValid t) where
  console-IsValid : (i : ℕ) → i < 2 → IsValid (record t { flags = set_bit t.flags i })
  console-IsValid i h = record {
    sized = v.sized;
    bits = v.bits;
    words = set_bit-IsValid t.flags i v.words;
    entries = v.entries;
    opened = λ k lo hi m.
        let m0 : marked t.flags k ≡ true =
          ground (arith, v.bits, marked-set_bit t.flags v.words i k (omega (arith, v.bits))) in
        let (f, type, o) = v.opened k lo hi m0 in
        (f, type, record { is_marked = m; entry = o.entry; mode = o.mode });
  }

  module _ (open_file : CString → Option File) (name : CString) (type : ℤ) where
    -- For the name of a file and the mode 0 or 1: FindIdFile opens the lowest free descriptor from 2
    -- on, marks it, binds it to the file that the file system gives for the name, and leaves every
    -- other descriptor as it was. If no descriptor is free, or the file system has no such file,
    -- it returns -1 and has opened and closed nothing. The table stays valid.
    pub find_id_file-outcome :
        str_eq name cin ≡ false
        → str_eq name cout ≡ false
        → IsType type
        → ((n : ℕ) × (f : File) × (t' : FdTable File) × (open_file name ≡ some f)
            × (find_id_file open_file name type t ≡ some (pos n, t'))
            × AllMarked t.flags 2 n
            × Opened t n f type t')
          ⊎ ((t' : FdTable File) × (find_id_file open_file name type t ≡ some (minus_one, t'))
              × (AllMarked t.flags 2 10 ⊎ (open_file name ≡ none))
              × Unopened t t')
    find_id_file-outcome in_ out mode =
        rw (to_slot in_ out mode) (take_slot-outcome t v (open_file name) type mode)
      where
        to_slot :
            str_eq name cin ≡ false
            → str_eq name cout ≡ false
            → IsType type
            → find_id_file open_file name type t ≡ take_slot (open_file name) type t
        to_slot in_ out mode = unfold find_id_file in ground arith

    -- Whatever the name and the mode, FindIdFile returns, and leaves a valid table.
    pub find_id_file-IsValid :
        (id : ℤ) × (t' : FdTable File) × (find_id_file open_file name type t ≡ some (id, t'))
        × IsValid t'
    find_id_file-IsValid = elim (mode-cases type) [
      | inl bad ↦ (minus_one, t, unfold find_id_file in rw bad, v)
      | inr (ok, mode) ↦ elim (Bool-cases (str_eq name cin)) [
        | inl in_ ↦ (
          pos 0,
          record t { flags = set_bit t.flags 0 },
          unfold find_id_file in ground (arith, v.bits, mark_lem t.flags 0),
          console-IsValid 0 (omega arith),
        )
        | inr not_in ↦ elim (Bool-cases (str_eq name cout)) [
          | inl out ↦ (
            pos 1,
            record t { flags = set_bit t.flags 1 },
            unfold find_id_file in ground (arith, v.bits, mark_lem t.flags 1),
            console-IsValid 1 (omega arith),
          )
          | inr not_out ↦ elim (find_id_file-outcome not_in not_out mode) [
            | inl (n, f, t', _, run, _, o) ↦ (pos n, t', run, o.valid)
            | inr (t', run, _, u) ↦ (minus_one, t', run, u.valid)
          ]
        ]
      ]
    ]
