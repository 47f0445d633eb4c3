-- ===== src/FileSystem/Tables.antt =====
-- Add and Remove of a directory keep what its layout can hold: names with no terminator inside.
use nach_operator_system.Prelude.{
  ℕ, zero, suc, ◌<◌, ◌≡◌, refl, inl, inr, Bool, false, not, some, List, [], ◌∷◌, ℤ, minus_one,
  eqb_ℤ, length, length-set, set, get_elem?, take, >>=-eq-some, eq_of_some, CString, arith, subst,
  Bool-cases,
}
use nach_operator_system.Directory.{
  DirectoryEntry, Directory, new_entry, add_loop, add, find_index, remove,
}
use nach_operator_system.FdTable.{slot_of}
use nach_operator_system.FileSystem.Codec.{IsInt}
use nach_operator_system.FileSystem.Entries.{IsName, IsEntry, AreEntries}

pub set-AreEntries :
    (es : List DirectoryEntry) (i : ℕ) (e : DirectoryEntry)
    → IsEntry e
    → AreEntries es
    → AreEntries (set es i e)
set-AreEntries [] i e h all = tt
set-AreEntries (x ∷ es) zero e h (hx, all) = (h, all)
set-AreEntries (x ∷ es) (suc i) e h (hx, all) = (hx, set-AreEntries es i e h all)

-- A C string has no zero inside.
abbrev pub NoZero : CString → Type 0
NoZero [] = Unit {0}
NoZero (c ∷ cs) = (0 < c) × NoZero cs

take-IsName : (n : ℕ) (s : CString) → NoZero s → IsName n (take n s)
take-IsName zero s h = tt
take-IsName (suc n) [] h = tt
take-IsName (suc n) (c ∷ cs) (hc, h) = (hc, take-IsName n cs h)

-- A directory after Add.
pub record Fits (d d' : Directory) : Type 0 where
  pub table_size : d'.table_size ≡ d.table_size
  pub count : length d'.table ≡ length d.table
  pub entries : AreEntries d'.table

add_loop-Fits :
    (left i : ℕ) (name : CString) (s : ℤ) (d d' : Directory) (done : Bool)
    → NoZero name
    → IsInt s
    → AreEntries d.table
    → add_loop left i name s d ≡ some (done, d')
    → Fits d d'
unfolding add_loop
add_loop-Fits zero i name s d d' done hn hs all run =
    let same : d ≡ d' = cc in
    subst (λ x. Fits d x) same (record { table_size = refl; count = refl; entries = all })
add_loop-Fits (suc left) i name s d d' done hn hs all run =
    let (e, at, next) = >>=-eq-some (get_elem? d.table i) _ run in
    elim (Bool-cases (not e.in_use)) [
      | inl free ↦
          let d2 : Directory = record d { table = set d.table i (new_entry name s) } in
          let next' = rw free at next in
          let same : d2 ≡ d' = ground (arith, next') in
          subst (λ x. Fits d x) same
            (record {
              table_size = refl;
              count = length-set d.table i (new_entry name s);
              entries = set-AreEntries d.table i (new_entry name s) (hs, take-IsName 9 name hn) all;
            })
      | inr used ↦ add_loop-Fits left (suc i) name s d d' done hn hs all (rw used at next)
    ]

pub add-Fits :
    (name : CString) (s : ℤ) (d d' : Directory) (done : Bool)
    → NoZero name
    → IsInt s
    → AreEntries d.table
    → add name s d ≡ some (done, d')
    → Fits d d'
unfolding add
add-Fits name s d d' done hn hs all run =
    let (i, at, next) = >>=-eq-some (find_index d name) _ run in
    elim (Bool-cases (not (eqb_ℤ i minus_one))) [
      | inl there ↦
          let next' = rw there at next in
          let same : d ≡ d' = ground (arith, next') in
          subst (λ x. Fits d x) same (record { table_size = refl; count = refl; entries = all })
      | inr absent ↦ add_loop-Fits d.table_size 0 name s d d' done hn hs all (rw absent at next)
    ]

get_elem?-IsEntry :
    (es : List DirectoryEntry) (n : ℕ) (e : DirectoryEntry)
    → AreEntries es
    → get_elem? es n ≡ some e
    → IsEntry e
get_elem?-IsEntry [] n e all at = absurd (ground arith)
get_elem?-IsEntry (x ∷ es) zero e (hx, all) at = subst IsEntry (eq_of_some x e at) hx
get_elem?-IsEntry (x ∷ es) (suc n) e (hx, all) at = get_elem?-IsEntry es n e all at

pub remove-Fits :
    (name : CString) (d d' : Directory) (done : Bool)
    → AreEntries d.table
    → remove name d ≡ some (done, d')
    → Fits d d'
unfolding remove
remove-Fits name d d' done all run =
    let (i, at, next) = >>=-eq-some (find_index d name) _ run in
    elim (Bool-cases (eqb_ℤ i minus_one)) [
      | inl absent ↦
          let next' = rw absent at next in
          let same : d ≡ d' = ground (arith, next') in
          subst (λ x. Fits d x) same (record { table_size = refl; count = refl; entries = all })
      | inr there ↦
          let (n, slot, next1) = >>=-eq-some (slot_of i) _ (rw there at next) in
          let (e, here, next2) = >>=-eq-some (get_elem? d.table n) _ next1 in
          let d2 : Directory = record d { table = set d.table n (record e { in_use = false }) } in
          let same : d2 ≡ d' = ground (arith, next2) in
          let good : IsEntry e = get_elem?-IsEntry d.table n e all here in
          subst (λ x. Fits d x) same
            (record {
              table_size = refl;
              count = length-set d.table n (record e { in_use = false });
              entries = set-AreEntries d.table n (record e { in_use = false }) good all;
            })
    ]
