-- ===== src/Directory/Removing.antt =====
-- Directory::Remove of filesys/directory.cc.
use nach_operator_system.Prelude.{
  ℕ, zero, suc, ◌≡◌, refl, sym, ap, ◌∙◌, ◌⊎◌, inl, inr, true, false, some, List, [], ◌∷◌, ℤ, pos,
  minus_one, length, get_elem?, set, length-set, if◌then◌else◌, CString, arith, Bool-cases,
}
use nach_operator_system.Directory.{DirectoryEntry, Directory, matches, find, find_index, remove}
use nach_operator_system.Directory.Lookup.{
  IsValid, Unique, has, lookup, same_name, same_name-matches, matches-both, matches-same, has-same,
  Search, absent, found, find_index-Search, find_lem,
}

abbrev unused : DirectoryEntry → DirectoryEntry
unused e = record e { in_use = false }

has-at :
    (es : List DirectoryEntry) (n : ℕ) (e : DirectoryEntry) (name : CString)
    → get_elem? es n ≡ some e
    → matches name e ≡ true
    → has es name ≡ true
unfolding has
has-at [] n e name at m = absurd (ground arith)
has-at (x ∷ es) zero e name at m = ground arith
has-at (x ∷ es) (suc n) e name at m = ground (arith, has-at es n e name at m)

pub lookup-absent :
    (es : List DirectoryEntry) (name : CString) → has es name ≡ false → lookup es name ≡ minus_one
unfolding has lookup
lookup-absent [] name h = refl
lookup-absent (x ∷ es) name h = ground (arith, lookup-absent es name)

-- An entry that matches a name has that name.
has-named :
    (es : List DirectoryEntry) (e : DirectoryEntry) (name : CString)
    → matches name e ≡ true
    → has es e.name ≡ has es name
has-named es e name m = has-same es e.name name (same_name-matches name e m)

lookup-unset :
    (es : List DirectoryEntry) (n : ℕ) (e : DirectoryEntry) (name other : CString)
    → get_elem? es n ≡ some e
    → matches name e ≡ true
    → Unique es
    → lookup (set es n (unused e)) other
      ≡ (if same_name name other then minus_one else lookup es other)
unfolding has lookup
lookup-unset [] n e name other at m u = absurd (ground arith)
lookup-unset (x ∷ es) zero e name other at m u =
    let same : x ≡ e = ground arith in
    let here : matches name x ≡ true = ap (matches name) same ∙ m in
    let gone : has es name ≡ false = sym (has-named es x name here) ∙ u.0 (ground arith) in
    ground (arith, has-same es name other, lookup-absent es other, matches-both name other x here)
lookup-unset (x ∷ es) (suc n) e name other at m u =
    let apart : same_name name other ≡ true → matches other x ≡ false = λ h.
      elim (Bool-cases (matches other x)) [
        | inr k ↦ k
        | inl k ↦
            let mine : matches name x ≡ true = matches-same name other x h ∙ k in
            let here : has es x.name ≡ true = has-named es x name mine ∙ has-at es n e name at m in
            absurd (ground (arith, u.0))
      ] in
    ground (arith, lookup-unset es n e name other at m u.1, apart)

has-unset :
    (es : List DirectoryEntry) (n : ℕ) (e : DirectoryEntry) (other : CString)
    → has es other ≡ false
    → has (set es n (unused e)) other ≡ false
unfolding has
has-unset [] n e other h = refl
has-unset (x ∷ es) zero e other h = ground arith
has-unset (x ∷ es) (suc n) e other h = ground (arith, has-unset es n e other)

Unique-unset :
    (es : List DirectoryEntry) (n : ℕ) (e : DirectoryEntry)
    → Unique es
    → Unique (set es n (unused e))
Unique-unset [] n e u = tt
Unique-unset (x ∷ es) zero e u = (λ h. absurd (ground arith), u.1)
Unique-unset (x ∷ es) (suc n) e u =
    (λ used. has-unset es n e x.name (u.0 used), Unique-unset es n e u.1)

module _ (d : Directory) (name : CString) (v : IsValid d) where
  abbrev Missing : Type 0
  Missing = (has d.table name ≡ false) × (remove name d ≡ some (false, d))

  abbrev Removed : Type 0
  Removed =
      (has d.table name ≡ true)
      × (d' : Directory) × (remove name d ≡ some (true, d'))
      × IsValid d'
      × ((other : CString)
          → find d' other ≡ (if same_name name other then some minus_one else find d other))

  remove-Search : (r : ℤ) → find_index d name ≡ some r → Search d.table name 0 r → Missing ⊎ Removed
  unfolding remove
  remove-Search r ran (absent er eh el) = inl (eh, rw (ran, er) refl)
  remove-Search r ran (found k e er at m eh el) =
      let place : r ≡ pos k = ground (arith, er) in
      let table = set d.table k (unused e) in
      let d' : Directory = record d { table = table } in
      let sized : d'.table_size ≡ length table = v.sized ∙ sym (length-set d.table k (unused e)) in
      inr (
        eh,
        d',
        rw (ran, place, at) (ground arith),
        record { sized = sized; unique = Unique-unset d.table k e v.unique },
        λ other.
            find_lem d' other sized
            ∙ ap some (lookup-unset d.table k e name other at m v.unique)
            ∙ ground (arith, find_lem d other v.sized),
      )

-- What Remove does on a table in which no two entries in use have the same name. A name that is
-- not there gives FALSE and changes nothing. Otherwise Remove returns TRUE; a name that agrees
-- with it in the first nine bytes is not found any more, and every other name is found as before;
-- the names stay unique.
pub remove-outcome :
    (d : Directory) (name : CString)
    → IsValid d
    → ((has d.table name ≡ false) × (remove name d ≡ some (false, d)))
      ⊎ ((has d.table name ≡ true)
          × (d' : Directory) × (remove name d ≡ some (true, d'))
          × IsValid d'
          × ((other : CString)
              → find d' other ≡ (if same_name name other then some minus_one else find d other)))
remove-outcome d name v =
    let (r, ran, search) = find_index-Search d name v.sized in remove-Search d name v r ran search
