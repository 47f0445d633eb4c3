-- ===== src/Directory/Adding.antt =====
-- Directory::Add of filesys/directory.cc.
use nach_operator_system.Prelude.{
  ℕ, zero, suc, ◌+◌, ◌≤◌, ◌≡◌, refl, sym, ap, ◌∙◌, ◌⊎◌, inl, inr, Bool, true, false, ◌||◌, Option,
  some, List, [], ◌∷◌, ℤ, pos, length, get_elem?, get_elem?-some, get_elem?-lt, set, length-set,
  take, if◌then◌else◌, CString, strncmp_eq, str_eq, str_eq_refl, arith, Bool-cases, subst, ◌==◌,
}
use nach_operator_system.Directory.{
  DirectoryEntry, Directory, matches, find, find_index, add_loop, add, new_entry,
}
use nach_operator_system.Directory.Lookup.{
  IsValid, Unique, has, lookup, same_name, same_name_sym, matches-same, has-same, Search, absent,
  found, find_index-Search, find_lem,
}

take-take : (n : ℕ) (xs : CString) → take n (take n xs) ≡ take n xs
take-take zero xs = refl
take-take (suc n) [] = refl
take-take (suc n) (x ∷ xs) = ap (λ (ys : CString). x ∷ ys) (take-take n xs)

matches-new_entry :
    (name other : CString) (s : ℤ) → matches other (new_entry name s) ≡ same_name name other
unfolding strncmp_eq
matches-new_entry name other s = ap (λ (x : CString). str_eq x (take 9 other)) (take-take 9 name)

same-take : (name : CString) → same_name name (take 9 name) ≡ true
unfolding strncmp_eq
same-take name =
    ap (λ (x : CString). str_eq (take 9 name) x) (take-take 9 name) ∙ str_eq_refl (take 9 name)

-- The new entry stands in a slot that was not in use.
has-set :
    (es : List DirectoryEntry) (n : ℕ) (e : DirectoryEntry) (name other : CString) (s : ℤ)
    → get_elem? es n ≡ some e
    → e.in_use ≡ false
    → has (set es n (new_entry name s)) other ≡ (same_name name other || has es other)
unfolding has
has-set [] n e name other s at free = absurd (ground arith)
has-set (x ∷ es) zero e name other s at free = ground (arith, matches-new_entry name other s)
has-set (x ∷ es) (suc n) e name other s at free =
    ground (arith, has-set es n e name other s at free)

lookup-set :
    (es : List DirectoryEntry) (n : ℕ) (e : DirectoryEntry) (name other : CString) (s : ℤ)
    → get_elem? es n ≡ some e
    → e.in_use ≡ false
    → has es name ≡ false
    → lookup (set es n (new_entry name s)) other
      ≡ (if same_name name other then s else lookup es other)
unfolding has lookup
lookup-set [] n e name other s at free new = absurd (ground arith)
lookup-set (x ∷ es) zero e name other s at free new = ground (arith, matches-new_entry name other s)
lookup-set (x ∷ es) (suc n) e name other s at free new =
    ground (arith, lookup-set es n e name other s at free, matches-same name other x)

Unique-set :
    (es : List DirectoryEntry) (n : ℕ) (e : DirectoryEntry) (name : CString) (s : ℤ)
    → get_elem? es n ≡ some e
    → e.in_use ≡ false
    → has es name ≡ false
    → Unique es
    → Unique (set es n (new_entry name s))
unfolding has
Unique-set [] n e name s at free new u = absurd (ground arith)
Unique-set (x ∷ es) zero e name s at free new u =
    (λ _. sym (has-same es name (take 9 name) (same-take name)) ∙ ground arith, u.1)
Unique-set (x ∷ es) (suc n) e name s at free new u = (
  λ used.
      has-set es n e name x.name s at free ∙ ground (arith, u.0 used, same_name_sym name x.name),
  Unique-set es n e name s at free (ground arith) u.1,
)

abbrev pub AllUsed : Directory → ℕ → Type 0
AllUsed d i = (n : ℕ) (e : DirectoryEntry) → i ≤ n → get_elem? d.table n ≡ some e → e.in_use ≡ true

-- The loop fills the first slot that is not in use.
data Filled (d : Directory) (i : ℕ) (name : CString) (s : ℤ) (r : Option (Bool × Directory))
    : Type 0 where
  full : r ≡ some (false, d) → AllUsed d i → Filled d i name s r
  filled :
      (n : ℕ) (e : DirectoryEntry)
      → get_elem? d.table n ≡ some e
      → e.in_use ≡ false
      → r ≡ some (true, record d { table = set d.table n (new_entry name s) })
      → Filled d i name s r

Filled-skip :
    {d : Directory} {i : ℕ} {name : CString} {s : ℤ} {r : Option (Bool × Directory)}
    (e : DirectoryEntry)
    → get_elem? d.table i ≡ some e
    → e.in_use ≡ true
    → Filled d (suc i) name s r
    → Filled d i name s r
Filled-skip {i = i} e at used (full er all) = full er (λ n e' h at'. elim (Bool-cases (i == n)) [
  | inl here ↦ ground (arith, at, at', used)
  | inr later ↦ all n e' (ground arith) at'
])
Filled-skip e at used (filled n e' at' free er) = filled n e' at' free er

add_loop-Filled :
    (left i : ℕ) (name : CString) (s : ℤ) (d : Directory)
    → i + left ≡ length d.table
    → Filled d i name s (add_loop left i name s d)
unfolding add_loop
add_loop-Filled zero i name s d h =
    full refl (λ n e le at. absurd (omega (arith, get_elem?-lt d.table n e at)))
add_loop-Filled (suc left) i name s d h =
    let (e, at) = get_elem?-some d.table i (omega arith) in
    elim (Bool-cases e.in_use) [
      | inl used ↦
          let passed : add_loop (suc left) i name s d ≡ add_loop left (suc i) name s d =
            rw (at, used) refl in
          subst (Filled d i name s) (sym passed)
            (Filled-skip e at used (add_loop-Filled left (suc i) name s d (omega arith)))
      | inr free ↦ filled i e at free (rw (at, free) refl)
    ]

module _ (d : Directory) (name : CString) (s : ℤ) (v : IsValid d) where
  abbrev Taken : Type 0
  Taken = (has d.table name ≡ true) × (add name s d ≡ some (false, d))

  abbrev Full : Type 0
  Full = (has d.table name ≡ false) × AllUsed d 0 × (add name s d ≡ some (false, d))

  abbrev Added : Type 0
  Added =
      (has d.table name ≡ false)
      × (d' : Directory) × (add name s d ≡ some (true, d'))
      × IsValid d'
      × ((other : CString)
          → find d' other ≡ (if same_name name other then some s else find d other))

  add-Filled :
      {r : Option (Bool × Directory)}
      → add name s d ≡ r
      → has d.table name ≡ false
      → Filled d 0 name s r
      → Full ⊎ Added
  add-Filled ran new (full er all) = inl (new, all, ran ∙ er)
  add-Filled ran new (filled n e at free er) =
      let table = set d.table n (new_entry name s) in
      let d' : Directory = record d { table = table } in
      let sized : d'.table_size ≡ length table =
        v.sized ∙ sym (length-set d.table n (new_entry name s)) in
      inr (
        new,
        d',
        ran ∙ er,
        record { sized = sized; unique = Unique-set d.table n e name s at free new v.unique },
        λ other.
            find_lem d' other sized
            ∙ ap some (lookup-set d.table n e name other s at free new)
            ∙ ground (arith, find_lem d other v.sized),
      )

  add-Search : (r : ℤ) → find_index d name ≡ some r → Search d.table name 0 r → Taken ⊎ Full ⊎ Added
  unfolding add
  add-Search r ran (found k e er at m eh el) =
      let place : r ≡ pos k = ground (arith, er) in inl (eh, rw (ran, place) (ground arith))
  add-Search r ran (absent er eh el) =
      let step : add name s d ≡ add_loop (length d.table) 0 name s d = rw (ran, er, v.sized) refl in
      inr (add-Filled step eh (add_loop-Filled (length d.table) 0 name s d (omega arith)))

-- What Add does, case by case, on a table in which no two entries in use have the same name. A
-- name that is there, and a table with no free slot, give FALSE and change nothing. Otherwise
-- Add returns TRUE; a name that agrees with the new one in its first nine bytes is now found with
-- the new sector, and every other name is found as before; the names stay unique.
pub add-outcome :
    (d : Directory) (name : CString) (s : ℤ)
    → IsValid d
    → ((has d.table name ≡ true) × (add name s d ≡ some (false, d)))
      ⊎ ((has d.table name ≡ false) × AllUsed d 0 × (add name s d ≡ some (false, d)))
      ⊎ ((has d.table name ≡ false)
          × (d' : Directory) × (add name s d ≡ some (true, d'))
          × IsValid d'
          × ((other : CString)
              → find d' other ≡ (if same_name name other then some s else find d other)))
add-outcome d name s v =
    let (r, ran, search) = find_index-Search d name v.sized in add-Search d name s v r ran search
