-- ===== src/Directory/Lookup.antt =====
-- Directory::Find of filesys/directory.cc as a search of the list of entries.
use nach_operator_system.Prelude.{
  ℕ, zero, suc, ◌+◌, ◌≤◌, ◌≡◌, refl, sym, ap, ap₂, ◌∙◌, inl, inr, Bool, true, false, ◌&&◌, ◌||◌,
  some, List, [], ◌∷◌, ℤ, pos, minus_one, length, get_elem?, get_elem?-some, drop, take,
  if◌then◌else◌, CString, strncmp_eq, str_eq, str_eq→eq, str_eq_refl, arith, Bool-cases, subst,
}
use nach_operator_system.Directory.{
  DirectoryEntry, Directory, matches, find_index_loop, find_index, find, file_name_max_len,
}

-- Two names that the directory does not tell apart: their first nine bytes agree.
abbrev pub same_name : CString → CString → Bool
same_name a b = strncmp_eq a b file_name_max_len

unfoldable pub has : List DirectoryEntry → CString → Bool
has [] name = false
has (e ∷ es) name = matches name e || has es name

-- The sector of the first entry with the name, and -1 with none.
unfoldable pub lookup : List DirectoryEntry → CString → ℤ
lookup [] name = minus_one
lookup (e ∷ es) name = if matches name e then e.sector else lookup es name

-- No two entries in use have the same name.
abbrev pub Unique : List DirectoryEntry → Type 0
Unique [] = Unit {0}
Unique (e ∷ es) = (e.in_use ≡ true → has es e.name ≡ false) × Unique es

pub record IsValid (d : Directory) : Type 0 where
  pub sized : d.table_size ≡ length d.table
  pub unique : Unique d.table

pub same_name→eq : (a b : CString) → same_name a b ≡ true → take 9 a ≡ take 9 b
unfolding strncmp_eq
same_name→eq a b h = str_eq→eq (take 9 a) (take 9 b) h

pub same_name_refl : (a : CString) → same_name a a ≡ true
unfolding strncmp_eq
same_name_refl a = str_eq_refl (take 9 a)

sym_of : (a b : CString) → same_name a b ≡ true → same_name b a ≡ true
unfolding strncmp_eq
sym_of a b h =
    ap (λ (x : CString). str_eq (take 9 b) x) (same_name→eq a b h) ∙ str_eq_refl (take 9 b)

pub same_name_sym : (a b : CString) → same_name a b ≡ same_name b a
same_name_sym a b = elim (Bool-cases (same_name a b)) [
  | inl h ↦ h ∙ sym (sym_of a b h)
  | inr h ↦ elim (Bool-cases (same_name b a)) [
    | inl k ↦ absurd (ground (arith, sym_of b a k))
    | inr k ↦ h ∙ sym k
  ]
]

-- Names that agree are found together.
pub matches-same :
    (a b : CString) (e : DirectoryEntry) → same_name a b ≡ true → matches a e ≡ matches b e
unfolding strncmp_eq
matches-same a b e h =
    ap (λ (x : CString). e.in_use && str_eq (take 9 e.name) x) (same_name→eq a b h)

pub has-same :
    (es : List DirectoryEntry) (a b : CString) → same_name a b ≡ true → has es a ≡ has es b
unfolding has
has-same [] a b h = refl
has-same (e ∷ es) a b h = ap₂ (λ (x y : Bool). x || y) (matches-same a b e h) (has-same es a b h)

drop-next :
    (es : List DirectoryEntry) (i : ℕ) (e : DirectoryEntry)
    → get_elem? es i ≡ some e
    → drop i es ≡ e ∷ drop (suc i) es
drop-next [] i e h = absurd (ground arith)
drop-next (x ∷ es) zero e h = ground arith
drop-next (x ∷ es) (suc i) e h = drop-next es i e h

-- The place of the first match in a list whose first entry has the place `i`.
index_of : List DirectoryEntry → CString → ℕ → ℤ
index_of [] name i = minus_one
index_of (e ∷ es) name i = if matches name e then pos i else index_of es name (suc i)

drop-all : (es : List DirectoryEntry) (i : ℕ) → length es ≤ i → drop i es ≡ []
drop-all [] zero h = refl
drop-all [] (suc i) h = refl
drop-all (x ∷ es) zero h = absurd (omega arith)
drop-all (x ∷ es) (suc i) h = drop-all es i (omega arith)

find_index_loop_lem :
    (left i : ℕ) (d : Directory) (name : CString)
    → i + left ≡ length d.table
    → find_index_loop left i d name ≡ some (index_of (drop i d.table) name i)
unfolding find_index_loop index_of
find_index_loop_lem zero i d name h =
    ap (λ (es : List DirectoryEntry). some (index_of es name i))
      (sym (drop-all d.table i (omega arith)))
find_index_loop_lem (suc left) i d name h =
    let (e, found) = get_elem?-some d.table i (omega arith) in
    rw (found, drop-next d.table i e found)
      (ground (arith, find_index_loop_lem left (suc i) d name (omega arith)))

-- What a search comes to: no entry, or one at place `k`.
pub data Search (es : List DirectoryEntry) (name : CString) (i : ℕ) (r : ℤ) : Type 0 where
  absent : r ≡ minus_one → has es name ≡ false → lookup es name ≡ minus_one → Search es name i r
  found :
      (k : ℕ) (e : DirectoryEntry)
      → r ≡ pos (i + k)
      → get_elem? es k ≡ some e
      → matches name e ≡ true
      → has es name ≡ true
      → lookup es name ≡ e.sector
      → Search es name i r

Search-skip :
    {es : List DirectoryEntry} {name : CString} {i : ℕ} {r : ℤ} (e : DirectoryEntry)
    → matches name e ≡ false
    → Search es name (suc i) r
    → Search (e ∷ es) name i r
unfolding has lookup
Search-skip e n (absent er eh el) = absent er (ground arith) (ground arith)
Search-skip e n (found k e' er at m eh el) =
    found (suc k) e' (ground arith) at m (ground arith) (ground arith)

index_of-Search :
    (es : List DirectoryEntry) (name : CString) (i : ℕ) → Search es name i (index_of es name i)
unfolding index_of has lookup
index_of-Search [] name i = absent refl refl refl
index_of-Search (e ∷ es) name i = elim (Bool-cases (matches name e)) [
  | inl m ↦ found 0 e (ground arith) refl m (ground arith) (ground arith)
  | inr n ↦
      let passed : index_of (e ∷ es) name i ≡ index_of es name (suc i) = ground arith in
      subst (Search (e ∷ es) name i) (sym passed)
        (Search-skip e n (index_of-Search es name (suc i)))
]

-- FindIndex and Find search the list.
pub find_index-Search :
    (d : Directory) (name : CString)
    → d.table_size ≡ length d.table
    → (r : ℤ) × (find_index d name ≡ some r) × Search d.table name 0 r
unfolding find_index
find_index-Search d name sized = (
  index_of d.table name 0,
  ap (λ (n : ℕ). find_index_loop n 0 d name) sized
      ∙ find_index_loop_lem (length d.table) 0 d name (omega arith)
      ∙ refl,
  index_of-Search d.table name 0,
)

find-Search :
    (d : Directory) (name : CString) (r : ℤ)
    → find_index d name ≡ some r
    → Search d.table name 0 r
    → find d name ≡ some (lookup d.table name)
unfolding find
find-Search d name r ran (absent er eh el) = rw (ran, er, el) refl
find-Search d name r ran (found k e er at m eh el) =
    let place : r ≡ pos k = ground (arith, er) in rw (ran, place, at, el) (ground arith)

-- Find, on a table of its stated size, returns the sector of the first entry in use with the name,
-- and -1 with none.
pub find_lem :
    (d : Directory) (name : CString)
    → d.table_size ≡ length d.table
    → find d name ≡ some (lookup d.table name)
find_lem d name sized =
    let (r, ran, search) = find_index-Search d name sized in find-Search d name r ran search

pub same_name-matches :
    (name : CString) (e : DirectoryEntry) → matches name e ≡ true → same_name e.name name ≡ true
same_name-matches name e m = ground arith

pub matches-both :
    (name other : CString) (e : DirectoryEntry)
    → matches name e ≡ true
    → matches other e ≡ true
    → same_name name other ≡ true
unfolding strncmp_eq
matches-both name other e m n =
    let mine = same_name→eq e.name name (same_name-matches name e m) in
    subst (λ (x : CString). str_eq x (take 9 other) ≡ true) mine (same_name-matches other e n)
