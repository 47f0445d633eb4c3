-- ===== src/FileSystem/Entries.antt =====
-- The bytes of a directory: its entries come back from them.
use nach_operator_system.Prelude.{
  ℕ, zero, suc, ◌+◌, ◌-◌, ◌*◌, ◌<◌, ◌≡◌, refl, ap, ap₂, ◌∙◌, Bool, true, false, not, ◌==◌, List, [],
  ◌∷◌, length, if◌then◌else◌, CString, to_int, of_int, of_int-lt, arith,
}
use nach_operator_system.Directory.{DirectoryEntry}
use nach_operator_system.FileSystem.Layout.{
  byte, word_of, name_byte, string_of, entry_byte, entries_byte, entry_of, entries_of,
}
use nach_operator_system.FileSystem.Codec.{Agree, word_of_bytes, word_of_cong, IsInt}

-- A name as it fits into an array of `left` characters: no terminator inside.
abbrev pub IsName : ℕ → CString → Type 0
IsName left [] = Unit {0}
IsName zero (c ∷ cs) = ⊥
IsName (suc left) (c ∷ cs) = (0 < c) × IsName left cs

-- An entry whose fields have values of their types in C++.
abbrev pub IsEntry : DirectoryEntry → Type 0
IsEntry e = IsInt e.sector × IsName 9 e.name

abbrev pub AreEntries : List DirectoryEntry → Type 0
AreEntries [] = Unit {0}
AreEntries (e ∷ es) = IsEntry e × AreEntries es

string_of-Agree :
    (n : ℕ) (f g : ℕ → ℕ) (a b : ℕ) → Agree n f a g b → string_of n f a ≡ string_of n g b
unfolding string_of
string_of-Agree zero f g a b h = refl
string_of-Agree (suc n) f g a b h =
    let e : f a ≡ g b = ap f (omega arith) ∙ h 0 (omega arith) ∙ ap g (omega arith) in
    let ih =
      string_of-Agree n f g (a + 1) (b + 1)
        (λ i l. ap f (omega arith) ∙ h (1 + i) (omega arith) ∙ ap g (omega arith)) in
    rw (e, ih) refl

string_of-name_byte :
    (n : ℕ) (s : CString) (pad f : ℕ → ℕ) (a : ℕ)
    → IsName n s
    → ((i : ℕ) → i < n → f (a + i) ≡ name_byte (pad i) s i)
    → string_of n f a ≡ s
unfolding string_of name_byte
string_of-name_byte zero [] pad f a w h = refl
string_of-name_byte zero (c ∷ cs) pad f a w h = absurd w
string_of-name_byte (suc n) [] pad f a w h =
    let e : f a ≡ 0 = ap f (omega arith) ∙ h 0 (omega arith) in rw e refl
string_of-name_byte (suc n) (c ∷ cs) pad f a (some_char, w) h =
    let e : f a ≡ c = ap f (omega arith) ∙ h 0 (omega arith) in
    let ih =
      string_of-name_byte n cs (λ i. pad (suc i)) f (a + 1) w
        (λ i l. ap f (omega arith) ∙ h (suc i) (omega arith)) in
    ground (arith, e, ih)

entry_of-Agree : (f g : ℕ → ℕ) (a b : ℕ) → Agree 20 f a g b → entry_of f a ≡ entry_of g b
unfolding entry_of
entry_of-Agree f g a b h =
    let e : f a ≡ g b = ap f (omega arith) ∙ h 0 (omega arith) ∙ ap g (omega arith) in
    let w : word_of f (a + 4) ≡ word_of g (b + 4) =
      word_of_cong f g (a + 4) (b + 4)
        (λ i l. ap f (omega arith) ∙ h (4 + i) (omega arith) ∙ ap g (omega arith)) in
    let s : string_of 9 f (a + 8) ≡ string_of 9 g (b + 8) =
      string_of-Agree 9 f g (a + 8) (b + 8)
        (λ i l. ap f (omega arith) ∙ h (8 + i) (omega arith) ∙ ap g (omega arith)) in
    cc

pub entries_of-Agree :
    (n : ℕ) (f g : ℕ → ℕ) (a b : ℕ) → Agree (n * 20) f a g b → entries_of n f a ≡ entries_of n g b
unfolding entries_of
entries_of-Agree zero f g a b h = refl
entries_of-Agree (suc n) f g a b h = ap₂ ◌∷◌ (entry_of-Agree f g a b (λ i l. h i (omega arith))) (
    entries_of-Agree n f g (a + 20) (b + 20)
      (λ i l. ap f (omega arith) ∙ h (20 + i) (omega arith) ∙ ap g (omega arith)))

entry_byte-name :
    (pad : ℕ → ℕ) (e : DirectoryEntry) (i : ℕ)
    → i < 9
    → entry_byte pad e (8 + i) ≡ name_byte (pad (8 + i)) e.name i
unfolding entry_byte
entry_byte-name pad e i h = let back : 8 + i - 8 ≡ i = omega arith in ground (arith, back)

flag_of : (b : Bool) (n : ℕ) → n ≡ (if b then 1 else 0) → not (n == 0) ≡ b
flag_of true n h = ground arith
flag_of false n h = ground arith

entry_of-entry_byte :
    (pad : ℕ → ℕ) (e : DirectoryEntry) (f : ℕ → ℕ) (a : ℕ)
    → IsEntry e
    → ((i : ℕ) → i < 20 → f (a + i) ≡ entry_byte pad e i)
    → entry_of f a ≡ e
unfolding entry_of entry_byte
entry_of-entry_byte pad e f a (int, name) h =
    let used : f a ≡ (if e.in_use then 1 else 0) = ap f (omega arith) ∙ h 0 (omega arith) in
    let e0 : f (a + 4) ≡ byte 0 (of_int e.sector) = h 4 (omega arith) in
    let e1 : f (a + 4 + 1) ≡ byte 1 (of_int e.sector) = ap f (omega arith) ∙ h 5 (omega arith) in
    let e2 : f (a + 4 + 2) ≡ byte 2 (of_int e.sector) = ap f (omega arith) ∙ h 6 (omega arith) in
    let e3 : f (a + 4 + 3) ≡ byte 3 (of_int e.sector) = ap f (omega arith) ∙ h 7 (omega arith) in
    let word : word_of f (a + 4) ≡ of_int e.sector =
      omega (arith, e0, e1, e2, e3, word_of_bytes (of_int e.sector) (of_int-lt e.sector)) in
    let text : string_of 9 f (a + 8) ≡ e.name =
      string_of-name_byte 9 e.name (λ i. pad (8 + i)) f (a + 8) name
        (λ i l. ap f (omega arith) ∙ h (8 + i) (omega arith) ∙ entry_byte-name pad e i l) in
    let flag : not (f a == 0) ≡ e.in_use = flag_of e.in_use (f a) used in
    let number : to_int (word_of f (a + 4)) ≡ e.sector = ap to_int word ∙ int in cc

entries_byte-first :
    (pad : ℕ → ℕ) (e : DirectoryEntry) (es : List DirectoryEntry) (i : ℕ)
    → i < 20
    → entries_byte pad (e ∷ es) i ≡ entry_byte pad e i
unfolding entries_byte
entries_byte-first pad e es i h = ground arith

entries_byte-rest :
    (pad : ℕ → ℕ) (e : DirectoryEntry) (es : List DirectoryEntry) (i : ℕ)
    → entries_byte pad (e ∷ es) (20 + i) ≡ entries_byte pad es i
unfolding entries_byte
entries_byte-rest pad e es i = let back : 20 + i - 20 ≡ i = omega arith in ground (arith, back)

-- The entries of a table come back from its bytes, whatever the padding holds.
pub entries_of-entries_byte :
    (pad : ℕ → ℕ) (es : List DirectoryEntry) (f : ℕ → ℕ) (a : ℕ)
    → AreEntries es
    → ((i : ℕ) → i < length es * 20 → f (a + i) ≡ entries_byte pad es i)
    → entries_of (length es) f a ≡ es
unfolding entries_of
entries_of-entries_byte pad [] f a w h = refl
entries_of-entries_byte pad (e ∷ es) f a (good, w) h =
    ap₂ ◌∷◌
      (entry_of-entry_byte pad e f a good
        (λ i l. h i (omega arith) ∙ entries_byte-first pad e es i l))
      (entries_of-entries_byte pad es f (a + 20) w
        (λ i l. ap f (omega arith) ∙ h (20 + i) (omega arith) ∙ entries_byte-rest pad e es i))
