-- ===== src/FileSystem/Codec.antt =====
-- What WriteBack lays out, FetchFrom reads back: the laws of the layouts.
use nach_operator_system.Prelude.{
  ℕ, zero, suc, ◌+◌, ◌*◌, ◌/◌, ◌%◌, ◌^◌, ◌<◌, ◌≡◌, refl, ap, ap₂, ◌∙◌, true, some, List, [], ◌∷◌, ℤ,
  map, ltb, length, length-map, lt→ltb, to_int, of_int, of_int-lt, arith, subst,
}
use nach_operator_system.FileHeader.{FileHeader}
use nach_operator_system.FileSystem.Layout.{
  byte, word_byte, word_of, words_of, header_words, header_of,
}

abbrev pub IsWords : List ℕ → Type 0
IsWords [] = Unit {0}
IsWords (w ∷ ws) = (w < 2 ^ 32) × IsWords ws

-- The bytes of two memories agree, over `n` bytes.
abbrev pub Agree : ℕ → (ℕ → ℕ) → ℕ → (ℕ → ℕ) → ℕ → Type 0
Agree n f a g b = (i : ℕ) → i < n → f (a + i) ≡ g (b + i)

pub word_of_bytes :
    (w : ℕ) → w < 2 ^ 32 → byte 0 w + byte 1 w * 2 ^ 8 + byte 2 w * 2 ^ 16 + byte 3 w * 2 ^ 24 ≡ w
word_of_bytes w h = omega arith

pub word_of_cong : (f g : ℕ → ℕ) (a b : ℕ) → Agree 4 f a g b → word_of f a ≡ word_of g b
word_of_cong f g a b h =
    let e0 : f a ≡ g b = ap f (omega arith) ∙ h 0 (omega arith) ∙ ap g (omega arith) in
    omega (arith, e0, h 1 (omega arith), h 2 (omega arith), h 3 (omega arith))

pub words_of-Agree :
    (n : ℕ) (f g : ℕ → ℕ) (a b : ℕ) → Agree (n * 4) f a g b → words_of n f a ≡ words_of n g b
unfolding words_of
words_of-Agree zero f g a b h = refl
words_of-Agree (suc n) f g a b h = ap₂ ◌∷◌ (word_of_cong f g a b (λ i l. h i (omega arith))) (
    words_of-Agree n f g (a + 4) (b + 4)
      (λ i l. ap f (omega arith) ∙ h (4 + i) (omega arith) ∙ ap g (omega arith)))

word_byte-first : (w : ℕ) (ws : List ℕ) (i : ℕ) → i < 4 → word_byte (w ∷ ws) i ≡ byte i w
word_byte-first w ws i h =
    let q : i / 4 ≡ 0 = omega arith in let r : i % 4 ≡ i = omega arith in rw (q, r) refl

word_byte-rest : (w : ℕ) (ws : List ℕ) (i : ℕ) → word_byte (w ∷ ws) (4 + i) ≡ word_byte ws i
word_byte-rest w ws i =
    let q : (4 + i) / 4 ≡ suc (i / 4) = omega arith in
    let r : (4 + i) % 4 ≡ i % 4 = omega arith in rw (q, r) refl

-- The words of an array come back from its bytes.
pub words_of-word_byte :
    (ws : List ℕ) (f : ℕ → ℕ) (a : ℕ)
    → IsWords ws
    → ((i : ℕ) → i < length ws * 4 → f (a + i) ≡ word_byte ws i)
    → words_of (length ws) f a ≡ ws
unfolding words_of
words_of-word_byte [] f a w h = refl
words_of-word_byte (x ∷ ws) f a (small, w) h =
    let e0 : f a ≡ byte 0 x =
      ap f (omega arith) ∙ h 0 (omega arith) ∙ word_byte-first x ws 0 (omega arith) in
    let e1 : f (a + 1) ≡ byte 1 x = h 1 (omega arith) ∙ word_byte-first x ws 1 (omega arith) in
    let e2 : f (a + 2) ≡ byte 2 x = h 2 (omega arith) ∙ word_byte-first x ws 2 (omega arith) in
    let e3 : f (a + 3) ≡ byte 3 x = h 3 (omega arith) ∙ word_byte-first x ws 3 (omega arith) in
    ap₂ ◌∷◌ (omega (arith, e0, e1, e2, e3, word_of_bytes x small)) (
      words_of-word_byte ws f (a + 4) w
        (λ i l. ap f (omega arith) ∙ h (4 + i) (omega arith) ∙ word_byte-rest x ws i))

abbrev pub IsInt : ℤ → Type 0
IsInt z = to_int (of_int z) ≡ z

abbrev pub AreInts : List ℤ → Type 0
AreInts [] = Unit {0}
AreInts (z ∷ zs) = IsInt z × AreInts zs

of_int-IsWords : (zs : List ℤ) → IsWords (map of_int zs)
of_int-IsWords [] = tt
of_int-IsWords (z ∷ zs) = (of_int-lt z, of_int-IsWords zs)

to_int-of_int : (zs : List ℤ) → AreInts zs → map to_int (map of_int zs) ≡ zs
to_int-of_int [] h = refl
to_int-of_int (z ∷ zs) (int, h) = ap₂ ◌∷◌ int (to_int-of_int zs h)

-- A header whose fields have values of their types, and whose array has its length.
pub record IsHeader (h : FileHeader) : Type 0 where
  pub bytes : h.num_bytes < 2 ^ 31
  pub sectors : h.num_sectors < 2 ^ 31
  pub size : length h.data_sectors ≡ 30
  pub ints : AreInts h.data_sectors

words_of-header :
    (n : ℕ) (f : ℕ → ℕ) (a b : ℕ) (ws : List ℕ)
    → words_of (suc (suc n)) f 0 ≡ a ∷ b ∷ ws
    → (word_of f 0 ≡ a) × (word_of f 4 ≡ b) × (words_of n f 8 ≡ ws)
unfolding words_of
words_of-header n f a b ws h = (cc, cc, cc)

-- A header comes back from its bytes.
pub header_of-header_words :
    (h : FileHeader) (f : ℕ → ℕ)
    → IsHeader h
    → ((i : ℕ) → i < 128 → f i ≡ word_byte (header_words h) i)
    → header_of f ≡ some h
unfolding header_of
header_of-header_words h f good same =
    let zs : List ℤ = h.data_sectors in
    let count : length (map of_int zs) ≡ 30 = length-map zs of_int ∙ good.size in
    let all : words_of (length (header_words h)) f 0 ≡ header_words h =
      words_of-word_byte (header_words h) f 0
        (omega (arith, good.bytes), (omega (arith, good.sectors), of_int-IsWords zs))
        (λ i l. ap f (omega arith) ∙ same i (omega (arith, count))) in
    let parts =
      words_of-header (length (map of_int zs)) f h.num_bytes h.num_sectors (map of_int zs) all in
    let rest : words_of 30 f 8 ≡ map of_int zs =
      subst (λ n. words_of n f 8 ≡ map of_int zs) count parts.2 in
    let back : map to_int (words_of 30 f 8) ≡ zs =
      ap (map to_int) rest ∙ to_int-of_int zs good.ints in
    let t0 : ltb (word_of f 0) (2 ^ 31) ≡ true =
      lt→ltb (word_of f 0) (2 ^ 31) (omega (arith, parts.0, good.bytes)) in
    let t1 : ltb (word_of f 4) (2 ^ 31) ≡ true =
      lt→ltb (word_of f 4) (2 ^ 31) (omega (arith, parts.1, good.sectors)) in
    rw t0 (rw t1 (cc (parts.0, parts.1, back)))

pub header_of-Agree : (f g : ℕ → ℕ) → ((i : ℕ) → i < 128 → f i ≡ g i) → header_of f ≡ header_of g
unfolding header_of
header_of-Agree f g h =
    let w0 : word_of f 0 ≡ word_of g 0 =
      word_of_cong f g 0 0 (λ i l. ap f (omega arith) ∙ h i (omega arith) ∙ ap g (omega arith)) in
    let w1 : word_of f 4 ≡ word_of g 4 = word_of_cong f g 4 4 (λ i l. h (4 + i) (omega arith)) in
    let ws : words_of 30 f 8 ≡ words_of 30 g 8 =
      words_of-Agree 30 f g 8 8 (λ i l. h (8 + i) (omega arith)) in
    rw w0 (rw w1 (rw ws refl))
