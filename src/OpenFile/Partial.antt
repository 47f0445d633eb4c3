-- ===== src/OpenFile/Partial.antt =====
-- filesys/openfile.cc: the sectors that WriteAt changes in part, and the buffer that holds them.
use nach_operator_system.Prelude.{
  ℕ, ◌+◌, ◌-◌, ◌*◌, ◌/◌, ◌^◌, ◌<◌, ◌≤◌, Bool, true, false, not, ◌&&◌, ◌||◌, ◌==◌, ◌≡◌, refl, ap,
  ◌⊎◌, inl, inr, Bool-cases, sym, ◌∙◌, some, ℤ, ltb, leb, if◌then◌else◌, arith,
}
use nach_operator_system.FileHeader.{FileHeader}
use nach_operator_system.OpenFile.{Disk, Buffer, read_partial}
use nach_operator_system.OpenFile.Reading.{IsPlaced, file_byte, read_at-Reads}

-- `n` bytes of one array laid over another, at `at`.
pub copied_in :
    (at n k : ℕ) (f g : ℕ → ℕ)
    → k < n
    → (if leb at (at + k) && ltb (at + k) (at + n) then f (at + k - at) else g (at + k)) ≡ f k
copied_in at n k f g h = let same : at + k - at ≡ k = omega arith in ground (arith, same)

pub copied_out :
    (at n j : ℕ) (f g : ℕ → ℕ)
    → (j < at) ⊎ (at + n ≤ j)
    → (if leb at j && ltb j (at + n) then f (j - at) else g j) ≡ g j
copied_out at n j f g h = ground (arith, h)

pub both : (a b j : ℕ) → (leb a j && ltb j b) ≡ true → (a ≤ j) × (j < b)
both a b j h = (ground (arith, h), ground (arith, h))

pub shifted :
    (start position n j : ℕ)
    → start ≤ position
    → start ≤ j
    → (j < position) ⊎ (position + n ≤ j)
    → (j - start < position - start) ⊎ (position - start + n ≤ j - start)
shifted start position n j h1 h2 h = elim h [
  | inl below ↦ inl (omega arith)
  | inr above ↦ inr (omega arith)
]

pub beyond :
    (first last j k : ℕ)
    → first ≤ last
    → (leb (first * 128) j && ltb j (last * 128 + 128)) ≡ false
    → k < 1 + last - first
    → (j / 128 < first + k) ⊎ (first + k < j / 128)
beyond first last j k order far h = ground (arith, far)

-- The buffer after a sector of the file was read into it, from `at` on, if `wanted` says so.
pub record Prepared (header : FileHeader) (sectors : ℕ → ℤ) (disk : Disk) (wanted : Bool)
    (at position : ℕ) (buf buf' : Buffer) : Type 0 where
  pub size : buf'.size ≡ buf.size
  pub present :
      wanted ≡ true
      → (k : ℕ) → k < 128
      → position + k < header.num_bytes
      → buf'.bytes (at + k) ≡ file_byte sectors disk (position + k)
  pub untouched : wanted ≡ false → (j : ℕ) → buf'.bytes j ≡ buf.bytes j
  pub around : (j : ℕ) → (j < at) ⊎ (at + 128 ≤ j) → buf'.bytes j ≡ buf.bytes j

module _ (header : FileHeader) (sectors : ℕ → ℤ) (p : IsPlaced header sectors) where
  pub read_partial-Prepared :
      (disk : Disk) (garbage : ℕ → ℕ) (wanted : Bool) (at position : ℕ) (buf : Buffer)
      → position + 128 < 2 ^ 31
      → at + 128 ≤ buf.size
      → (buf' : Buffer) × (read_partial wanted header disk garbage buf at position ≡ some buf')
        × Prepared header sectors disk wanted at position buf buf'
  unfolding read_partial
  read_partial-Prepared disk garbage false at position buf small room = (
    buf,
    refl,
    record {
      size = refl;
      present = λ h. absurd (ground arith);
      untouched = λ h j. refl;
      around = λ j h. refl;
    },
  )
  read_partial-Prepared disk garbage true at position buf small room =
      let (buf', runs, reads) =
        read_at-Reads header disk sectors p garbage buf at 128 position small room in
      (
        buf',
        rw runs refl,
        record {
          size = reads.size;
          present = λ w k h inside. reads.copied k (omega arith);
          untouched = λ h. absurd (ground arith);
          around = λ j h. reads.kept j (ground (arith, h));
        },
      )

  pub byte_before_write :
      (disk : Disk) (b1 b2 : Bool) (first last position n j : ℕ) (buf buf1 buf2 : Buffer)
      → Prepared header sectors disk b1 0 (first * 128) buf buf1
      → Prepared header sectors disk b2 ((last - first) * 128) (last * 128) buf1 buf2
      → b1 ≡ not (position == first * 128)
      → b2 ≡ (
          not (position + n == (last + 1) * 128)
          && (not (first == last) || (position == first * 128)))
      → first ≤ last
      → first * 128 ≤ position
      → position < first * 128 + 128
      → last * 128 < position + n
      → position + n ≤ last * 128 + 128
      → first * 128 + j < last * 128 + 128
      → first * 128 + j < header.num_bytes
      → (first * 128 + j < position) ⊎ (position + n ≤ first * 128 + j)
      → buf2.bytes j ≡ file_byte sectors disk (first * 128 + j)
  byte_before_write disk b1 b2 first last position n j buf buf1 buf2 r1 r2 e1 e2 h1 h2 h3 h4 h5 h6
        h7 out =
      let in_first : b1 ≡ true → j < 128 → buf1.bytes j ≡ file_byte sectors disk (first * 128 + j) =
        λ b h. let place : j ≡ 0 + j = omega arith in ap buf1.bytes place ∙ r1.present b j h h7 in
      elim (Bool-cases b2) [
        | inl again ↦ elim (Bool-cases (leb ((last - first) * 128) j)) [
          | inl late ↦
              let at : (last - first) * 128 + (j - (last - first) * 128) ≡ j =
                ground (arith, late) in
              let place : last * 128 + (j - (last - first) * 128) ≡ first * 128 + j =
                ground (arith, late) in
              ap buf2.bytes (sym at)
              ∙ r2.present again (j - (last - first) * 128) (omega arith) (omega arith)
              ∙ ap (file_byte sectors disk) place
          | inr early ↦
              r2.around j (inl (ground (arith, early)))
              ∙ in_first (ground (arith, out, early)) (ground (arith, out, early))
        ]
        | inr once ↦
            r2.untouched once j ∙ in_first (ground (arith, out, once)) (ground (arith, out, once))
      ]
