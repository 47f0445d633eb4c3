-- ===== src/OpenFile/Sectors.antt =====
-- filesys/openfile.cc: the loop of WriteAt that writes the sectors back.
use nach_operator_system.Prelude.{
  ℕ, zero, suc, ◌+◌, ◌-◌, ◌*◌, ◌/◌, ◌%◌, ◌<◌, ◌≤◌, true, false, ◌&&◌, ◌≡◌, ◌≢◌, refl, ap, ◌⊎◌, inl,
  inr, Bool-cases, eqb_ℤ, eqb_ℤ_iff, ◌∙◌, some, ℤ, ltb, leb, get_elem?, if◌then◌else◌, arith,
}
use nach_operator_system.FileHeader.{FileHeader, byte_to_sector}
use nach_operator_system.OpenFile.{Disk, Buffer, write_loop}
use nach_operator_system.OpenFile.Reading.{IsPlaced, file_byte}

-- No sector stands for two parts of the file.
abbrev pub Distinct : FileHeader → (ℕ → ℤ) → Type 0
Distinct header sectors =
    (k l : ℕ)
    → k * 128 < header.num_bytes
    → l * 128 < header.num_bytes
    → sectors k ≡ sectors l
    → k ≡ l

pub not_same : (a b : ℤ) → a ≢ b → eqb_ℤ a b ≡ false
not_same a b differ = elim (Bool-cases (eqb_ℤ a b)) [
  | inl same ↦ absurd (differ ((eqb_ℤ_iff a b).0 same))
  | inr h ↦ h
]

module _ (header : FileHeader) (sectors : ℕ → ℤ) (p : IsPlaced header sectors)
    (distinct : Distinct header sectors) where
  pub other_sector :
      (a b : ℕ)
      → a * 128 < header.num_bytes
      → b * 128 < header.num_bytes
      → (a < b) ⊎ (b < a)
      → eqb_ℤ (sectors a) (sectors b) ≡ false
  other_sector a b ha hb h =
      not_same (sectors a) (sectors b)
        (λ same. let equal : a ≡ b = distinct a b ha hb same in ground (arith, equal, h))

  pub write_loop-Written :
      (left i first : ℕ) (buf : Buffer) (disk : Disk)
      → (i + left) * 128 ≤ buf.size
      → ((k : ℕ) → k < left → (first + i + k) * 128 < header.num_bytes)
      → (disk' : Disk) × (write_loop left i first header buf disk ≡ some disk')
        × ((j : ℕ)
            → i * 128 ≤ j
            → j < (i + left) * 128
            → file_byte sectors disk' (first * 128 + j) ≡ buf.bytes j)
        × ((s : ℤ) (o : ℕ)
            → ((k : ℕ) → i ≤ k → k < i + left → eqb_ℤ s (sectors (first + k)) ≡ false)
            → disk' s o ≡ disk s o)
  unfolding write_loop byte_to_sector
  write_loop-Written zero i first buf disk room inside =
      (disk, refl, λ j h1 h2. absurd (omega arith), λ s o h. refl)
  write_loop-Written (suc left) i first buf disk room inside =
      let here : (first + i) * 128 < header.num_bytes = ground (arith, inside 0 (omega arith)) in
      let found : get_elem? header.data_sectors ((first + i) * 128 / 128)
          ≡ some (sectors (first + i)) =
        ap (get_elem? header.data_sectors) (omega arith) ∙ p.placed (first + i) here in
      let fits : leb (i * 128 + 128) buf.size ≡ true = ground arith in
      let disk1 : Disk = λ s o.
        if eqb_ℤ s (sectors (first + i)) && ltb o 128 then buf.bytes (i * 128 + o) else disk s o in
      let (disk', runs, written, kept) =
        write_loop-Written left (suc i) first buf disk1 (omega arith)
          (λ k h. ground (arith, inside (suc k) (omega arith))) in
      (
        disk',
        rw found (rw (p.on_disk (first + i) here) (rw fits runs)),
        λ j h1 h2. elim (Bool-cases (ltb j (suc i * 128))) [
          | inl h ↦
              let part : (first * 128 + j) / 128 ≡ first + i = ground (arith, h) in
              ap (λ a. disk' (sectors a) ((first * 128 + j) % 128)) part
              ∙ kept (sectors (first + i)) ((first * 128 + j) % 128) (λ k h3 h4.
                other_sector (first + i) (first + k) here
                  (ground (arith, inside (k - i) (omega arith))) (inl (omega arith)))
              ∙ (let offset : i * 128 + (first * 128 + j) % 128 ≡ j = ground (arith, h) in
                  ground (arith, offset))
          | inr h ↦ written j (ground (arith, h)) (omega arith)
        ],
        λ s o h.
            kept s o (λ k h3 h4. h k (omega arith) (omega arith))
            ∙ rw (h i (omega arith) (omega arith)) refl,
      )
