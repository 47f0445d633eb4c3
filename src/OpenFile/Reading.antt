-- ===== src/OpenFile/Reading.antt =====
-- filesys/openfile.cc: what Read gives, against the file as a sequence of bytes.
use nach_operator_system.Prelude.{
  ℕ, zero, suc, ◌+◌, ◌-◌, ◌*◌, ◌/◌, ◌%◌, ◌^◌, ◌<◌, ◌≤◌, min, true, ◌&&◌, ◌⊎◌, ◌||◌, ◌==◌, ◌≡◌, refl,
  ap, ap₂, inl, inr, Bool-cases, ◌∙◌, some, ℤ, pos, ltb, leb, get_elem?, if◌then◌else◌, arith,
  subst,
}
use nach_operator_system.FileHeader.{FileHeader, byte_to_sector}
use nach_operator_system.OpenFile.{Disk, Buffer, is_sector, read_loop, read_sectors, read_at}

-- Every part of the file has a sector of the disk: `sectors k` is that of its bytes from 128 * k on.
pub record IsPlaced (header : FileHeader) (sectors : ℕ → ℤ) : Type 0 where
  pub placed :
      (k : ℕ) → k * 128 < header.num_bytes → get_elem? header.data_sectors k ≡ some (sectors k)
  pub on_disk : (k : ℕ) → k * 128 < header.num_bytes → is_sector (sectors k) ≡ true

-- The byte of the file at an offset.
abbrev pub file_byte : (ℕ → ℤ) → Disk → ℕ → ℕ
file_byte sectors disk offset = disk (sectors (offset / 128)) (offset % 128)

-- `count` bytes of the file from `position` on stand in the buffer from `at` on; the rest of the
-- buffer is as before.
pub record Reads (sectors : ℕ → ℤ) (disk : Disk) (position count at : ℕ) (into into' : Buffer)
    : Type 0 where
  pub size : into'.size ≡ into.size
  pub copied : (k : ℕ) → k < count → into'.bytes (at + k) ≡ file_byte sectors disk (position + k)
  pub kept : (j : ℕ) → (j < at) ⊎ (at + count ≤ j) → into'.bytes j ≡ into.bytes j

module _ (header : FileHeader) (disk : Disk) (sectors : ℕ → ℤ) (p : IsPlaced header sectors) where
  read_loop-Reads :
      (left i first : ℕ) (buf : Buffer)
      → (i + left) * 128 ≤ buf.size
      → ((k : ℕ) → k < left → (first + i + k) * 128 < header.num_bytes)
      → (buf' : Buffer) × (read_loop left i first header disk buf ≡ some buf')
        × (buf'.size ≡ buf.size)
        × ((j : ℕ) → j < i * 128 → buf'.bytes j ≡ buf.bytes j)
        × ((j : ℕ)
            → i * 128 ≤ j
            → j < (i + left) * 128
            → buf'.bytes j ≡ file_byte sectors disk (first * 128 + j))
  unfolding read_loop byte_to_sector
  read_loop-Reads zero i first buf room inside =
      (buf, refl, refl, λ j h. refl, λ j h1 h2. absurd (omega arith))
  read_loop-Reads (suc left) i first buf room inside =
      let buf2 : Buffer = record buf {
        bytes = λ j.
            if leb (i * 128) j && ltb j (i * 128 + 128)
            then disk (sectors (first + i)) (j - i * 128)
            else buf.bytes j;
      } in
      let here : (first + i) * 128 < header.num_bytes = ground (arith, inside 0 (omega arith)) in
      let found : get_elem? header.data_sectors ((first + i) * 128 / 128)
          ≡ some (sectors (first + i)) =
        ap (get_elem? header.data_sectors) (omega arith) ∙ p.placed (first + i) here in
      let fits : leb (i * 128 + 128) buf.size ≡ true = ground arith in
      let (buf', runs, size, low, high) =
        read_loop-Reads left (suc i) first buf2 (omega arith)
          (λ k h. ground (arith, inside (suc k) (omega arith))) in
      (
        buf',
        rw found (rw (p.on_disk (first + i) here) (rw fits runs)),
        size,
        λ j h. low j (omega arith) ∙ ground arith,
        λ j h1 h2. elim (Bool-cases (ltb j (suc i * 128))) [
          | inl h ↦
              let below : j < suc i * 128 = ground (arith, h) in
              let new : buf2.bytes j ≡ disk (sectors (first + i)) (j - i * 128) = ground arith in
              let part : first + i ≡ (first * 128 + j) / 128 = omega arith in
              let rest : j - i * 128 ≡ (first * 128 + j) % 128 = omega arith in
              low j below ∙ new ∙ ap₂ (λ a b. disk (sectors a) b) part rest
          | inr h ↦ high j (ground (arith, h)) (omega arith)
        ],
      )

  read_sectors-Reads :
      (garbage : ℕ → ℕ) (into : Buffer) (at n position : ℕ)
      → 0 < n
      → position + n ≤ header.num_bytes
      → at + n ≤ into.size
      → (into' : Buffer) × (read_sectors header disk garbage into at n position ≡ some (n, into'))
        × Reads sectors disk position n at into into'
  unfolding read_sectors
  read_sectors-Reads garbage into at n position some_bytes inside room =
      let first : ℕ = position / 128 in
      let rounds : ℕ = 1 + (position + n - 1) / 128 - first in
      let skipped : ℕ = position - first * 128 in
      let buf : Buffer = record { size = rounds * 128; bytes = garbage } in
      let (buf', runs, size, low, high) =
        read_loop-Reads rounds 0 first buf (omega arith) (λ k h. omega arith) in
      let held : leb (skipped + n) buf'.size ≡ true = ground (arith, size) in
      let fits : leb (at + n) into.size ≡ true = ground arith in
      (
        record into {
          bytes = λ j.
              if leb at j && ltb j (at + n) then buf'.bytes (skipped + (j - at)) else into.bytes j;
        },
        rw runs (rw held (rw fits refl)),
        record {
          size = refl;
          copied = λ k h.
              let new : (if leb at (at + k) && ltb (at + k) (at + n)
                    then buf'.bytes (skipped + (at + k - at))
                    else into.bytes (at + k))
                  ≡ buf'.bytes (skipped + (at + k - at)) =
                ground arith in
              let place : first * 128 + (skipped + (at + k - at)) ≡ position + k = omega arith in
              new
              ∙ high (skipped + (at + k - at)) (omega arith) (omega arith)
              ∙ ap (file_byte sectors disk) place;
          kept = λ j h. ground (arith, h);
        },
      )

  -- ReadAt of a file whose parts all have a sector, into a buffer with room for it, where the position
  -- and the number of bytes add up to an `int`: it reads the
  -- bytes that were asked for and that the file has from `position` on, and returns their number.
  -- They stand in the buffer in the order of the file, across the sectors, and the rest of the
  -- buffer is as before. No access is outside an array, and no ASSERT of the disk fails.
  pub read_at-Reads :
      (garbage : ℕ → ℕ) (into : Buffer) (at n position : ℕ)
      → position + n < 2 ^ 31
      → at + n ≤ into.size
      → (into' : Buffer) × (read_at header disk garbage into at (pos n) position
          ≡ some (min n (header.num_bytes - position), into'))
        × Reads sectors disk position (min n (header.num_bytes - position)) at into into'
  unfolding read_at
  read_at-Reads garbage into at n position small room =
      let count : ℕ = min n (header.num_bytes - position) in
      elim (Bool-cases (n == 0 || leb header.num_bytes position)) [
        | inl nothing ↦
            let none_read : 0 ≡ count = ground arith in
            subst
              (λ c.
                (into' : Buffer) × (read_at header disk garbage into at (pos n) position
                  ≡ some (c, into'))
                × Reads sectors disk position c at into into')
              none_read
              (
                into,
                rw nothing refl,
                record { size = refl; copied = λ k h. absurd (omega arith); kept = λ j h. refl },
              )
        | inr asked ↦
            let chosen : (if ltb header.num_bytes (position + n)
                  then header.num_bytes - position
                  else n)
                ≡ count =
              ground arith in
            let fits : ltb (position + n) (2 ^ 31) ≡ true = ground arith in
            let (into', runs, reads) =
              read_sectors-Reads garbage into at count position (ground arith) (ground arith)
                (ground arith) in
            (into', rw asked (rw fits (rw chosen runs)), reads)
      ]
