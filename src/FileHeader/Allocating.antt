-- ===== src/FileHeader/Allocating.antt =====
-- FileHeader::Allocate of filesys/filehdr.cc: sectors that were free, each taken once.
use nach_operator_system.Prelude.{
  ℕ, zero, suc, ◌+◌, ◌≤◌, ◌<◌, ◌≡◌, refl, sym, ap, ◌∙◌, ◌⊎◌, inl, inr, Bool, true, false, ◌||◌,
  Option, some, none, List, [], ◌∷◌, ℤ, pos, ltb, lt→ltb, ◌==◌, length, get_elem?, set, length-set,
  get_elem?-set_self, get_elem?-set_ne, arith, Bool-cases, subst, eq_of_some,
}
use native.Mathlib.Decide.{dec_lt}
use nach_operator_system.Machine.{store_at}
use nach_operator_system.BitMap.{BitMap, div_round_up, num_clear}
use nach_operator_system.BitMap.Laws
use nach_operator_system.BitMap.Laws.{marked, set_bit, marked-set_bit, set_bit-IsValid}
use nach_operator_system.BitMap.Count.{free_count, num_clear_lem, find-free}
use nach_operator_system.FileHeader.{
  FileHeader, sector_size, num_direct, max_file_size, allocate_loop, allocate,
}

-- A sector is in a list.
unfoldable pub elem : ℕ → List ℕ → Bool
elem n [] = false
elem n (s ∷ ss) = (n == s) || elem n ss

pub data NoDup : List ℕ → Type 0 where
  nil : NoDup []
  cons : {s : ℕ} {ss : List ℕ} → elem s ss ≡ false → NoDup ss → NoDup (s ∷ ss)

-- An array holds the sectors from place `i` on.
pub data Holds (xs : List ℤ) : ℕ → List ℕ → Type 0 where
  end : {i : ℕ} → Holds xs i []
  next :
      {i s : ℕ} {ss : List ℕ}
      → get_elem? xs i ≡ some (pos s)
      → Holds xs (suc i) ss
      → Holds xs i (s ∷ ss)

-- What a run of the loop leaves: the sectors `taken`, which were free, and are marked now.
pub record Allocated (header : FileHeader) (b : BitMap) (i left : ℕ)
    (r : Option (FileHeader × BitMap)) : Type 0 where
  pub header' : FileHeader
  pub b' : BitMap
  pub taken : List ℕ
  pub returns : r ≡ some (header', b')
  pub bytes : header'.num_bytes ≡ header.num_bytes
  pub sectors : header'.num_sectors ≡ header.num_sectors
  pub entries : length header'.data_sectors ≡ length header.data_sectors
  pub count : length taken ≡ left
  pub listed : Holds header'.data_sectors i taken
  pub kept : (k : ℕ) → k < i → get_elem? header'.data_sectors k ≡ get_elem? header.data_sectors k
  pub distinct : NoDup taken
  pub were_free : (j : ℕ) → elem j taken ≡ true → (j < b.num_bits) × (marked b j ≡ false)
  pub valid : Laws.IsValid b'
  pub bits : b'.num_bits ≡ b.num_bits
  pub marks : (j : ℕ) → j < b.num_bits → marked b' j ≡ (elem j taken || marked b j)

store_at-some : (xs : List ℤ) (i : ℕ) (v : ℤ) → i < length xs → store_at xs i v ≡ some (set xs i v)
store_at-some xs i v h = rw (lt→ltb i (length xs) h) refl

pub allocate_loop-Allocated :
    (left i : ℕ) (header : FileHeader) (b : BitMap)
    → Laws.IsValid b
    → left ≤ free_count b
    → i + left ≤ length header.data_sectors
    → Allocated header b i left (allocate_loop left i header b)
unfolding elem
allocate_loop-Allocated zero i header b v free room = record {
  header' = header;
  b' = b;
  taken = [];
  returns = unfold allocate_loop in refl;
  bytes = refl;
  sectors = refl;
  entries = refl;
  count = refl;
  listed = end;
  kept = λ k h. refl;
  distinct = nil;
  were_free = λ j h. absurd (ground arith);
  valid = v;
  bits = refl;
  marks = λ j h. refl;
}
allocate_loop-Allocated (suc left) i header b v free room =
    let (n, found, below, clear, less) = find-free b v (omega arith) in
    let b1 = set_bit b n in
    let header1 = record header { data_sectors = set header.data_sectors i (pos n) } in
    let size = length-set header.data_sectors i (pos n) in
    let at = λ (j : ℕ). marked-set_bit b v n j below in
    let rest =
      allocate_loop-Allocated left (suc i) header1 b1 (set_bit-IsValid b n v) (omega arith)
        (omega arith) in
    let apart : elem n rest.taken ≡ false = elim (Bool-cases (elem n rest.taken)) [
      | inl e ↦ absurd (ground (arith, (rest.were_free n e).1, at n))
      | inr e ↦ e
    ] in
    let step : allocate_loop (suc left) i header b ≡ allocate_loop left (suc i) header1 b1 =
      unfold allocate_loop in
      rw (found, store_at-some header.data_sectors i (pos n) (omega arith)) refl in
    record {
      header' = rest.header';
      b' = rest.b';
      taken = n ∷ rest.taken;
      returns = step ∙ rest.returns;
      bytes = rest.bytes;
      sectors = rest.sectors;
      entries = rest.entries ∙ size;
      count = ap suc rest.count;
      listed =
          next
            (rest.kept i (omega arith)
              ∙ get_elem?-set_self header.data_sectors i (pos n) (omega arith))
            rest.listed;
      kept = λ k h.
          rest.kept k (omega arith) ∙ get_elem?-set_ne header.data_sectors (pos n) (omega arith);
      distinct = cons apart rest.distinct;
      were_free = λ j h. ground (arith, rest.were_free j, at j);
      valid = rest.valid;
      bits = rest.bits;
      marks = λ j h. rest.marks j h ∙ ground (arith, at j);
    }

-- The loop goes past the end of the array.
allocate_loop-overrun :
    (left i : ℕ) (header : FileHeader) (b : BitMap)
    → Laws.IsValid b
    → left ≤ free_count b
    → i ≤ length header.data_sectors
    → length header.data_sectors < i + left
    → allocate_loop left i header b ≡ none
unfolding allocate_loop
allocate_loop-overrun zero i header b v free inside past = absurd (omega arith)
allocate_loop-overrun (suc left) i header b v free inside past =
    let (n, found, below, clear, less) = find-free b v (omega arith) in
    elim (dec_lt i (length header.data_sectors)) [
      | yes h ↦
          let header1 = record header { data_sectors = set header.data_sectors i (pos n) } in
          let size = length-set header.data_sectors i (pos n) in
          rw (found, store_at-some header.data_sectors i (pos n) h)
            (allocate_loop-overrun left (suc i) header1 (set_bit b n) (set_bit-IsValid b n v)
              (omega arith) (omega arith) (omega arith))
      | no h ↦ rw found (ground arith)
    ]

abbrev pub sized : FileHeader → ℕ → FileHeader
sized header file_size = record header {
  num_bytes = file_size;
  num_sectors = div_round_up file_size sector_size;
}

module _ (header : FileHeader) (b : BitMap) (file_size : ℕ) (v : Laws.IsValid b)
    (whole : length header.data_sectors ≡ num_direct) where
  -- Allocate of a file of at most MaxFileSize bytes. With fewer free sectors than the file needs,
  -- it returns FALSE and takes none. Otherwise it returns TRUE: the header lists as many sectors
  -- as the file needs, which are distinct, were free before and are marked now, and the marks of
  -- the others stay.
  pub allocate-outcome :
      file_size ≤ max_file_size
      → (free : ℕ) × (num_clear b ≡ some free)
        × (((free < div_round_up file_size sector_size)
              × (allocate header b file_size ≡ some (false, sized header file_size, b)))
            ⊎ ((div_round_up file_size sector_size ≤ free)
                × (header' : FileHeader) × (b' : BitMap) × (allocate header b file_size
                    ≡ some (true, header', b'))
                × Allocated
                    (sized header file_size)
                    b
                    0
                    (div_round_up file_size sector_size)
                    (some (header', b'))))
  unfolding allocate
  allocate-outcome fits =
      let needed : ℕ = div_round_up file_size sector_size in
      (
        free_count b,
        num_clear_lem b,
        elim (dec_lt (free_count b) needed) [
          | yes less ↦ inl (less, rw (num_clear_lem b, lt→ltb (free_count b) needed less) refl)
          | no enough ↦
              let a =
                allocate_loop-Allocated needed 0 (sized header file_size) b v (omega arith)
                  (ground arith) in
              let test : ltb (free_count b) needed ≡ false = ground arith in
              inr (
                omega arith,
                a.header',
                a.b',
                rw (num_clear_lem b, test, a.returns) refl,
                subst (Allocated (sized header file_size) b 0 needed) a.returns a,
              )
        ],
      )

  -- Allocate does not look at the size of the array: for a larger file, where that many sectors
  -- are free, it writes past the end of dataSectors.
  pub allocate-overrun :
      max_file_size < file_size
      → (free : ℕ) → num_clear b ≡ some free
      → div_round_up file_size sector_size ≤ free
      → allocate header b file_size ≡ none
  unfolding allocate
  allocate-overrun large free counted enough =
      let needed : ℕ = div_round_up file_size sector_size in
      let same : free_count b ≡ free =
        eq_of_some (free_count b) free (sym (num_clear_lem b) ∙ counted) in
      let test : ltb (free_count b) needed ≡ false = ground arith in
      let over =
        allocate_loop-overrun needed 0 (sized header file_size) b v (omega arith) (omega arith)
          (ground arith) in
      rw (num_clear_lem b, test, over) refl
