-- ===== src/FileHeader/Releasing.antt =====
-- FileHeader::Deallocate of filesys/filehdr.cc: it gives back what Allocate took.
use nach_operator_system.Prelude.{
  ℕ, suc, ◌≤◌, ◌<◌, ◌≡◌, refl, sym, ap, ◌∙◌, inl, inr, true, not, ◌&&◌, Option, some, List, [], ◌∷◌,
  length, arith, subst,
}
use nach_operator_system.BitMap.{BitMap, div_round_up}
use nach_operator_system.BitMap.Laws
use nach_operator_system.BitMap.Laws.{
  marked, clear_bit, marked-clear_bit, clear_bit-IsValid, test_lem, clear_lem,
}
use nach_operator_system.FileHeader.{
  FileHeader, sector_size, num_direct, max_file_size, allocate, deallocate_loop, deallocate,
}
use nach_operator_system.FileHeader.Allocating.{
  elem, NoDup, nil, cons, Holds, end, next, Allocated, sized, allocate-outcome,
}

pub record Released (b : BitMap) (ss : List ℕ) (r : Option BitMap) : Type 0 where
  pub b' : BitMap
  pub returns : r ≡ some b'
  pub valid : Laws.IsValid b'
  pub bits : b'.num_bits ≡ b.num_bits
  pub marks : (j : ℕ) → j < b.num_bits → marked b' j ≡ (not (elem j ss) && marked b j)

pub deallocate_loop-Released :
    (header : FileHeader) (b : BitMap) (i : ℕ) (ss : List ℕ)
    → Laws.IsValid b
    → Holds header.data_sectors i ss
    → NoDup ss
    → ((j : ℕ) → elem j ss ≡ true → (j < b.num_bits) × (marked b j ≡ true))
    → Released b ss (deallocate_loop (length ss) i header b)
unfolding deallocate_loop elem
deallocate_loop-Released header b i [] v end nil taken = record {
  b' = b;
  returns = refl;
  valid = v;
  bits = refl;
  marks = λ j h. refl;
}
deallocate_loop-Released header b i (s ∷ ss) v (next here there) (cons apart distinct) taken =
    let (below, full) = taken s (ground arith) in
    let at = λ (j : ℕ). marked-clear_bit b v s j below in
    let still : (j : ℕ) → elem j ss ≡ true → (j < b.num_bits) × (marked (clear_bit b s) j ≡ true) =
      λ j h. ground (arith, taken j, at j, ap (λ (x : ℕ). elem x ss)) in
    let rest =
      deallocate_loop-Released header (clear_bit b s) (suc i) ss (clear_bit-IsValid b s v) there
        distinct still in
    record {
      b' = rest.b';
      returns = rw (here, test_lem b s below, full, clear_lem b s below) rest.returns;
      valid = rest.valid;
      bits = rest.bits;
      marks = λ j h. rest.marks j h ∙ ground (arith, at j);
    }

back :
    (header : FileHeader) (b : BitMap) (n : ℕ) (header' : FileHeader) (b' : BitMap)
    → Laws.IsValid b
    → header.num_sectors ≡ n
    → Allocated header b 0 n (some (header', b'))
    → (b2 : BitMap) × (deallocate header' b' ≡ some b2)
      × Laws.IsValid b2
      × ((j : ℕ) → j < b.num_bits → marked b2 j ≡ marked b j)
unfolding deallocate elem
back header b n header' b' v sized_n a =
    let same_header : a.header' ≡ header' = ground (arith, a.returns) in
    let same_map : a.b' ≡ b' = ground (arith, a.returns) in
    let full : (j : ℕ) → elem j a.taken ≡ true → (j < a.b'.num_bits) × (marked a.b' j ≡ true) =
      λ j h. ground (arith, a.were_free j, a.marks j, a.bits) in
    let r = deallocate_loop-Released a.header' a.b' 0 a.taken a.valid a.listed a.distinct full in
    let run : deallocate a.header' a.b' ≡ some r.b' =
      ap (λ (k : ℕ). deallocate_loop k 0 a.header' a.b') (a.sectors ∙ sized_n ∙ sym a.count)
      ∙ r.returns in
    (
      r.b',
      subst (λ (h : FileHeader). deallocate h b' ≡ some r.b') same_header
          (subst (λ (m : BitMap). deallocate a.header' m ≡ some r.b') same_map run),
      r.valid,
      λ j h. ground (arith, r.marks j, a.marks j, a.were_free j, a.bits),
    )

-- After an Allocate that returned TRUE, Deallocate of the header fails no ASSERT, and every mark
-- of the bit map is again what it was before the two calls.
pub deallocate-allocate :
    (header header' : FileHeader) (b b' : BitMap) (file_size : ℕ)
    → Laws.IsValid b
    → length header.data_sectors ≡ num_direct
    → file_size ≤ max_file_size
    → allocate header b file_size ≡ some (true, header', b')
    → (b2 : BitMap) × (deallocate header' b' ≡ some b2)
      × Laws.IsValid b2
      × ((j : ℕ) → j < b.num_bits → marked b2 j ≡ marked b j)
deallocate-allocate header header' b b' file_size v whole fits done =
    let (free, counted, cases) = allocate-outcome header b file_size v whole fits in
    elim cases [
      | inl (less, refused) ↦ absurd (ground (arith, refused, done))
      | inr (enough, h1, b1, returned, a) ↦
          let eh : h1 ≡ header' = ground (arith, returned, done) in
          let eb : b1 ≡ b' = ground (arith, returned, done) in
          let n : ℕ = div_round_up file_size sector_size in
          back (sized header file_size) b n header' b' v refl (
            subst (λ (h : FileHeader). Allocated (sized header file_size) b 0 n (some (h, b'))) eh
              (subst (λ (m : BitMap). Allocated (sized header file_size) b 0 n (some (h1, m))) eb
                a))
    ]
