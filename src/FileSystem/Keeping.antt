-- ===== src/FileSystem/Keeping.antt =====
-- The operations keep what the layouts can hold: words of 32 bits, `int`s, and names with no
-- terminator inside.
use nach_operator_system.Prelude.{
  ℕ, zero, suc, ◌/◌, ◌%◌, ◌^◌, ◌<◌, ◌≡◌, refl, ap, sym, ◌∙◌, inl, inr, true, some, List, [], ◌∷◌, ℤ,
  pos, minus_one, length, length-set, set, get_or, get_elem?, ltb, bit_or, assert, >>=-eq-some,
  eq_of_some, arith, subst, Bool-cases,
}
use nach_operator_system.Prelude.Bits.Bounds.{bit_or-lt, bit_and-lt, pow-lt}
use nach_operator_system.Machine.{store_at}
use nach_operator_system.BitMap.{
  BitMap, find, word_at, mask, div_round_up, num_clear, clear, test, in_range, index,
}
use nach_operator_system.BitMap.Laws.{set_bit, clear_bit}
use nach_operator_system.BitMap.Find.{find-Finds}
use nach_operator_system.FileHeader.{
  FileHeader, allocate_loop, allocate, deallocate_loop, deallocate,
}
use nach_operator_system.FileSystem.Codec.{IsWords, IsInt, AreInts}

set-IsWords : (ws : List ℕ) (i w : ℕ) → w < 2 ^ 32 → IsWords ws → IsWords (set ws i w)
set-IsWords [] i w h all = tt
set-IsWords (x ∷ ws) zero w h (hx, all) = (h, all)
set-IsWords (x ∷ ws) (suc i) w h (hx, all) = (hx, set-IsWords ws i w h all)

get_or-lt : (ws : List ℕ) (i : ℕ) → IsWords ws → get_or ws i 0 < 2 ^ 32
get_or-lt [] i all = omega arith
get_or-lt (x ∷ ws) zero (hx, all) = hx
get_or-lt (x ∷ ws) (suc i) (hx, all) = get_or-lt ws i all

pub set_bit-IsWords : (b : BitMap) (n : ℕ) → IsWords b.map → IsWords (set_bit b n).map
set_bit-IsWords b n all =
    set-IsWords b.map (n / 32) (bit_or (word_at b n) (mask n))
      (bit_or-lt 32 (word_at b n) (mask n) (get_or-lt b.map (n / 32) all)
        (pow-lt 32 (n % 32) (omega arith)))
      all

pub clear_bit-IsWords : (b : BitMap) (n : ℕ) → IsWords b.map → IsWords (clear_bit b n).map
clear_bit-IsWords b n all =
    set-IsWords b.map (n / 32) _ (bit_and-lt 32 (word_at b n) _ (get_or-lt b.map (n / 32) all)) all

set-AreInts : (zs : List ℤ) (i : ℕ) (z : ℤ) → IsInt z → AreInts zs → AreInts (set zs i z)
set-AreInts [] i z h all = tt
set-AreInts (x ∷ zs) zero z h (hx, all) = (h, all)
set-AreInts (x ∷ zs) (suc i) z h (hx, all) = (hx, set-AreInts zs i z h all)

pub sector-IsInt : (n : ℕ) → n < 1024 → IsInt (pos n)
sector-IsInt n h = ground arith

-- A bit map, and the number of a sector, after Find.
pub record FindFits (b : BitMap) (r : ℤ × BitMap) : Type 0 where
  pub sector : IsInt r.0
  pub words : IsWords r.1.map
  pub bits : r.1.num_bits ≡ b.num_bits
  pub count : length r.1.map ≡ length b.map

pub find-FindFits :
    (b : BitMap) (r : ℤ × BitMap)
    → b.num_bits ≡ 1024
    → IsWords b.map
    → find b ≡ some r
    → FindFits b r
find-FindFits b r bits words found = elim (find-Finds b) [
  | inl (e, all) ↦
      subst (λ x. FindFits b x) (eq_of_some (minus_one, b) r (sym e ∙ found))
        (record { sector = refl; words = words; bits = refl; count = refl })
  | inr (n, e, first) ↦
      subst (λ x. FindFits b x) (eq_of_some (pos n, set_bit b n) r (sym e ∙ found))
        (record {
          sector = sector-IsInt n (omega (arith, first.below));
          words = set_bit-IsWords b n words;
          bits = refl;
          count = length-set b.map _ _;
        })
]

-- The bit map and the header after the loop of Allocate.
pub allocate_loop-Fits :
    (left i : ℕ) (header header' : FileHeader) (b b' : BitMap)
    → b.num_bits ≡ 1024
    → IsWords b.map
    → AreInts header.data_sectors
    → allocate_loop left i header b ≡ some (header', b')
    → IsWords b'.map × AreInts header'.data_sectors × (length b'.map ≡ length b.map)
unfolding allocate_loop
allocate_loop-Fits zero i header header' b b' bits words ints run =
    let same_header : header ≡ header' = cc in
    let same_map : b ≡ b' = cc in
    (
      subst (λ (x : BitMap). IsWords x.map) same_map words,
      subst (λ (x : FileHeader). AreInts x.data_sectors) same_header ints,
      ap (λ (x : BitMap). length x.map) (sym same_map),
    )
allocate_loop-Fits (suc left) i header header' b b' bits words ints run =
    let (r, found, next) = >>=-eq-some (find b) _ run in
    let f = find-FindFits b r bits words found in
    let (zs, stored, rest) = >>=-eq-some (store_at header.data_sectors i r.0) _ next in
    let sectors : set header.data_sectors i r.0 ≡ zs = ground (arith, stored) in
    let (w, a, c) =
      allocate_loop-Fits left (suc i) (record header { data_sectors = zs }) header' r.1 b'
        (f.bits ∙ bits) f.words
        (subst AreInts sectors (set-AreInts header.data_sectors i r.0 f.sector ints)) rest in
    (w, a, c ∙ f.count)

pub allocate-Fits :
    (header header' : FileHeader) (b b' : BitMap) (size : ℕ)
    → b.num_bits ≡ 1024
    → IsWords b.map
    → AreInts header.data_sectors
    → allocate header b size ≡ some (true, header', b')
    → IsWords b'.map × AreInts header'.data_sectors × (length b'.map ≡ length b.map)
unfolding allocate
allocate-Fits header header' b b' size bits words ints run =
    let needed : ℕ = div_round_up size 128 in
    let header1 : FileHeader = record header { num_bytes = size; num_sectors = needed } in
    let (free, counted, next) = >>=-eq-some (num_clear b) _ run in
    elim (Bool-cases (ltb free needed)) [
      | inl less ↦ let next' = rw less at next in absurd (ground (arith, next'))
      | inr enough ↦
          let next' = rw enough at next in
          let (r, ran, done) = >>=-eq-some (allocate_loop needed 0 header1 b) _ next' in
          let same : r ≡ (header', b') = ground (arith, done) in
          allocate_loop-Fits needed 0 header1 header' b b' bits words ints (ran ∙ ap some same)
    ]

clear_bit_of : (b b' : BitMap) (z : ℤ) → clear b z ≡ some b' → clear_bit b (index z) ≡ b'
unfolding clear
clear_bit_of b b' z run =
    let (u, inside, done) = >>=-eq-some (assert (in_range b z)) _ run in
    eq_of_some (clear_bit b (index z)) b' done

pub clear-Fits :
    (b b' : BitMap) (z : ℤ)
    → IsWords b.map
    → clear b z ≡ some b'
    → IsWords b'.map × (length b'.map ≡ length b.map)
clear-Fits b b' z words run =
    let same : clear_bit b (index z) ≡ b' = clear_bit_of b b' z run in
    (
      subst (λ (x : BitMap). IsWords x.map) same (clear_bit-IsWords b (index z) words),
      ap (λ (x : BitMap). length x.map) (sym same) ∙ length-set b.map _ _,
    )

deallocate_loop-Fits :
    (left i : ℕ) (header : FileHeader) (b b' : BitMap)
    → IsWords b.map
    → deallocate_loop left i header b ≡ some b'
    → IsWords b'.map × (length b'.map ≡ length b.map)
unfolding deallocate_loop
deallocate_loop-Fits zero i header b b' words run =
    let same : b ≡ b' = eq_of_some b b' run in
    (subst (λ (x : BitMap). IsWords x.map) same words, ap (λ (x : BitMap). length x.map) (sym same))
deallocate_loop-Fits (suc left) i header b b' words run =
    let (z, at, run1) = >>=-eq-some (get_elem? header.data_sectors i) _ run in
    let (taken, tested, run2) = >>=-eq-some (test b z) _ run1 in
    let (u, asserted, run3) = >>=-eq-some (assert taken) _ run2 in
    let (b1, cleared, run4) = >>=-eq-some (clear b z) _ run3 in
    let (words1, count1) = clear-Fits b b1 z words cleared in
    let (words2, count2) = deallocate_loop-Fits left (suc i) header b1 b' words1 run4 in
    (words2, count2 ∙ count1)

pub deallocate-Fits :
    (header : FileHeader) (b b' : BitMap)
    → IsWords b.map
    → deallocate header b ≡ some b'
    → IsWords b'.map × (length b'.map ≡ length b.map)
unfolding deallocate
deallocate-Fits header b b' words run =
    deallocate_loop-Fits header.num_sectors 0 header b b' words run
