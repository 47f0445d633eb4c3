-- ===== src/Cpu/Execute/Overflow.antt =====
-- ADD, ADDI and SUB of machine/mipssim.cc: the tests on the sign bits find the overflows.
use nach_operator_system.Prelude.{
  ℕ, ◌-◌, ◌^◌, ◌<◌, ◌≡◌, refl, bit_and, bit_xor, Bool, true, false, not, ◌&&◌, ◌⊎◌, inl, inr, ℤ,
  pos, negsuc, ◌+ℤ◌, ◌-ℤ◌, ltb, ltb_ℤ, leb_ℤ, ◌==◌, if◌then◌else◌, Bool-cases, arith, to_int,
  word_mod, wrap_add, wrap_sub, is_negative,
}
use nach_operator_system.Prelude.Bits
use nach_operator_system.Prelude.Bits.{bit-bit_xor, bit_and-pow-eq-zero, bit-sign}
use nach_operator_system.Machine.{Machine, Handler, overflow_exception}
use nach_operator_system.Cpu.{Instruction}
use nach_operator_system.Cpu.Execute.{put, trap, add, sub}

is_negative-sign : (w : ℕ) → w < word_mod → is_negative w ≡ not (ltb w (2 ^ 31))
is_negative-sign w h =
    let sign : (bit_and w 0x8000_0000 == 0) ≡ (Bits.bit 31 w == 0) = bit_and-pow-eq-zero w 31 in
    rw (sign, bit-sign w h) (ground arith)

-- The signs of two words differ.
is_negative-bit_xor :
    (a b : ℕ)
    → a < word_mod
    → b < word_mod
    → is_negative (bit_xor a b) ≡ (if ltb a (2 ^ 31) then not (ltb b (2 ^ 31)) else ltb b (2 ^ 31))
is_negative-bit_xor a b ha hb =
    let sign : (bit_and (bit_xor a b) 0x8000_0000 == 0) ≡ (Bits.bit 31 (bit_xor a b) == 0) =
      bit_and-pow-eq-zero (bit_xor a b) 31 in
    rw (sign, bit-bit_xor 31 a b, bit-sign a ha, bit-sign b hb) (ground arith)

-- The values of a C `int`.
abbrev pub in_int_range : ℤ → Bool
in_int_range z = leb_ℤ (negsuc (2 ^ 31 - 1)) z && ltb_ℤ z (pos (2 ^ 31))

add_test :
    (a b : ℕ)
    → a < word_mod
    → b < word_mod
    → (not (is_negative (bit_xor a b)) && is_negative (bit_xor a (wrap_add a b)))
      ≡ not (in_int_range (to_int a +ℤ to_int b))
add_test a b ha hb =
    rw (is_negative-bit_xor a b ha hb, is_negative-bit_xor a (wrap_add a b) ha (omega arith))
      (ground arith)

addi_test :
    (a b : ℕ)
    → a < word_mod
    → b < word_mod
    → (not (is_negative (bit_xor a b)) && is_negative (bit_xor b (wrap_add a b)))
      ≡ not (in_int_range (to_int a +ℤ to_int b))
addi_test a b ha hb =
    rw (is_negative-bit_xor a b ha hb, is_negative-bit_xor b (wrap_add a b) hb (omega arith))
      (ground arith)

sub_test :
    (a b : ℕ)
    → a < word_mod
    → b < word_mod
    → (is_negative (bit_xor a b) && is_negative (bit_xor a (wrap_sub a b)))
      ≡ not (in_int_range (to_int a -ℤ to_int b))
sub_test a b ha hb =
    rw (is_negative-bit_xor a b ha hb, is_negative-bit_xor a (wrap_sub a b) ha (omega arith))
      (ground arith)

add-exact :
    (a b : ℕ)
    → a < word_mod
    → b < word_mod
    → in_int_range (to_int a +ℤ to_int b) ≡ true
    → to_int (wrap_add a b) ≡ to_int a +ℤ to_int b
add-exact a b ha hb e = ground arith

sub-exact :
    (a b : ℕ)
    → a < word_mod
    → b < word_mod
    → in_int_range (to_int a -ℤ to_int b) ≡ true
    → to_int (wrap_sub a b) ≡ to_int a -ℤ to_int b
sub-exact a b ha hb e = ground arith

module _ (i : Instruction) (m : Machine) (h : Handler) where
  -- For two words: ADD and ADDI write the sum of the two signed numbers where it is an `int`, and
  -- raise an overflow exception, on the machine as it was, where it is not.
  pub add_int-outcome :
      (target a b : ℕ)
      → a < word_mod
      → b < word_mod
      → ((in_int_range (to_int a +ℤ to_int b) ≡ true)
          × (add i m h target a b a ≡ put i m target (wrap_add a b))
          × (add i m h target a b b ≡ put i m target (wrap_add a b))
          × (to_int (wrap_add a b) ≡ to_int a +ℤ to_int b))
        ⊎ ((in_int_range (to_int a +ℤ to_int b) ≡ false)
            × (add i m h target a b a ≡ trap i m h overflow_exception 0)
            × (add i m h target a b b ≡ trap i m h overflow_exception 0))
  unfolding add
  add_int-outcome target a b ha hb = elim (Bool-cases (in_int_range (to_int a +ℤ to_int b))) [
    | inl e ↦ inl (
      e,
      rw (add_test a b ha hb, e) refl,
      rw (addi_test a b ha hb, e) refl,
      add-exact a b ha hb e,
    )
    | inr e ↦ inr (e, rw (add_test a b ha hb, e) refl, rw (addi_test a b ha hb, e) refl)
  ]

  -- For two words: SUB writes the difference of the two signed numbers where it is an `int`, and
  -- raises an overflow exception, on the machine as it was, where it is not.
  pub sub_int-outcome :
      (target a b : ℕ)
      → a < word_mod
      → b < word_mod
      → ((in_int_range (to_int a -ℤ to_int b) ≡ true)
          × (sub i m h target a b ≡ put i m target (wrap_sub a b))
          × (to_int (wrap_sub a b) ≡ to_int a -ℤ to_int b))
        ⊎ ((in_int_range (to_int a -ℤ to_int b) ≡ false)
            × (sub i m h target a b ≡ trap i m h overflow_exception 0))
  unfolding sub
  sub_int-outcome target a b ha hb = elim (Bool-cases (in_int_range (to_int a -ℤ to_int b))) [
    | inl e ↦ inl (e, rw (sub_test a b ha hb, e) refl, sub-exact a b ha hb e)
    | inr e ↦ inr (e, rw (sub_test a b ha hb, e) refl)
  ]
