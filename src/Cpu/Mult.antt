-- ===== src/Cpu/Mult.antt =====
-- `Mult` of machine/mipssim.cc: the double-length product by shifting and adding.
pub mod Loop
pub mod Laws
use nach_operator_system.Prelude.{
  ℕ, zero, suc, ◌+◌, ◌-◌, ◌*◌, ◌%◌, ◌^◌, bit_and, bit_or, Bool, true, false, not, ◌&&◌, ◌||◌, ◌==◌,
  ltb, if◌then◌else◌, word_mod, wrap_add, wrap_neg, shift_left, shift_right, is_negative,
}

-- The words `hi` and `lo`.
pub record Product : Type 0 where
  pub hi : ℕ
  pub lo : ℕ

-- `lo += bLo`, with the carry and bHi into `hi`.
abbrev pub add_shifted : ℕ → ℕ → Product → Product
add_shifted b_lo b_hi p =
    let lo = wrap_add p.lo b_lo in
    let carried = if ltb lo b_lo then wrap_add p.hi 1 else p.hi in
    record { hi = wrap_add carried b_hi; lo = lo }

-- `bHi <<= 1`, with the top bit of bLo.
abbrev pub shift_high : ℕ → ℕ → ℕ
shift_high b_lo b_hi =
    let doubled = shift_left b_hi 1 in if is_negative b_lo then bit_or doubled 1 else doubled

-- The main loop with `left` rounds to go.
pub mult_loop : ℕ → ℕ → ℕ → ℕ → Product → Product
mult_loop zero a b_lo b_hi p = p
mult_loop (suc left) a b_lo b_hi p =
    let odd = not (bit_and a 1 == 0) in
    let next = if odd then add_shifted b_lo b_hi p else p in
    let rest = mult_loop left (shift_right a 1) (shift_left b_lo 1) (shift_high b_lo b_hi) next in
    if odd && (bit_and a 0xffff_fffe == 0) then next else rest

-- The two's complement of the double word.
abbrev pub complement : Product → Product
complement p =
    let hi = word_mod - 1 - p.hi in
    let lo = wrap_add (word_mod - 1 - p.lo) 1 in
    record { hi = if lo == 0 then wrap_add hi 1 else hi; lo = lo }

-- `a < 0` for the pattern of an `int`.
abbrev pub below_zero : ℕ → Bool
below_zero a = not (ltb a (2 ^ 31))

abbrev pub magnitude : Bool → ℕ → ℕ
magnitude signed a = if signed && below_zero a then wrap_neg a else a

abbrev pub opposite : ℕ → ℕ → Bool
opposite a b = if below_zero a then not (below_zero b) else below_zero b

unfoldable pub mult : ℕ → ℕ → Bool → Product
unfolding mult_loop
mult a b signed_arith =
    if (a == 0) || (b == 0)
    then record { hi = 0; lo = 0 }
    else (let p =
          mult_loop 32 (magnitude signed_arith a) (magnitude signed_arith b) 0
            (record { hi = 0; lo = 0 }) in
        if signed_arith && opposite a b then complement p else p)
