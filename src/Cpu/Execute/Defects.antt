-- ===== src/Cpu/Execute/Defects.antt =====
-- Two cases of the switch of Machine::OneInstruction that are not the MIPS instructions.
use nach_operator_system.Prelude.{
  ℕ, suc, ◌-◌, ◌*◌, ◌/◌, ◌^◌, ◌≤◌, ◌<◌, ◌≡◌, ◌≢◌, refl, ap, bit_or, arith, word_mod, shift_right,
}
use nach_operator_system.Prelude.Bits
use nach_operator_system.Prelude.Bits.{bit-bit_or}
use nach_operator_system.Prelude.Bits.Sums.{bit_or_self}
use native.Mathlib.Nat.{mul-le-mul_left, div-mul-le_self, pow-succ', one-le-pow}
use nach_operator_system.Machine.{Machine, Handler}
use nach_operator_system.Cpu.{Instruction, op_or, op_srl}
use nach_operator_system.Cpu.Execute.{rs_value, rt_value, put}
use nach_operator_system.Cpu.Execute.Dispatch.{execute}

-- OR writes the first operand: it combines that operand with itself. So the result is not the OR
-- of the two registers wherever the second one has a bit that the first one lacks.
pub or_ignores_rt :
    (h : Handler) (i : Instruction) (m : Machine) (j : ℕ)
    → Bits.bit j (rs_value i m) ≡ 0
    → Bits.bit j (rt_value i m) ≡ 1
    → (execute h op_or i m ≡ put i m i.rd (rs_value i m))
      × (rs_value i m ≢ bit_or (rs_value i m) (rt_value i m))
unfolding execute
or_ignores_rt h i m j low high = (
  ap (put i m i.rd) (bit_or_self (rs_value i m)),
  λ e. absurd (omega (arith, bit-bit_or j (rs_value i m) (rt_value i m), ap (Bits.bit j) e)),
)

half-bound : (a k : ℕ) → a / 2 ^ suc k * 2 ≤ a
half-bound a k =
    let q = a / 2 ^ suc k in
    let big : 2 ≤ 2 ^ suc k = omega (arith, pow-succ' 2 k, one-le-pow k 2) in
    let under = mul-le-mul_left q big in omega (arith, div-mul-le_self a (2 ^ suc k))

quotient-le : (a k : ℕ) → a / 2 ^ k ≤ a
quotient-le a k =
    let big : 1 ≤ 2 ^ k = omega (arith, one-le-pow k 2) in
    let under = mul-le-mul_left (a / 2 ^ k) big in omega (arith, div-mul-le_self a (2 ^ k))

-- SRL shifts the sign in, as SRA does: for a register with its top bit set and a shift of at
-- least one place, the result has its top bit set, where that of a logical shift is clear.
pub srl_keeps_sign :
    (h : Handler) (i : Instruction) (m : Machine) (k : ℕ)
    → i.extra ≡ suc k
    → 2 ^ 31 ≤ rt_value i m
    → rt_value i m < word_mod
    → (v : ℕ) × (execute h op_srl i m ≡ put i m i.rd v)
      × (2 ^ 31 ≤ v)
      × (rt_value i m / 2 ^ suc k < 2 ^ 31)
unfolding execute
srl_keeps_sign h i m k e high fits =
    let a = rt_value i m in
    (
      shift_right a i.extra,
      refl,
      ground (arith, quotient-le (word_mod - 1 - a) i.extra),
      omega (arith, half-bound a k),
    )
