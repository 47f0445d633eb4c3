-- ===== src/Cpu/Execute.antt =====
-- The switch of Machine::OneInstruction in machine/mipssim.cc: the effect of one instruction.
-- An index of the register file is a 5-bit field of the instruction or the number of a special
-- register, so it is within the 40 registers. A signed result that overflows wraps around.
pub mod Dispatch
pub mod Defects
pub mod Overflow
pub mod Frame
pub mod Effects
use nach_operator_system.Prelude.{
  ℕ, ◌+◌, ◌-◌, ◌*◌, ◌/◌, ◌%◌, ◌^◌, bit_and, bit_or, bit_xor, Bool, true, false, not, ◌&&◌, Option,
  some, none, ℤ, pos, ltb, ltb_ℤ, leb_ℤ, ◌==◌, if◌then◌else◌, get_or, set, assert, ◌>>=◌, ◌>>◌,
  to_int, word_mod, wrap_add, wrap_sub, wrap_neg, shift_left, shift_right, is_negative,
}
use nach_operator_system.Machine.{
  Machine, ExceptionType, address_error_exception, overflow_exception, syscall_exception,
  illegal_instr_exception, hi_reg, lo_reg, next_pc_reg, ret_addr_reg, load_reg, load_value_reg,
  Handler, raise_exception,
}
use nach_operator_system.Machine.Memory.{read_mem, write_mem}
use nach_operator_system.Cpu.{Instruction}
use nach_operator_system.Cpu.Mult.{mult, below_zero, magnitude, opposite}

-- An instruction returns early, after an exception, or goes on to the end of OneInstruction with
-- `pcAfter`, `nextLoadReg` and `nextLoadValue`.
pub data Outcome : Type 0 where
  trapped : Machine → Outcome
  done : Machine → (pc_after next_load_reg next_load_value : ℕ) → Outcome

abbrev pub reg : Machine → ℕ → ℕ
reg m r = get_or m.registers r 0

abbrev pub set_reg : ℕ → ℕ → Machine → Machine
set_reg r v m = record m { registers = set m.registers r v }

abbrev pub signed_lt : ℕ → ℕ → Bool
signed_lt a b = ltb_ℤ (to_int a) (to_int b)

-- `a / b` and `a % b` of `int`s, rounded towards zero.
abbrev pub quotient : ℕ → ℕ → ℕ
quotient a b = let q = magnitude true a / magnitude true b in if opposite a b then wrap_neg q else q

abbrev pub remainder : ℕ → ℕ → ℕ
remainder a b =
    let r = magnitude true a % magnitude true b in if below_zero a then wrap_neg r else r

-- `IndexToAddr`.
abbrev pub index_to_addr : ℕ → ℕ
index_to_addr x = shift_left x 2

module _ (instr : Instruction) (m : Machine) where
  abbrev pub rs_value : ℕ
  rs_value = reg m instr.rs

  abbrev pub rt_value : ℕ
  rt_value = reg m instr.rt

  abbrev pub link : ℕ
  link = wrap_add (reg m next_pc_reg) 4

  -- `break` with one register written.
  abbrev pub put : ℕ → ℕ → Option Outcome
  put r v = some (done (set_reg r v m) link 0 0)

  abbrev pub put_hi_lo : ℕ → ℕ → Option Outcome
  put_hi_lo hi lo = some (done (set_reg hi_reg hi (set_reg lo_reg lo m)) link 0 0)

  -- A branch: `state` is the machine with the link written, where the instruction links.
  abbrev pub branch : Bool → Machine → Option Outcome
  branch taken state = some (
      done state (if taken then wrap_add (reg m next_pc_reg) (index_to_addr instr.extra) else link)
        0 0)

  abbrev pub jump : ℕ → Machine → Option Outcome
  jump target state = some (done state target 0 0)

  abbrev pub linked : Machine
  linked = set_reg ret_addr_reg link m

  abbrev pub jump_target : ℕ
  jump_target = bit_or (bit_and link 0xf000_0000) (index_to_addr instr.extra)

  -- The signed division has no value at INT_MIN / -1.
  pub div : ℕ → ℕ → Option Outcome
  div a b =
      if b == 0
      then put_hi_lo 0 0
      else (assert (not ((a == 0x8000_0000) && (b == 0xffff_ffff)))
          >> put_hi_lo (remainder a b) (quotient a b))

  pub divu : ℕ → ℕ → Option Outcome
  divu a b = if b == 0 then put_hi_lo 0 0 else put_hi_lo (a % b) (a / b)

  pub multiply : Bool → ℕ → ℕ → Option Outcome
  multiply signed a b = let p = mult a b signed in put_hi_lo p.hi p.lo

  abbrev pub address : ℕ
  address = wrap_add rs_value instr.extra

  -- What follows a ReadMem, and a WriteMem.
  abbrev pub after_read : (ℕ → Machine → Option Outcome) → Option ℕ × Machine → Option Outcome
  after_read next (none, m') = some (trapped m')
  after_read next (some v, m') = next v m'

  abbrev pub after_write : Bool × Machine → Option Outcome
  after_write (true, m') = some (done m' link 0 0)
  after_write (false, m') = some (trapped m')

  abbrev pub load_into : ℕ → Machine → Option Outcome
  load_into v m' = some (done m' link instr.rt v)

  module _ (handler : Handler) where
    abbrev pub trap : ExceptionType → ℕ → Option Outcome
    trap which bad_vaddr = raise_exception handler which bad_vaddr m >>= λ m'. some (trapped m')

    -- ADD looks at the sign of the first operand for an overflow, ADDI at that of the second.
    pub add : ℕ → ℕ → ℕ → ℕ → Option Outcome
    add target a b tested =
        let sum = wrap_add a b in
        if not (is_negative (bit_xor a b)) && is_negative (bit_xor tested sum)
        then trap overflow_exception 0
        else put target sum

    pub sub : ℕ → ℕ → ℕ → Option Outcome
    sub target a b =
        let diff = wrap_sub a b in
        if is_negative (bit_xor a b) && is_negative (bit_xor a diff)
        then trap overflow_exception 0
        else put target diff

    pub load_byte : Bool → Option Outcome
    load_byte signed =
        read_mem handler address 1 m
        >>= after_read (λ v.
          load_into
            (if not (bit_and v 0x80 == 0) && signed then bit_or v 0xffff_ff00 else bit_and v 0xff))

    pub load_half : Bool → Option Outcome
    load_half signed =
        if not (bit_and address 0x1 == 0)
        then trap address_error_exception address
        else (read_mem handler address 2 m
            >>= after_read (λ v. load_into (
                if not (bit_and v 0x8000 == 0) && signed
                then bit_or v 0xffff_0000
                else bit_and v 0xffff)))

    pub load_word : Option Outcome
    load_word =
        if not (bit_and address 0x3 == 0)
        then trap address_error_exception address
        else (read_mem handler address 4 m >>= after_read load_into)

    -- LWL with `tmp & 3` zero, as its ASSERT has it: `case 0` of the inner switch.
    pub load_word_left : Option Outcome
    load_word_left =
        assert (bit_and address 0x3 == 0) >> (read_mem handler address 4 m >>= after_read load_into)

    -- LWR, likewise: `case 0` keeps all but the lowest byte. `kept` is the value of the register,
    -- with a load that is still on its way to it.
    pub load_word_right : Option Outcome
    load_word_right =
        assert (bit_and address 0x3 == 0)
        >> (read_mem handler address 4 m
            >>= after_read (λ v m'.
              let kept =
                if reg m' load_reg == instr.rt then reg m' load_value_reg else reg m' instr.rt in
              load_into (bit_or (bit_and kept 0xffff_ff00) (bit_and (shift_right v 24) 0xff)) m'))

    pub store_value : ℕ → Option Outcome
    store_value size = write_mem handler address size rt_value m >>= after_write

    -- SWL and SWR, with `tmp & 3` zero: `case 0`.
    pub store_part : (ℕ → ℕ) → Option Outcome
    store_part merge =
        let aligned = bit_and address 0xffff_fffc in
        assert (bit_and address 0x3 == 0)
        >> (read_mem handler aligned 4 m
            >>= after_read (λ v m'. write_mem handler aligned 4 (merge v) m' >>= after_write))
