-- ===== src/Cpu/Examples.antt =====
-- Single instructions on a machine with one page, and the laws where their hypotheses hold.
use nach_operator_system.Prelude.{
  ℕ, ◌-◌, ◌*◌, ◌/◌, ◌%◌, ◌^◌, ◌≤◌, ◌<◌, ◌≡◌, ◌≢◌, refl, ◌⊎◌, bit_or, true, false, some, none, List,
  [], ◌∷◌, ◌+ℤ◌, to_int, wrap_add, arith,
}
use nach_operator_system.Machine.{
  Machine, Handler, TranslationEntry, MachineStatus, overflow_exception,
}
use nach_operator_system.Machine.Memory.{read_mem}
use nach_operator_system.Machine.Translate.{translate}
use nach_operator_system.Prelude.Bits.{bit}
use nach_operator_system.Cpu.{Instruction, op_addu, op_or, op_srl, decode}
use nach_operator_system.Cpu.Mult.{mult}
use nach_operator_system.Cpu.Mult.Loop.{amount}
use nach_operator_system.Cpu.Mult.Laws.{sign_extend, mult-signed}
use nach_operator_system.Cpu.Execute.{done, put, trap, add, set_reg}
use nach_operator_system.Cpu.Execute.Dispatch.{execute}
use nach_operator_system.Cpu.Execute.Overflow.{in_int_range, add_int-outcome}
use nach_operator_system.Cpu.Execute.Defects.{or_ignores_rt, srl_keeps_sign}
use nach_operator_system.Cpu.Step.{one_instruction}
use nach_operator_system.Cpu.Step.Loads.{IsReady}
use nach_operator_system.Cpu.Step.Advance.{Completed, one_instruction-Completed}

abbrev page : TranslationEntry
page = record {
  virtual_page = 0;
  physical_page = 0;
  valid = true;
  read_only = false;
  used = false;
  dirty = false;
}

-- r1 = 5, r2 = 0x8000_0007; a load of 9 into r4 is pending. The word at address 0 is
-- `ADDU r3, r1, r2`.
abbrev registers : List ℕ
registers =
    0 ∷ 5 ∷ 0x8000_0007 ∷ 0 ∷ 0 ∷ 0 ∷ 0 ∷ 0 ∷ 0 ∷ 0 ∷ 0 ∷ 0 ∷ 0 ∷ 0 ∷ 0 ∷ 0 ∷ 0 ∷ 0 ∷ 0 ∷ 0 ∷ 0 ∷ 0
    ∷ 0 ∷ 0 ∷ 0 ∷ 0 ∷ 0 ∷ 0 ∷ 0 ∷ 0 ∷ 0 ∷ 0 ∷ 0 ∷ 0 ∷ 0 ∷ 4 ∷ 0 ∷ 4 ∷ 9 ∷ 0 ∷ []

abbrev cpu : Machine
cpu = record {
  main_memory = 0x21 ∷ 0x18 ∷ 0x22 ∷ 0x00 ∷ [];
  registers = registers;
  tlb = none;
  page_table = some (page ∷ []);
  page_table_size = 1;
  status = MachineStatus.user_mode;
}

abbrev kernel : Handler
kernel which m = some m

abbrev word : ℕ
word = 0x0022_1821

abbrev addu : Instruction
addu = record { value = word; op_code = op_addu; rs = 1; rt = 2; rd = 3; extra = 0 }

-- The fetch marks the page as used.
abbrev after_fetch : Machine
after_fetch = record cpu { page_table = some (record page { used = true } ∷ []) }

abbrev after_add : Machine
after_add = set_reg 3 0x8000_000c after_fetch

fetched : read_mem kernel 0 4 cpu ≡ some (some word, after_fetch)
unfolding read_mem translate
fetched = refl

decode-word : decode word ≡ some addu
unfolding decode
decode-word = refl

executed : execute kernel op_addu addu after_fetch ≡ some (done after_add 8 0 0)
unfolding execute
executed = refl

cpu-IsReady : IsReady cpu
cpu-IsReady = record { size = refl; pending = omega arith }

one_instruction-Completed_example :
    (out : Machine) × (one_instruction kernel cpu ≡ some out) × Completed cpu after_add 8 0 0 out
one_instruction-Completed_example =
    one_instruction-Completed kernel cpu after_fetch after_add word 8 0 0 addu cpu-IsReady fetched
      decode-word executed

mult-signed_example :
    amount (mult 0xffff_ffff 7 true) ≡ sign_extend 0xffff_ffff * sign_extend 7 % 2 ^ 64
mult-signed_example = mult-signed 0xffff_ffff 7 (omega arith) (omega arith)

-- -1 by 7 is -7.
mult_negative : amount (mult 0xffff_ffff 7 true) ≡ 2 ^ 64 - 7
unfolding mult
mult_negative = refl

add_int-outcome_example :
    ((in_int_range (to_int 0x7fff_ffff +ℤ to_int 1) ≡ true)
      × (add addu cpu kernel 3 0x7fff_ffff 1 0x7fff_ffff ≡ put addu cpu 3 (wrap_add 0x7fff_ffff 1))
      × (add addu cpu kernel 3 0x7fff_ffff 1 1 ≡ put addu cpu 3 (wrap_add 0x7fff_ffff 1))
      × (to_int (wrap_add 0x7fff_ffff 1) ≡ to_int 0x7fff_ffff +ℤ to_int 1))
    ⊎ ((in_int_range (to_int 0x7fff_ffff +ℤ to_int 1) ≡ false)
        × (add addu cpu kernel 3 0x7fff_ffff 1 0x7fff_ffff
            ≡ trap addu cpu kernel overflow_exception 0)
        × (add addu cpu kernel 3 0x7fff_ffff 1 1 ≡ trap addu cpu kernel overflow_exception 0))
add_int-outcome_example =
    add_int-outcome addu cpu kernel 3 0x7fff_ffff 1 (omega arith) (omega arith)

or_ignores_rt_example :
    (execute kernel op_or addu cpu ≡ put addu cpu 3 5) × (◌≢◌ {A = ℕ} 5 (bit_or 5 0x8000_0007))
unfolding bit
or_ignores_rt_example = or_ignores_rt kernel addu cpu 1 refl refl

abbrev srl : Instruction
srl = record addu { extra = 4 }

srl_keeps_sign_example :
    (v : ℕ) × (execute kernel op_srl srl cpu ≡ put srl cpu 3 v)
    × (2 ^ 31 ≤ v)
    × (0x8000_0007 / 2 ^ 4 < 2 ^ 31)
srl_keeps_sign_example = srl_keeps_sign kernel srl cpu 3 refl (omega arith) (omega arith)
