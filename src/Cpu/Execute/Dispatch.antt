-- ===== src/Cpu/Execute/Dispatch.antt =====
-- The cases of the switch of Machine::OneInstruction in machine/mipssim.cc, one clause each, in
-- the order of the source. `op_rfe` has no case there: the default is ASSERT(FALSE).
use nach_operator_system.Prelude.{
  ◌-◌, bit_and, bit_or, bit_xor, true, false, not, Option, none, ◌==◌, if◌then◌else◌, ltb, ltb_ℤ,
  leb_ℤ, pos, to_int, word_mod, wrap_add, wrap_sub, shift_left, shift_right, is_negative,
}
use nach_operator_system.Machine.{
  Machine, hi_reg, lo_reg, Handler, syscall_exception, illegal_instr_exception,
}
use nach_operator_system.Cpu.{
  Instruction, Op, op_add, op_addi, op_addiu, op_addu, op_and, op_andi, op_beq, op_bgez, op_bgezal,
  op_bgtz, op_blez, op_bltz, op_bltzal, op_bne, op_div, op_divu, op_j, op_jal, op_jalr, op_jr,
  op_lb, op_lbu, op_lh, op_lhu, op_lui, op_lw, op_lwl, op_lwr, op_mfhi, op_mflo, op_mthi, op_mtlo,
  op_mult, op_multu, op_nor, op_or, op_ori, op_rfe, op_sb, op_sh, op_sll, op_sllv, op_slt, op_slti,
  op_sltiu, op_sltu, op_sra, op_srav, op_srl, op_srlv, op_sub, op_subu, op_sw, op_swl, op_swr,
  op_xor, op_xori, op_syscall, op_unimp, op_res, op_special, op_bcond,
}
use nach_operator_system.Cpu.Execute.{
  Outcome, reg, set_reg, signed_lt, rs_value, rt_value, put, trap, branch, jump, linked, link,
  jump_target, add, sub, div, divu, multiply, load_byte, load_half, load_word, load_word_left,
  load_word_right, store_value, store_part,
}

unfoldable pub execute : Handler → Op → Instruction → Machine → Option Outcome
unfolding add sub div divu multiply load_byte load_half load_word load_word_left load_word_right
    store_value store_part
execute h op_add i m = add i m h i.rd (rs_value i m) (rt_value i m) (rs_value i m)
execute h op_addi i m = add i m h i.rt (rs_value i m) i.extra i.extra
execute h op_addiu i m = put i m i.rt (wrap_add (rs_value i m) i.extra)
execute h op_addu i m = put i m i.rd (wrap_add (rs_value i m) (rt_value i m))
execute h op_and i m = put i m i.rd (bit_and (rs_value i m) (rt_value i m))
execute h op_andi i m = put i m i.rt (bit_and (rs_value i m) (bit_and i.extra 0xffff))
execute h op_beq i m = branch i m (rs_value i m == rt_value i m) m
execute h op_bgezal i m = branch i m (not (is_negative (rs_value i (linked i m)))) (linked i m)
execute h op_bgez i m = branch i m (not (is_negative (rs_value i m))) m
execute h op_bgtz i m = branch i m (ltb_ℤ (pos 0) (to_int (rs_value i m))) m
execute h op_blez i m = branch i m (leb_ℤ (to_int (rs_value i m)) (pos 0)) m
execute h op_bltzal i m = branch i m (is_negative (rs_value i (linked i m))) (linked i m)
execute h op_bltz i m = branch i m (is_negative (rs_value i m)) m
execute h op_bne i m = branch i m (not (rs_value i m == rt_value i m)) m
execute h op_div i m = div i m (rs_value i m) (rt_value i m)
execute h op_divu i m = divu i m (rs_value i m) (rt_value i m)
execute h op_jal i m = jump i m (jump_target i m) (linked i m)
execute h op_j i m = jump i m (jump_target i m) m
execute h op_jalr i m = let m' = set_reg i.rd (link i m) m in jump i m (reg m' i.rs) m'
execute h op_jr i m = jump i m (rs_value i m) m
execute h op_lb i m = load_byte i m h true
execute h op_lbu i m = load_byte i m h false
execute h op_lh i m = load_half i m h true
execute h op_lhu i m = load_half i m h false
execute h op_lui i m = put i m i.rt (shift_left i.extra 16)
execute h op_lw i m = load_word i m h
execute h op_lwl i m = load_word_left i m h
execute h op_lwr i m = load_word_right i m h
execute h op_mfhi i m = put i m i.rd (reg m hi_reg)
execute h op_mflo i m = put i m i.rd (reg m lo_reg)
execute h op_mthi i m = put i m hi_reg (rs_value i m)
execute h op_mtlo i m = put i m lo_reg (rs_value i m)
execute h op_mult i m = multiply i m true (rs_value i m) (rt_value i m)
execute h op_multu i m = multiply i m false (rs_value i m) (rt_value i m)
execute h op_nor i m = put i m i.rd (word_mod - 1 - bit_or (rs_value i m) (rt_value i m))
execute h op_or i m = put i m i.rd (bit_or (rs_value i m) (rs_value i m))
execute h op_ori i m = put i m i.rt (bit_or (rs_value i m) (bit_and i.extra 0xffff))
execute h op_sb i m = store_value i m h 1
execute h op_sh i m = store_value i m h 2
execute h op_sll i m = put i m i.rd (shift_left (rt_value i m) i.extra)
execute h op_sllv i m = put i m i.rd (shift_left (rt_value i m) (bit_and (rs_value i m) 0x1f))
execute h op_slt i m = put i m i.rd (if signed_lt (rs_value i m) (rt_value i m) then 1 else 0)
execute h op_slti i m = put i m i.rt (if signed_lt (rs_value i m) i.extra then 1 else 0)
execute h op_sltiu i m = put i m i.rt (if ltb (rs_value i m) i.extra then 1 else 0)
execute h op_sltu i m = put i m i.rd (if ltb (rs_value i m) (rt_value i m) then 1 else 0)
execute h op_sra i m = put i m i.rd (shift_right (rt_value i m) i.extra)
execute h op_srav i m = put i m i.rd (shift_right (rt_value i m) (bit_and (rs_value i m) 0x1f))
execute h op_srl i m = let tmp = rt_value i m in put i m i.rd (shift_right tmp i.extra)
execute h op_srlv i m =
    let tmp = rt_value i m in put i m i.rd (shift_right tmp (bit_and (rs_value i m) 0x1f))
execute h op_sub i m = sub i m h i.rd (rs_value i m) (rt_value i m)
execute h op_subu i m = put i m i.rd (wrap_sub (rs_value i m) (rt_value i m))
execute h op_sw i m = store_value i m h 4
execute h op_swl i m = store_part i m h (λ v. rt_value i m)
execute h op_swr i m =
    store_part i m h (λ v. bit_or (bit_and v 0xff_ffff) (shift_left (rt_value i m) 24))
execute h op_syscall i m = trap i m h syscall_exception 0
execute h op_xor i m = put i m i.rd (bit_xor (rs_value i m) (rt_value i m))
execute h op_xori i m = put i m i.rt (bit_xor (rs_value i m) (bit_and i.extra 0xffff))
execute h op_res i m = trap i m h illegal_instr_exception 0
execute h op_unimp i m = trap i m h illegal_instr_exception 0
execute h op_rfe i m = none
execute h op_special i m = none
execute h op_bcond i m = none
