-- ===== src/Cpu/Execute/Effects.antt =====
-- Every case of the switch of Machine::OneInstruction, by what it leaves alone.
use nach_operator_system.Prelude.{ℕ, ◌<◌, ◌≡◌, refl, Bool, arith, wrap_add, wrap_sub}
use nach_operator_system.Machine.{
  Machine, Handler, hi_reg, lo_reg, ret_addr_reg, overflow_exception,
}
use nach_operator_system.Cpu.{
  Instruction, Op, op_add, op_addi, op_addiu, op_addu, op_and, op_andi, op_beq, op_bgez, op_bgezal,
  op_bgtz, op_blez, op_bltz, op_bltzal, op_bne, op_div, op_divu, op_j, op_jal, op_jalr, op_jr,
  op_lb, op_lbu, op_lh, op_lhu, op_lui, op_lw, op_lwl, op_lwr, op_mfhi, op_mflo, op_mthi, op_mtlo,
  op_mult, op_multu, op_nor, op_or, op_ori, op_rfe, op_sb, op_sh, op_sll, op_sllv, op_slt, op_slti,
  op_sltiu, op_sltu, op_sra, op_srav, op_srl, op_srlv, op_sub, op_subu, op_sw, op_swl, op_swr,
  op_xor, op_xori, op_syscall, op_unimp, op_res, op_special, op_bcond,
}
use nach_operator_system.Cpu.Execute.{
  rs_value, rt_value, add, sub, div, divu, multiply, load_byte, load_half, load_word,
  load_word_left, load_word_right, store_value, store_part, link, linked, load_into,
}
use nach_operator_system.Cpu.Execute.Dispatch.{execute}
use nach_operator_system.Cpu.Execute.Frame.{
  Kept, Kept-refl, Kept-set_reg, Fine, stops, ends, Fine-if, Fine-assert, Fine-trap, Fine-put,
  Fine-put_hi_lo, Fine-after_read, Fine-after_write,
}

module _ (i : Instruction) (m : Machine) (h : Handler) where
  add-Fine : (target a b tested : ℕ) → target < 34 → Fine m (add i m h target a b tested)
  unfolding add
  add-Fine target a b tested fits =
      Fine-if m _ _ _ (Fine-trap i m h overflow_exception 0)
        (Fine-put i m target (wrap_add a b) fits)

  sub-Fine : (target a b : ℕ) → target < 34 → Fine m (sub i m h target a b)
  unfolding sub
  sub-Fine target a b fits =
      Fine-if m _ _ _ (Fine-trap i m h overflow_exception 0)
        (Fine-put i m target (wrap_sub a b) fits)

  div-Fine : (a b : ℕ) → Fine m (div i m a b)
  unfolding div
  div-Fine a b =
      Fine-if m _ _ _ (Fine-put_hi_lo i m 0 0) (Fine-assert m _ _ (Fine-put_hi_lo i m _ _))

  divu-Fine : (a b : ℕ) → Fine m (divu i m a b)
  unfolding divu
  divu-Fine a b = Fine-if m _ _ _ (Fine-put_hi_lo i m 0 0) (Fine-put_hi_lo i m _ _)

  multiply-Fine : (signed : Bool) (a b : ℕ) → Fine m (multiply i m signed a b)
  unfolding multiply
  multiply-Fine signed a b = Fine-put_hi_lo i m _ _

  module _ (rt_fits : i.rt < 32) where
    loaded-Fine : (v : ℕ) (m' : Machine) → m'.registers ≡ m.registers → Fine m (load_into i m v m')
    loaded-Fine v m' same = ends _ _ _ _ (Kept-refl m m' same) rt_fits

    load_byte-Fine : (signed : Bool) → Fine m (load_byte i m h signed)
    unfolding load_byte
    load_byte-Fine signed = Fine-after_read i m h _ _ _ (λ v. loaded-Fine _)

    load_half-Fine : (signed : Bool) → Fine m (load_half i m h signed)
    unfolding load_half
    load_half-Fine signed =
        Fine-if m _ _ _ (Fine-trap i m h _ _) (Fine-after_read i m h _ _ _ (λ v. loaded-Fine _))

    load_word-Fine : Fine m (load_word i m h)
    unfolding load_word
    load_word-Fine = Fine-if m _ _ _ (Fine-trap i m h _ _) (Fine-after_read i m h _ _ _ loaded-Fine)

    load_word_left-Fine : Fine m (load_word_left i m h)
    unfolding load_word_left
    load_word_left-Fine = Fine-assert m _ _ (Fine-after_read i m h _ _ _ loaded-Fine)

    load_word_right-Fine : Fine m (load_word_right i m h)
    unfolding load_word_right
    load_word_right-Fine =
        Fine-assert m _ _
          (Fine-after_read i m h _ _ _ (λ v m' same. ends _ _ _ _ (Kept-refl m m' same) rt_fits))

  store_value-Fine : (size : ℕ) → Fine m (store_value i m h size)
  unfolding store_value
  store_value-Fine size = Fine-after_write i m m h _ _ _ refl

  store_part-Fine : (merge : ℕ → ℕ) → Fine m (store_part i m h merge)
  unfolding store_part
  store_part-Fine merge =
      Fine-assert m _ _
        (Fine-after_read i m h _ _ _ (λ v m' same. Fine-after_write i m m' h _ _ _ same))

  linked-Fine : Kept m (linked i m)
  linked-Fine = Kept-set_reg m m ret_addr_reg (link i m) (omega arith) (Kept-refl m m refl)

-- Whatever the instruction with decoded fields: it keeps the registers from PCReg on, unless it
-- traps, and its delayed load is for a general register.
pub execute-Fine :
    (h : Handler) (op : Op) (i : Instruction) (m : Machine)
    → i.rt < 32
    → i.rd < 32
    → Fine m (execute h op i m)
unfolding execute
execute-Fine h op_add i m rt_fits rd_fits =
    add-Fine i m h i.rd (rs_value i m) (rt_value i m) (rs_value i m) (omega arith)
execute-Fine h op_addi i m rt_fits rd_fits =
    add-Fine i m h i.rt (rs_value i m) i.extra i.extra (omega arith)
execute-Fine h op_addiu i m rt_fits rd_fits = Fine-put i m i.rt _ (omega arith)
execute-Fine h op_addu i m rt_fits rd_fits = Fine-put i m i.rd _ (omega arith)
execute-Fine h op_and i m rt_fits rd_fits = Fine-put i m i.rd _ (omega arith)
execute-Fine h op_andi i m rt_fits rd_fits = Fine-put i m i.rt _ (omega arith)
execute-Fine h op_beq i m rt_fits rd_fits = ends _ _ _ _ (Kept-refl m m refl) (omega arith)
execute-Fine h op_bgezal i m rt_fits rd_fits = ends _ _ _ _ (linked-Fine i m h) (omega arith)
execute-Fine h op_bgez i m rt_fits rd_fits = ends _ _ _ _ (Kept-refl m m refl) (omega arith)
execute-Fine h op_bgtz i m rt_fits rd_fits = ends _ _ _ _ (Kept-refl m m refl) (omega arith)
execute-Fine h op_blez i m rt_fits rd_fits = ends _ _ _ _ (Kept-refl m m refl) (omega arith)
execute-Fine h op_bltzal i m rt_fits rd_fits = ends _ _ _ _ (linked-Fine i m h) (omega arith)
execute-Fine h op_bltz i m rt_fits rd_fits = ends _ _ _ _ (Kept-refl m m refl) (omega arith)
execute-Fine h op_bne i m rt_fits rd_fits = ends _ _ _ _ (Kept-refl m m refl) (omega arith)
execute-Fine h op_div i m rt_fits rd_fits = div-Fine i m h (rs_value i m) (rt_value i m)
execute-Fine h op_divu i m rt_fits rd_fits = divu-Fine i m h _ _
execute-Fine h op_jal i m rt_fits rd_fits = ends _ _ _ _ (linked-Fine i m h) (omega arith)
execute-Fine h op_j i m rt_fits rd_fits = ends _ _ _ _ (Kept-refl m m refl) (omega arith)
execute-Fine h op_jalr i m rt_fits rd_fits =
    ends _ _ _ _ (Kept-set_reg m m i.rd (link i m) (omega arith) (Kept-refl m m refl)) (omega arith)
execute-Fine h op_jr i m rt_fits rd_fits = ends _ _ _ _ (Kept-refl m m refl) (omega arith)
execute-Fine h op_lb i m rt_fits rd_fits = load_byte-Fine i m h rt_fits _
execute-Fine h op_lbu i m rt_fits rd_fits = load_byte-Fine i m h rt_fits _
execute-Fine h op_lh i m rt_fits rd_fits = load_half-Fine i m h rt_fits _
execute-Fine h op_lhu i m rt_fits rd_fits = load_half-Fine i m h rt_fits _
execute-Fine h op_lui i m rt_fits rd_fits = Fine-put i m i.rt _ (omega arith)
execute-Fine h op_lw i m rt_fits rd_fits = load_word-Fine i m h rt_fits
execute-Fine h op_lwl i m rt_fits rd_fits = load_word_left-Fine i m h rt_fits
execute-Fine h op_lwr i m rt_fits rd_fits = load_word_right-Fine i m h rt_fits
execute-Fine h op_mfhi i m rt_fits rd_fits = Fine-put i m i.rd _ (omega arith)
execute-Fine h op_mflo i m rt_fits rd_fits = Fine-put i m i.rd _ (omega arith)
execute-Fine h op_mthi i m rt_fits rd_fits = Fine-put i m hi_reg _ (omega arith)
execute-Fine h op_mtlo i m rt_fits rd_fits = Fine-put i m lo_reg _ (omega arith)
execute-Fine h op_mult i m rt_fits rd_fits = multiply-Fine i m h _ _ _
execute-Fine h op_multu i m rt_fits rd_fits = multiply-Fine i m h _ _ _
execute-Fine h op_nor i m rt_fits rd_fits = Fine-put i m i.rd _ (omega arith)
execute-Fine h op_or i m rt_fits rd_fits = Fine-put i m i.rd _ (omega arith)
execute-Fine h op_ori i m rt_fits rd_fits = Fine-put i m i.rt _ (omega arith)
execute-Fine h op_sb i m rt_fits rd_fits = store_value-Fine i m h _
execute-Fine h op_sh i m rt_fits rd_fits = store_value-Fine i m h _
execute-Fine h op_sll i m rt_fits rd_fits = Fine-put i m i.rd _ (omega arith)
execute-Fine h op_sllv i m rt_fits rd_fits = Fine-put i m i.rd _ (omega arith)
execute-Fine h op_slt i m rt_fits rd_fits = Fine-put i m i.rd _ (omega arith)
execute-Fine h op_slti i m rt_fits rd_fits = Fine-put i m i.rt _ (omega arith)
execute-Fine h op_sltiu i m rt_fits rd_fits = Fine-put i m i.rt _ (omega arith)
execute-Fine h op_sltu i m rt_fits rd_fits = Fine-put i m i.rd _ (omega arith)
execute-Fine h op_sra i m rt_fits rd_fits = Fine-put i m i.rd _ (omega arith)
execute-Fine h op_srav i m rt_fits rd_fits = Fine-put i m i.rd _ (omega arith)
execute-Fine h op_srl i m rt_fits rd_fits = Fine-put i m i.rd _ (omega arith)
execute-Fine h op_srlv i m rt_fits rd_fits = Fine-put i m i.rd _ (omega arith)
execute-Fine h op_sub i m rt_fits rd_fits =
    sub-Fine i m h i.rd (rs_value i m) (rt_value i m) (omega arith)
execute-Fine h op_subu i m rt_fits rd_fits = Fine-put i m i.rd _ (omega arith)
execute-Fine h op_sw i m rt_fits rd_fits = store_value-Fine i m h _
execute-Fine h op_swl i m rt_fits rd_fits = store_part-Fine i m h _
execute-Fine h op_swr i m rt_fits rd_fits = store_part-Fine i m h _
execute-Fine h op_syscall i m rt_fits rd_fits = Fine-trap i m h _ _
execute-Fine h op_xor i m rt_fits rd_fits = Fine-put i m i.rd _ (omega arith)
execute-Fine h op_xori i m rt_fits rd_fits = Fine-put i m i.rt _ (omega arith)
execute-Fine h op_res i m rt_fits rd_fits = Fine-trap i m h _ _
execute-Fine h op_unimp i m rt_fits rd_fits = Fine-trap i m h _ _
execute-Fine h op_rfe i m rt_fits rd_fits = stops
execute-Fine h op_special i m rt_fits rd_fits = stops
execute-Fine h op_bcond i m rt_fits rd_fits = stops
