-- ===== src/Cpu.antt =====
-- machine/mipssim.h and Instruction::Decode of machine/mipssim.cc: the instructions of the
-- simulated MIPS CPU and their binary form. `op_special` and `op_bcond` are the two codes that
-- call for more decoding, SPECIAL and BCOND.
mod Examples
pub mod Decoding
pub mod Mult
pub mod Execute
pub mod Step
use nach_operator_system.Prelude.{
  ℕ, ◌*◌, ◌/◌, ◌^◌, bit_and, bit_or, Bool, Option, some, none, List, [], ◌∷◌, ◌==◌, get_elem?,
  if◌then◌else◌, ◌>>=◌,
}

pub data Op : Type 0 where
  op_add op_addi op_addiu op_addu op_and op_andi op_beq op_bgez op_bgezal op_bgtz op_blez : Op
  op_bltz op_bltzal op_bne op_div op_divu op_j op_jal op_jalr op_jr op_lb op_lbu op_lh op_lhu : Op
  op_lui op_lw op_lwl op_lwr op_mfhi op_mflo op_mthi op_mtlo op_mult op_multu op_nor op_or op_ori :
      Op
  op_rfe op_sb op_sh op_sll op_sllv op_slt op_slti op_sltiu op_sltu op_sra op_srav op_srl op_srlv :
      Op
  op_sub op_subu op_sw op_swl op_swr op_xor op_xori op_syscall op_unimp op_res : Op
  op_special op_bcond : Op

pub data Format : Type 0 where
  i_fmt j_fmt r_fmt : Format

pub record OpInfo : Type 0 where
  pub op_code : Op
  pub format : Format

pub record Instruction : Type 0 where
  pub value : ℕ
  pub op_code : Op
  pub rs : ℕ
  pub rt : ℕ
  pub rd : ℕ
  pub extra : ℕ

abbrev i_op : Op → OpInfo
i_op op = record { op_code = op; format = i_fmt }

abbrev pub op_table : List OpInfo
op_table =
    record { op_code = op_special; format = r_fmt }
    ∷ i_op op_bcond
    ∷ record { op_code = op_j; format = j_fmt }
    ∷ record { op_code = op_jal; format = j_fmt }
    ∷ i_op op_beq
    ∷ i_op op_bne
    ∷ i_op op_blez
    ∷ i_op op_bgtz
    ∷ i_op op_addi
    ∷ i_op op_addiu
    ∷ i_op op_slti
    ∷ i_op op_sltiu
    ∷ i_op op_andi
    ∷ i_op op_ori
    ∷ i_op op_xori
    ∷ i_op op_lui
    ∷ i_op op_unimp
    ∷ i_op op_unimp
    ∷ i_op op_unimp
    ∷ i_op op_unimp
    ∷ i_op op_res
    ∷ i_op op_res
    ∷ i_op op_res
    ∷ i_op op_res
    ∷ i_op op_res
    ∷ i_op op_res
    ∷ i_op op_res
    ∷ i_op op_res
    ∷ i_op op_res
    ∷ i_op op_res
    ∷ i_op op_res
    ∷ i_op op_res
    ∷ i_op op_lb
    ∷ i_op op_lh
    ∷ i_op op_lwl
    ∷ i_op op_lw
    ∷ i_op op_lbu
    ∷ i_op op_lhu
    ∷ i_op op_lwr
    ∷ i_op op_res
    ∷ i_op op_sb
    ∷ i_op op_sh
    ∷ i_op op_swl
    ∷ i_op op_sw
    ∷ i_op op_res
    ∷ i_op op_res
    ∷ i_op op_swr
    ∷ i_op op_res
    ∷ i_op op_unimp
    ∷ i_op op_unimp
    ∷ i_op op_unimp
    ∷ i_op op_unimp
    ∷ i_op op_res
    ∷ i_op op_res
    ∷ i_op op_res
    ∷ i_op op_res
    ∷ i_op op_unimp
    ∷ i_op op_unimp
    ∷ i_op op_unimp
    ∷ i_op op_unimp
    ∷ i_op op_res
    ∷ i_op op_res
    ∷ i_op op_res
    ∷ i_op op_res
    ∷ []

abbrev pub special_table : List Op
special_table =
    op_sll ∷ op_res ∷ op_srl ∷ op_sra ∷ op_sllv ∷ op_res ∷ op_srlv ∷ op_srav ∷ op_jr ∷ op_jalr
    ∷ op_res ∷ op_res ∷ op_syscall ∷ op_unimp ∷ op_res ∷ op_res ∷ op_mfhi ∷ op_mthi ∷ op_mflo
    ∷ op_mtlo ∷ op_res ∷ op_res ∷ op_res ∷ op_res ∷ op_mult ∷ op_multu ∷ op_div ∷ op_divu ∷ op_res
    ∷ op_res ∷ op_res ∷ op_res ∷ op_add ∷ op_addu ∷ op_sub ∷ op_subu ∷ op_and ∷ op_or ∷ op_xor
    ∷ op_nor ∷ op_res ∷ op_res ∷ op_slt ∷ op_sltu ∷ op_res ∷ op_res ∷ op_res ∷ op_res ∷ op_res
    ∷ op_res ∷ op_res ∷ op_res ∷ op_res ∷ op_res ∷ op_res ∷ op_res ∷ op_res ∷ op_res ∷ op_res
    ∷ op_res ∷ op_res ∷ op_res ∷ op_res ∷ op_res ∷ []

-- The further decoding of SPECIAL and BCOND.
pub refine_op : ℕ → Op → Option Op
refine_op value op_special = get_elem? special_table (bit_and value 0x3f)
refine_op value op_bcond =
    let i = bit_and value 0x1f_0000 in
    some (
      if i == 0
      then op_bltz
      else if i == 0x1_0000
      then op_bgez
      else if i == 0x10_0000
      then op_bltzal
      else if i == 0x11_0000
      then op_bgezal
      else op_unimp)
refine_op value op = some op

pub extra_of : ℕ → Format → ℕ
extra_of value i_fmt =
    let extra = bit_and value 0xffff in
    if bit_and extra 0x8000 == 0 then extra else bit_or extra 0xffff_0000
extra_of value r_fmt = bit_and (value / 2 ^ 6) 0x1f
extra_of value j_fmt = bit_and value 0x3ff_ffff

unfoldable pub decode : ℕ → Option Instruction
unfolding refine_op extra_of
decode value = do
  info ← get_elem? op_table (bit_and (value / 2 ^ 26) 0x3f)
  op ← refine_op value info.op_code
  some (record {
    value = value;
    op_code = op;
    rs = bit_and (value / 2 ^ 21) 0x1f;
    rt = bit_and (value / 2 ^ 16) 0x1f;
    rd = bit_and (value / 2 ^ 11) 0x1f;
    extra = extra_of value info.format;
  })
