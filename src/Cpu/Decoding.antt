-- ===== src/Cpu/Decoding.antt =====
-- Instruction::Decode of machine/mipssim.cc against the layout of MIPS instruction words.
use nach_operator_system.Prelude.{
  ℕ, zero, suc, ◌+◌, ◌-◌, ◌*◌, ◌/◌, ◌%◌, ◌^◌, ◌<◌, ◌≡◌, refl, ◌∙◌, bit_and, bit_or, Bool, some,
  List, get_elem?, get_elem?-some, true, false, [], ◌∷◌, ◌&&◌, ltb, ◌==◌, if◌then◌else◌, arith, pos,
  negsuc, ℤ, to_int, word_mod,
}
use nach_operator_system.Prelude.Bits
use nach_operator_system.Prelude.Bits.{bit_and-mask, bit_and-pow-eq-zero, bit-half}
use nach_operator_system.Prelude.Bits.Sums.{bit_or-apart}
use nach_operator_system.Cpu.{
  Op, op_special, op_bcond, op_bltz, op_bgez, op_bltzal, op_bgezal, op_unimp, i_fmt, Instruction,
  op_table, special_table, refine_op, extra_of, decode,
}

-- A 16-bit immediate as the signed number that it stands for.
abbrev pub immediate : ℕ → ℤ
immediate imm = if ltb imm (2 ^ 15) then pos imm else negsuc (2 ^ 16 - imm - 1)

extra_of-immediate :
    (value : ℕ)
    → extra_of value i_fmt
      ≡ (if ltb (value % 2 ^ 16) (2 ^ 15) then value % 2 ^ 16 else value % 2 ^ 16 + 0xffff_0000)
unfolding extra_of
extra_of-immediate value =
    let low : bit_and value 0xffff ≡ value % 2 ^ 16 = bit_and-mask 16 value in
    let imm = value % 2 ^ 16 in
    let high : bit_or imm 0xffff_0000 ≡ imm + 0xffff_0000 =
      bit_or-apart 16 imm 0xffff (omega arith) in
    let sign : (bit_and imm 0x8000 == 0) ≡ (Bits.bit 15 imm == 0) = bit_and-pow-eq-zero imm 15 in
    rw (low, high, sign, bit-half imm (omega arith)) (ground arith)

-- An operation that needs no more decoding.
unfoldable pub is_plain : Op → Bool
is_plain op_special = false
is_plain op_bcond = false
is_plain op = true

all_plain : List Op → Bool
all_plain [] = true
all_plain (op ∷ ops) = is_plain op && all_plain ops

all_plain-at :
    (ops : List Op) (i : ℕ) (op : Op)
    → all_plain ops ≡ true
    → get_elem? ops i ≡ some op
    → is_plain op ≡ true
unfolding all_plain
all_plain-at [] i op all h = absurd (ground arith)
all_plain-at (x ∷ ops) zero op all h = ground arith
all_plain-at (x ∷ ops) (suc i) op all h = ground (arith, all_plain-at ops i op)

special_table-plain : all_plain special_table ≡ true
unfolding all_plain is_plain
special_table-plain = refl

refine_op-total :
    (value : ℕ) (op : Op) → (op' : Op) × (refine_op value op ≡ some op') × (is_plain op' ≡ true)
unfolding refine_op is_plain
refine_op-total value op_special =
    let low : bit_and value 0x3f ≡ value % 2 ^ 6 = bit_and-mask 6 value in
    let (op, found) = get_elem?-some special_table (bit_and value 0x3f) (rw low (omega arith)) in
    (op, found, all_plain-at special_table (bit_and value 0x3f) op special_table-plain found)
refine_op-total value op_bcond =
    let i = bit_and value 0x1f_0000 in
    (
      if i == 0
          then op_bltz
          else if i == 0x1_0000
          then op_bgez
          else if i == 0x10_0000
          then op_bltzal
          else if i == 0x11_0000
          then op_bgezal
          else op_unimp,
      refl,
      ground arith,
    )
refine_op-total value op = (op, refl, refl)

refine_op-plain : (value : ℕ) (op : Op) → is_plain op ≡ true → refine_op value op ≡ some op
unfolding refine_op is_plain
refine_op-plain value op_special h = absurd (ground arith)
refine_op-plain value op_bcond h = absurd (ground arith)
refine_op-plain value op h = refl

-- Decode never fails its table look-ups, and its three register fields are numbers of general
-- registers; SPECIAL and BCOND are always decoded further.
pub decode-total :
    (value : ℕ)
    → (i : Instruction) × (decode value ≡ some i)
      × (i.rs < 32)
      × (i.rt < 32)
      × (i.rd < 32)
      × (i.value ≡ value)
      × (is_plain i.op_code ≡ true)
unfolding decode
decode-total value =
    let field = λ (k : ℕ). bit_and-mask 5 (value / 2 ^ k) in
    let top : bit_and (value / 2 ^ 26) 0x3f ≡ value / 2 ^ 26 % 2 ^ 6 =
      bit_and-mask 6 (value / 2 ^ 26) in
    let (info, found) =
      get_elem?-some op_table (bit_and (value / 2 ^ 26) 0x3f) (rw top (omega arith)) in
    let (op, refined, plain) = refine_op-total value info.op_code in
    (
      record {
        value = value;
        op_code = op;
        rs = bit_and (value / 2 ^ 21) 0x1f;
        rt = bit_and (value / 2 ^ 16) 0x1f;
        rd = bit_and (value / 2 ^ 11) 0x1f;
        extra = extra_of value info.format;
      },
      rw (found, refined) refl,
      rw (field 21) (omega arith),
      rw (field 16) (omega arith),
      rw (field 11) (omega arith),
      refl,
      plain,
    )

-- The word of the R format with fields in their ranges decodes to these fields, with the operation
-- that specialTable has for `funct`.
pub decode-special :
    (funct shamt rd rt rs : ℕ)
    → funct < 64
    → shamt < 32
    → rd < 32
    → rt < 32
    → rs < 32
    → (op : Op) → get_elem? special_table funct ≡ some op
    → let value = rs * 2 ^ 21 + rt * 2 ^ 16 + rd * 2 ^ 11 + shamt * 2 ^ 6 + funct in
      decode value
      ≡ some (record { value = value; op_code = op; rs = rs; rt = rt; rd = rd; extra = shamt })
unfolding decode refine_op extra_of
decode-special funct shamt rd rt rs hf hs hd ht hr op found =
    let value = rs * 2 ^ 21 + rt * 2 ^ 16 + rd * 2 ^ 11 + shamt * 2 ^ 6 + funct in
    let field = λ (k : ℕ). bit_and-mask 5 (value / 2 ^ k) in
    let top : bit_and (value / 2 ^ 26) 0x3f ≡ 0 = bit_and-mask 6 (value / 2 ^ 26) ∙ omega arith in
    let f : bit_and value 0x3f ≡ funct = bit_and-mask 6 value ∙ omega arith in
    let s : bit_and (value / 2 ^ 21) 0x1f ≡ rs = field 21 ∙ omega arith in
    let t : bit_and (value / 2 ^ 16) 0x1f ≡ rt = field 16 ∙ omega arith in
    let d : bit_and (value / 2 ^ 11) 0x1f ≡ rd = field 11 ∙ omega arith in
    let h : bit_and (value / 2 ^ 6) 0x1f ≡ shamt = field 6 ∙ omega arith in
    rw (top, f, s, t, d, h, found) refl

-- The word of the I format with fields in their ranges, for an operation code that opTable gives
-- the I format and that needs no more decoding, decodes to the operation and the fields, with the
-- immediate extended by its sign.
pub decode-immediate :
    (code rs rt imm : ℕ)
    → code < 64
    → rs < 32
    → rt < 32
    → imm < 2 ^ 16
    → (op : Op) → get_elem? op_table code ≡ some (record { op_code = op; format = i_fmt })
    → is_plain op ≡ true
    → (i : Instruction) × (decode (code * 2 ^ 26 + rs * 2 ^ 21 + rt * 2 ^ 16 + imm) ≡ some i)
      × (i.op_code ≡ op)
      × (i.rs ≡ rs)
      × (i.rt ≡ rt)
      × (i.extra < word_mod)
      × (to_int i.extra ≡ immediate imm)
unfolding decode
decode-immediate code rs rt imm hc hr ht hi op found plain =
    let value = code * 2 ^ 26 + rs * 2 ^ 21 + rt * 2 ^ 16 + imm in
    let field = λ (k : ℕ). bit_and-mask 5 (value / 2 ^ k) in
    let top : bit_and (value / 2 ^ 26) 0x3f ≡ code =
      bit_and-mask 6 (value / 2 ^ 26) ∙ omega arith in
    let low : value % 2 ^ 16 ≡ imm = omega arith in
    let i : Instruction = record {
      value = value;
      op_code = op;
      rs = bit_and (value / 2 ^ 21) 0x1f;
      rt = bit_and (value / 2 ^ 16) 0x1f;
      rd = bit_and (value / 2 ^ 11) 0x1f;
      extra = extra_of value i_fmt;
    } in
    (
      i,
      rw (top, found, refine_op-plain value op plain) refl,
      refl,
      field 21 ∙ omega arith,
      field 16 ∙ omega arith,
      ground (arith, extra_of-immediate value),
      ground (arith, extra_of-immediate value),
    )
