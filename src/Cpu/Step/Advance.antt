-- ===== src/Cpu/Step/Advance.antt =====
-- The end of Machine::OneInstruction in machine/mipssim.cc: the load delay, the branch delay, and
-- register 0.
use nach_operator_system.Prelude.{
  ℕ, ◌≤◌, ◌<◌, ◌≡◌, ◌≢◌, refl, sym, ap, ◌∙◌, Option, some, none, List, length, get_or, subst,
  eq_of_some, arith,
}
use nach_operator_system.Machine.{
  Machine, Handler, pc_reg, next_pc_reg, prev_pc_reg, load_reg, load_value_reg, bad_vaddr_reg,
}
use nach_operator_system.Machine.Memory.{read_mem}
use nach_operator_system.Machine.Memory.Registers.{read_mem-registers}
use nach_operator_system.Cpu.{Instruction, decode}
use nach_operator_system.Cpu.Decoding.{decode-total}
use nach_operator_system.Cpu.Execute.{Outcome, done, reg}
use nach_operator_system.Cpu.Execute.Dispatch.{execute}
use nach_operator_system.Cpu.Execute.Frame.{Kept, Fine, stops, traps, ends}
use nach_operator_system.Cpu.Execute.Effects.{execute-Fine}
use nach_operator_system.Cpu.Step.{advance, settle, run_fetched, one_instruction}
use nach_operator_system.Cpu.Step.Loads.{
  IsReady, loaded, delayed_load_lem, size-loaded, reg-loaded, reg-advance, size-advance,
}

-- The machine after the instruction: `m` before it, `m'` at the end of the switch.
pub record Completed (m m' : Machine) (pc_after r v : ℕ) (out : Machine) : Type 0 where
  pub ready : IsReady out
  pub zero_reg : reg out 0 ≡ 0
  pub prev_pc : reg out prev_pc_reg ≡ reg m pc_reg
  pub pc : reg out pc_reg ≡ reg m next_pc_reg
  pub next_pc : reg out next_pc_reg ≡ pc_after
  pub load : reg out load_reg ≡ r
  pub load_value : reg out load_value_reg ≡ v
  pub arrived : reg m load_reg ≢ 0 → reg out (reg m load_reg) ≡ reg m load_value_reg
  pub others : (s : ℕ) → 1 ≤ s → s < 34 → s ≢ reg m load_reg → reg out s ≡ reg m' s
  pub bad_vaddr : reg out bad_vaddr_reg ≡ reg m' bad_vaddr_reg
  pub rest : out ≡ record m' { registers = out.registers }

settle-Completed :
    (m m' : Machine) (pc_after r v : ℕ)
    → IsReady m
    → Kept m m'
    → r < 32
    → (out : Machine) × (settle (done m' pc_after r v) ≡ some out) × Completed m m' pc_after r v out
unfolding settle
settle-Completed m m' pc_after r v ready kept small =
    let load = kept.special load_reg (omega arith) in
    let value = kept.special load_value_reg (omega arith) in
    let pc = kept.special pc_reg (omega arith) in
    let next = kept.special next_pc_reg (omega arith) in
    let ready' : IsReady m' = record {
      size = kept.size ∙ ready.size;
      pending = omega (arith, load, ready.pending);
    } in
    let mid = loaded r v m' in
    let at = λ (s : ℕ). reg-loaded m' r v ready' s in
    let size = size-loaded m' r v ready' in
    let then_ = λ (s : ℕ). reg-advance mid pc_after s size in
    (
      advance pc_after mid,
      rw (delayed_load_lem m' r v ready') refl,
      record {
        ready = record {
          size = size-advance mid pc_after ∙ size;
          pending = ground (arith, then_ 37, at 37);
        };
        zero_reg = ground (arith, then_ 0, at 0);
        prev_pc = ground (arith, then_ 36, at 34, ready.pending, load);
        pc = ground (arith, then_ 34, at 35, ready.pending, load);
        next_pc = ground (arith, then_ 35);
        load = ground (arith, then_ 37, at 37);
        load_value = ground (arith, then_ 38, at 38);
        arrived = λ live.
            ground (
              arith,
              then_ (reg m load_reg),
              at (reg m load_reg),
              ready.pending,
              load,
              value,
              live,
            );
        others = λ s lo hi apart. ground (arith, then_ s, at s, load, apart);
        bad_vaddr = ground (arith, then_ 39, at 39, ready.pending, load);
        rest = refl;
      },
    )

Kept-trans : (m m1 m2 : Machine) → m1.registers ≡ m.registers → Kept m1 m2 → Kept m m2
Kept-trans m m1 m2 same k = record {
  size = k.size ∙ ap length same;
  special = λ r h. k.special r h ∙ ap (λ (x : List ℕ). get_or x r 0) same;
}

Fine-parts :
    (m : Machine) (o : Option Outcome)
    → Fine m o
    → (m2 : Machine) (pc_after r v : ℕ) → o ≡ some (done m2 pc_after r v)
    → Kept m m2 × (r < 32)
Fine-parts m none stops m2 pc_after r v e = absurd (ground arith)
Fine-parts m (some o) (traps m1) m2 pc_after r v e = absurd (ground arith)
Fine-parts m (some o) (ends m1 pc0 r0 v0 kept small) m2 pc_after r v e =
    let same : m1 ≡ m2 = ground arith in (subst (Kept m) same kept, ground arith)

-- One instruction of a machine with 40 registers, whose pending load is for a register below 32: if
-- its word is fetched, decoded and executed with no trap, then OneInstruction returns such a
-- machine. Register 0 is zero again; the program counter is the old NextPC, the previous one the
-- old program counter, and NextPC the address that the instruction computed; the load that was
-- pending arrives in its register, over what the instruction wrote there, and the new load is
-- pending; every other register, and all of the machine that is no register, is as the instruction
-- left it.
pub one_instruction-Completed :
    (h : Handler) (m m1 m2 : Machine) (raw pc_after r v : ℕ) (i : Instruction)
    → IsReady m
    → read_mem h (reg m pc_reg) 4 m ≡ some (some raw, m1)
    → decode raw ≡ some i
    → execute h i.op_code i m1 ≡ some (done m2 pc_after r v)
    → (out : Machine) × (one_instruction h m ≡ some out) × Completed m m2 pc_after r v out
unfolding one_instruction run_fetched
one_instruction-Completed h m m1 m2 raw pc_after r v i ready fetched decoded executed =
    let (i', decoded', rs, rt, rd, kept_value, plain) = decode-total raw in
    let same : i' ≡ i = eq_of_some i' i (sym decoded' ∙ decoded) in
    let rt_small : i.rt < 32 = subst (λ (x : Instruction). x.rt < 32) same rt in
    let rd_small : i.rd < 32 = subst (λ (x : Instruction). x.rd < 32) same rd in
    let (kept, small) =
      Fine-parts m1 (execute h i.op_code i m1) (execute-Fine h i.op_code i m1 rt_small rd_small) m2
        pc_after r v executed in
    let whole = Kept-trans m m1 m2 (read_mem-registers h (reg m pc_reg) 4 m fetched) kept in
    let (out, settled, completed) = settle-Completed m m2 pc_after r v ready whole small in
    (out, rw (fetched, decoded, executed) settled, completed)
