-- ===== src/Cpu/Step/Loads.antt =====
-- The writes of DelayedLoad and of the last lines of Machine::OneInstruction, register by register.
use nach_operator_system.Prelude.{
  ℕ, zero, suc, ◌<◌, ◌≡◌, refl, ap, ◌∙◌, some, List, [], ◌∷◌, length, get_elem?, get_or, set,
  length-set, get_or-set_self, get_or-set_ne, lt→ltb, ◌==◌, if◌then◌else◌, arith,
}
use nach_operator_system.Machine.{
  Machine, delayed_load, store_at, pc_reg, next_pc_reg, prev_pc_reg, load_reg, load_value_reg,
}
use nach_operator_system.Cpu.Execute.{reg, set_reg}
use nach_operator_system.Cpu.Step.{advance}

-- A register file of the machine: 40 registers, and a delayed load for a general one.
pub record IsReady (m : Machine) : Type 0 where
  pub size : length m.registers ≡ 40
  pub pending : reg m load_reg < 32

get_elem?-get_or : (xs : List ℕ) (i : ℕ) → i < length xs → get_elem? xs i ≡ some (get_or xs i 0)
get_elem?-get_or [] i h = absurd (omega arith)
get_elem?-get_or (x ∷ xs) zero h = refl
get_elem?-get_or (x ∷ xs) (suc i) h = get_elem?-get_or xs i (omega arith)

store_at-some : (xs : List ℕ) (i v : ℕ) → i < length xs → store_at xs i v ≡ some (set xs i v)
store_at-some xs i v h = rw (lt→ltb i (length xs) h) refl

abbrev pub loaded : ℕ → ℕ → Machine → Machine
loaded r v m = set_reg 0 0 (
    set_reg load_value_reg v
      (set_reg load_reg r (set_reg (reg m load_reg) (reg m load_value_reg) m)))

pub size-set_reg : (m : Machine) (r v : ℕ) → length (set_reg r v m).registers ≡ length m.registers
size-set_reg m r v = length-set m.registers r v

pub reg-set_reg :
    (m : Machine) (r v s : ℕ)
    → r < length m.registers
    → reg (set_reg r v m) s ≡ (if r == s then v else reg m s)
reg-set_reg m r v s h =
    ground (arith, get_or-set_self m.registers r v 0, get_or-set_ne m.registers r s v 0)

module _ (m : Machine) (r v : ℕ) (ready : IsReady m) where
  abbrev pub target : ℕ
  target = reg m load_reg

  abbrev pub with_load : Machine
  with_load = set_reg target (reg m load_value_reg) m

  abbrev pub with_reg : Machine
  with_reg = set_reg load_reg r with_load

  abbrev pub with_value : Machine
  with_value = set_reg load_value_reg v with_reg

  size1 : length with_load.registers ≡ 40
  size1 = size-set_reg m target (reg m load_value_reg) ∙ ready.size

  size2 : length with_reg.registers ≡ 40
  size2 = size-set_reg with_load load_reg r ∙ size1

  size3 : length with_value.registers ≡ 40
  size3 = size-set_reg with_reg load_value_reg v ∙ size2

  pub delayed_load_lem : delayed_load r v m ≡ some (loaded r v m)
  unfolding delayed_load
  delayed_load_lem =
      rw
        (
          get_elem?-get_or m.registers load_reg (omega (arith, ready.size)),
          get_elem?-get_or m.registers load_value_reg (omega (arith, ready.size)),
          store_at-some m.registers target (reg m load_value_reg)
              (omega (arith, ready.size, ready.pending)),
          store_at-some with_load.registers load_reg r (omega (arith, size1)),
          store_at-some with_reg.registers load_value_reg v (omega (arith, size2)),
          store_at-some with_value.registers 0 0 (omega (arith, size3)),
        )
        refl

  pub size-loaded : length (loaded r v m).registers ≡ 40
  size-loaded = size-set_reg with_value 0 0 ∙ size3

  pub reg-loaded :
      (s : ℕ)
      → reg (loaded r v m) s ≡ (
          if 0 == s
          then 0
          else if load_value_reg == s
          then v
          else if load_reg == s
          then r
          else if target == s
          then reg m load_value_reg
          else reg m s)
  reg-loaded s =
      reg-set_reg with_value 0 0 s (omega (arith, size3))
      ∙ ap (λ (x : ℕ). if 0 == s then 0 else x)
          (reg-set_reg with_reg load_value_reg v s (omega (arith, size2)))
      ∙ ap (λ (x : ℕ). if 0 == s then 0 else if load_value_reg == s then v else x)
          (reg-set_reg with_load load_reg r s (omega (arith, size1)))
      ∙ ap
          (λ (x : ℕ).
            if 0 == s then 0 else if load_value_reg == s then v else if load_reg == s then r else x)
          (reg-set_reg m target (reg m load_value_reg) s (omega (arith, ready.size, ready.pending)))

pub reg-advance :
    (m : Machine) (pc_after s : ℕ)
    → length m.registers ≡ 40
    → reg (advance pc_after m) s ≡ (
        if next_pc_reg == s
        then pc_after
        else if pc_reg == s
        then reg m next_pc_reg
        else if prev_pc_reg == s
        then reg m pc_reg
        else reg m s)
reg-advance m pc_after s size =
    let n1 = set_reg prev_pc_reg (reg m pc_reg) m in
    let n2 = set_reg pc_reg (reg n1 next_pc_reg) n1 in
    let l1 = size-set_reg m prev_pc_reg (reg m pc_reg) in
    let l2 = size-set_reg n1 pc_reg (reg n1 next_pc_reg) in
    ground (
      arith,
      reg-set_reg m prev_pc_reg (reg m pc_reg) s (omega arith),
      reg-set_reg m prev_pc_reg (reg m pc_reg) next_pc_reg (omega arith),
      reg-set_reg n1 pc_reg (reg n1 next_pc_reg) s (omega arith),
      reg-set_reg n2 next_pc_reg pc_after s (omega arith),
    )

pub size-advance :
    (m : Machine) (pc_after : ℕ) → length (advance pc_after m).registers ≡ length m.registers
size-advance m pc_after =
    let n1 = set_reg prev_pc_reg (reg m pc_reg) m in
    let n2 = set_reg pc_reg (reg n1 next_pc_reg) n1 in
    size-set_reg n2 next_pc_reg pc_after
    ∙ size-set_reg n1 pc_reg (reg n1 next_pc_reg)
    ∙ size-set_reg m prev_pc_reg (reg m pc_reg)
