-- ===== src/Cpu/Execute/Frame.antt =====
-- What no instruction of machine/mipssim.cc touches: only DelayedLoad and the end of
-- OneInstruction write the registers from PCReg on.
use nach_operator_system.Prelude.{
  ℕ, ◌≤◌, ◌<◌, ◌≡◌, refl, ap, ◌∙◌, Bool, true, false, Option, some, none, List, length, get_or,
  length-set, get_or-set_ne, if◌then◌else◌, arith, ◌>>=◌, assert, ◌>>◌,
}
use nach_operator_system.Machine.{Machine, ExceptionType, Handler, raise_exception, hi_reg, lo_reg}
use nach_operator_system.Machine.Memory.{read_mem, write_mem}
use nach_operator_system.Machine.Memory.Registers.{read_mem-registers, write_mem-registers}
use nach_operator_system.Cpu.{Instruction}
use nach_operator_system.Cpu.Execute.{
  Outcome, trapped, done, reg, set_reg, put, put_hi_lo, trap, after_read, after_write,
}

-- The register file keeps its size and its registers from PCReg on.
pub record Kept (m m' : Machine) : Type 0 where
  pub size : length m'.registers ≡ length m.registers
  pub special : (r : ℕ) → 34 ≤ r → reg m' r ≡ reg m r

pub Kept-refl : (m m' : Machine) → m'.registers ≡ m.registers → Kept m m'
Kept-refl m m' e = record {
  size = ap length e;
  special = λ r h. ap (λ (x : List ℕ). get_or x r 0) e;
}

pub Kept-set_reg : (m m' : Machine) (r v : ℕ) → r < 34 → Kept m m' → Kept m (set_reg r v m')
Kept-set_reg m m' r v h k = record {
  size = length-set m'.registers r v ∙ k.size;
  special = λ s q. get_or-set_ne m'.registers r s v 0 (omega arith) ∙ k.special s q;
}

-- An instruction that goes on to its end keeps these registers, and its delayed load is for a
-- general register.
pub data Fine (m : Machine) : Option Outcome → Type 0 where
  stops : Fine m none
  traps : (m' : Machine) → Fine m (some (trapped m'))
  ends :
      (m' : Machine) (pc_after r v : ℕ) → Kept m m' → r < 32 → Fine m (some (done m' pc_after r v))

pub Fine-if :
    (m : Machine) (b : Bool) (x y : Option Outcome)
    → Fine m x
    → Fine m y
    → Fine m (if b then x else y)
Fine-if m true x y p q = p
Fine-if m false x y p q = q

pub Fine-assert : (m : Machine) (b : Bool) (x : Option Outcome) → Fine m x → Fine m (assert b >> x)
Fine-assert m true x p = p
Fine-assert m false x p = stops

pub Fine-trap :
    (i : Instruction) (m : Machine) (h : Handler) (e : ExceptionType) (v : ℕ)
    → Fine m (trap i m h e v)
Fine-trap i m h e v = raised (raise_exception h e v m)
  where
    raised : (o : Option Machine) → Fine m (o >>= λ m'. some (trapped m'))
    raised none = stops
    raised (some m') = traps m'

pub Fine-put : (i : Instruction) (m : Machine) (r v : ℕ) → r < 34 → Fine m (put i m r v)
Fine-put i m r v h = ends _ _ _ _ (Kept-set_reg m m r v h (Kept-refl m m refl)) (omega arith)

pub Fine-put_hi_lo : (i : Instruction) (m : Machine) (hi lo : ℕ) → Fine m (put_hi_lo i m hi lo)
Fine-put_hi_lo i m hi lo =
    ends _ _ _ _
      (Kept-set_reg m (set_reg lo_reg lo m) hi_reg hi (omega arith)
        (Kept-set_reg m m lo_reg lo (omega arith) (Kept-refl m m refl)))
      (omega arith)

pub Fine-after_read :
    (i : Instruction) (m : Machine) (h : Handler) (addr size : ℕ)
    (next : ℕ → Machine → Option Outcome)
    → ((v : ℕ) (m' : Machine) → m'.registers ≡ m.registers → Fine m (next v m'))
    → Fine m (read_mem h addr size m >>= after_read i m next)
Fine-after_read i m h addr size next fine = cases (read_mem h addr size m) refl
  where
    cases :
        (o : Option (Option ℕ × Machine))
        → read_mem h addr size m ≡ o
        → Fine m (o >>= after_read i m next)
    cases none e = stops
    cases (some (none, m')) e = traps m'
    cases (some (some v, m')) e = fine v m' (read_mem-registers h addr size m e)

pub Fine-after_write :
    (i : Instruction) (m m1 : Machine) (h : Handler) (addr size value : ℕ)
    → m1.registers ≡ m.registers
    → Fine m (write_mem h addr size value m1 >>= after_write i m)
Fine-after_write i m m1 h addr size value same = cases (write_mem h addr size value m1) refl
  where
    cases :
        (o : Option (Bool × Machine))
        → write_mem h addr size value m1 ≡ o
        → Fine m (o >>= after_write i m)
    cases none e = stops
    cases (some (false, m')) e = traps m'
    cases (some (true, m')) e =
        ends _ _ _ _ (Kept-refl m m' (write_mem-registers h addr size m1 value e ∙ same))
          (omega arith)
