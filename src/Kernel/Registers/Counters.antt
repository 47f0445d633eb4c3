-- ===== src/Kernel/Registers/Counters.antt =====
-- The program counters after ExceptionHandler of userprog/exception.cc.
use nach_operator_system.Prelude.{
  ℕ, ◌<◌, ◌≡◌, ◌≢◌, refl, sym, ap, ◌∙◌, ◌⊎◌, inl, inr, some, List, ltb, length, get_or, get_elem?,
  set, length-set, get_elem?-set, get_elem?-set_ne, wrap_add, arith, assert, >>=-eq-some, ◌==◌,
  if◌then◌else◌,
}
use nach_operator_system.Machine.{
  Machine, ExceptionType, no_exception, syscall_exception, page_fault_exception,
  read_only_exception, bus_error_exception, address_error_exception, overflow_exception,
  illegal_instr_exception, pc_reg, next_pc_reg, prev_pc_reg, store_at, read_register,
  write_register, num_total_regs,
}
use nach_operator_system.Kernel.{Kernel, Services, returns, write_reg}
use nach_operator_system.Kernel.Return.{
  OnReturn, OnReturn-returns, OnReturn-lift, OnReturn->>=, OnReturn-weaken, OnReturn-halts,
}
use nach_operator_system.Kernel.Transfer.{increase_program_counter_regs}
use nach_operator_system.Kernel.Handler.{calls, unexpected, by_exception, exception_handler}
use nach_operator_system.Kernel.Registers.{Keeps, Keeps-refl}
use nach_operator_system.Kernel.Registers.Handling.{system_call-Since}

-- Past the instruction that called: the counters move on by one, and only they and r2 change.
pub record IsAfter (m m' : Machine) : Type 0 where
  pub prev_pc : get_elem? m'.registers prev_pc_reg ≡ get_elem? m.registers pc_reg
  pub pc : get_elem? m'.registers pc_reg ≡ get_elem? m.registers next_pc_reg
  pub next_pc :
      (n : ℕ) × (get_elem? m.registers next_pc_reg ≡ some n)
      × (get_elem? m'.registers next_pc_reg ≡ some (wrap_add n 4))
  pub others :
      (s : ℕ)
      → s ≢ 2
      → s ≢ pc_reg
      → s ≢ next_pc_reg
      → s ≢ prev_pc_reg
      → get_elem? m'.registers s ≡ get_elem? m.registers s

write_register-set :
    (num v : ℕ) (m m' : Machine)
    → write_register num v m ≡ some m'
    → (num < length m.registers) × (m'.registers ≡ set m.registers num v)
unfolding write_register
write_register-set num v m m' h =
    let (t, small, rest) = >>=-eq-some (assert (ltb num num_total_regs)) _ h in
    let (registers, stored, same) = >>=-eq-some (store_at m.registers num v) _ rest in
    let (t', fits, put) = >>=-eq-some (assert (ltb num (length m.registers))) _ stored in
    (ground arith, ground arith)

read_register-get :
    (num v : ℕ) (m : Machine) → read_register num m ≡ some v → get_elem? m.registers num ≡ some v
unfolding read_register
read_register-get num v m h =
    let (t, small, rest) = >>=-eq-some (assert (ltb num num_total_regs)) _ h in rest

-- The registers once the three counters are written.
abbrev counted : List ℕ → ℕ → ℕ → List ℕ
counted registers pc after =
    set (set (set registers prev_pc_reg pc) pc_reg after) next_pc_reg (wrap_add after 4)

get_elem?-counted :
    (registers : List ℕ) (pc after s : ℕ)
    → prev_pc_reg < length registers
    → get_elem? (counted registers pc after) s ≡ (
        if s == next_pc_reg
        then some (wrap_add after 4)
        else if s == pc_reg
        then some after
        else if s == prev_pc_reg
        then some pc
        else get_elem? registers s)
get_elem?-counted registers pc after s h =
    let r1 = set registers prev_pc_reg pc in
    let r2 = set r1 pc_reg after in
    let l1 : length r1 ≡ length registers = length-set registers prev_pc_reg pc in
    let l2 : length r2 ≡ length registers = length-set r1 pc_reg after ∙ l1 in
    ground (
      arith,
      get_elem?-set registers prev_pc_reg s pc h,
      get_elem?-set r1 pc_reg s after (omega arith),
      get_elem?-set r2 next_pc_reg s (wrap_add after 4) (omega arith),
    )

counted-IsAfter :
    (m m1 m' : Machine) (pc after : ℕ)
    → Keeps m m1
    → get_elem? m1.registers pc_reg ≡ some pc
    → get_elem? m1.registers next_pc_reg ≡ some after
    → prev_pc_reg < length m1.registers
    → m'.registers ≡ counted m1.registers pc after
    → IsAfter m m'
counted-IsAfter m m1 m' pc after kept at_pc at_next h same =
    let at =
      λ (s : ℕ). ap (λ r. get_elem? r s) same ∙ get_elem?-counted m1.registers pc after s h in
    record {
      prev_pc = at prev_pc_reg ∙ sym at_pc ∙ kept.others pc_reg (ground arith);
      pc = at pc_reg ∙ sym at_next ∙ kept.others next_pc_reg (ground arith);
      next_pc = (after, sym (kept.others next_pc_reg (ground arith)) ∙ at_next, at next_pc_reg);
      others = λ s h2 hpc hnext hprev. at s ∙ ground (arith, kept.others s h2);
    }

module _ {File World : Type 0} where
  write_reg-set :
      (num v : ℕ) (k : Kernel File World)
      → OnReturn
          (λ (k' : Kernel File World).
            (num < length k.machine.registers)
            × (k'.machine.registers ≡ set k.machine.registers num v))
          (write_reg num v k)
  write_reg-set num v k =
      OnReturn-lift (write_register num v k.machine)
        λ m e. OnReturn-returns _ (write_register-set num v k.machine m e)

  increase-IsAfter :
      (m : Machine) (k : Kernel File World)
      → Keeps m k.machine
      → OnReturn
          (λ (k' : Kernel File World). IsAfter m k'.machine)
          (increase_program_counter_regs k)
  unfolding increase_program_counter_regs
  increase-IsAfter m k kept = OnReturn-lift (read_register pc_reg k.machine) λ pc e0.
      OnReturn->>= (write_reg-set prev_pc_reg pc k) λ k1 (h, e1).
        OnReturn-lift (read_register next_pc_reg k1.machine) λ after e2.
          OnReturn->>= (write_reg-set pc_reg after k1) λ k2 (h2, e3).
            OnReturn-weaken (write_reg-set next_pc_reg (wrap_add after 4) k2) λ k3 (h3, e4).
              counted-IsAfter m k.machine k3.machine pc after kept
                (read_register-get pc_reg pc k.machine e0)
                (sym (get_elem?-set_ne k.machine.registers pc (ground arith))
                  ∙ ap (λ r. get_elem? r next_pc_reg) (sym e1)
                  ∙ read_register-get next_pc_reg after k1.machine e2)
                h
                (e4
                  ∙ ap (λ r. set r next_pc_reg (wrap_add after 4))
                      (e3 ∙ ap (λ r. set r pc_reg after) e1))

  by_exception-IsAfter :
      (services : Services File World) (which : ExceptionType) (type : ℕ) (k : Kernel File World)
      → OnReturn
          (λ k'.
            ((which ≡ no_exception) × (k' ≡ k))
            ⊎ ((which ≡ syscall_exception) × IsAfter k.machine k'.machine))
          (by_exception services which type k)
  unfolding by_exception
  by_exception-IsAfter services no_exception type k = OnReturn-returns k (inl (refl, refl))
  by_exception-IsAfter services syscall_exception type k =
      OnReturn->>=
        (system_call-Since k.machine services (get_or calls type unexpected) k
          (Keeps-refl k.machine))
        λ k1 kept.
          OnReturn-weaken (increase-IsAfter k.machine k1 kept) λ k2 after. inr (refl, after)
  by_exception-IsAfter services page_fault_exception type k = OnReturn-halts
  by_exception-IsAfter services read_only_exception type k = OnReturn-halts
  by_exception-IsAfter services bus_error_exception type k = OnReturn-halts
  by_exception-IsAfter services address_error_exception type k = OnReturn-halts
  by_exception-IsAfter services overflow_exception type k = OnReturn-halts
  by_exception-IsAfter services illegal_instr_exception type k = OnReturn-halts

  -- Whenever ExceptionHandler returns to the program, either the exception was NoException and
  -- nothing has changed, or it was a system call, and the program goes on with the next
  -- instruction: PrevPCReg holds the old PCReg, PCReg the old NextPCReg, NextPCReg the word after
  -- it, and besides r2 no other register has changed. So every other exception ends Nachos.
  pub exception_handler-IsAfter :
      (services : Services File World) (which : ExceptionType) (k k' : Kernel File World)
      → exception_handler services which k ≡ returns k'
      → ((which ≡ no_exception) × (k' ≡ k))
        ⊎ ((which ≡ syscall_exception) × IsAfter k.machine k'.machine)
  unfolding exception_handler
  exception_handler-IsAfter services which k k' h =
      (OnReturn-lift (read_register 2 k.machine)
          λ type e. by_exception-IsAfter services which type k).holds
        k' h
