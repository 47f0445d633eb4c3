-- ===== src/Kernel/Transfer.antt =====
-- User2System, System2User and IncreaseProgramCounterRegs of userprog/exception.cc.
-- ExceptionHandler calls Halt on each exception that ReadMem and WriteMem raise, which does not
-- return: a reference that fails ends Nachos.
use nach_operator_system.Prelude.{
  ℕ, zero, suc, ◌+◌, ◌-◌, Bool, true, false, Option, some, none, List, [], ◌∷◌, ◌++◌, ◌==◌, length,
  replicate, ℤ, pos, negsuc, minus_one, wrap_add, CString, ◌%◌, ◌^◌,
}
use nach_operator_system.Machine.{Machine, Handler, pc_reg, next_pc_reg, prev_pc_reg}
use nach_operator_system.Machine.Memory.{read_mem, write_mem, sign_extend_byte}
use nach_operator_system.Kernel.{
  Kernel, Run, returns, halts, stops, ◌>>=◌, lift, read_reg, write_reg,
}

-- The part of RaiseException before Halt.
abbrev pub halt_handler : Handler
halt_handler which m = some m

abbrev pub if_read : {S : Type 0} → Option ℕ × Machine → Run S (ℕ × Machine)
if_read (none, m) = halts
if_read (some v, m) = returns (v, m)

abbrev pub if_written : {S : Type 0} → Bool × Machine → Run S Machine
if_written (false, m) = halts
if_written (true, m) = returns m

-- A `char` that the kernel reads or writes in the memory of the program.
unfoldable pub read_char : {S : Type 0} → ℕ → Machine → Run S (ℕ × Machine)
read_char addr m = lift (read_mem halt_handler addr 1 m) >>= if_read

unfoldable pub write_char : {S : Type 0} → ℕ → ℕ → Machine → Run S Machine
write_char addr value m = lift (write_mem halt_handler addr 1 value m) >>= if_written

-- The loop of User2System at `addr`, with `left` characters to go. The result is what stands in
-- `kernelBuf` before its first zero.
unfoldable pub copy_in : {S : Type 0} → ℕ → ℕ → Machine → Run S (CString × Machine)
copy_in zero addr m = returns ([], m)
copy_in (suc left) addr m = read_char addr m >>= λ (r : ℕ × Machine). elim (r.0 == 0) [
  | true ↦ returns ([], r.1)
  | false ↦ copy_in left (wrap_add addr 1) r.1 >>= λ (s : CString × Machine).
      returns (r.0 % 2 ^ 8 ∷ s.0, s.1)
]

-- The `do` loop of System2User at `buffer[i]`, with `left` characters to go, one at least.
unfoldable pub copy_out : {S : Type 0} → ℕ → ℕ → List ℕ → Machine → Run S (ℕ × Machine)
copy_out zero addr buffer m = returns (0, m)
copy_out (suc left) addr [] m = stops
copy_out (suc left) addr (c ∷ rest) m = write_char addr (sign_extend_byte c) m >>= λ m1.
    elim (c == 0) [
      | true ↦ returns (1, m1)
      | false ↦
          copy_out left (wrap_add addr 1) rest m1 >>= λ (r : ℕ × Machine). returns (suc r.0, r.1)
    ]

-- `kernelBuf` as a whole, of `limit + 1` characters.
abbrev pub kernel_buf : ℕ → CString → List ℕ
kernel_buf limit text = text ++ replicate (limit + 1 - length text) 0

module _ {File World : Type 0} where
  unfoldable pub user2system :
      ℕ → ℕ → Kernel File World → Run (Kernel File World) (CString × Kernel File World)
  user2system virt_addr limit k = copy_in limit virt_addr k.machine >>= λ (r : CString × Machine).
      returns (r.0, record k { machine = r.1 })

  unfoldable pub system2user :
      ℕ → ℤ → List ℕ → Kernel File World → Run (Kernel File World) (ℤ × Kernel File World)
  system2user virt_addr (negsuc n) buffer k = returns (minus_one, k)
  system2user virt_addr (pos len) buffer k =
      copy_out len virt_addr buffer k.machine >>= λ (r : ℕ × Machine).
      returns (pos r.0, record k { machine = r.1 })

  unfoldable pub increase_program_counter_regs :
      Kernel File World → Run (Kernel File World) (Kernel File World)
  increase_program_counter_regs k = do
    prog_counter ← read_reg pc_reg k
    k1 ← write_reg prev_pc_reg prog_counter k
    after ← read_reg next_pc_reg k1
    k2 ← write_reg pc_reg after k1
    write_reg next_pc_reg (wrap_add after 4) k2
