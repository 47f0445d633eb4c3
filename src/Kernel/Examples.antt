-- ===== src/Kernel/Examples.antt =====
-- A kernel over numbers for files: tests of system calls, and the laws at concrete states.
use nach_operator_system.Prelude.{
  ℕ, zero, suc, ◌+◌, ◌≤◌, ◌<◌, ◌≡◌, refl, ◌⊎◌, inl, true, false, some, none, List, [], ◌∷◌, ◌++◌,
  arith, drop, get_elem?, negsuc, ◌≢◌, ℤ, pos, minus_one, replicate,
}
use nach_operator_system.Machine.{
  Machine, user_mode, read_register, write_register, no_exception, syscall_exception,
  page_fault_exception,
}
use nach_operator_system.BitMap.Laws.{marked}
use nach_operator_system.FdTable.{FdTable, FilePtr, live, wild, is_read, is_write}
use nach_operator_system.FdTable.Invariant.{IsOpen, IsValid}
use nach_operator_system.Kernel.{Kernel, Services, returns, halts, write_reg, set_result}
use nach_operator_system.Kernel.Console.{console_write}
use nach_operator_system.Kernel.Transfer.{increase_program_counter_regs}
use nach_operator_system.Kernel.Numbers.{parse_int, numeral, swap_loop, read_digits}
use nach_operator_system.Kernel.Numbers.Reading.{spelled}
use nach_operator_system.Kernel.Text.{sys_print_int, sys_read_int, sys_print_char}
use nach_operator_system.Kernel.Text.RoundTrip.{read_int-print_int, read_int-spelled}
use nach_operator_system.Kernel.Files.{sys_seek}
use nach_operator_system.Kernel.Files.Seeking.{seek_closes}
use nach_operator_system.Kernel.Handler.{exception_handler, by_exception, system_call}
use nach_operator_system.Kernel.Registers.Counters.{IsAfter, exception_handler-IsAfter}

-- A file is its position. Nothing can be created, and no process started.
abbrev services : Services ℕ ℕ
services = record {
  create_file = λ name w. (false, w);
  open_file = λ name w. some 0;
  read_file = λ n f w. (pos 0, [], f, w);
  write_file = λ bytes n f w. (pos n, f + n, w);
  seek_file = λ n f. n;
  exec_update = λ name w. returns (minus_one, w);
  join_update = λ id w. returns (minus_one, w);
  exit_update = λ ec w. halts;
}

abbrev registers_of : ℕ → ℕ → ℕ → List ℕ
registers_of r2 r4 r5 = 0 ∷ 0 ∷ r2 ∷ 0 ∷ r4 ∷ r5 ∷ replicate 28 0 ++ 100 ∷ 104 ∷ 96 ∷ 0 ∷ 0 ∷ 0 ∷ []

abbrev machine_of : ℕ → ℕ → ℕ → Machine
machine_of r2 r4 r5 = record {
  main_memory = [];
  registers = registers_of r2 r4 r5;
  tlb = none;
  page_table = some [];
  page_table_size = 0;
  status = user_mode;
}

abbrev unset : FilePtr ℕ
unset = record { p_file = wild; type = pos 0 }

abbrev opened : FilePtr ℕ
opened = record { p_file = live 0; type = pos 0 }

-- Descriptors 3 and 5 are open.
abbrev table : FdTable ℕ
table = record {
  size = 10;
  flags = record { num_bits = 10; map = 40 ∷ [] };
  list_file = unset ∷ unset ∷ unset ∷ opened ∷ unset ∷ opened ∷ unset ∷ unset ∷ unset ∷ unset ∷ [];
}

abbrev kernel_of : ℕ → ℕ → ℕ → Kernel ℕ ℕ
kernel_of r2 r4 r5 = record {
  machine = machine_of r2 r4 r5;
  input = [];
  output = [];
  thread = 0;
  ready = [];
  fd_table = table;
  sem_tab = record { bm = record { num_bits = 1; map = 0 ∷ [] }; sem_tab = none ∷ []; size = 1 };
  world = 0;
}

-- "-2147483648" is read, "2147483648" is out of range, and "7x" is no number.
read_numbers :
    (parse_int (45 ∷ 50 ∷ 49 ∷ 52 ∷ 55 ∷ 52 ∷ 56 ∷ 51 ∷ 54 ∷ 52 ∷ 56 ∷ []) ≡ 0x8000_0000)
    × (parse_int (50 ∷ 49 ∷ 52 ∷ 55 ∷ 52 ∷ 56 ∷ 51 ∷ 54 ∷ 52 ∷ 56 ∷ []) ≡ 0)
    × (parse_int (55 ∷ 120 ∷ []) ≡ 0)
unfolding parse_int read_digits
read_numbers = (refl, refl, refl)

-- PrintInt of -2147483648 writes "-(".
print_min :
    sys_print_int (kernel_of 13 0x8000_0000 0)
    ≡ returns (record (kernel_of 13 0x8000_0000 0) { output = 45 ∷ 40 ∷ [] })
unfolding sys_print_int console_write numeral swap_loop read_register
print_min = refl

-- A fault in a user program ends Nachos.
fault_halts : exception_handler services page_fault_exception (kernel_of 0 0 0) ≡ halts
unfolding exception_handler by_exception read_register
fault_halts = refl

read_int-spelled_example :
    (2 ≤ 100
      → sys_read_int (record (kernel_of 12 0 0) { input = 45 ∷ 55 ∷ 10 ∷ [] })
        ≡ write_reg 2 (spelled (45 ∷ 55 ∷ [])) (record (kernel_of 12 0 0) { input = [] }))
    × (100 < 2
        → sys_read_int (record (kernel_of 12 0 0) { input = 45 ∷ 55 ∷ 10 ∷ [] })
          ≡ set_result
              (negsuc 1)
              (record (kernel_of 12 0 0) { input = drop 101 (45 ∷ 55 ∷ 10 ∷ []) }))
read_int-spelled_example = read_int-spelled (kernel_of 12 0 0) (45 ∷ 55 ∷ []) [] (refl, (refl, tt))

read_int-print_int_example :
    (text : List ℕ) × (sys_print_int (kernel_of 13 1234 0)
      ≡ returns (record (kernel_of 13 1234 0) { output = text }))
    × (sys_read_int (record (kernel_of 12 0 0) { input = text ++ 10 ∷ [] })
        ≡ write_reg 2 1234 (record (kernel_of 12 0 0) { input = [] }))
read_int-print_int_example =
    read_int-print_int (kernel_of 13 1234 0) (kernel_of 12 0 0) 1234 [] refl (omega arith)
      (omega arith)

-- The state after PrintChar of 'A'.
abbrev printed : Kernel ℕ ℕ
printed = record (kernel_of 15 65 0) {
  machine = record (machine_of 15 65 0) {
    registers = 0 ∷ 0 ∷ 15 ∷ 0 ∷ 65 ∷ 0 ∷ replicate 28 0 ++ 104 ∷ 108 ∷ 100 ∷ 0 ∷ 0 ∷ 0 ∷ [];
  };
  output = 65 ∷ [];
}

prints : exception_handler services syscall_exception (kernel_of 15 65 0) ≡ returns printed
unfolding exception_handler by_exception system_call sys_print_char console_write
    increase_program_counter_regs read_register write_register
prints = refl

exception_handler-IsAfter_example :
    ((syscall_exception ≡ no_exception) × (printed ≡ kernel_of 15 65 0))
    ⊎ ((syscall_exception ≡ syscall_exception) × IsAfter (machine_of 15 65 0) printed.machine)
exception_handler-IsAfter_example =
    exception_handler-IsAfter services syscall_exception (kernel_of 15 65 0) printed prints

opened_at :
    (i : ℕ)
    → 2 ≤ i
    → i < 10
    → marked table.flags i ≡ true
    → (f : ℕ) × (type : ℤ) × IsOpen table i f type
opened_at zero lo hi m = absurd (cc)
opened_at (suc zero) lo hi m = absurd (cc)
opened_at (suc (suc zero)) lo hi m = absurd (cc)
opened_at (suc (suc (suc zero))) lo hi m =
    (0, pos 0, record { is_marked = refl; entry = refl; mode = inl refl })
opened_at (suc (suc (suc (suc zero)))) lo hi m = absurd (cc)
opened_at (suc (suc (suc (suc (suc zero))))) lo hi m =
    (0, pos 0, record { is_marked = refl; entry = refl; mode = inl refl })
opened_at (suc (suc (suc (suc (suc (suc zero)))))) lo hi m = absurd (cc)
opened_at (suc (suc (suc (suc (suc (suc (suc zero))))))) lo hi m = absurd (cc)
opened_at (suc (suc (suc (suc (suc (suc (suc (suc zero)))))))) lo hi m = absurd (cc)
opened_at (suc (suc (suc (suc (suc (suc (suc (suc (suc zero))))))))) lo hi m = absurd (cc)
opened_at (suc (suc (suc (suc (suc (suc (suc (suc (suc (suc i)))))))))) lo hi m =
    absurd (omega arith)

table-IsValid : IsValid table
table-IsValid = record {
  sized = refl;
  bits = refl;
  words = refl;
  entries = refl;
  opened = opened_at;
}

three-IsOpen : IsOpen table 3 0 (pos 0)
three-IsOpen = record { is_marked = refl; entry = refl; mode = inl refl }

five-IsOpen : IsOpen table 5 0 (pos 0)
five-IsOpen = record { is_marked = refl; entry = refl; mode = inl refl }

-- A seek of descriptor 5 to position 3 closes descriptor 3.
seek_closes_example :
    (k' : Kernel ℕ ℕ) × (sys_seek services (kernel_of 8 3 5) ≡ returns k')
    × IsValid k'.fd_table
    × (is_read (pos 3) k'.fd_table ≡ some false)
    × (is_write (pos 3) k'.fd_table ≡ some false)
    × (get_elem? k'.machine.registers 2 ≡ some 0)
    × (◌≢◌ {A = ℕ} 5 3
        → get_elem? k'.fd_table.list_file 5 ≡ some (record { p_file = live 3; type = pos 0 }))
seek_closes_example =
    seek_closes services (kernel_of 8 3 5) table-IsValid 5 3 0 0 (pos 0) (pos 0) (omega arith)
      (omega arith) five-IsOpen (omega arith) (omega arith) three-IsOpen refl refl refl
