-- ===== src/Machine.antt =====
-- machine/machine.h, machine.cc, translate.h and DelayedLoad of mipssim.cc: the simulated CPU.
-- A register is the 32-bit pattern of its `int`, a byte of memory a number below 256. `status`
-- is the part of the interrupt controller that RaiseException sets. The kernel's
-- ExceptionHandler, and the page table's owner, enter as parameters.
mod Examples
pub mod Translate
pub mod Memory
use nach_operator_system.Prelude.{
  ℕ, ◌*◌, ◌≡◌, Bool, Option, some, none, List, ltb, length, get_elem?, set, assert, ◌>>=◌, ◌>>◌,
}

abbrev pub page_size : ℕ
page_size = 128

abbrev pub num_phys_pages : ℕ
num_phys_pages = 256

abbrev pub memory_size : ℕ
memory_size = num_phys_pages * page_size

abbrev pub tlb_size : ℕ
tlb_size = 4

pub data ExceptionType : Type 0 where
  no_exception syscall_exception page_fault_exception read_only_exception bus_error_exception :
      ExceptionType
  address_error_exception overflow_exception illegal_instr_exception : ExceptionType

pub data MachineStatus : Type 0 where
  idle_mode system_mode user_mode : MachineStatus

-- An entry of a page table or of the TLB. The source's `use` is `used` here.
pub record TranslationEntry : Type 0 where
  pub virtual_page : ℕ
  pub physical_page : ℕ
  pub valid : Bool
  pub read_only : Bool
  pub used : Bool
  pub dirty : Bool

pub record Machine : Type 0 where
  pub main_memory : List ℕ
  pub registers : List ℕ
  pub tlb : Option (List TranslationEntry)
  pub page_table : Option (List TranslationEntry)
  pub page_table_size : ℕ
  pub status : MachineStatus

abbrev pub num_total_regs : ℕ
num_total_regs = 40

abbrev pub stack_reg : ℕ
stack_reg = 29

abbrev pub ret_addr_reg : ℕ
ret_addr_reg = 31

abbrev pub hi_reg : ℕ
hi_reg = 32

abbrev pub lo_reg : ℕ
lo_reg = 33

abbrev pub pc_reg : ℕ
pc_reg = 34

abbrev pub next_pc_reg : ℕ
next_pc_reg = 35

abbrev pub prev_pc_reg : ℕ
prev_pc_reg = 36

abbrev pub load_reg : ℕ
load_reg = 37

abbrev pub load_value_reg : ℕ
load_value_reg = 38

abbrev pub bad_vaddr_reg : ℕ
bad_vaddr_reg = 39

-- A write into an array, which has to be in range.
abbrev pub store_at {ℓ} : {A : Type ℓ} → List A → ℕ → A → Option (List A)
store_at xs i v = assert (ltb i (length xs)) >> some (set xs i v)

unfoldable pub read_register : ℕ → Machine → Option ℕ
read_register num m = assert (ltb num num_total_regs) >> get_elem? m.registers num

unfoldable pub write_register : ℕ → ℕ → Machine → Option Machine
write_register num value m = do
  assert (ltb num num_total_regs)
  registers ← store_at m.registers num value
  some (record m { registers = registers })

unfoldable pub delayed_load : ℕ → ℕ → Machine → Option Machine
delayed_load next_reg next_value m = do
  target ← get_elem? m.registers load_reg
  value ← get_elem? m.registers load_value_reg
  loaded ← store_at m.registers target value
  with_reg ← store_at loaded load_reg next_reg
  with_value ← store_at with_reg load_value_reg next_value
  registers ← store_at with_value 0 0
  some (record m { registers = registers })

-- The kernel's entry point, as RaiseException calls it.
abbrev pub Handler : Type 0
Handler = ExceptionType → Machine → Option Machine

unfoldable pub raise_exception : Handler → ExceptionType → ℕ → Machine → Option Machine
unfolding delayed_load
raise_exception handler which bad_vaddr m = do
  registers ← store_at m.registers bad_vaddr_reg bad_vaddr
  m1 ← delayed_load 0 0 (record m { registers = registers })
  m2 ← handler which (record m1 { status = system_mode })
  some (record m2 { status = user_mode })
