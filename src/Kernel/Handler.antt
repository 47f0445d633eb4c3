-- ===== src/Kernel/Handler.antt =====
-- ExceptionHandler of userprog/exception.cc, with the codes of the calls of userprog/syscall.h.
use nach_operator_system.Prelude.{ℕ, List, [], ◌∷◌, get_or}
use nach_operator_system.Machine.{
  ExceptionType, no_exception, syscall_exception, page_fault_exception, read_only_exception,
  bus_error_exception, address_error_exception, overflow_exception, illegal_instr_exception,
}
use nach_operator_system.Kernel.{Kernel, Services, Run, returns, halts, ◌>>=◌, read_reg}
use nach_operator_system.Kernel.Transfer.{increase_program_counter_regs}
use nach_operator_system.Kernel.Text.{
  sys_read_int, sys_print_int, sys_read_char, sys_print_char, sys_read_string, sys_print_string,
}
use nach_operator_system.Kernel.Files.{
  sys_create, sys_open, sys_read, sys_write, sys_seek, sys_close,
}
use nach_operator_system.Kernel.Names.{
  sys_exec, sys_join, sys_exit, sys_create_semaphore, sys_wait, sys_signal,
}

-- The codes 0 to 20, in order, and what ExceptionHandler has no case for.
pub data Call : Type 0 where
  halt exit exec join create_file open_file read_file write_file seek_file close_file : Call
  fork yield_ read_int print_int read_char print_char read_string print_string : Call
  create_semaphore wait signal unexpected : Call

abbrev pub calls : List Call
calls =
    halt ∷ exit ∷ exec ∷ join ∷ create_file ∷ open_file ∷ read_file ∷ write_file ∷ seek_file
    ∷ close_file ∷ fork ∷ yield_ ∷ read_int ∷ print_int ∷ read_char ∷ print_char ∷ read_string
    ∷ print_string ∷ create_semaphore ∷ wait ∷ signal ∷ []

module _ {File World : Type 0} (services : Services File World) where
  -- `switch (type)`. The `default` case halts as SC_Halt does.
  unfoldable pub system_call :
      Call → Kernel File World → Run (Kernel File World) (Kernel File World)
  system_call halt k = halts
  system_call exit k = sys_exit services k
  system_call exec k = sys_exec services k
  system_call join k = sys_join services k
  system_call create_file k = sys_create services k
  system_call open_file k = sys_open services k
  system_call read_file k = sys_read services k
  system_call write_file k = sys_write services k
  system_call seek_file k = sys_seek services k
  system_call close_file k = sys_close k
  system_call fork k = halts
  system_call yield_ k = halts
  system_call read_int k = sys_read_int k
  system_call print_int k = sys_print_int k
  system_call read_char k = sys_read_char k
  system_call print_char k = sys_print_char k
  system_call read_string k = sys_read_string k
  system_call print_string k = sys_print_string k
  system_call create_semaphore k = sys_create_semaphore k
  system_call wait k = sys_wait k
  system_call signal k = sys_signal k
  system_call unexpected k = halts

  unfoldable pub by_exception :
      ExceptionType → ℕ → Kernel File World → Run (Kernel File World) (Kernel File World)
  unfolding system_call increase_program_counter_regs
  by_exception no_exception type k = returns k
  by_exception syscall_exception type k =
      system_call (get_or calls type unexpected) k >>= increase_program_counter_regs
  by_exception page_fault_exception type k = halts
  by_exception read_only_exception type k = halts
  by_exception bus_error_exception type k = halts
  by_exception address_error_exception type k = halts
  by_exception overflow_exception type k = halts
  by_exception illegal_instr_exception type k = halts

  unfoldable pub exception_handler :
      ExceptionType → Kernel File World → Run (Kernel File World) (Kernel File World)
  unfolding by_exception
  exception_handler which k = read_reg 2 k >>= λ type. by_exception which type k
