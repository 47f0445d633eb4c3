-- ===== src/Kernel.antt =====
-- userprog/exception.cc: what the kernel does for a user program that makes a system call or
-- raises an exception. The machine, the descriptors and the semaphores are those of the other
-- parts; the file system and the process table enter as `Services`.
mod Examples
pub mod Console
pub mod Transfer
pub mod Numbers
pub mod Text
pub mod Files
pub mod Names
pub mod Handler
pub mod Return
pub mod Registers
use nach_operator_system.Prelude.{ℕ, Option, some, none, List, Bool, ℤ, of_int, to_int, CString}
use nach_operator_system.Machine.{Machine, read_register, write_register}
use nach_operator_system.FdTable.{FdTable}
use nach_operator_system.STable.{STable}

-- A call returns; or its thread goes to sleep, with the state it leaves; or Interrupt::Halt ends
-- Nachos; or an ASSERT fails or the effect is undefined in C++.
pub data Run (S A : Type 0) : Type 0 where
  returns : A → Run S A
  sleeps : S → Run S A
  halts stops : Run S A

infixl 5 ◌>>=◌
abbrev pub ◌>>=◌ : {S A B : Type 0} → Run S A → (A → Run S B) → Run S B
returns a >>= f = f a
sleeps s >>= f = sleeps s
halts >>= f = halts
stops >>= f = stops

abbrev pub lift : {S A : Type 0} → Option A → Run S A
lift none = stops
lift (some a) = returns a

-- The file system and the process table, on a state `World` of their own. `read_file n` gives the
-- result of OpenFile::Read and the bytes that it has put into the buffer.
pub record Services (File World : Type 0) : Type 0 where
  pub create_file : CString → World → Bool × World
  pub open_file : CString → World → Option File
  pub read_file : ℕ → File → World → ℤ × List ℕ × File × World
  pub write_file : List ℕ → ℕ → File → World → ℤ × File × World
  pub seek_file : ℕ → File → File
  pub exec_update : CString → World → Run World (ℤ × World)
  pub join_update : ℤ → World → Run World (ℤ × World)
  pub exit_update : ℤ → World → Run World (ℤ × World)

-- `input` holds the characters that the console has still to give, `output` those written to it.
-- `thread` is the thread that runs, to which `fd_table` belongs, and `ready` the ready list.
pub record Kernel (File World : Type 0) : Type 0 where
  pub machine : Machine
  pub input : List ℕ
  pub output : List ℕ
  pub thread : ℕ
  pub ready : List ℕ
  pub fd_table : FdTable File
  pub sem_tab : STable
  pub world : World

module _ {File World : Type 0} where
  abbrev pub read_reg : ℕ → Kernel File World → Run (Kernel File World) ℕ
  read_reg num k = lift (read_register num k.machine)

  abbrev pub write_reg : ℕ → ℕ → Kernel File World → Run (Kernel File World) (Kernel File World)
  write_reg num value k =
      lift (write_register num value k.machine) >>= λ m. returns (record k { machine = m })

  -- The result of a system call goes into r2.
  abbrev pub set_result : ℤ → Kernel File World → Run (Kernel File World) (Kernel File World)
  set_result z k = write_reg 2 (of_int z) k
