-- ===== src/Kernel/Registers/Handling.antt =====
-- The cases of ExceptionHandler in userprog/exception.cc that go to the process table and the
-- semaphores, and ExceptionHandler as a whole, for the registers.
use nach_operator_system.Prelude.{◌+◌, ℤ, to_int}
use nach_operator_system.Machine.{Machine, read_register}
use nach_operator_system.STable.{Waited, no_such_name, passed, asleep, create, wait, signal}
use nach_operator_system.Kernel.{Run, Kernel, Services, returns, sleeps, halts, stops}
use nach_operator_system.Kernel.Return.{
  OnReturn, OnReturn-halts, OnReturn-stops, OnReturn-sleeps, OnReturn->>=, OnReturn-lift,
}
use nach_operator_system.Kernel.Files.{max_file_length}
use nach_operator_system.Kernel.Names.{
  from_world, sys_exec, sys_join, sys_exit, sys_create_semaphore, after_wait, sys_wait, sys_signal,
}
use nach_operator_system.Kernel.Registers.{Since, write_reg-Since, user2system-Since}
use nach_operator_system.Kernel.Registers.Calls.{
  read_int-Since, print_int-Since, print_char-Since, read_char-Since, read_string-Since,
  print_string-Since,
}
use nach_operator_system.Kernel.Registers.FileCalls.{
  create-Since, open-Since, read-Since, write-Since, seek-Since, close-Since,
}
use nach_operator_system.Kernel.Handler.{
  Call, halt, exit, exec, join, create_file, open_file, read_file, write_file, seek_file,
  close_file, fork, yield_, read_int, print_int, read_char, print_char, read_string, print_string,
  create_semaphore, unexpected, system_call,
}

module _ {File World : Type 0} (m0 : Machine) where
  abbrev Fine : Run (Kernel File World) (Kernel File World) → Type 0
  Fine r = OnReturn (Since m0) r

  from_world-Since :
      (r : Run World (ℤ × World)) (k : Kernel File World) → Since m0 k → Fine (from_world r k)
  from_world-Since (returns a) k kept = write_reg-Since m0 _ _ kept
  from_world-Since (sleeps w) k kept = OnReturn-sleeps _
  from_world-Since halts k kept = OnReturn-halts
  from_world-Since stops k kept = OnReturn-stops

  create_semaphore-Since : (k : Kernel File World) → Since m0 k → Fine (sys_create_semaphore k)
  unfolding sys_create_semaphore
  create_semaphore-Since k kept = OnReturn-lift (read_register 4 k.machine) λ addr e.
      OnReturn-lift (read_register 5 k.machine) λ semval e1.
        OnReturn->>= (user2system-Since m0 addr (max_file_length + 1) k kept) λ r kept1.
          OnReturn-lift (create r.0 (to_int semval) r.1.sem_tab)
            λ t e2. write_reg-Since m0 _ _ kept1

  after_wait-Since : (w : Waited) (k : Kernel File World) → Since m0 k → Fine (after_wait w k)
  after_wait-Since no_such_name k kept = write_reg-Since m0 _ k kept
  after_wait-Since passed k kept = write_reg-Since m0 _ k kept
  after_wait-Since (asleep i) k kept = OnReturn-sleeps _

  wait-Since : (k : Kernel File World) → Since m0 k → Fine (sys_wait k)
  unfolding sys_wait
  wait-Since k kept = OnReturn-lift (read_register 4 k.machine) λ addr e.
      OnReturn->>= (user2system-Since m0 addr (max_file_length + 1) k kept) λ r kept1.
        OnReturn-lift (wait r.1.thread r.0 r.1.sem_tab)
          λ t e1. after_wait-Since t.0 (record r.1 { sem_tab = t.1 }) kept1

  signal-Since : (k : Kernel File World) → Since m0 k → Fine (sys_signal k)
  unfolding sys_signal
  signal-Since k kept = OnReturn-lift (read_register 4 k.machine) λ addr e.
      OnReturn->>= (user2system-Since m0 addr (max_file_length + 1) k kept)
        λ r kept1. OnReturn-lift (signal r.0 r.1.sem_tab) λ t e1. write_reg-Since m0 _ _ kept1

  module _ (services : Services File World) where
    exec-Since : (k : Kernel File World) → Since m0 k → Fine (sys_exec services k)
    unfolding sys_exec
    exec-Since k kept = OnReturn-lift (read_register 4 k.machine) λ addr e.
        OnReturn->>= (user2system-Since m0 addr (max_file_length + 1) k kept)
          λ r kept1. from_world-Since (services.exec_update r.0 r.1.world) r.1 kept1

    join-Since : (k : Kernel File World) → Since m0 k → Fine (sys_join services k)
    unfolding sys_join
    join-Since k kept =
        OnReturn-lift (read_register 4 k.machine)
          λ id e. from_world-Since (services.join_update (to_int id) k.world) k kept

    exit-Since : (k : Kernel File World) → Since m0 k → Fine (sys_exit services k)
    unfolding sys_exit
    exit-Since k kept =
        OnReturn-lift (read_register 4 k.machine)
          λ status e. from_world-Since (services.exit_update (to_int status) k.world) k kept

    pub system_call-Since :
        (call : Call) (k : Kernel File World) → Since m0 k → Fine (system_call services call k)
    unfolding system_call
    system_call-Since halt k kept = OnReturn-halts
    system_call-Since exit k kept = exit-Since k kept
    system_call-Since exec k kept = exec-Since k kept
    system_call-Since join k kept = join-Since k kept
    system_call-Since create_file k kept = create-Since m0 services k kept
    system_call-Since open_file k kept = open-Since m0 services k kept
    system_call-Since read_file k kept = read-Since m0 services k kept
    system_call-Since write_file k kept = write-Since m0 services k kept
    system_call-Since seek_file k kept = seek-Since m0 services k kept
    system_call-Since close_file k kept = close-Since m0 k kept
    system_call-Since fork k kept = OnReturn-halts
    system_call-Since yield_ k kept = OnReturn-halts
    system_call-Since read_int k kept = read_int-Since m0 k kept
    system_call-Since print_int k kept = print_int-Since m0 k kept
    system_call-Since read_char k kept = read_char-Since m0 k kept
    system_call-Since print_char k kept = print_char-Since m0 k kept
    system_call-Since read_string k kept = read_string-Since m0 k kept
    system_call-Since print_string k kept = print_string-Since m0 k kept
    system_call-Since create_semaphore k kept = create_semaphore-Since k kept
    system_call-Since Call.wait k kept = wait-Since k kept
    system_call-Since Call.signal k kept = signal-Since k kept
    system_call-Since unexpected k kept = OnReturn-halts
