-- ===== src/Kernel/Names.antt =====
-- The cases of ExceptionHandler in userprog/exception.cc that go to the process table and to the
-- table of semaphores.
use nach_operator_system.Prelude.{
  ℕ, ◌+◌, Option, some, none, List, [], ◌∷◌, ◌++◌, ℤ, pos, minus_one, to_int,
}
use nach_operator_system.STable.{Waited, no_such_name, passed, asleep, create, wait, signal}
use nach_operator_system.Kernel.{
  Kernel, Services, Run, returns, sleeps, halts, stops, ◌>>=◌, lift, read_reg, set_result,
}
use nach_operator_system.Kernel.Transfer.{user2system}
use nach_operator_system.Kernel.Files.{max_file_length}

-- Scheduler::ReadyToRun, for the thread that Signal wakes.
abbrev pub ready_to_run : Option ℕ → List ℕ → List ℕ
ready_to_run none ready = ready
ready_to_run (some thread) ready = ready ++ thread ∷ []

module _ {File World : Type 0} where
  -- What the process table answers.
  abbrev pub from_world :
      Run World (ℤ × World) → Kernel File World → Run (Kernel File World) (Kernel File World)
  from_world (returns r) k = set_result r.0 (record k { world = r.1 })
  from_world (sleeps w) k = sleeps (record k { world = w })
  from_world halts k = halts
  from_world stops k = stops

  module _ (services : Services File World) where
    unfoldable pub sys_exec : Kernel File World → Run (Kernel File World) (Kernel File World)
    unfolding user2system
    sys_exec k = do
      virt_addr ← read_reg 4 k
      (filename, k1) ← user2system virt_addr (max_file_length + 1) k
      from_world (services.exec_update filename k1.world) k1

    unfoldable pub sys_join : Kernel File World → Run (Kernel File World) (Kernel File World)
    sys_join k = do id ← read_reg 4 k; from_world (services.join_update (to_int id) k.world) k

    unfoldable pub sys_exit : Kernel File World → Run (Kernel File World) (Kernel File World)
    sys_exit k = do
      status ← read_reg 4 k
      from_world (services.exit_update (to_int status) k.world) k

  unfoldable pub sys_create_semaphore :
      Kernel File World → Run (Kernel File World) (Kernel File World)
  unfolding user2system
  sys_create_semaphore k = do
    virt_addr ← read_reg 4 k
    semval ← read_reg 5 k
    (filename, k1) ← user2system virt_addr (max_file_length + 1) k
    (error, t) ← lift (create filename (to_int semval) k1.sem_tab)
    set_result error (record k1 { sem_tab = t })

  -- A thread that sleeps writes its result, 0, when it has passed.
  abbrev pub after_wait : Waited → Kernel File World → Run (Kernel File World) (Kernel File World)
  after_wait no_such_name k = set_result minus_one k
  after_wait passed k = set_result (pos 0) k
  after_wait (asleep i) k = sleeps k

  unfoldable pub sys_wait : Kernel File World → Run (Kernel File World) (Kernel File World)
  unfolding user2system
  sys_wait k = do
    virt_addr ← read_reg 4 k
    (filename, k1) ← user2system virt_addr (max_file_length + 1) k
    (waited, t) ← lift (wait k1.thread filename k1.sem_tab)
    after_wait waited (record k1 { sem_tab = t })

  unfoldable pub sys_signal : Kernel File World → Run (Kernel File World) (Kernel File World)
  unfolding user2system
  sys_signal k = do
    virt_addr ← read_reg 4 k
    (filename, k1) ← user2system virt_addr (max_file_length + 1) k
    (error, woken, t) ← lift (signal filename k1.sem_tab)
    set_result error (record k1 { sem_tab = t; ready = ready_to_run woken k1.ready })
