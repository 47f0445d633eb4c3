-- ===== src/Scheduler/Steps.antt =====
-- What happens to the threads of threads/thread.cc, in every order.
use nach_operator_system.Prelude.{ℕ, Bool, some, none, ◌≡◌, ◌≢◌}
use nach_operator_system.LinkedList.{update, new_list}
use nach_operator_system.Scheduler.{
  just_created, running, blocked, Scheduler, set_status, ready_to_run, yield_, sleep_pass, sleep,
  finish,
}

-- A step is an operation of the thread that runs, one more pass of a thread that found none ready
-- when it went to sleep, or a wake-up, by V or by an interrupt. Whether the next thread was
-- switched out before is `resumed`.
pub data Step : Scheduler → Scheduler → Type 0 where
  creates :
      {s : Scheduler} (t : ℕ) → s.statuses t ≡ none → Step s (set_status t (some just_created) s)
  forks :
      {s s' : Scheduler} (t : ℕ)
      → s.statuses t ≡ some just_created
      → ready_to_run t s ≡ some s'
      → Step s s'
  wakes :
      {s s' : Scheduler} (t : ℕ)
      → s.statuses t ≡ some blocked
      → s.to_be_destroyed ≢ some t
      → ready_to_run t s ≡ some s'
      → Step s s'
  yields :
      {s s' : Scheduler} (resumed : Bool)
      → s.statuses s.current ≡ some running
      → yield_ resumed s.current s ≡ some s'
      → Step s s'
  sleeps :
      {s s' : Scheduler} (resumed switched : Bool)
      → s.statuses s.current ≡ some running
      → sleep resumed s.current s ≡ some (switched, s')
      → Step s s'
  passes :
      {s s' : Scheduler} (resumed switched : Bool)
      → s.statuses s.current ≢ some running
      → sleep_pass resumed s ≡ some (switched, s')
      → Step s s'
  finishes :
      {s s' : Scheduler} (resumed switched : Bool)
      → s.statuses s.current ≡ some running
      → finish resumed s.current s ≡ some (switched, s')
      → Step s s'

-- The thread `main` runs alone, as Initialize leaves it.
abbrev pub started : ℕ → Scheduler
started main = record {
  ready_list = new_list;
  statuses = update (λ t. none) main (some running);
  current = main;
  to_be_destroyed = none;
}

pub data Reach (start : Scheduler) : Scheduler → Type 0 where
  here : Reach start start
  then_ : {s t : Scheduler} → Reach start s → Step s t → Reach start t
