-- ===== src/Scheduler.antt =====
-- threads/scheduler.h, scheduler.cc, thread.h and thread.cc: which thread runs, and which are ready.
-- A thread is a number; an operation runs with interrupts off, up to SWITCH, and what the thread
-- that SWITCH goes to does first. The stacks and the registers of the threads are left out.
mod Examples
pub mod Steps
pub mod Invariant
pub mod Handing
pub mod Reachable
use nach_operator_system.Prelude.{
  ℕ, Bool, true, false, not, Option, some, none, ◌==◌, if◌then◌else◌, assert, ◌>>=◌, ◌>>◌,
}
use nach_operator_system.LinkedList.{LinkedList, new_list, update, append, remove}

pub data ThreadStatus : Type 0 where
  just_created running ready blocked : ThreadStatus

-- `statuses` has the threads there are. The last two fields are the globals `currentThread` and
-- `threadToBeDestroyed` of threads/system.cc.
pub record Scheduler : Type 0 where
  pub ready_list : LinkedList ℕ
  pub statuses : ℕ → Option ThreadStatus
  pub current : ℕ
  pub to_be_destroyed : Option ℕ

abbrev pub set_status : ℕ → Option ThreadStatus → Scheduler → Scheduler
set_status thread st s = record s { statuses = update s.statuses thread st }

-- A thread that is not there is a wild pointer.
unfoldable pub ready_to_run : ℕ → Scheduler → Option Scheduler
ready_to_run thread s = do
  st ← s.statuses thread
  ready_list ← append thread s.ready_list
  some (set_status thread (some ready) (record s { ready_list = ready_list }))

unfoldable pub find_next_to_run : Scheduler → Option (Option ℕ × Scheduler)
find_next_to_run s = remove s.ready_list >>= λ (r : Option ℕ × LinkedList ℕ).
    some (r.0, record s { ready_list = r.1 })

-- `delete threadToBeDestroyed`, with the ASSERT of the destructor.
unfoldable pub destroy : Option ℕ → Scheduler → Option Scheduler
destroy none s = some s
destroy (some t) s =
    assert (not (t == s.current)) >> some (set_status t none (record s { to_be_destroyed = none }))

-- Run(nextThread). A thread that was switched out before goes on behind its SWITCH; one that has
-- not run yet starts at ThreadRoot.
unfoldable pub run : Bool → ℕ → Scheduler → Option Scheduler
unfolding destroy
run resumed next s =
    let s1 = set_status next (some running) (record s { current = next }) in
    if resumed then destroy s1.to_be_destroyed s1 else some s1

unfoldable pub yield_to : Bool → ℕ → Option ℕ × Scheduler → Option Scheduler
unfolding run ready_to_run
yield_to resumed this (none, s) = some s
yield_to resumed this (some next, s) = ready_to_run this s >>= run resumed next

-- Yield of the thread `this`.
unfoldable pub yield_ : Bool → ℕ → Scheduler → Option Scheduler
unfolding yield_to find_next_to_run
yield_ resumed this s = assert (this == s.current) >> find_next_to_run s >>= yield_to resumed this

-- One pass of the loop of Sleep: `false` if no thread was ready, and the machine idles.
unfoldable pub switch_to : Bool → Option ℕ × Scheduler → Option (Bool × Scheduler)
unfolding run
switch_to resumed (none, s) = some (false, s)
switch_to resumed (some next, s) = run resumed next s >>= λ s'. some (true, s')

unfoldable pub sleep_pass : Bool → Scheduler → Option (Bool × Scheduler)
unfolding switch_to find_next_to_run
sleep_pass resumed s = find_next_to_run s >>= switch_to resumed

-- Sleep of the thread `this`, up to the end of the first pass.
unfoldable pub sleep : Bool → ℕ → Scheduler → Option (Bool × Scheduler)
unfolding sleep_pass
sleep resumed this s =
    assert (this == s.current) >> sleep_pass resumed (set_status this (some blocked) s)

unfoldable pub finish : Bool → ℕ → Scheduler → Option (Bool × Scheduler)
unfolding sleep
finish resumed this s =
    assert (this == s.current) >> sleep resumed this (record s { to_be_destroyed = some s.current })
