-- ===== src/Scheduler/Examples.antt =====
-- Two threads that take turns: tests of the operations, and the law of the ready list at them.
use nach_operator_system.Prelude.{◌≡◌, refl, true, false, Option, some, none}
use nach_operator_system.LinkedList.{append, remove, sorted_remove, remove_from}
use nach_operator_system.Scheduler.{
  Scheduler, ready, just_created, set_status, ready_to_run, find_next_to_run, yield_, yield_to, run,
  destroy,
}
use nach_operator_system.Scheduler.Steps.{started, Reach, here, then_, creates, forks, yields}
use nach_operator_system.Scheduler.Invariant.{Inv}
use nach_operator_system.Scheduler.Reachable.{ready_list-Inv}

abbrev or_else : Option Scheduler → Scheduler → Scheduler
or_else none s = s
or_else (some s') s = s'

-- Thread 0 creates thread 7, forks it and yields to it; 7 yields back.
abbrev created : Scheduler
created = set_status 7 (some just_created) (started 0)

abbrev forked : Scheduler
forked = or_else (ready_to_run 7 created) created

abbrev yielded : Scheduler
yielded = or_else (yield_ false 0 forked) forked

abbrev back : Scheduler
back = or_else (yield_ true 7 yielded) yielded

takes_turns :
    (yielded.current ≡ 7)
    × (yielded.statuses 0 ≡ some ready)
    × (back.current ≡ 0)
    × (back.statuses 7 ≡ some ready)
unfolding ready_to_run yield_ yield_to find_next_to_run run destroy append remove sorted_remove
    remove_from
takes_turns = (refl, refl, refl, refl)

yielded-Reach : Reach (started 0) yielded
unfolding ready_to_run yield_ yield_to find_next_to_run run destroy append remove sorted_remove
    remove_from
yielded-Reach =
    then_ (then_ (then_ here (creates 7 refl)) (forks 7 refl refl)) (yields false refl refl)

ready_list-Inv_example : Inv yielded
ready_list-Inv_example = ready_list-Inv 0 yielded-Reach
