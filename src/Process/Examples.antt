-- ===== src/Process/Examples.antt =====
-- A child that exits with 3 while its parent sleeps in Join, and Remove of its PCB.
use nach_operator_system.Prelude.{
  ◌≤◌, ◌<◌, ◌≡◌, refl, false, some, none, [], ◌∷◌, ℤ, pos, minus_one, arith,
}
use nach_operator_system.BitMap.{clear}
use nach_operator_system.Semaphore.{new_semaphore, try_p, v, take_waiter}
use nach_operator_system.Process.{
  Pcb, PTable, new_pcb, join_wait, exit_wait, join_release, exit_release, set_exit_code, lock,
  count, uncount, unlock, returned, finished, remove_process,
}
use nach_operator_system.Process.Handshake.{
  join_asleep, joined, exiting, gone, at, count_begins, counts, count_ends, join_sleeps, join_wakes,
  join_passes, code_gets, exit_signals, code_sets, join_signals, exit_passes, uncount_begins,
  uncounts, uncount_ends, Reach, here, then_,
}
use nach_operator_system.Process.Joining.{fork, joined-exit_code, gone-joined}
use nach_operator_system.Process.Progress.{exit_waits_for_join}

abbrev asked : Pcb
asked = unlock (count (lock 0 (new_pcb (pos 0) 1)).1)

abbrev slept : Pcb
slept = (join_wait 0 asked).1

abbrev exited : Pcb
exited = join_release (set_exit_code (pos 3) slept)

abbrev answered : Pcb
answered = exit_release (join_wait 0 exited).1

abbrev left : Pcb
left = unlock (uncount (lock 1 (exit_wait 1 answered).1).1)

asleep-Reach : Reach 0 1 (fork (pos 0) 1) (at exited join_asleep (exiting (pos 3)))
unfolding lock unlock join_wait new_pcb new_semaphore try_p v take_waiter
asleep-Reach =
    then_
      (then_
        (then_ (then_ (then_ (then_ here (count_begins refl)) counts) count_ends)
          (join_sleeps refl))
        (code_sets (pos 3)))
      join_signals

joined-Reach : Reach 0 1 (fork (pos 0) 1) (at answered (joined (pos 3)) (exiting (pos 3)))
unfolding lock unlock join_wait join_release new_pcb new_semaphore try_p v take_waiter
joined-Reach =
    then_ (then_ (then_ (then_ asleep-Reach (join_wakes refl)) (join_passes refl)) code_gets)
      exit_signals

gone-Reach : Reach 0 1 (fork (pos 0) 1) (at left (joined (pos 3)) (gone (pos 3)))
unfolding lock unlock join_wait exit_wait join_release exit_release new_pcb new_semaphore try_p v
    take_waiter
gone-Reach =
    then_ (then_ (then_ (then_ joined-Reach (exit_passes refl)) (uncount_begins refl)) uncounts)
      uncount_ends

joined-exit_code_example : (2 ≤ 2) × (◌≡◌ {A = ℤ} (pos 3) (pos 3))
joined-exit_code_example = joined-exit_code (pos 0) 1 joined-Reach (pos 3) refl

gone-joined_example : joined (pos 3) ≡ joined (pos 3)
gone-joined_example = gone-joined (pos 0) 1 gone-Reach (pos 3) refl

exit_waits_for_join_example :
    (4 < 7 → (2 < 4) × ((exit_wait 1 exited).0 ≡ false))
    × (1 ≤ 4
        → (p : Pcb) × Reach 0 1
            (at exited join_asleep (exiting (pos 3)))
            (at p (joined (pos 3)) (gone (pos 3))))
exit_waits_for_join_example = exit_waits_for_join (pos 0) 1 asleep-Reach (omega arith)

abbrev table : PTable
table = record {
  bm = record { num_bits = 2; map = 3 ∷ [] };
  pcb = some (new_pcb minus_one 0) ∷ some (record (new_pcb (pos 0) 1) { thread = some 5 }) ∷ [];
  psize = 2;
}

-- Thread 5 does not come back from Remove of its own PCB, and the slot stays taken. A PCB with no
-- thread is removed.
remove_process_runs :
    (remove_process 5 (pos 1) table ≡ some (finished table))
    × (remove_process 5 (pos 0) table
        ≡ some (
            returned (record table {
              bm = record { num_bits = 2; map = 2 ∷ [] };
              pcb = none ∷ some (record (new_pcb (pos 0) 1) { thread = some 5 }) ∷ [];
            })))
unfolding remove_process new_pcb clear
remove_process_runs = (refl, refl)
