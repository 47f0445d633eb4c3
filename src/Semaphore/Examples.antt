-- ===== src/Semaphore/Examples.antt =====
-- Two threads on one semaphore: a run in which a third takes the value before the woken one.
use nach_operator_system.Prelude.{ℕ, ◌+◌, ◌≤◌, ◌<◌, ◌≡◌, refl, true, some, [], ◌∷◌, pos, length}
use nach_operator_system.Semaphore.{Semaphore, new_semaphore, try_p, v}
use nach_operator_system.Semaphore.Schedule.{System, pass, sleep, signal, Reach, here, next}
use nach_operator_system.Semaphore.Progress.{passes_bounded, no_lost_wakeup}

-- Thread 1 passes, 2 and 3 sleep, and a V wakes 2.
abbrev contended : System
contended = record {
  sem = record { value = pos 1; queue = 3 ∷ [] };
  woken = 2 ∷ [];
  entered = 1;
  signals = 1;
}

contended-Reach : Reach (pos 1) contended
unfolding try_p v new_semaphore
contended-Reach =
    next
      (next
        (next (next here (pass 1 (record { value = pos 0; queue = [] }) refl))
          (sleep 2 (record { value = pos 0; queue = 2 ∷ [] }) refl))
        (sleep 3 (record { value = pos 0; queue = 2 ∷ 3 ∷ [] }) refl))
      (signal (some 2) (record { value = pos 1; queue = 3 ∷ [] }) refl)

passes_bounded_example : contended.entered ≤ 1 + contended.signals
passes_bounded_example = passes_bounded 1 contended-Reach

no_lost_wakeup_example :
    (0 < length contended.woken)
    × ((thread : ℕ) → (sem : Semaphore) × (try_p thread contended.sem ≡ (true, sem)))
no_lost_wakeup_example = no_lost_wakeup 1 contended-Reach (λ e. cc) (λ e. cc)
