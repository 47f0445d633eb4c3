-- ===== src/Semaphore/Schedule.antt =====
-- The threads that use one semaphore, in any order that the scheduler may choose.
use nach_operator_system.Prelude.{
  ℕ, ◌≡◌, true, false, Option, some, none, List, [], ◌∷◌, ◌++◌, ℤ, suc,
}
use nach_operator_system.Semaphore.{Semaphore, new_semaphore, try_p, v}

-- `woken` are the threads that a V has made ready and that have not yet tested the value again.
-- `entered` counts the calls of P that have returned, `signals` the calls of V.
pub record System : Type 0 where
  pub sem : Semaphore
  pub woken : List ℕ
  pub entered : ℕ
  pub signals : ℕ

abbrev pub start : ℤ → System
start initial = record { sem = new_semaphore initial; woken = []; entered = 0; signals = 0 }

abbrev pub wake : Option ℕ → List ℕ → List ℕ
wake none woken = woken
wake (some thread) woken = thread ∷ woken

-- A thread calls P and passes, calls P and sleeps, wakes and passes, wakes and sleeps again (the
-- value was taken in between), or calls V. Any woken thread may run next.
pub data Step (s : System) : System → Type 0 where
  pass :
      (thread : ℕ) (sem : Semaphore)
      → try_p thread s.sem ≡ (true, sem)
      → Step s (record s { sem = sem; entered = suc s.entered })
  sleep :
      (thread : ℕ) (sem : Semaphore)
      → try_p thread s.sem ≡ (false, sem)
      → Step s (record s { sem = sem })
  wake_pass :
      (thread : ℕ) (before after : List ℕ) (sem : Semaphore)
      → s.woken ≡ before ++ thread ∷ after
      → try_p thread s.sem ≡ (true, sem)
      → Step s (record s { sem = sem; woken = before ++ after; entered = suc s.entered })
  wake_sleep :
      (thread : ℕ) (before after : List ℕ) (sem : Semaphore)
      → s.woken ≡ before ++ thread ∷ after
      → try_p thread s.sem ≡ (false, sem)
      → Step s (record s { sem = sem; woken = before ++ after })
  signal :
      (woken : Option ℕ) (sem : Semaphore)
      → v s.sem ≡ (woken, sem)
      → Step s (record s { sem = sem; woken = wake woken s.woken; signals = suc s.signals })

pub data Reach (initial : ℤ) : System → Type 0 where
  here : Reach initial (start initial)
  next : {s t : System} → Reach initial s → Step s t → Reach initial t
