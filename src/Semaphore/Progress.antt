-- ===== src/Semaphore/Progress.antt =====
-- What every schedule of P and V keeps: no more passes than the initial value and the signals
-- allow, and no signal lost on a waiting thread.
use nach_operator_system.Prelude.{
  ℕ, suc, ◌+◌, ◌≤◌, ◌<◌, ◌≡◌, refl, ◌⊎◌, inl, true, false, Option, List, [], ◌∷◌, ◌++◌, ℤ, pos,
  pos_part, neg_part, length, length-append, arith, ◌≢◌, ◌∙◌, ◌-ℤ◌, ap,
}
use nach_operator_system.Semaphore.{Semaphore, new_semaphore, try_p, take_waiter, v}
use nach_operator_system.Semaphore.Schedule.{
  System, wake, Step, pass, sleep, wake_pass, wake_sleep, signal, Reach, here, next,
}

-- The value is a number; with the passes it makes up the initial value and the signals; and there
-- are at least as many woken threads as units of value while a thread still waits.
pub record Inv (initial : ℕ) (s : System) : Type 0 where
  pub natural : neg_part s.sem.value ≡ 0
  pub balance : pos_part s.sem.value + s.entered ≡ initial + s.signals
  pub awake : (s.sem.queue ≡ []) ⊎ (pos_part s.sem.value ≤ length s.woken)

-- A pass takes one unit of the value and leaves the queue.
try_p-pass :
    (thread : ℕ) (s sem : Semaphore)
    → neg_part s.value ≡ 0
    → try_p thread s ≡ (true, sem)
    → (pos_part s.value ≡ suc (pos_part sem.value))
      × (neg_part sem.value ≡ 0)
      × (sem.queue ≡ s.queue)
unfolding try_p
try_p-pass thread s sem n e = ground arith

-- A thread sleeps only at value zero, and joins the queue.
try_p-sleep :
    (thread : ℕ) (s sem : Semaphore)
    → neg_part s.value ≡ 0
    → try_p thread s ≡ (false, sem)
    → (pos_part s.value ≡ 0) × (sem.value ≡ s.value)
unfolding try_p
try_p-sleep thread s sem n e = ground arith

-- V adds one unit and wakes the first waiter, if there is one.
v_at :
    (value : ℤ) (q : List ℕ) (sem : Semaphore) (woken : Option ℕ) (ready : List ℕ)
    → neg_part value ≡ 0
    → v (record { value = value; queue = q }) ≡ (woken, sem)
    → (pos_part sem.value ≡ suc (pos_part value))
      × (neg_part sem.value ≡ 0)
      × ((sem.queue ≡ []) ⊎ ((length (wake woken ready) ≡ suc (length ready)) × (q ≢ [])))
unfolding v take_waiter
v_at value [] sem woken ready n e = ground arith
v_at value (x ∷ q) sem woken ready n e = ground arith

v_lem :
    (s sem : Semaphore) (woken : Option ℕ) (ready : List ℕ)
    → neg_part s.value ≡ 0
    → v s ≡ (woken, sem)
    → (pos_part sem.value ≡ suc (pos_part s.value))
      × (neg_part sem.value ≡ 0)
      × ((sem.queue ≡ []) ⊎ ((length (wake woken ready) ≡ suc (length ready)) × (s.queue ≢ [])))
v_lem s sem woken ready n e = v_at s.value s.queue sem woken ready n e

length-without :
    (thread : ℕ) (before after woken : List ℕ)
    → woken ≡ before ++ thread ∷ after
    → length woken ≡ suc (length (before ++ after))
length-without thread before after woken e =
    ap length e ∙ omega (arith, length-append before (thread ∷ after), length-append before after)

Step-Inv : {initial : ℕ} {s t : System} → Step s t → Inv initial s → Inv initial t
Step-Inv {s = s} (pass thread sem e) inv = ground (arith, try_p-pass thread s.sem sem inv.natural e)
Step-Inv {s = s} (sleep thread sem e) inv =
    ground (arith, try_p-sleep thread s.sem sem inv.natural e)
Step-Inv {s = s} (wake_pass thread before after sem w e) inv =
    ground (
      arith,
      try_p-pass thread s.sem sem inv.natural e,
      length-without thread before after s.woken w,
    )
Step-Inv {s = s} (wake_sleep thread before after sem w e) inv =
    ground (arith, try_p-sleep thread s.sem sem inv.natural e)
Step-Inv {s = s} (signal woken sem e) inv =
    ground (arith, v_lem s.sem sem woken s.woken inv.natural e)

Reach-Inv : {initial : ℕ} {s : System} → Reach (pos initial) s → Inv initial s
unfolding new_semaphore
Reach-Inv here = record { natural = refl; balance = refl; awake = inl refl }
Reach-Inv (next r st) = Step-Inv st (Reach-Inv r)

-- From a value that is not negative, in every schedule: the calls of P that have returned are at
-- most the initial value and the calls of V together.
pub passes_bounded :
    (initial : ℕ) {s : System} → Reach (pos initial) s → s.entered ≤ initial + s.signals
passes_bounded initial r = let inv = Reach-Inv r in omega (arith, inv.balance)

-- No wakeup is lost: whenever a thread waits on the queue although the value is not zero, some
-- thread is awake to test it, and any thread that runs its test then passes.
pub no_lost_wakeup :
    (initial : ℕ) {s : System}
    → Reach (pos initial) s
    → s.sem.queue ≢ []
    → s.sem.value ≢ pos 0
    → (0 < length s.woken) × ((thread : ℕ) → (sem : Semaphore) × (try_p thread s.sem ≡ (true, sem)))
unfolding try_p
no_lost_wakeup initial {s} r waits some_value =
    let inv = Reach-Inv r in
    (
      ground (arith, inv.awake, inv.natural),
      λ thread. (record (s.sem) { value = s.sem.value -ℤ pos 1 }, ground arith),
    )
