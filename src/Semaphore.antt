-- ===== src/Semaphore.antt =====
-- Semaphore of threads/synch.cc, on one processor with interrupts off inside P and V: each pass of
-- the `while` loop of P, and each V, is one step. A thread is a number. The `value` is an `int`;
-- that it stays within 32 bits is not modelled.
mod Examples
pub mod Schedule
pub mod Progress
use nach_operator_system.Prelude.{
  ℕ, Bool, true, false, Option, some, none, List, [], ◌∷◌, ◌++◌, ℤ, pos, ◌+ℤ◌, ◌-ℤ◌, eqb_ℤ,
  if◌then◌else◌,
}

pub record Semaphore : Type 0 where
  pub value : ℤ
  pub queue : List ℕ

unfoldable pub new_semaphore : ℤ → Semaphore
new_semaphore initial = record { value = initial; queue = [] }

-- One pass of the loop of P by `thread`: `true` if it has left the loop and consumed the value,
-- `false` if it has gone to sleep on the queue, to test again when it wakes.
unfoldable pub try_p : ℕ → Semaphore → Bool × Semaphore
try_p thread s =
    if eqb_ℤ s.value (pos 0)
    then (false, record s { queue = s.queue ++ thread ∷ [] })
    else (true, record s { value = s.value -ℤ pos 1 })

-- `queue->Remove()`.
unfoldable pub take_waiter : List ℕ → Option ℕ × List ℕ
take_waiter [] = (none, [])
take_waiter (thread ∷ rest) = (some thread, rest)

-- V gives back the thread that it makes ready to run, if any.
unfoldable pub v : Semaphore → Option ℕ × Semaphore
unfolding take_waiter
v s =
    let (woken, rest) = take_waiter s.queue in
    (woken, record { value = s.value +ℤ pos 1; queue = rest })
