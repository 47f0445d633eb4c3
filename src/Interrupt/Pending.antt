-- ===== src/Interrupt/Pending.antt =====
-- The pending interrupts of machine/interrupt.cc in the order of their times.
use nach_operator_system.Prelude.{
  ℕ, suc, ◌+◌, ◌<◌, ◌≡◌, refl, ◌∙◌, true, some, List, [], ◌∷◌, if◌then◌else◌, ltb_ℤ, ℤ, pos, arith,
  lt→ltb,
}
use nach_operator_system.LinkedList.{LinkedList}
use nach_operator_system.LinkedList.Chain.{Represents}
use nach_operator_system.LinkedList.Inserting.{insert_by}
use nach_operator_system.LinkedList.Refinement.{sorted_insert-Represents}
use nach_operator_system.LinkedList.Sorting.{sorted_from, is_sorted, is_sorted-insert_by}
use nach_operator_system.Interrupt.{IntType, PendingInterrupt, Interrupt, schedule}

-- The list of pending interrupts stands for `xs`, whose times do not fall.
pub record Timed (i : Interrupt) (xs : List (ℤ × PendingInterrupt)) : Type 0 where
  pub holds : Represents i.pending xs
  pub sorted : is_sorted xs ≡ true

-- How many are due at `now`.
abbrev pub due_count {ℓ} : {A : Type ℓ} → ℕ → List (ℤ × A) → ℕ
due_count now [] = 0
due_count now ((k, x) ∷ xs) =
    let rest = due_count now xs in if ltb_ℤ (pos now) k then rest else suc rest

pub due_count-insert_by :
    {A : Type 0} (now : ℕ) (key : ℤ) (item : A) (xs : List (ℤ × A))
    → due_count now (insert_by key item xs)
      ≡ (if ltb_ℤ (pos now) key then due_count now xs else suc (due_count now xs))
due_count-insert_by now key item [] = refl
due_count-insert_by now key item ((k, x) ∷ xs) = ground (arith, due_count-insert_by now key item xs)

-- Behind a time that is not due, none is.
pub due_count-later :
    {A : Type 0} (now : ℕ) (k : ℤ) (xs : List (ℤ × A))
    → ltb_ℤ (pos now) k ≡ true
    → sorted_from k xs ≡ true
    → due_count now xs ≡ 0
due_count-later now k [] h s = refl
due_count-later now k ((k', x) ∷ xs) h s = ground (arith, due_count-later now k' xs)

-- The sequence with the new interrupt in its place.
abbrev pub scheduled :
    ℕ → ℕ → ℤ → ℕ → IntType → List (ℤ × PendingInterrupt) → List (ℤ × PendingInterrupt)
scheduled now handler arg from_now type xs =
    let when = now + from_now in
    insert_by (pos when) (record { handler = handler; arg = arg; when = when; type = type }) xs

-- Schedule with a time from now on that is above zero, on a list in the order of its times: it
-- returns, and the list then stands for the old sequence with the new interrupt, of that time, put
-- behind all whose time is not later. The order holds, what is due is as much as before, and nothing
-- but the list changes.
pub schedule-Timed :
    (i : Interrupt) (xs : List (ℤ × PendingInterrupt)) (handler from_now : ℕ) (arg : ℤ)
    (type : IntType)
    → Timed i xs
    → 0 < from_now
    → (pending : LinkedList PendingInterrupt) × (schedule handler arg from_now type i
        ≡ some (record i { pending = pending }))
      × Timed
          (record i { pending = pending })
          (scheduled i.total_ticks handler arg from_now type xs)
      × (due_count i.total_ticks (scheduled i.total_ticks handler arg from_now type xs)
          ≡ due_count i.total_ticks xs)
unfolding schedule
schedule-Timed i xs handler from_now arg type t later =
    let when = i.total_ticks + from_now in
    let e : PendingInterrupt = record { handler = handler; arg = arg; when = when; type = type } in
    let (pending, runs, r) = sorted_insert-Represents i.pending xs e (pos when) t.holds in
    (
      pending,
      rw (lt→ltb _ _ later) (rw runs refl),
      record { holds = r; sorted = is_sorted-insert_by (pos when) e xs t.sorted },
      due_count-insert_by i.total_ticks (pos when) e xs ∙ ground arith,
    )
