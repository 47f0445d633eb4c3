-- ===== src/Interrupt/Draining.antt =====
-- The loop of OneTick in machine/interrupt.cc that runs what is due.
use nach_operator_system.Prelude.{
  ℕ, zero, suc, ◌≤◌, ◌<◌, ◌≡◌, refl, subst, ◌∙◌, true, false, some, List, [], ◌∷◌, ltb_ℤ, ℤ, pos,
  arith, Bool-cases, inl, inr,
}
use nach_operator_system.Machine.{system_mode}
use nach_operator_system.LinkedList.{LinkedList, sorted_remove}
use nach_operator_system.LinkedList.Chain.{Represents}
use nach_operator_system.LinkedList.Inserting.{insert_by}
use nach_operator_system.LinkedList.Refinement.{
  head_of, sorted_insert-Represents, sorted_remove-Represents,
}
use nach_operator_system.LinkedList.Sorting.{is_sorted-insert_by, sorted_from-is_sorted}
use nach_operator_system.Interrupt.{
  int_off, PendingInterrupt, Interrupt, Handlers, is_idle, put_back, invoke, fire, due, found,
  check_if_due, check_loop,
}
use nach_operator_system.Interrupt.Pending.{Timed, due_count, due_count-insert_by, due_count-later}

-- What OneTick relies on in the handlers of the devices: a handler returns, lets the clock and the
-- level be, keeps the list of interrupts in order, and adds none that is due at once. Schedule,
-- through which the devices add them, sees to the last two.
pub record Behaves (run_handler : Handlers) : Type 0 where
  pub runs :
      (h : ℕ) (arg : ℤ) (i : Interrupt) (xs : List (ℤ × PendingInterrupt))
      → Timed i xs
      → i.level ≡ int_off
      → (i' : Interrupt) × (ys : List (ℤ × PendingInterrupt)) × (run_handler h arg i ≡ some i')
        × Timed i' ys
        × (i'.level ≡ int_off)
        × (i'.total_ticks ≡ i.total_ticks)
        × (due_count i.total_ticks ys ≤ due_count i.total_ticks xs)

-- The state between two calls of CheckIfDue.
pub record Between (now : ℕ) (i : Interrupt) (xs : List (ℤ × PendingInterrupt)) : Type 0 where
  pub timed : Timed i xs
  pub off : i.level ≡ int_off
  pub awake : is_idle i.status ≡ false
  pub clock : i.total_ticks ≡ now

-- CheckIfDue(FALSE) has run what was due first, or there was nothing due.
pub data Checked (run_handler : Handlers) (now : ℕ) (i : Interrupt)
    (xs : List (ℤ × PendingInterrupt)) : Type 0 where
  ran :
      (i' : Interrupt) (ys : List (ℤ × PendingInterrupt))
      → check_if_due run_handler false i ≡ some (true, i')
      → Between now i' ys
      → due_count now ys < due_count now xs
      → Checked run_handler now i xs
  idle :
      (i' : Interrupt) (ys : List (ℤ × PendingInterrupt))
      → check_if_due run_handler false i ≡ some (false, i')
      → Between now i' ys
      → due_count now ys ≡ 0
      → Checked run_handler now i xs

module _ (run_handler : Handlers) (b : Behaves run_handler) (now : ℕ) where
  check_if_due-found :
      (i : Interrupt) (xs : List (ℤ × PendingInterrupt)) (pending : LinkedList PendingInterrupt)
      → i.level ≡ int_off
      → sorted_remove i.pending ≡ some (head_of xs, pending)
      → check_if_due run_handler false i ≡ found run_handler false i (head_of xs, pending)
  unfolding check_if_due
  check_if_due-found i xs pending off removes = rw off (rw removes refl)

  -- The first interrupt is put back where its time has not come.
  later-Checked :
      (i : Interrupt) (k : ℤ) (e : PendingInterrupt) (xs : List (ℤ × PendingInterrupt))
      (pending : LinkedList PendingInterrupt)
      → Between now i ((k, e) ∷ xs)
      → sorted_remove i.pending ≡ some (some (k, e), pending)
      → Represents pending xs
      → ltb_ℤ (pos i.total_ticks) k ≡ true
      → Checked run_handler now i ((k, e) ∷ xs)
  unfolding found due put_back
  later-Checked i k e xs pending t removes r later =
      let (pending', inserts, r') = sorted_insert-Represents pending xs e k r in
      let later' : ltb_ℤ (pos now) k ≡ true = subst (λ n. ltb_ℤ (pos n) k ≡ true) t.clock later in
      let tail_sorted = sorted_from-is_sorted k xs t.timed.sorted in
      idle (record i { pending = pending' }) (insert_by k e xs)
        (check_if_due-found i ((k, e) ∷ xs) pending t.off removes ∙ rw later (rw inserts refl))
        (record {
          timed = record { holds = r'; sorted = is_sorted-insert_by k e xs tail_sorted };
          off = t.off;
          awake = t.awake;
          clock = t.clock;
        })
        (due_count-insert_by now k e xs
          ∙ ground (arith, later', due_count-later now k xs later' t.timed.sorted))

  -- Its handler runs where it has come, and fewer are due.
  due-Checked :
      (i : Interrupt) (k : ℤ) (e : PendingInterrupt) (xs : List (ℤ × PendingInterrupt))
      (pending : LinkedList PendingInterrupt)
      → Between now i ((k, e) ∷ xs)
      → sorted_remove i.pending ≡ some (some (k, e), pending)
      → Represents pending xs
      → ltb_ℤ (pos i.total_ticks) k ≡ false
      → Checked run_handler now i ((k, e) ∷ xs)
  unfolding found due fire invoke
  due-Checked i k e xs pending t removes r now_due =
      let i2 = record i { pending = pending; in_handler = true; status = system_mode } in
      let now_due' : ltb_ℤ (pos now) k ≡ false =
        subst (λ n. ltb_ℤ (pos n) k ≡ false) t.clock now_due in
      let tail_sorted = sorted_from-is_sorted k xs t.timed.sorted in
      let (i', ys, runs, timed', off', clock', fewer) =
        b.runs e.handler e.arg i2 xs (record { holds = r; sorted = tail_sorted }) t.off in
      let fewer' : due_count now ys ≤ due_count now xs =
        subst (λ n. due_count n ys ≤ due_count n xs) t.clock fewer in
      ran (record i' { status = i.status; in_handler = false }) ys
        (check_if_due-found i ((k, e) ∷ xs) pending t.off removes
          ∙ rw now_due (rw t.awake (rw runs refl)))
        (record {
          timed = record { holds = timed'.holds; sorted = timed'.sorted };
          off = off';
          awake = t.awake;
          clock = clock' ∙ t.clock;
        })
        (ground (arith, now_due', fewer'))

  check_if_due-Checked :
      (i : Interrupt) (xs : List (ℤ × PendingInterrupt))
      → Between now i xs
      → Checked run_handler now i xs
  unfolding found
  check_if_due-Checked i [] t =
      let (pending, removes, r) = sorted_remove-Represents i.pending [] t.timed.holds in
      idle (record i { pending = pending }) [] (check_if_due-found i [] pending t.off removes)
        (record {
          timed = record { holds = r; sorted = refl };
          off = t.off;
          awake = t.awake;
          clock = t.clock;
        })
        refl
  check_if_due-Checked i ((k, e) ∷ xs) t =
      let (pending, removes, r) = sorted_remove-Represents i.pending ((k, e) ∷ xs) t.timed.holds in
      elim (Bool-cases (ltb_ℤ (pos i.total_ticks) k)) [
        | inl later ↦ later-Checked i k e xs pending t removes r later
        | inr now_due ↦ due-Checked i k e xs pending t removes r now_due
      ]

  -- The loop of OneTick ends: one call of CheckIfDue for each interrupt that is due, and one more,
  -- are enough, whatever the handlers schedule meanwhile. Afterwards nothing is due, the clock has
  -- not moved, interrupts are still off, and the list is in order.
  pub check_loop-drains :
      (rounds : ℕ) (i : Interrupt) (xs : List (ℤ × PendingInterrupt))
      → Between now i xs
      → due_count now xs < rounds
      → (i' : Interrupt) × (ys : List (ℤ × PendingInterrupt)) × (check_loop run_handler rounds i
          ≡ some i')
        × Between now i' ys
        × (due_count now ys ≡ 0)
  unfolding check_loop
  check_loop-drains zero i xs t enough = absurd (omega arith)
  check_loop-drains (suc rounds) i xs t enough = elim (check_if_due-Checked i xs t) [
    | idle i' ys run t' none_due ↦ (i', ys, rw run refl, t', none_due)
    | ran i1 ys run t1 fewer ↦
        let (i', zs, runs, t', none_due) = check_loop-drains rounds i1 ys t1 (omega arith) in
        (i', zs, rw run runs, t', none_due)
  ]
