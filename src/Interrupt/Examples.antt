-- ===== src/Interrupt/Examples.antt =====
-- A clock with a timer: tests of the calls, and the laws at it.
use nach_operator_system.Prelude.{
  ℕ, zero, suc, ◌≡◌, refl, false, Option, some, none, List, [], ◌∷◌, ℤ, pos, arith,
}
use nach_operator_system.LinkedList.{
  LinkedList, sorted_insert, insert_from, insert_loop, sorted_remove, remove_from,
}
use nach_operator_system.LinkedList.Chain.{nil, cons}
use nach_operator_system.Interrupt.{
  timer_int, disk_int, PendingInterrupt, Interrupt, Handlers, new_interrupt, schedule, check_if_due,
  check_loop, found, due, put_back,
}
use nach_operator_system.Interrupt.Pending.{Timed, due_count, scheduled, schedule-Timed}
use nach_operator_system.Interrupt.Draining.{Behaves, Between, check_loop-drains}

-- Every handler schedules itself again, 100 ticks later.
abbrev timer : Handlers
timer h arg i = schedule h arg 100 timer_int i

timer-Behaves : Behaves timer
timer-Behaves = record {
  runs = λ h arg i xs t off.
      let (pending, runs, t', same) = schedule-Timed i xs h 100 arg timer_int t (omega arith) in
      (
        record i { pending = pending },
        scheduled i.total_ticks h arg 100 timer_int xs,
        runs,
        t',
        off,
        refl,
        omega (arith, same),
      );
}

abbrev at_time : ℕ → ℕ → PendingInterrupt
at_time handler when = record { handler = handler; arg = pos 0; when = when; type = disk_int }

-- At tick 10, with an interrupt that was due at tick 5.
abbrev late : Interrupt
late = record new_interrupt {
  pending = record {
    first = some 0;
    last = some 0;
    cells = λ a. elim a [
      | zero ↦ some (record { next = none; key = pos 5; item = at_time 3 5 })
      | suc b ↦ none
    ];
    fresh = 1;
  };
  total_ticks = 10;
}

late-Timed : Timed late ((pos 5, at_time 3 5) ∷ [])
late-Timed = record {
  holds = record {
    addresses = 0 ∷ [];
    chain = cons refl refl refl (nil refl);
    ends = refl;
    given = refl;
  };
  sorted = refl;
}

schedule-Timed_example :
    (pending : LinkedList PendingInterrupt) × (schedule 4 (pos 0) 20 disk_int late
      ≡ some (record late { pending = pending }))
    × Timed (record late { pending = pending }) ((pos 5, at_time 3 5) ∷ (pos 30, at_time 4 30) ∷ [])
    × (due_count 10 ((pos 5, at_time 3 5) ∷ (pos 30, at_time 4 30) ∷ []) ≡ 1)
schedule-Timed_example =
    schedule-Timed late ((pos 5, at_time 3 5) ∷ []) 4 20 (pos 0) disk_int late-Timed (omega arith)

check_loop-drains_example :
    (i' : Interrupt) × (ys : List (ℤ × PendingInterrupt)) × (check_loop timer 2 late ≡ some i')
    × Between 10 i' ys
    × (due_count 10 ys ≡ 0)
check_loop-drains_example =
    check_loop-drains timer timer-Behaves 10 2 late ((pos 5, at_time 3 5) ∷ [])
      (record { timed = late-Timed; off = refl; awake = refl; clock = refl }) (omega arith)

-- Two interrupts for the same time to come: CheckIfDue takes the first one off and puts it back
-- behind the second.
abbrev twins : Option Interrupt
twins = elim (schedule 1 (pos 0) 50 disk_int new_interrupt) [
  | none ↦ none
  | some i ↦ schedule 2 (pos 0) 50 disk_int i
]

abbrev first_handler : Option Interrupt → Option ℕ
first_handler none = none
first_handler (some i) = elim (sorted_remove i.pending) [
  | none ↦ none
  | some r ↦ elim r.0 [ none ↦ none | some e ↦ some e.1.handler ]
]

abbrev checked : Option Interrupt → Option Interrupt
checked none = none
checked (some i) = elim (check_if_due timer false i) [ none ↦ none | some r ↦ some r.1 ]

put_back_behind : (first_handler twins ≡ some 1) × (first_handler (checked twins) ≡ some 2)
unfolding schedule sorted_insert insert_from insert_loop sorted_remove remove_from check_if_due
    found due put_back
put_back_behind = (refl, refl)
