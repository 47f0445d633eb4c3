-- ===== src/Interrupt.antt =====
-- machine/interrupt.h and interrupt.cc: interrupts on and off, simulated time, and the interrupts
-- that devices have scheduled. The devices' handlers and Thread::Yield enter as parameters. That
-- the counts of ticks stay within an `int` is not modelled.
mod Examples
pub mod Pending
pub mod Draining
use nach_operator_system.Prelude.{
  ℕ, zero, suc, ◌+◌, ◌-◌, Bool, true, false, not, ◌&&◌, ◌||◌, Option, some, none, ltb, ◌==◌,
  if◌then◌else◌, assert, ◌>>=◌, ◌>>◌, ℤ, pos, pos_part, ltb_ℤ,
}
use nach_operator_system.Machine.{MachineStatus, idle_mode, system_mode, user_mode}
use nach_operator_system.LinkedList.{LinkedList, new_list, is_empty, sorted_insert, sorted_remove}

pub data IntStatus : Type 0 where
  int_off int_on : IntStatus

pub data IntType : Type 0 where
  timer_int disk_int console_write_int console_read_int network_send_int network_recv_int : IntType

-- `handler` stands for the address of a function.
pub record PendingInterrupt : Type 0 where
  pub handler : ℕ
  pub arg : ℤ
  pub when : ℕ
  pub type : IntType

-- The class, and the counters of `stats` that it advances.
pub record Interrupt : Type 0 where
  pub level : IntStatus
  pub pending : LinkedList PendingInterrupt
  pub in_handler : Bool
  pub yield_on_return : Bool
  pub status : MachineStatus
  pub total_ticks : ℕ
  pub idle_ticks : ℕ
  pub system_ticks : ℕ
  pub user_ticks : ℕ

abbrev pub system_tick : ℕ
system_tick = 10

abbrev pub user_tick : ℕ
user_tick = 1

abbrev pub new_interrupt : Interrupt
new_interrupt = record {
  level = int_off;
  pending = new_list;
  in_handler = false;
  yield_on_return = false;
  status = system_mode;
  total_ticks = 0;
  idle_ticks = 0;
  system_ticks = 0;
  user_ticks = 0;
}

abbrev pub is_off : IntStatus → Bool
is_off int_off = true
is_off int_on = false

abbrev pub is_idle : MachineStatus → Bool
is_idle idle_mode = true
is_idle system_mode = false
is_idle user_mode = false

abbrev pub is_timer : IntType → Bool
is_timer timer_int = true
is_timer disk_int = false
is_timer console_write_int = false
is_timer console_read_int = false
is_timer network_send_int = false
is_timer network_recv_int = false

abbrev pub change_level : IntStatus → Interrupt → Interrupt
change_level now i = record i { level = now }

unfoldable pub request_yield : Interrupt → Option Interrupt
request_yield i = assert i.in_handler >> some (record i { yield_on_return = true })

-- Schedule(handler, arg, fromNow, type).
unfoldable pub schedule : ℕ → ℤ → ℕ → IntType → Interrupt → Option Interrupt
schedule handler arg from_now type i =
    let when = i.total_ticks + from_now in
    let to_occur : PendingInterrupt = record {
      handler = handler;
      arg = arg;
      when = when;
      type = type;
    } in
    assert (ltb 0 from_now) >> sorted_insert to_occur (pos when) i.pending >>= λ pending.
    some (record i { pending = pending })

-- `pending->SortedInsert(toOccur, when); return FALSE;`.
unfoldable pub put_back : PendingInterrupt → ℤ → Interrupt → Option (Bool × Interrupt)
put_back to_occur when i = sorted_insert to_occur when i.pending >>= λ pending.
    some (false, record i { pending = pending })

-- The call of a handler.
abbrev pub Handlers : Type 0
Handlers = ℕ → ℤ → Interrupt → Option Interrupt

module _ (run_handler : Handlers) where
  -- The end of CheckIfDue.
  unfoldable pub invoke : PendingInterrupt → Interrupt → Option (Bool × Interrupt)
  invoke to_occur i =
      run_handler to_occur.handler to_occur.arg
        (record i { in_handler = true; status = system_mode })
      >>= λ i'. some (true, record i' { status = i.status; in_handler = false })

  -- The check for a machine that idles with nothing left but the timer.
  unfoldable pub fire : PendingInterrupt → ℤ → Interrupt → Option (Bool × Interrupt)
  unfolding put_back invoke
  fire to_occur when i =
      if is_idle i.status && is_timer to_occur.type && is_empty i.pending
      then put_back to_occur when i
      else invoke to_occur i

  -- From SortedRemove on, which has given `to_occur` with the key `when`.
  unfoldable pub due : Bool → PendingInterrupt → ℤ → Interrupt → Option (Bool × Interrupt)
  unfolding put_back fire
  due advance_clock to_occur when i =
      if ltb_ℤ (pos i.total_ticks) when
      then (if advance_clock
          then fire to_occur when (record i {
            idle_ticks = i.idle_ticks + (pos_part when - i.total_ticks);
            total_ticks = pos_part when;
          })
          else put_back to_occur when i)
      else fire to_occur when i

  unfoldable pub found :
      Bool
      → Interrupt
      → Option (ℤ × PendingInterrupt) × LinkedList PendingInterrupt
      → Option (Bool × Interrupt)
  unfolding due
  found advance_clock i (none, pending) = some (false, record i { pending = pending })
  found advance_clock i (some (when, to_occur), pending) =
      due advance_clock to_occur when (record i { pending = pending })

  unfoldable pub check_if_due : Bool → Interrupt → Option (Bool × Interrupt)
  unfolding found
  check_if_due advance_clock i =
      assert (is_off i.level) >> sorted_remove i.pending >>= found advance_clock i

  -- `while (CheckIfDue(FALSE)) ;`, for `rounds` calls at most.
  unfoldable pub check_loop : ℕ → Interrupt → Option Interrupt
  unfolding check_if_due
  check_loop zero i = none
  check_loop (suc rounds) i = check_if_due false i >>= λ (r : Bool × Interrupt). elim r.0 [
    | true ↦ check_loop rounds r.1
    | false ↦ some r.1
  ]

  abbrev pub count_tick : Interrupt → Interrupt
  count_tick i = elim i.status [
    | system_mode ↦ record i {
      total_ticks = i.total_ticks + system_tick;
      system_ticks = i.system_ticks + system_tick;
    }
    | idle_mode ↦ record i {
      total_ticks = i.total_ticks + user_tick;
      user_ticks = i.user_ticks + user_tick;
    }
    | user_mode ↦ record i {
      total_ticks = i.total_ticks + user_tick;
      user_ticks = i.user_ticks + user_tick;
    }
  ]

  -- What the end of Idle comes to: it returns, or it calls Halt.
  pub data Idled : Type 0 where
    resumed : Interrupt → Idled
    halted : Idled

  -- From the first CheckIfDue of Idle on.
  unfoldable pub after_check : ℕ → Bool × Interrupt → Option Idled
  unfolding check_loop
  after_check rounds (true, i) = check_loop rounds i >>= λ i'.
      some (resumed (record i' { yield_on_return = false; status = system_mode }))
  after_check rounds (false, i) = some halted

  unfoldable pub idle : ℕ → Interrupt → Option Idled
  unfolding check_if_due after_check
  idle rounds i = check_if_due true (record i { status = idle_mode }) >>= after_check rounds

  module _ (yield_ : Interrupt → Option Interrupt) where
    -- The end of OneTick, where `old` was the status at its start.
    unfoldable pub finish_tick : MachineStatus → Interrupt → Option Interrupt
    finish_tick old i =
        if i.yield_on_return
        then (yield_ (record i { yield_on_return = false; status = system_mode }) >>= λ i'.
            some (record i' { status = old }))
        else some i

    unfoldable pub one_tick : ℕ → Interrupt → Option Interrupt
    unfolding check_loop finish_tick
    one_tick rounds i = check_loop rounds (change_level int_off (count_tick i)) >>= λ i'.
        finish_tick i.status (change_level int_on i')

    -- SetLevel gives the old level back.
    unfoldable pub set_level : ℕ → IntStatus → Interrupt → Option (IntStatus × Interrupt)
    unfolding one_tick
    set_level rounds now i =
        assert (is_off now || not i.in_handler)
        >> (if not (is_off now) && is_off i.level
            then (one_tick rounds (change_level now i) >>= λ i'. some (i.level, i'))
            else some (i.level, change_level now i))

    unfoldable pub enable : ℕ → Interrupt → Option Interrupt
    unfolding set_level
    enable rounds i = set_level rounds int_on i >>= λ (r : IntStatus × Interrupt). some r.1
