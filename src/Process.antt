-- ===== src/Process.antt =====
-- threads/PCB.cc, PCB.h, PTable.cc and PTable.h: the processes, and how a parent joins a child.
-- The field `fileName` of a PCB, and Exec, which needs the file system, are left out; a thread is a
-- number, and `none` is a NULL or missing entry, an index out of the array, or a failed ASSERT.
mod Examples
pub mod Handshake
pub mod Invariant
pub mod Joining
pub mod Progress
use nach_operator_system.Prelude.{
  ℕ, zero, suc, ◌+◌, ◌-◌, ◌≡◌, Bool, true, false, not, ◌||◌, ◌==◌, Option, some, none, List, [],
  ◌∷◌, ℤ, pos, negsuc, minus_one, ltb_ℤ, leb_ℤ, eqb_ℤ, ltb, get_elem?, set, replicate,
  if◌then◌else◌, assert, ◌>>=◌, ◌>>◌,
}
use nach_operator_system.BitMap.{BitMap, new_bit_map, mark, clear, test, find}
use nach_operator_system.Machine.{store_at}
use nach_operator_system.FdTable.{slot_of}
use nach_operator_system.Semaphore.{Semaphore, new_semaphore, try_p, v}

pub record Pcb : Type 0 where
  pub join_sem : Semaphore
  pub exit_sem : Semaphore
  pub mutex : Semaphore
  pub exit_code : ℤ
  pub num_wait : ℕ
  pub pid : ℕ
  pub parent_id : ℤ
  pub thread : Option ℕ

-- PCB(int id), run by the process `current`.
unfoldable pub new_pcb : ℤ → ℕ → Pcb
unfolding new_semaphore
new_pcb current id = record {
  join_sem = new_semaphore (pos 0);
  exit_sem = new_semaphore (pos 0);
  mutex = new_semaphore (pos 1);
  exit_code = pos 0;
  num_wait = 0;
  pid = id;
  parent_id = current;
  thread = none;
}

-- One pass of P on `joinsem` and on `exitsem` by `thread`.
unfoldable pub join_wait : ℕ → Pcb → Bool × Pcb
join_wait thread p =
    let (passed, s) = try_p thread p.join_sem in (passed, record p { join_sem = s })

unfoldable pub exit_wait : ℕ → Pcb → Bool × Pcb
exit_wait thread p =
    let (passed, s) = try_p thread p.exit_sem in (passed, record p { exit_sem = s })

unfoldable pub join_release : Pcb → Pcb
join_release p = record p { join_sem = (v p.join_sem).1 }

unfoldable pub exit_release : Pcb → Pcb
exit_release p = record p { exit_sem = (v p.exit_sem).1 }

abbrev pub set_exit_code : ℤ → Pcb → Pcb
set_exit_code ec p = record p { exit_code = ec }

abbrev pub get_exit_code : Pcb → ℤ
get_exit_code p = p.exit_code

-- IncNumWait and DecNumWait: one pass of P on `mutex`, the change, and V on `mutex`.
unfoldable pub lock : ℕ → Pcb → Bool × Pcb
lock thread p = let (passed, s) = try_p thread p.mutex in (passed, record p { mutex = s })

abbrev pub count : Pcb → Pcb
count p = record p { num_wait = p.num_wait + 1 }

abbrev pub uncount : Pcb → Pcb
uncount p = record p { num_wait = if ltb 0 p.num_wait then p.num_wait - 1 else p.num_wait }

unfoldable pub unlock : Pcb → Pcb
unlock p = record p { mutex = (v p.mutex).1 }

pub record PTable : Type 0 where
  pub bm : BitMap
  pub pcb : List (Option Pcb)
  pub psize : ℕ

unfoldable pub new_p_table : ℕ → List ℕ → Option PTable
new_p_table size garbage = do
  bm ← new_bit_map size garbage
  marked ← mark bm (pos 0)
  pcb ← store_at (replicate size none) 0 (some (new_pcb minus_one 0))
  some (record { bm = marked; pcb = pcb; psize = size })

unfoldable pub is_exist : ℤ → PTable → Option Bool
is_exist pid t = test t.bm pid

abbrev pub pcb_at : PTable → ℤ → Option Pcb
pcb_at t id = slot_of id >>= λ i. get_elem? t.pcb i >>= λ p. p

-- The checks of JoinUpdate by the process `current`: `true` lets it go on to IncNumWait.
unfoldable pub join_check : ℤ → ℤ → PTable → Option Bool
join_check current id t =
    if ltb_ℤ id (pos 0) || leb_ℤ (pos t.psize) id
    then some false
    else (is_exist id t >>= λ exists.
        if not exists then some false else (pcb_at t id >>= λ p. some (eqb_ℤ p.parent_id current)))

-- The destructor of a PCB, run by the thread `current`: `true` where it returns. Where the PCB has a
-- thread, Finish asserts that it is the one that runs, which never comes back.
abbrev pub delete_pcb : ℕ → Pcb → Option Bool
delete_pcb current p = elim p.thread [
  | none ↦ some true
  | some thread ↦ assert (thread == current) >> some false
]

-- `finished`: the thread has ended inside Remove. What `pcb[pid]` points to is freed by then.
pub data Removal : Type 0 where
  returned finished : PTable → Removal

abbrev pub clear_slot : ℕ → ℤ → PTable → Option Removal
clear_slot i pid t = do
  pcb ← store_at t.pcb i none
  bm ← clear t.bm pid
  some (returned (record t { pcb = pcb; bm = bm }))

-- Remove(pid), run by the thread `current`.
unfoldable pub remove_process : ℕ → ℤ → PTable → Option Removal
remove_process current pid t = slot_of pid >>= λ i. get_elem? t.pcb i >>= λ entry. elim entry [
  | none ↦ clear_slot i pid t
  | some p ↦
      (delete_pcb current p >>= λ returns.
      if returns then clear_slot i pid t else some (finished t))
]
