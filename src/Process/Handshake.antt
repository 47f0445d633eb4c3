-- ===== src/Process/Handshake.antt =====
-- JoinUpdate and ExitUpdate of threads/PTable.cc, between one child and its parent: every order of
-- their steps. Each call of a PCB's method on a semaphore, each pass of the loop of a P, and each
-- statement between two of them, is a step of its own. A thread that sleeps on a semaphore goes on
-- once a V has taken it off the queue. The steps start once PCB::Exec has given the mutex of the new
-- PCB back.
use nach_operator_system.Prelude.{ℕ, ◌≡◌, Bool, true, false, [], ℤ, pos, if◌then◌else◌}
use nach_operator_system.Process.{
  Pcb, join_wait, exit_wait, join_release, exit_release, set_exit_code, get_exit_code, lock, count,
  uncount, unlock,
}

-- Where the parent is in JoinUpdate: before it; in IncNumWait, after P and after the increment; at
-- the P of JoinWait, and asleep there; behind it; after GetExitCode; after ExitRelease.
pub data ParentAt : Type 0 where
  not_joined counting counted joining join_asleep admitted : ParentAt
  code_read joined : ℤ → ParentAt

-- Where the child is in ExitUpdate: before it; after SetExitCode; after JoinRelease, at the P of
-- ExitWait, and asleep there; behind it; in DecNumWait, after P and after the decrement; at Remove.
pub data ChildAt : Type 0 where
  running : ChildAt
  coded exiting exit_asleep dismissed uncounting uncounted gone : ℤ → ChildAt

pub record Pair : Type 0 where
  pub pcb : Pcb
  pub parent : ParentAt
  pub child : ChildAt

abbrev pub at : Pcb → ParentAt → ChildAt → Pair
at p a c = record { pcb = p; parent = a; child = c }

module _ (mother son : ℕ) where
  pub data Step : Pair → Pair → Type 0 where
    count_begins :
        {p p' : Pcb} {c : ChildAt}
        → lock mother p ≡ (true, p')
        → Step (at p not_joined c) (at p' counting c)
    count_sleeps :
        {p p' : Pcb} {c : ChildAt}
        → lock mother p ≡ (false, p')
        → Step (at p not_joined c) (at p' not_joined c)
    counts : {p : Pcb} {c : ChildAt} → Step (at p counting c) (at (count p) counted c)
    count_ends : {p : Pcb} {c : ChildAt} → Step (at p counted c) (at (unlock p) joining c)
    join_passes :
        {p p' : Pcb} {c : ChildAt}
        → join_wait mother p ≡ (true, p')
        → Step (at p joining c) (at p' admitted c)
    join_sleeps :
        {p p' : Pcb} {c : ChildAt}
        → join_wait mother p ≡ (false, p')
        → Step (at p joining c) (at p' join_asleep c)
    join_wakes :
        {p : Pcb} {c : ChildAt} → p.join_sem.queue ≡ [] → Step (at p join_asleep c) (at p joining c)
    code_gets :
        {p : Pcb} {c : ChildAt} → Step (at p admitted c) (at p (code_read (get_exit_code p)) c)
    exit_signals :
        {p : Pcb} {c : ChildAt} {code : ℤ}
        → Step (at p (code_read code) c) (at (exit_release p) (joined code) c)
    code_sets :
        {p : Pcb} {a : ParentAt} (ec : ℤ)
        → Step (at p a running) (at (set_exit_code ec p) a (coded ec))
    join_signals :
        {p : Pcb} {a : ParentAt} {ec : ℤ}
        → Step (at p a (coded ec)) (at (join_release p) a (exiting ec))
    exit_passes :
        {p p' : Pcb} {a : ParentAt} {ec : ℤ}
        → exit_wait son p ≡ (true, p')
        → Step (at p a (exiting ec)) (at p' a (dismissed ec))
    exit_sleeps :
        {p p' : Pcb} {a : ParentAt} {ec : ℤ}
        → exit_wait son p ≡ (false, p')
        → Step (at p a (exiting ec)) (at p' a (exit_asleep ec))
    exit_wakes :
        {p : Pcb} {a : ParentAt} {ec : ℤ}
        → p.exit_sem.queue ≡ []
        → Step (at p a (exit_asleep ec)) (at p a (exiting ec))
    uncount_begins :
        {p p' : Pcb} {a : ParentAt} {ec : ℤ}
        → lock son p ≡ (true, p')
        → Step (at p a (dismissed ec)) (at p' a (uncounting ec))
    uncount_sleeps :
        {p p' : Pcb} {a : ParentAt} {ec : ℤ}
        → lock son p ≡ (false, p')
        → Step (at p a (dismissed ec)) (at p' a (dismissed ec))
    uncounts :
        {p : Pcb} {a : ParentAt} {ec : ℤ}
        → Step (at p a (uncounting ec)) (at (uncount p) a (uncounted ec))
    uncount_ends :
        {p : Pcb} {a : ParentAt} {ec : ℤ} → Step (at p a (uncounted ec)) (at (unlock p) a (gone ec))

  pub data Reach (start : Pair) : Pair → Type 0 where
    here : Reach start start
    then_ : {s t : Pair} → Reach start s → Step s t → Reach start t

-- How far the two are.
abbrev pub parent_stage : ParentAt → ℕ
parent_stage not_joined = 0
parent_stage counting = 1
parent_stage counted = 2
parent_stage joining = 3
parent_stage join_asleep = 4
parent_stage admitted = 5
parent_stage (code_read code) = 6
parent_stage (joined code) = 7

abbrev pub child_stage : ChildAt → ℕ
child_stage running = 0
child_stage (coded ec) = 1
child_stage (exiting ec) = 2
child_stage (exit_asleep ec) = 3
child_stage (dismissed ec) = 4
child_stage (uncounting ec) = 5
child_stage (uncounted ec) = 6
child_stage (gone ec) = 7

-- The code that the child has given to Exit, and the initial one before.
abbrev pub code_of : ChildAt → ℤ
code_of running = pos 0
code_of (coded ec) = ec
code_of (exiting ec) = ec
code_of (exit_asleep ec) = ec
code_of (dismissed ec) = ec
code_of (uncounting ec) = ec
code_of (uncounted ec) = ec
code_of (gone ec) = ec

-- The code that the parent has read, or the other.
abbrev pub code_in : ParentAt → ℤ → ℤ
code_in not_joined other = other
code_in counting other = other
code_in counted other = other
code_in joining other = other
code_in join_asleep other = other
code_in admitted other = other
code_in (code_read code) other = code
code_in (joined code) other = code

abbrev pub one_if : Bool → ℤ
one_if b = if b then pos 1 else pos 0
