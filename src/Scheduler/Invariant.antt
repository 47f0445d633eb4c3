-- ===== src/Scheduler/Invariant.antt =====
-- The ready list and the statuses of the threads of threads/scheduler.cc agree.
use nach_operator_system.Prelude.{
  ℕ, ◌≡◌, refl, sym, ap, subst, ◌∙◌, Bool, true, false, not, ◌&&◌, Option, some, none, List, [],
  ◌∷◌, ◌++◌, ◌==◌, eq_of_some, ℤ, pos, arith,
}
use nach_operator_system.LinkedList.{LinkedList, update}
use nach_operator_system.LinkedList.Chain.{Represents, has, distinct}
use nach_operator_system.LinkedList.Refinement.{head_of, tail_of}
use nach_operator_system.LinkedList.Queue.{item_of, has-append, queue-Represents}
use nach_operator_system.Scheduler.{
  ThreadStatus, just_created, running, ready, blocked, Scheduler, set_status, ready_to_run,
  find_next_to_run,
}

abbrev pub is_ready : Option ThreadStatus → Bool
is_ready none = false
is_ready (some just_created) = false
is_ready (some running) = false
is_ready (some ready) = true
is_ready (some blocked) = false

abbrev pub items : List (ℤ × ℕ) → List ℕ
items [] = []
items ((k, t) ∷ xs) = t ∷ items xs

-- The thread that has been taken off the list and does not run yet, if any.
abbrev pub is_taken : Option ℕ → ℕ → Bool
is_taken none t = false
is_taken (some n) t = n == t

-- The ready list stands for `xs`, in which every ready thread that is not taken stands, and once.
pub record Queues (taken : Option ℕ) (s : Scheduler) (xs : List (ℤ × ℕ)) : Type 0 where
  pub holds : Represents s.ready_list xs
  pub listed : (t : ℕ) → has t (items xs) ≡ (is_ready (s.statuses t) && not (is_taken taken t))
  pub once : distinct (items xs) ≡ true

-- At most one thread runs, which is the current one.
pub record Inv (s : Scheduler) : Type 0 where
  pub queue : List (ℤ × ℕ)
  pub queues : Queues none s queue
  pub alone : (t : ℕ) → s.statuses t ≡ some running → t ≡ s.current
  pub doomed : (t : ℕ) → s.to_be_destroyed ≡ some t → s.statuses t ≡ some blocked

items-append : (xs : List (ℤ × ℕ)) (t : ℕ) → items (xs ++ (pos 0, t) ∷ []) ≡ items xs ++ t ∷ []
items-append [] t = refl
items-append (x ∷ xs) t = ap (λ l. x.1 ∷ l) (items-append xs t)

distinct-append :
    (bs : List ℕ) (t : ℕ) → distinct bs ≡ true → has t bs ≡ false → distinct (bs ++ t ∷ []) ≡ true
distinct-append [] t h out = refl
distinct-append (b ∷ bs) t h out = ground (arith, distinct-append bs t, has-append b bs (t ∷ []))

-- ReadyToRun of a thread that is not ready.
pub record Readied (taken : Option ℕ) (t : ℕ) (s : Scheduler) (xs : List (ℤ × ℕ)) (s' : Scheduler)
    : Type 0 where
  pub queues : Queues taken s' (xs ++ (pos 0, t) ∷ [])
  pub statuses : s'.statuses ≡ update s.statuses t (some ready)
  pub current : s'.current ≡ s.current
  pub to_be_destroyed : s'.to_be_destroyed ≡ s.to_be_destroyed

pub ready_to_run-Readied :
    (taken : Option ℕ) (t : ℕ) (s s' : Scheduler) (xs : List (ℤ × ℕ)) (st : ThreadStatus)
    → Queues taken s xs
    → s.statuses t ≡ some st
    → is_ready (s.statuses t) ≡ false
    → is_taken taken t ≡ false
    → ready_to_run t s ≡ some s'
    → Readied taken t s xs s'
unfolding ready_to_run
ready_to_run-Readied taken t s s' xs st q there idle free e =
    let (appended, _, _) = queue-Represents s.ready_list xs t q.holds in
    let (l, runs, r) = appended in
    let s2 = set_status t (some ready) (record s { ready_list = l }) in
    let made : ready_to_run t s ≡ some s2 = rw there (rw runs refl) in
    let same : s2 ≡ s' = eq_of_some s2 s' (sym made ∙ e) in
    subst (Readied taken t s xs) same (record {
      queues = record {
        holds = r;
        listed = λ u.
            ap (has u) (items-append xs t)
            ∙ has-append u (items xs) (t ∷ [])
            ∙ ground (arith, q.listed u);
        once =
            ap distinct (items-append xs t)
            ∙ distinct-append (items xs) t q.once (q.listed t ∙ ground (arith, idle));
      };
      statuses = refl;
      current = refl;
      to_be_destroyed = refl;
    })

-- What FindNextToRun does.
pub record Found (s : Scheduler) (xs : List (ℤ × ℕ)) : Type 0 where
  pub list : LinkedList ℕ
  pub returns : find_next_to_run s ≡ some (item_of (head_of xs), record s { ready_list = list })
  pub queues : Queues (item_of (head_of xs)) (record s { ready_list = list }) (tail_of xs)

pub find_next_to_run-Found : (s : Scheduler) (xs : List (ℤ × ℕ)) → Queues none s xs → Found s xs
unfolding find_next_to_run
find_next_to_run-Found s [] q =
    let (_, _, removed) = queue-Represents s.ready_list [] 0 q.holds in
    let (l, runs, r) = removed in
    record {
      list = l;
      returns = rw runs refl;
      queues = record { holds = r; listed = q.listed; once = refl };
    }
find_next_to_run-Found s ((k, t) ∷ xs) q =
    let (_, _, removed) = queue-Represents s.ready_list ((k, t) ∷ xs) 0 q.holds in
    let (l, runs, r) = removed in
    record {
      list = l;
      returns = rw runs refl;
      queues = record {
        holds = r;
        listed = λ u. ground (arith, q.listed u, q.once);
        once = ground (arith, q.once);
      };
    }
