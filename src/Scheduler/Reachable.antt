-- ===== src/Scheduler/Reachable.antt =====
-- Every operation of threads/thread.cc and scheduler.cc keeps the ready list and the statuses in
-- agreement.
use nach_operator_system.Prelude.{
  ℕ, ◌≡◌, ◌≢◌, refl, sym, ap, subst, ◌∙◌, Bool, true, false, Option, some, none, List, [], ◌∷◌,
  ◌++◌, ◌==◌, assert, ◌>>=◌, >>=-eq-some, eq_of_some, ℤ, pos, arith, ◌⊎◌, inl, inr,
}
use nach_operator_system.LinkedList.Refinement.{new_list-Represents}
use nach_operator_system.Scheduler.{
  ThreadStatus, just_created, running, blocked, Scheduler, set_status, ready_to_run, run, yield_to,
  yield_, sleep, finish,
}
use nach_operator_system.Scheduler.Steps.{
  Step, creates, forks, wakes, yields, sleeps, passes, finishes, started, Reach, here, then_,
}
use nach_operator_system.Scheduler.Invariant.{
  is_ready, Queues, Inv, ready_to_run-Readied, find_next_to_run-Found,
}
use nach_operator_system.Scheduler.Handing.{run-Inv, switch_to-Inv, blocks-Idle}

readies-Inv :
    (t : ℕ) (s s' : Scheduler) (st : ThreadStatus)
    → Inv s
    → s.statuses t ≡ some st
    → is_ready (some st) ≡ false
    → s.to_be_destroyed ≢ some t
    → ready_to_run t s ≡ some s'
    → Inv s'
readies-Inv t s s' st inv at idle safe e =
    let r =
      ready_to_run-Readied none t s s' inv.queue st inv.queues at (ap is_ready at ∙ idle) refl e in
    let same = λ (u : ℕ). ap (λ f. f u) r.statuses in
    record {
      queue = inv.queue ++ (pos 0, t) ∷ [];
      queues = r.queues;
      alone = λ u h. inv.alone u (ground (arith, same u, h)) ∙ sym r.current;
      doomed = λ u d.
          let d' = sym r.to_be_destroyed ∙ d in ground (arith, same u, inv.doomed u d', safe, d');
    }

-- From the state in which Yield has taken `t` off the list.
yields-Inv :
    (resumed : Bool) (s s' : Scheduler) (inv : Inv s) (xs : List (ℤ × ℕ))
    → inv.queue ≡ xs
    → s.statuses s.current ≡ some running
    → yield_ resumed s.current s ≡ some s'
    → Inv s'
unfolding yield_ yield_to
yields-Inv resumed s s' inv [] same runs e =
    let q : Queues none s [] = subst (Queues none s) same inv.queues in
    let f = find_next_to_run-Found s [] q in
    let this : (s.current == s.current) ≡ true = ground arith in
    let s1 = record s { ready_list = f.list } in
    let made : yield_ resumed s.current s ≡ some s1 = rw this (rw f.returns refl) in
    subst Inv (eq_of_some s1 s' (sym made ∙ e))
      (record { queue = []; queues = f.queues; alone = inv.alone; doomed = inv.doomed })
yields-Inv resumed s s' inv ((k, t) ∷ xs) same runs e =
    let q : Queues none s ((k, t) ∷ xs) = subst (Queues none s) same inv.queues in
    let f = find_next_to_run-Found s ((k, t) ∷ xs) q in
    let this : (s.current == s.current) ≡ true = ground arith in
    let s1 = record s { ready_list = f.list } in
    let made : yield_ resumed s.current s ≡ (ready_to_run s.current s1 >>= run resumed t) =
      rw this (rw f.returns refl) in
    let (s2, readied, ran) =
      >>=-eq-some (ready_to_run s.current s1) (run resumed t) (sym made ∙ e) in
    let chosen : is_ready (s.statuses t) ≡ true = ground (arith, q.listed t) in
    let other : (t == s.current) ≡ false = ground (arith, chosen, runs) in
    let r =
      ready_to_run-Readied (some t) s.current s1 s2 xs running f.queues runs (ap is_ready runs)
        other readied in
    let at = λ (u : ℕ). ap (λ g. g u) r.statuses in
    run-Inv resumed t s2 s' (xs ++ (pos 0, s.current) ∷ [])
      (record {
        queues = r.queues;
        chosen = ground (arith, at t, chosen);
        none_runs = λ u h. ground (arith, at u, inv.alone u, h);
        doomed = λ u d.
            let d' = sym r.to_be_destroyed ∙ d in ground (arith, at u, inv.doomed u d', runs);
      })
      ran

sleeps-Inv :
    (resumed switched : Bool) (s s' : Scheduler) (o : Option ℕ) (inv : Inv s)
    → s.statuses s.current ≡ some running
    → ((t : ℕ) → o ≡ some t → (t ≡ s.current) ⊎ (s.to_be_destroyed ≡ some t))
    → sleep resumed s.current (record s { to_be_destroyed = o }) ≡ some (switched, s')
    → Inv s'
unfolding sleep
sleeps-Inv resumed switched s s' o inv runs dooms e =
    let (u, this, pass) = >>=-eq-some (assert (s.current == s.current)) _ e in
    switch_to-Inv resumed switched
      (set_status s.current (some blocked) (record s { to_be_destroyed = o })) s' inv.queue
      (blocks-Idle s o inv runs dooms) pass

step-Inv : {s s' : Scheduler} → Step s s' → Inv s → Inv s'
unfolding finish
step-Inv {s} {s'} (creates t none_there) inv = record {
  queue = inv.queue;
  queues = record {
    holds = inv.queues.holds;
    listed = λ u. inv.queues.listed u ∙ ground (arith, none_there);
    once = inv.queues.once;
  };
  alone = λ u h. inv.alone u (ground (arith, h));
  doomed = λ u d. ground (arith, inv.doomed u d, none_there);
}
step-Inv {s} {s'} (forks t at e) inv =
    readies-Inv t s s' just_created inv at refl (λ d. ground (arith, inv.doomed t d)) e
step-Inv {s} {s'} (wakes t at safe e) inv = readies-Inv t s s' blocked inv at refl safe e
step-Inv {s} {s'} (yields resumed runs e) inv = yields-Inv resumed s s' inv inv.queue refl runs e
step-Inv {s} {s'} (sleeps resumed switched runs e) inv =
    sleeps-Inv resumed switched s s' s.to_be_destroyed inv runs (λ t d. inr d) e
step-Inv {s} {s'} (passes resumed switched idle e) inv =
    switch_to-Inv resumed switched s s' inv.queue
      (record {
        queues = inv.queues;
        none_runs = λ u h. idle (subst (λ v. s.statuses v ≡ some running) (inv.alone u h) h);
        doomed = inv.doomed;
      })
      e
step-Inv {s} {s'} (finishes resumed switched runs e) inv =
    let (u, this, slept) = >>=-eq-some (assert (s.current == s.current)) _ e in
    sleeps-Inv resumed switched s s' (some s.current) inv runs
      (λ t d. inl (sym (eq_of_some s.current t d))) slept

started-Inv : (main : ℕ) → Inv (started main)
started-Inv main = record {
  queue = [];
  queues = record { holds = new_list-Represents; listed = λ t. ground arith; once = refl };
  alone = λ t h. ground (arith, h);
  doomed = λ t d. absurd (cc);
}

-- Whatever the threads do and in whichever order they run, the ready list stands for a sequence in
-- which every thread whose status is READY stands exactly once and no other thread does; no thread
-- but the current one has the status RUNNING; and a thread that is to be destroyed is BLOCKED.
pub ready_list-Inv : (main : ℕ) {s : Scheduler} → Reach (started main) s → Inv s
ready_list-Inv main here = started-Inv main
ready_list-Inv main (then_ r step) = step-Inv step (ready_list-Inv main r)
