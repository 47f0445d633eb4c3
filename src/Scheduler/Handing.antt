-- ===== src/Scheduler/Handing.antt =====
-- The ready list and the statuses where threads/scheduler.cc hands the processor over.
use nach_operator_system.Prelude.{
  ℕ, ◌≡◌, ◌≢◌, refl, sym, ap, subst, ◌∙◌, Bool, true, false, not, Option, some, none, List, [], ◌∷◌,
  ◌==◌, assert, ◌>>=◌, >>=-eq-some, eq_of_some, ℤ, arith, ◌⊎◌, inl, inr,
}
use nach_operator_system.Scheduler.{
  running, blocked, Scheduler, set_status, destroy, run, switch_to, sleep_pass,
}
use nach_operator_system.Scheduler.Invariant.{is_ready, Queues, Inv, find_next_to_run-Found}

-- A state in which no thread runs, and `next` is taken.
pub record Handing (next : ℕ) (s : Scheduler) (xs : List (ℤ × ℕ)) : Type 0 where
  pub queues : Queues (some next) s xs
  pub chosen : is_ready (s.statuses next) ≡ true
  pub none_runs : (t : ℕ) → s.statuses t ≢ some running
  pub doomed : (t : ℕ) → s.to_be_destroyed ≡ some t → s.statuses t ≡ some blocked

destroy-Inv :
    (o : Option ℕ) (s s' : Scheduler)
    → s.to_be_destroyed ≡ o
    → Inv s
    → destroy o s ≡ some s'
    → Inv s'
unfolding destroy
destroy-Inv none s s' at inv e = subst Inv (eq_of_some s s' e) inv
destroy-Inv (some t) s s' at inv e =
    let (u, other, ends) = >>=-eq-some (assert (not (t == s.current))) _ e in
    let apart : (t == s.current) ≡ false = ground (arith, other) in
    let s2 = set_status t none (record s { to_be_destroyed = none }) in
    let idle : is_ready (s.statuses t) ≡ false = ap is_ready (inv.doomed t at) in
    subst Inv (eq_of_some s2 s' ends) (record {
      queue = inv.queue;
      queues = record {
        holds = inv.queues.holds;
        listed = λ u. inv.queues.listed u ∙ ground (arith, idle);
        once = inv.queues.once;
      };
      alone = λ u h. inv.alone u (ground (arith, h));
      doomed = λ u h. absurd (cc);
    })

run_next-Inv :
    (next : ℕ) (s : Scheduler) (xs : List (ℤ × ℕ))
    → Handing next s xs
    → Inv (set_status next (some running) (record s { current = next }))
run_next-Inv next s xs h = record {
  queue = xs;
  queues = record {
    holds = h.queues.holds;
    listed = λ u. h.queues.listed u ∙ ground arith;
    once = h.queues.once;
  };
  alone = λ u r. ground (arith, h.none_runs u, r);
  doomed = λ u d. ground (arith, h.doomed u d, h.chosen);
}

pub run-Inv :
    (resumed : Bool) (next : ℕ) (s s' : Scheduler) (xs : List (ℤ × ℕ))
    → Handing next s xs
    → run resumed next s ≡ some s'
    → Inv s'
unfolding run
run-Inv true next s s' xs h e =
    let s1 = set_status next (some running) (record s { current = next }) in
    destroy-Inv s1.to_be_destroyed s1 s' refl (run_next-Inv next s xs h) e
run-Inv false next s s' xs h e =
    let s1 = set_status next (some running) (record s { current = next }) in
    subst Inv (eq_of_some s1 s' e) (run_next-Inv next s xs h)

-- No thread runs, and none is taken.
pub record Idle (s : Scheduler) (xs : List (ℤ × ℕ)) : Type 0 where
  pub queues : Queues none s xs
  pub none_runs : (t : ℕ) → s.statuses t ≢ some running
  pub doomed : (t : ℕ) → s.to_be_destroyed ≡ some t → s.statuses t ≡ some blocked

pub switch_to-Inv :
    (resumed switched : Bool) (s s' : Scheduler) (xs : List (ℤ × ℕ))
    → Idle s xs
    → sleep_pass resumed s ≡ some (switched, s')
    → Inv s'
unfolding sleep_pass switch_to
switch_to-Inv resumed switched s s' [] i e =
    let f = find_next_to_run-Found s [] i.queues in
    let s1 = record s { ready_list = f.list } in
    let made : sleep_pass resumed s ≡ some (false, s1) = rw f.returns refl in
    let same : s1 ≡ s' =
      ap (λ (r : Bool × Scheduler). r.1) (eq_of_some (false, s1) (switched, s') (sym made ∙ e)) in
    subst Inv same (record {
      queue = [];
      queues = f.queues;
      alone = λ u r. absurd (i.none_runs u r);
      doomed = i.doomed;
    })
switch_to-Inv resumed switched s s' ((k, t) ∷ xs) i e =
    let f = find_next_to_run-Found s ((k, t) ∷ xs) i.queues in
    let s1 = record s { ready_list = f.list } in
    let made : sleep_pass resumed s ≡ (run resumed t s1 >>= λ s2. some (true, s2)) =
      rw f.returns refl in
    let (s2, runs, ends) = >>=-eq-some (run resumed t s1) (λ s2. some (true, s2)) (sym made ∙ e) in
    let same : s2 ≡ s' =
      ap (λ (r : Bool × Scheduler). r.1) (eq_of_some (true, s2) (switched, s') ends) in
    subst Inv same (
      run-Inv resumed t s1 s2 xs
        (record {
          queues = f.queues;
          chosen = ground (arith, i.queues.listed t);
          none_runs = i.none_runs;
          doomed = i.doomed;
        })
        runs)

-- The current thread, which runs, is blocked.
pub blocks-Idle :
    (s : Scheduler) (o : Option ℕ) (inv : Inv s)
    → s.statuses s.current ≡ some running
    → ((t : ℕ) → o ≡ some t → (t ≡ s.current) ⊎ (s.to_be_destroyed ≡ some t))
    → Idle (set_status s.current (some blocked) (record s { to_be_destroyed = o })) inv.queue
blocks-Idle s o inv runs dooms = record {
  queues = record {
    holds = inv.queues.holds;
    listed = λ u. inv.queues.listed u ∙ ground (arith, runs);
    once = inv.queues.once;
  };
  none_runs = λ u r. ground (arith, inv.alone u, r);
  doomed = λ u d. elim (dooms u d) [
    | inl this ↦ ground (arith, this)
    | inr before ↦ ground (arith, inv.doomed u before)
  ];
}
