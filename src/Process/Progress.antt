-- ===== src/Process/Progress.antt =====
-- Join and Exit of threads/PTable.cc come to their ends: whoever has to wait is let go.
use nach_operator_system.Prelude.{
  ℕ, zero, suc, ◌+◌, ◌≤◌, ◌<◌, ◌≡◌, refl, ◌∙◌, sym, ap, ◌⊎◌, inl, inr, true, false, ℤ, pos, arith,
  subst,
}
use nach_operator_system.Semaphore.{try_p}
use nach_operator_system.Process.{
  Pcb, join_wait, exit_wait, join_release, exit_release, get_exit_code, lock, count, uncount,
  unlock,
}
use nach_operator_system.Process.Handshake.{
  ParentAt, not_joined, counting, counted, joining, join_asleep, admitted, code_read, joined,
  ChildAt, running, coded, exiting, exit_asleep, dismissed, uncounting, uncounted, gone, Pair, at,
  Step, counts, count_ends, join_passes, join_wakes, code_gets, exit_signals, join_signals,
  exit_passes, exit_wakes, uncount_begins, uncounts, uncount_ends, Reach, here, then_, parent_stage,
  child_stage, code_of,
}
use nach_operator_system.Process.Invariant.{Inv, start-Inv, step-Inv, Reach-Inv}
use nach_operator_system.Process.Joining.{fork, joined_at_end}

-- How many steps the two have before them; to wake is a step.
abbrev parent_rank : ParentAt → ℕ
parent_rank not_joined = 8
parent_rank counting = 7
parent_rank counted = 6
parent_rank joining = 4
parent_rank join_asleep = 5
parent_rank admitted = 3
parent_rank (code_read code) = 2
parent_rank (joined code) = 0

abbrev child_rank : ChildAt → ℕ
child_rank running = 8
child_rank (coded ec) = 7
child_rank (exiting ec) = 5
child_rank (exit_asleep ec) = 6
child_rank (dismissed ec) = 4
child_rank (uncounting ec) = 3
child_rank (uncounted ec) = 2
child_rank (gone ec) = 0

abbrev rank : Pair → ℕ
rank s = parent_rank s.parent + child_rank s.child

module _ (mother son : ℕ) where
  record Moved (s : Pair) : Type 0 where
    next : Pair
    step : Step mother son s next
    closer : rank next < rank s
    called : 1 ≤ parent_stage next.parent
    exited : 1 ≤ child_stage next.child
    same : code_of next.child ≡ code_of s.child

  coded-cases :
      (c : ChildAt) → 1 ≤ child_stage c → ((ec : ℤ) × (c ≡ coded ec)) ⊎ (2 ≤ child_stage c)
  coded-cases running h = absurd (omega arith)
  coded-cases (coded ec) h = inl (ec, refl)
  coded-cases (exiting ec) h = inr (omega arith)
  coded-cases (exit_asleep ec) h = inr (omega arith)
  coded-cases (dismissed ec) h = inr (omega arith)
  coded-cases (uncounting ec) h = inr (omega arith)
  coded-cases (uncounted ec) h = inr (omega arith)
  coded-cases (gone ec) h = inr (omega arith)

  -- The child goes on with JoinRelease.
  coded-Moved : (p : Pcb) (a : ParentAt) (ec : ℤ) → 1 ≤ parent_stage a → Moved (at p a (coded ec))
  coded-Moved p a ec h = record {
    next = at (join_release p) a (exiting ec);
    step = join_signals;
    closer = omega arith;
    called = h;
    exited = omega arith;
    same = refl;
  }

  join_wait-passes :
      (p : Pcb) → p.join_sem.value ≡ pos 1 → join_wait mother p ≡ (true, (join_wait mother p).1)
  unfolding join_wait try_p
  join_wait-passes p h = ground (arith, h)

  exit_wait-passes :
      (p : Pcb) → p.exit_sem.value ≡ pos 1 → exit_wait son p ≡ (true, (exit_wait son p).1)
  unfolding exit_wait try_p
  exit_wait-passes p h = ground (arith, h)

  lock-passes : (p : Pcb) → p.mutex.value ≡ pos 1 → lock son p ≡ (true, (lock son p).1)
  unfolding lock try_p
  lock-passes p h = ground (arith, h)

  -- The parent at the P of JoinWait goes on, or the child lets it.
  joining-Moved :
      (p : Pcb) (c : ChildAt)
      → Inv mother son (at p joining c)
      → 1 ≤ child_stage c
      → Moved (at p joining c)
  joining-Moved p c inv h = elim (coded-cases c h) [
    | inl (ec, e) ↦
        subst (λ x. Moved (at p joining x)) (sym e) (coded-Moved p joining ec (omega arith))
    | inr released ↦ record {
      next = at (join_wait mother p).1 admitted c;
      step = join_passes (join_wait-passes p (ground (arith, inv.agrees, released)));
      closer = omega arith;
      called = omega arith;
      exited = h;
      same = refl;
    }
  ]

  join_asleep-Moved :
      (p : Pcb) (c : ChildAt)
      → Inv mother son (at p join_asleep c)
      → 1 ≤ child_stage c
      → Moved (at p join_asleep c)
  join_asleep-Moved p c inv h = elim (coded-cases c h) [
    | inl (ec, e) ↦
        subst (λ x. Moved (at p join_asleep x)) (sym e) (coded-Moved p join_asleep ec (omega arith))
    | inr released ↦ record {
      next = at p joining c;
      step = join_wakes (ground (arith, inv.agrees, released));
      closer = omega arith;
      called = omega arith;
      exited = h;
      same = refl;
    }
  ]

  child-Moved :
      (p p' : Pcb) (k : ℤ) (c c' : ChildAt)
      → Step mother son (at p (joined k) c) (at p' (joined k) c')
      → child_rank c' < child_rank c
      → 1 ≤ child_stage c'
      → code_of c' ≡ code_of c
      → Moved (at p (joined k) c)
  child-Moved p p' k c c' step closer exited same = record {
    next = at p' (joined k) c';
    step = step;
    closer = omega (arith, closer);
    called = omega arith;
    exited = exited;
    same = same;
  }

  parent-Moved :
      (p p' : Pcb) (a a' : ParentAt) (c : ChildAt)
      → Step mother son (at p a c) (at p' a' c)
      → parent_rank a' < parent_rank a
      → 1 ≤ parent_stage a'
      → 1 ≤ child_stage c
      → Moved (at p a c)
  parent-Moved p p' a a' c step closer called exited = record {
    next = at p' a' c;
    step = step;
    closer = omega (arith, closer);
    called = called;
    exited = exited;
    same = refl;
  }

  -- Behind the parent's ExitRelease the child goes on, up to Remove.
  joined-Moved :
      (p : Pcb) (k : ℤ) (c : ChildAt)
      → Inv mother son (at p (joined k) c)
      → 1 ≤ child_stage c
      → ((ec : ℤ) × (c ≡ gone ec)) ⊎ Moved (at p (joined k) c)
  joined-Moved p k running inv h = absurd (omega arith)
  joined-Moved p k (coded ec) inv h = inr (coded-Moved p (joined k) ec (omega arith))
  joined-Moved p k (exiting ec) inv h = inr (
      child-Moved p (exit_wait son p).1 k (exiting ec) (dismissed ec)
        (exit_passes (exit_wait-passes p (ground (arith, inv.agrees)))) (omega arith) (omega arith)
        refl)
  joined-Moved p k (exit_asleep ec) inv h = inr (
      child-Moved p p k (exit_asleep ec) (exiting ec) (exit_wakes (ground (arith, inv.agrees)))
        (omega arith) (omega arith) refl)
  joined-Moved p k (dismissed ec) inv h = inr (
      child-Moved p (lock son p).1 k (dismissed ec) (uncounting ec)
        (uncount_begins (lock-passes p (ground (arith, inv.agrees)))) (omega arith) (omega arith)
        refl)
  joined-Moved p k (uncounting ec) inv h = inr (
      child-Moved p (uncount p) k (uncounting ec) (uncounted ec) uncounts (omega arith)
        (omega arith) refl)
  joined-Moved p k (uncounted ec) inv h = inr (
      child-Moved p (unlock p) k (uncounted ec) (gone ec) uncount_ends (omega arith) (omega arith)
        refl)
  joined-Moved p k (gone ec) inv h = inl (ec, refl)

  moves :
      (p : Pcb) (a : ParentAt) (c : ChildAt)
      → Inv mother son (at p a c)
      → 1 ≤ parent_stage a
      → 1 ≤ child_stage c
      → ((ec : ℤ) × (c ≡ gone ec)) ⊎ Moved (at p a c)
  moves p not_joined c inv ha hc = absurd (omega arith)
  moves p counting c inv ha hc =
      inr (parent-Moved p (count p) counting counted c counts (omega arith) (omega arith) hc)
  moves p counted c inv ha hc =
      inr (parent-Moved p (unlock p) counted joining c count_ends (omega arith) (omega arith) hc)
  moves p joining c inv ha hc = inr (joining-Moved p c inv hc)
  moves p join_asleep c inv ha hc = inr (join_asleep-Moved p c inv hc)
  moves p admitted c inv ha hc = inr (
      parent-Moved p p admitted (code_read (get_exit_code p)) c code_gets (omega arith)
        (omega arith) hc)
  moves p (code_read k) c inv ha hc = inr (
      parent-Moved p (exit_release p) (code_read k) (joined k) c exit_signals (omega arith)
        (omega arith) hc)
  moves p (joined k) c inv ha hc = joined-Moved p k c inv hc

  Reach-first : {s t u : Pair} → Step mother son s t → Reach mother son t u → Reach mother son s u
  Reach-first step here = then_ here step
  Reach-first step (then_ r last) = then_ (Reach-first step r) last

  finishes :
      (n : ℕ) (s : Pair)
      → rank s < n
      → Inv mother son s
      → 1 ≤ parent_stage s.parent
      → 1 ≤ child_stage s.child
      → (p : Pcb) × Reach mother son s (at p (joined (code_of s.child)) (gone (code_of s.child)))
  finishes zero s h inv called exited = absurd (omega arith)
  finishes (suc n) s h inv called exited = elim (moves s.pcb s.parent s.child inv called exited) [
    | inl (ec, e) ↦
        let code : code_of s.child ≡ ec = ap code_of e in
        let (jv, jq, ev, eq, mv, admits, dismisses) = inv.agrees in
        let at_end : child_stage s.child ≡ 7 = ap child_stage e in
        let parent : s.parent ≡ joined (code_of s.child) =
          joined_at_end s.parent (code_of s.child) (code_of s.child)
            (dismisses (omega (arith, at_end))) inv.read in
        let child : s.child ≡ gone (code_of s.child) = e ∙ ap gone (sym code) in
        let last : s ≡ at s.pcb (joined (code_of s.child)) (gone (code_of s.child)) =
          ap (λ a. at s.pcb a s.child) parent
          ∙ ap (λ c. at s.pcb (joined (code_of s.child)) c) child in
        (s.pcb, subst (Reach mother son s) last here)
    | inr m ↦
        let (p, r) =
          finishes n m.next (omega (arith, m.closer, h)) (step-Inv mother son m.step inv) m.called
            m.exited in
        (
          p,
          Reach-first m.step
              (subst (λ k. Reach mother son m.next (at p (joined k) (gone k))) m.same r),
        )
  ]

module _ {mother son : ℕ} (current : ℤ) (id : ℕ) {s : Pair}
    (r : Reach mother son (fork current id) s) where
  -- In every order of the steps of a parent and its new child, where the child has called Exit: up
  -- to the parent's ExitRelease the child is not past ExitWait, and its P there does not pass; and
  -- where the parent has called Join, some further steps of the two take Join to its end with the
  -- child's code and Exit to the call of Remove, so that neither is caught.
  pub exit_waits_for_join :
      1 ≤ child_stage s.child
      → (parent_stage s.parent < 7 → (child_stage s.child < 4) × ((exit_wait son s.pcb).0 ≡ false))
        × (1 ≤ parent_stage s.parent
            → (p : Pcb) × Reach mother son s
                (at p (joined (code_of s.child)) (gone (code_of s.child))))
  unfolding exit_wait try_p
  exit_waits_for_join exited =
      let inv = Reach-Inv mother son r (start-Inv mother son current id) in
      (
        λ early. (ground (arith, inv.agrees, early), ground (arith, inv.agrees, early)),
        λ called. finishes mother son (suc (rank s)) s (omega arith) inv called exited,
      )
