-- ===== src/Process/Invariant.antt =====
-- What holds of a PCB of threads/PCB.cc, in every order of the steps of a parent and its child.
use nach_operator_system.Prelude.{
  ℕ, ◌≡◌, ◌≤◌, ◌<◌, refl, not, ◌&&◌, ◌||◌, [], ◌∷◌, ℤ, arith, ltb, leb, ◌==◌, if◌then◌else◌,
}
use nach_operator_system.Semaphore.{try_p, v, take_waiter, new_semaphore}
use nach_operator_system.Process.{
  Pcb, new_pcb, join_wait, exit_wait, join_release, exit_release, lock, unlock,
}
use nach_operator_system.Process.Handshake.{
  ParentAt, not_joined, counting, counted, joining, join_asleep, admitted, code_read, joined,
  running, Pair, at, Step, count_begins, count_sleeps, counts, count_ends, join_passes, join_sleeps,
  join_wakes, code_gets, exit_signals, code_sets, join_signals, exit_passes, exit_sleeps,
  exit_wakes, uncount_begins, uncount_sleeps, uncounts, uncount_ends, parent_stage, child_stage,
  code_of, code_in, one_if, Reach, here, then_,
}

-- The semaphores by how far the parent (`i`) and the child (`j`) are.
abbrev pub Agrees : ℕ → ℕ → ℕ → ℕ → Pcb → Type 0
Agrees mother son i j p =
    (p.join_sem.value ≡ one_if (leb 2 j && ltb i 5))
    × (p.join_sem.queue ≡ (if (i == 4) && ltb j 2 then mother ∷ [] else []))
    × (p.exit_sem.value ≡ one_if ((i == 7) && ltb j 4))
    × (p.exit_sem.queue ≡ (if (j == 3) && ltb i 7 then son ∷ [] else []))
    × (p.mutex.value ≡ one_if (not ((i == 1) || (i == 2) || (j == 5) || (j == 6))))
    × (5 ≤ i → 2 ≤ j)
    × (4 ≤ j → i ≡ 7)

pub record Inv (mother son : ℕ) (s : Pair) : Type 0 where
  pub agrees : Agrees mother son (parent_stage s.parent) (child_stage s.child) s.pcb
  pub stored : s.pcb.exit_code ≡ code_of s.child
  pub read : code_in s.parent (code_of s.child) ≡ code_of s.child

pub start-Inv :
    (mother son : ℕ) (current : ℤ) (id : ℕ)
    → Inv mother son (at (new_pcb current id) not_joined running)
unfolding new_pcb new_semaphore
start-Inv mother son current id = record {
  agrees = (refl, refl, refl, refl, refl, λ h. omega arith, λ h. omega arith);
  stored = refl;
  read = refl;
}

step-Agrees :
    (mother son : ℕ) {s t : Pair}
    → Step mother son s t
    → Agrees mother son (parent_stage s.parent) (child_stage s.child) s.pcb
    → Agrees mother son (parent_stage t.parent) (child_stage t.child) t.pcb
unfolding lock unlock join_wait exit_wait join_release exit_release try_p v take_waiter
step-Agrees mother son (count_begins {c = c} e) h = ground (arith, h)
step-Agrees mother son (count_sleeps {c = c} e) h = ground (arith, h)
step-Agrees mother son (counts {c = c}) h = ground (arith, h)
step-Agrees mother son (count_ends {c = c}) h = ground (arith, h)
step-Agrees mother son (join_passes {c = c} e) h = ground (arith, h)
step-Agrees mother son (join_sleeps {c = c} e) h = ground (arith, h)
step-Agrees mother son (join_wakes {c = c} e) h = ground (arith, h)
step-Agrees mother son (code_gets {c = c}) h = ground (arith, h)
step-Agrees mother son (exit_signals {c = c}) h = ground (arith, h)
step-Agrees mother son (code_sets ec) h = ground (arith, h)
step-Agrees mother son (join_signals {a = a}) h = ground (arith, h)
step-Agrees mother son (exit_passes {a = a} e) h = ground (arith, h)
step-Agrees mother son (exit_sleeps {a = a} e) h = ground (arith, h)
step-Agrees mother son (exit_wakes {a = a} e) h = ground (arith, h)
step-Agrees mother son (uncount_begins {a = a} e) h = ground (arith, h)
step-Agrees mother son (uncount_sleeps {a = a} e) h = ground (arith, h)
step-Agrees mother son (uncounts {a = a}) h = ground (arith, h)
step-Agrees mother son (uncount_ends {a = a}) h = ground (arith, h)

code_in-early : (a : ParentAt) (d : ℤ) → parent_stage a < 5 → code_in a d ≡ d
code_in-early not_joined d h = refl
code_in-early counting d h = refl
code_in-early counted d h = refl
code_in-early joining d h = refl
code_in-early join_asleep d h = refl
code_in-early admitted d h = refl
code_in-early (code_read k) d h = absurd (omega arith)
code_in-early (joined k) d h = absurd (omega arith)

step-stored :
    (mother son : ℕ) {s t : Pair}
    → Step mother son s t
    → s.pcb.exit_code ≡ code_of s.child
    → t.pcb.exit_code ≡ code_of t.child
unfolding lock unlock join_wait exit_wait join_release exit_release
step-stored mother son (count_begins e) h = ground (arith, h)
step-stored mother son (count_sleeps e) h = ground (arith, h)
step-stored mother son (counts) h = ground (arith, h)
step-stored mother son (count_ends) h = ground (arith, h)
step-stored mother son (join_passes e) h = ground (arith, h)
step-stored mother son (join_sleeps e) h = ground (arith, h)
step-stored mother son (join_wakes e) h = ground (arith, h)
step-stored mother son (code_gets) h = ground (arith, h)
step-stored mother son (exit_signals) h = ground (arith, h)
step-stored mother son (code_sets ec) h = refl
step-stored mother son (join_signals) h = ground (arith, h)
step-stored mother son (exit_passes e) h = ground (arith, h)
step-stored mother son (exit_sleeps e) h = ground (arith, h)
step-stored mother son (exit_wakes e) h = ground (arith, h)
step-stored mother son (uncount_begins e) h = ground (arith, h)
step-stored mother son (uncount_sleeps e) h = ground (arith, h)
step-stored mother son (uncounts) h = ground (arith, h)
step-stored mother son (uncount_ends) h = ground (arith, h)

step-read :
    (mother son : ℕ) {s t : Pair}
    → Step mother son s t
    → Inv mother son s
    → code_in t.parent (code_of t.child) ≡ code_of t.child
step-read mother son (count_begins e) inv = inv.read
step-read mother son (count_sleeps e) inv = inv.read
step-read mother son (counts) inv = inv.read
step-read mother son (count_ends) inv = inv.read
step-read mother son (join_passes e) inv = inv.read
step-read mother son (join_sleeps e) inv = inv.read
step-read mother son (join_wakes e) inv = inv.read
step-read mother son code_gets inv = inv.stored
step-read mother son (exit_signals) inv = inv.read
step-read mother son (code_sets {a = a} ec) inv = code_in-early a ec (ground (arith, inv.agrees))
step-read mother son (join_signals) inv = inv.read
step-read mother son (exit_passes e) inv = inv.read
step-read mother son (exit_sleeps e) inv = inv.read
step-read mother son (exit_wakes e) inv = inv.read
step-read mother son (uncount_begins e) inv = inv.read
step-read mother son (uncount_sleeps e) inv = inv.read
step-read mother son (uncounts) inv = inv.read
step-read mother son (uncount_ends) inv = inv.read

pub step-Inv :
    (mother son : ℕ) {s t : Pair} → Step mother son s t → Inv mother son s → Inv mother son t
step-Inv mother son step inv = record {
  agrees = step-Agrees mother son step inv.agrees;
  stored = step-stored mother son step inv.stored;
  read = step-read mother son step inv;
}

pub Reach-Inv :
    (mother son : ℕ) {s t : Pair} → Reach mother son s t → Inv mother son s → Inv mother son t
Reach-Inv mother son here inv = inv
Reach-Inv mother son (then_ r step) inv = step-Inv mother son step (Reach-Inv mother son r inv)
