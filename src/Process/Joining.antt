-- ===== src/Process/Joining.antt =====
-- What a parent's Join and a child's Exit guarantee each other, in every order of their steps.
use nach_operator_system.Prelude.{ℕ, ◌≤◌, ◌≡◌, ◌∙◌, sym, ap, ℤ, arith}
use nach_operator_system.Process.{new_pcb}
use nach_operator_system.Process.Handshake.{
  ParentAt, not_joined, counting, counted, joining, join_asleep, admitted, code_read, joined,
  running, gone, Pair, at, Reach, parent_stage, child_stage, code_of, code_in,
}
use nach_operator_system.Process.Invariant.{Inv, start-Inv, Reach-Inv}

abbrev pub fork : ℤ → ℕ → Pair
fork current id = at (new_pcb current id) not_joined running

pub joined_at_end :
    (a : ParentAt) (d ec : ℤ) → parent_stage a ≡ 7 → code_in a d ≡ ec → a ≡ joined ec
joined_at_end not_joined d ec h e = absurd (omega arith)
joined_at_end counting d ec h e = absurd (omega arith)
joined_at_end counted d ec h e = absurd (omega arith)
joined_at_end joining d ec h e = absurd (omega arith)
joined_at_end join_asleep d ec h e = absurd (omega arith)
joined_at_end admitted d ec h e = absurd (omega arith)
joined_at_end (code_read k) d ec h e = absurd (omega arith)
joined_at_end (joined k) d ec h e = ap joined e

module _ {mother son : ℕ} (current : ℤ) (id : ℕ) {s : Pair}
    (r : Reach mother son (fork current id) s) where
  reached : Inv mother son s
  reached = Reach-Inv mother son r (start-Inv mother son current id)

  -- In every order of the steps of a parent and its new child: where Join returns a code, the child
  -- has called Exit with that code, which it has stored and signalled.
  pub joined-exit_code :
      (code : ℤ) → s.parent ≡ joined code → (2 ≤ child_stage s.child) × (code_of s.child ≡ code)
  joined-exit_code code e =
      let at_end : parent_stage s.parent ≡ 7 = ap parent_stage e in
      let (jv, jq, ev, eq, mv, admits, dismisses) = reached.agrees in
      (
        admits (omega (arith, at_end)),
        sym (ap (λ a. code_in a (code_of s.child)) (sym e) ∙ reached.read),
      )

  -- In every order of the steps of a parent and its new child: where the child's Exit with a code
  -- has come to the call of Remove, the parent has read this code and has made its last call on the
  -- PCB, so that Join returns the code.
  pub gone-joined : (ec : ℤ) → s.child ≡ gone ec → s.parent ≡ joined ec
  gone-joined ec e =
      let at_end : child_stage s.child ≡ 7 = ap child_stage e in
      let (jv, jq, ev, eq, mv, admits, dismisses) = reached.agrees in
      joined_at_end s.parent (code_of s.child) ec (dismisses (omega (arith, at_end)))
        (reached.read ∙ ap code_of e)
