-- ===== src/Kernel/Return.antt =====
-- What a run of the kernel's code leaves if it returns.
use nach_operator_system.Prelude.{
  ◌≡◌, refl, subst, Bool, true, false, Option, some, none, if◌then◌else◌,
}
use nach_operator_system.Kernel.{Run, returns, sleeps, halts, stops, ◌>>=◌, lift}

-- What holds of the result of a run, if it returns.
pub record OnReturn {S A : Type 0} (P : A → Type 0) (r : Run S A) : Type 0 where
  pub holds : (a : A) → r ≡ returns a → P a

module _ {S A : Type 0} {P : A → Type 0} where
  pub OnReturn-returns : (a : A) → P a → OnReturn {S = S} P (returns a)
  OnReturn-returns a p = record { holds = λ b e. subst P (cc) p }

  pub OnReturn-sleeps : (s : S) → OnReturn P (sleeps s)
  OnReturn-sleeps s = record { holds = λ b e. absurd (cc) }

  pub OnReturn-halts : OnReturn {S = S} P halts
  OnReturn-halts = record { holds = λ b e. absurd (cc) }

  pub OnReturn-stops : OnReturn {S = S} P stops
  OnReturn-stops = record { holds = λ b e. absurd (cc) }

  pub OnReturn-if :
      (b : Bool) {x y : Run S A} → OnReturn P x → OnReturn P y → OnReturn P (if b then x else y)
  OnReturn-if true p q = p
  OnReturn-if false p q = q

  pub OnReturn-elim :
      (b : Bool) {x y : Run S A}
      → OnReturn P x
      → OnReturn P y
      → OnReturn P (elim b [ true ↦ x | false ↦ y ])
  OnReturn-elim true p q = p
  OnReturn-elim false p q = q

module _ {S A B : Type 0} {Q : B → Type 0} where
  -- A run that goes on from a result.
  pub OnReturn->>= :
      {P : A → Type 0} {r : Run S A} {f : A → Run S B}
      → OnReturn P r
      → ((a : A) → P a → OnReturn Q (f a))
      → OnReturn Q (r >>= f)
  OnReturn->>= {r = returns a} p h = h a (p.holds a refl)
  OnReturn->>= {r = sleeps s} p h = OnReturn-sleeps s
  OnReturn->>= {r = halts} p h = OnReturn-halts
  OnReturn->>= {r = stops} p h = OnReturn-stops

  pub OnReturn-lift :
      (o : Option A) {f : A → Run S B}
      → ((a : A) → o ≡ some a → OnReturn Q (f a))
      → OnReturn Q (lift o >>= f)
  OnReturn-lift none h = OnReturn-stops
  OnReturn-lift (some a) h = h a refl

pub OnReturn-weaken :
    {S A : Type 0} {P Q : A → Type 0} {r : Run S A}
    → OnReturn P r
    → ((a : A) → P a → Q a)
    → OnReturn Q r
OnReturn-weaken p h = record { holds = λ a e. h a (p.holds a e) }
