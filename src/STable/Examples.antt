-- ===== src/STable/Examples.antt =====
-- A table with one named semaphore: tests of the calls, and the laws at it.
use nach_operator_system.Prelude.{
  ℕ, zero, suc, ◌≤◌, ◌<◌, ◌≡◌, refl, ◌⊎◌, true, some, none, List, [], ◌∷◌, length, arith, ℤ, pos,
  negsuc, minus_one, CString, if◌then◌else◌, str_eq, sym, ◌∙◌, subst,
}
use nach_operator_system.BitMap.{new_bit_map, find, test}
use nach_operator_system.BitMap.Laws.{marked}
use nach_operator_system.BitMap.Find.{AllMarked}
use nach_operator_system.Semaphore.{new_semaphore, try_p, v}
use nach_operator_system.STable.{
  Sem, STable, name_size, new_s_table, create, wait, signal, new_sem, no_such_name, passed, asleep,
}
use nach_operator_system.STable.Invariant.{Holds, IsValid, Absent}
use nach_operator_system.STable.Creating.{Created, create-outcome}
use nach_operator_system.STable.Calls.{Updated, wait-outcome, signal-outcome}

abbrev no_names : STable
no_names = record {
  bm = record { num_bits = 2; map = 0 ∷ [] };
  sem_tab = none ∷ none ∷ [];
  size = 2;
}

abbrev door : CString
door = 100 ∷ 111 ∷ []

abbrev door_sem : ℤ → List ℕ → Sem
door_sem value queue = record { name = door; sem = record { value = value; queue = queue } }

abbrev one_name : ℤ → List ℕ → STable
one_name value queue = record {
  bm = record { num_bits = 2; map = 1 ∷ [] };
  sem_tab = some (door_sem value queue) ∷ none ∷ [];
  size = 2;
}

new_is_empty :
    new_s_table 2 (9 ∷ []) ≡ some (record no_names { bm = record { num_bits = 2; map = 8 ∷ [] } })
unfolding new_s_table new_bit_map
new_is_empty = refl

create-door : create door (pos 1) no_names ≡ some (pos 0, one_name (pos 1) [])
unfolding create new_sem new_semaphore find test str_eq
create-door = refl

-- P passes, then sleeps, then V wakes the sleeper.
three_calls :
    (wait 4 door (one_name (pos 1) []) ≡ some (passed, one_name (pos 0) []))
    × (wait 5 door (one_name (pos 0) []) ≡ some (asleep 0, one_name (pos 0) (5 ∷ [])))
    × (signal door (one_name (pos 0) (5 ∷ [])) ≡ some (pos 0, some 5, one_name (pos 1) []))
unfolding wait signal try_p v test str_eq
three_calls = (refl, refl, refl)

-- A semaphore that a program creates below zero never stops a thread.
below_zero : wait 4 door (one_name (negsuc 0) []) ≡ some (passed, one_name (negsuc 1) [])
unfolding wait try_p test str_eq
below_zero = refl

no_names-IsValid : IsValid no_names
no_names-IsValid = record {
  bits = refl;
  words = refl;
  entries = refl;
  filled = λ i h m. absurd (nothing i h m);
  distinct = λ i j s r hs hr e. absurd (nothing i hs.below hs.is_marked);
}
  where
    nothing : (i : ℕ) → i < 2 → ¬ (marked no_names.bm i ≡ true)
    nothing zero h m = cc
    nothing (suc zero) h m = cc
    nothing (suc (suc i)) h m = absurd (omega arith)

create-outcome_example :
    ((k : ℕ) × (s : Sem) × Holds no_names k s
      × (s.name ≡ door)
      × (create door (pos 1) no_names ≡ some (minus_one, no_names)))
    ⊎ (Absent no_names door 0
        × (AllMarked no_names.bm 0 2 × (create door (pos 1) no_names ≡ some (minus_one, no_names))
            ⊎ ((n : ℕ) × (t' : STable) × Created no_names n
                  (record { name = door; sem = new_semaphore (pos 1) })
                  t'
                × AllMarked no_names.bm 0 n
                × (((length door < name_size) × (create door (pos 1) no_names ≡ some (pos 0, t')))
                    ⊎ ((name_size ≤ length door) × (create door (pos 1) no_names ≡ none))))))
create-outcome_example = create-outcome no_names no_names-IsValid door (pos 1)

door-Holds : Holds (one_name (pos 1) []) 0 (door_sem (pos 1) [])
door-Holds = record { below = omega arith; is_marked = refl; entry = refl }

one_name-only : (i : ℕ) → i < 2 → marked (one_name (pos 1) []).bm i ≡ true → i ≡ 0
one_name-only zero h m = refl
one_name-only (suc zero) h m = cc
one_name-only (suc (suc i)) h m = absurd (omega arith)

one_name-IsValid : IsValid (one_name (pos 1) [])
one_name-IsValid = record {
  bits = refl;
  words = refl;
  entries = refl;
  filled = λ i h m. (
    door_sem (pos 1) [],
    subst (λ k. Holds (one_name (pos 1) []) k (door_sem (pos 1) [])) (sym (one_name-only i h m))
        door-Holds,
  );
  distinct = λ i j s r hs hr e.
      one_name-only i hs.below hs.is_marked ∙ sym (one_name-only j hr.below hr.is_marked);
}

wait-outcome_example :
    (Absent (one_name (pos 1) []) door 0
      × (wait 4 door (one_name (pos 1) []) ≡ some (no_such_name, one_name (pos 1) [])))
    ⊎ ((k : ℕ) × (s : Sem) × (t1 : STable) × Holds (one_name (pos 1) []) k s
        × (s.name ≡ door)
        × (wait 4 door (one_name (pos 1) [])
            ≡ some (if (try_p 4 s.sem).0 then passed else asleep k, t1))
        × Updated (one_name (pos 1) []) k (record s { sem = (try_p 4 s.sem).1 }) t1)
wait-outcome_example = wait-outcome (one_name (pos 1) []) one_name-IsValid door 4

signal-outcome_example :
    (Absent (one_name (pos 1) []) door 0
      × (signal door (one_name (pos 1) []) ≡ some (minus_one, none, one_name (pos 1) [])))
    ⊎ ((k : ℕ) × (s : Sem) × (t1 : STable) × Holds (one_name (pos 1) []) k s
        × (s.name ≡ door)
        × (signal door (one_name (pos 1) []) ≡ some (pos 0, (v s.sem).0, t1))
        × Updated (one_name (pos 1) []) k (record s { sem = (v s.sem).1 }) t1)
signal-outcome_example = signal-outcome (one_name (pos 1) []) one_name-IsValid door
