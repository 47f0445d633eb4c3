-- ===== src/STable/Invariant.antt =====
-- The invariant of the table of threads/STable.cc, and what its search loop finds.
use nach_operator_system.Prelude.{
  ℕ, zero, suc, ◌+◌, ◌≤◌, ◌<◌, ◌≡◌, refl, ◌≢◌, ◌⊎◌, inl, inr, true, false, Option, some, none,
  length, get_elem?, arith, ◌∙◌, if◌then◌else◌, sym, subst, Bool-cases, CString, str_eq, str_eq→eq,
  str_eq_refl,
}
use native.Mathlib.Decide.{ℕ_discrete}
use nach_operator_system.BitMap.Laws.{marked, test_lem}
use nach_operator_system.BitMap.Laws
use nach_operator_system.STable.{Sem, STable, sem_at, find_name}

-- Entry `i` is in use, for the semaphore `s`.
pub record Holds (t : STable) (i : ℕ) (s : Sem) : Type 0 where
  pub below : i < t.size
  pub is_marked : marked t.bm i ≡ true
  pub entry : get_elem? t.sem_tab i ≡ some (some s)

pub record IsValid (t : STable) : Type 0 where
  pub bits : t.bm.num_bits ≡ t.size
  pub words : Laws.IsValid t.bm
  pub entries : length t.sem_tab ≡ t.size
  pub filled : (i : ℕ) → i < t.size → marked t.bm i ≡ true → (s : Sem) × Holds t i s
  pub distinct : (i j : ℕ) (s r : Sem) → Holds t i s → Holds t j r → s.name ≡ r.name → i ≡ j

-- No entry from `i` on has this name.
abbrev pub Absent : STable → CString → ℕ → Type 0
Absent t name i = (k : ℕ) (s : Sem) → i ≤ k → Holds t k s → s.name ≢ name

abbrev pub Found : STable → CString → ℕ → Option (Option ℕ) → Type 0
Found t name i r =
    ((r ≡ some none) × Absent t name i)
    ⊎ ((k : ℕ) × (s : Sem) × (r ≡ some (some k)) × Holds t k s × (s.name ≡ name))

-- One entry holds one semaphore.
pub Holds-unique : (t : STable) (i : ℕ) (s r : Sem) → Holds t i s → Holds t i r → s ≡ r
Holds-unique t i s r h k =
    let same : ◌≡◌ {A = Option (Option Sem)} (some (some s)) (some (some r)) =
      sym h.entry ∙ k.entry in
    cc

module _ (t : STable) (v : IsValid t) (name : CString) where
  Absent-skip-clear : (i : ℕ) → marked t.bm i ≡ false → Absent t name (suc i) → Absent t name i
  Absent-skip-clear i c a k s p h = elim (ℕ_discrete i k) [
    | yes e ↦ absurd (ground (arith, h.is_marked))
    | no ne ↦ a k s (omega arith) h
  ]

  Absent-skip :
      (i : ℕ) (s : Sem)
      → Holds t i s
      → str_eq name s.name ≡ false
      → Absent t name (suc i)
      → Absent t name i
  Absent-skip i s hs differs a k r p h = elim (ℕ_discrete i k) [
    | yes e ↦ λ q.
        let same = Holds-unique t k r s h (subst (λ x. Holds t x s) e hs) in
        ground (arith, str_eq_refl name)
    | no ne ↦ a k r (omega arith) h
  ]

  find_name-clear :
      (left i : ℕ)
      → i < t.size
      → marked t.bm i ≡ false
      → find_name (suc left) i name t ≡ find_name left (suc i) name t
  unfolding find_name
  find_name-clear left i h c = ground (arith, test_lem t.bm i, v.bits)

  find_name-marked :
      (left i : ℕ) (s : Sem)
      → Holds t i s
      → find_name (suc left) i name t
        ≡ (if str_eq name s.name then some (some i) else find_name left (suc i) name t)
  unfolding find_name sem_at
  find_name-marked left i s h =
      ground (arith, test_lem t.bm i, v.bits, h.below, h.is_marked, h.entry)

  Found-skip :
      (i : ℕ) (r : Option (Option ℕ))
      → (Absent t name (suc i) → Absent t name i)
      → Found t name (suc i) r
      → Found t name i r
  Found-skip i r f (inl (e, a)) = inl (e, f a)
  Found-skip i r f (inr found) = inr found

  find_name-Found : (left i : ℕ) → i + left ≡ t.size → Found t name i (find_name left i name t)
  find_name-Found zero i e =
      inl (unfold find_name in refl, λ k s p h. absurd (omega (arith, h.below)))
  find_name-Found (suc left) i e =
      let later = find_name-Found left (suc i) (omega arith) in
      elim (Bool-cases (marked t.bm i)) [
        | inr free ↦
            rw (find_name-clear left i (omega arith) free)
              (Found-skip i (find_name left (suc i) name t) (Absent-skip-clear i free) later)
        | inl full ↦
            let (s, h) = v.filled i (omega arith) full in
            rw (find_name-marked left i s h) (elim (Bool-cases (str_eq name s.name)) [
              | inl hit ↦ rw hit (inr (i, s, refl, h, sym (str_eq→eq name s.name hit)))
              | inr miss ↦
                  rw miss
                    (Found-skip i (find_name left (suc i) name t) (Absent-skip i s h miss) later)
            ])
      ]

  -- The search of Create, Wait and Signal finds the entry of the name, if there is one.
  pub find_name_lem : Found t name 0 (find_name t.size 0 name t)
  find_name_lem = find_name-Found t.size 0 (omega arith)
