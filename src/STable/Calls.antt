-- ===== src/STable/Calls.antt =====
-- `STable::Wait` and `STable::Signal`: P and V on the semaphore of the name, and on no other.
use nach_operator_system.Prelude.{
  ℕ, ◌<◌, ◌≡◌, refl, ◌≢◌, ◌⊎◌, inl, inr, true, some, none, ◌==◌, get_elem?, set, length-set,
  get_elem?-set, arith, ◌∙◌, if◌then◌else◌, sym, ap, subst, pos, minus_one, CString,
}
use native.Mathlib.Decide.{ℕ_discrete}
use nach_operator_system.BitMap.Laws.{marked}
use nach_operator_system.Semaphore.{Semaphore, try_p, v}
use nach_operator_system.STable.{
  Sem, STable, put_sem, sem_at, find_name, no_such_name, passed, asleep, p_at, wait, v_at, signal,
}
use nach_operator_system.STable.Invariant.{Holds, IsValid, Absent, find_name_lem, Holds-unique}

-- Entry `i` now holds `s`; the other entries are as they were.
pub record Updated (t : STable) (i : ℕ) (s : Sem) (t' : STable) : Type 0 where
  pub holds : Holds t' i s
  pub valid : IsValid t'
  pub others :
      (k : ℕ) (r : Sem) → k ≢ i → (Holds t' k r → Holds t k r) × (Holds t k r → Holds t' k r)

module _ (t : STable) (valid : IsValid t) (n : ℕ) (s : Sem) (h : Holds t n s)
    (sem : Semaphore) where
  abbrev s' : Sem
  s' = record s { sem = sem }

  abbrev t' : STable
  t' = record t { sem_tab = set t.sem_tab n (some s') }

  entries' :
      (k : ℕ) → get_elem? t'.sem_tab k ≡ (if n == k then some (some s') else get_elem? t.sem_tab k)
  entries' k = get_elem?-set t.sem_tab n k (some s') (omega (arith, h.below, valid.entries))

  holds' : Holds t' n s'
  holds' = record { below = h.below; is_marked = h.is_marked; entry = ground (arith, entries' n) }

  back : (k : ℕ) (r : Sem) → k ≢ n → Holds t' k r → Holds t k r
  back k r ne o = record {
    below = o.below;
    is_marked = o.is_marked;
    entry = ground (arith, entries' k, o.entry);
  }

  on : (k : ℕ) (r : Sem) → k ≢ n → Holds t k r → Holds t' k r
  on k r ne o = record {
    below = o.below;
    is_marked = o.is_marked;
    entry = ground (arith, entries' k, o.entry);
  }

  -- Every entry of the new table has the name that it had.
  old_name : (k : ℕ) (r : Sem) → Holds t' k r → (q : Sem) × Holds t k q × (q.name ≡ r.name)
  old_name k r o = elim (ℕ_discrete k n) [
    | yes e ↦
        let same = Holds-unique t' k s' r (subst (λ j. Holds t' j s') (sym e) holds') o in
        (s, subst (λ j. Holds t j s) (sym e) h, ap (λ (x : Sem). x.name) same)
    | no ne ↦ (r, back k r ne o, refl)
  ]

  distinct' : (i j : ℕ) (r q : Sem) → Holds t' i r → Holds t' j q → r.name ≡ q.name → i ≡ j
  distinct' i j r q hr hq same =
      let (r0, hr0, er) = old_name i r hr in
      let (q0, hq0, eq) = old_name j q hq in valid.distinct i j r0 q0 hr0 hq0 (er ∙ same ∙ sym eq)

  filled' : (i : ℕ) → i < t.size → marked t.bm i ≡ true → (r : Sem) × Holds t' i r
  filled' i lt m = elim (ℕ_discrete n i) [
    | yes e ↦ (s', subst (λ k. Holds t' k s') e holds')
    | no ne ↦ let (r, o) = valid.filled i lt m in (r, on i r (λ e. ne (sym e)) o)
  ]

  updates : Updated t n s' t'
  updates = record {
    holds = holds';
    valid = record {
      bits = valid.bits;
      words = valid.words;
      entries = length-set t.sem_tab n (some s') ∙ valid.entries;
      filled = filled';
      distinct = distinct';
    };
    others = λ k r ne. (back k r ne, on k r ne);
  }

  put_sem-fits : put_sem t n s' ≡ some t'
  unfolding put_sem
  put_sem-fits = ground (arith, h.below, valid.entries)

module _ (t : STable) (valid : IsValid t) (name : CString) where
  wait-found :
      (thread k : ℕ)
      → find_name t.size 0 name t ≡ some (some k)
      → wait thread name t ≡ p_at thread k t
  wait-found thread k e = unfold wait in rw e

  signal-found : (k : ℕ) → find_name t.size 0 name t ≡ some (some k) → signal name t ≡ v_at k t
  signal-found k e = unfold signal in rw e

  p_at_lem :
      (thread k : ℕ) (s : Sem) (h : Holds t k s)
      → p_at thread k t
        ≡ some (
          if (try_p thread s.sem).0 then passed else asleep k,
          t' t valid k s h (try_p thread s.sem).1,
        )
  unfolding p_at sem_at
  p_at_lem thread k s h = ground (arith, h.entry, put_sem-fits t valid k s h (try_p thread s.sem).1)

  v_at_lem :
      (k : ℕ) (s : Sem) (h : Holds t k s)
      → v_at k t ≡ some (pos 0, (v s.sem).0, t' t valid k s h (v s.sem).1)
  unfolding v_at sem_at
  v_at_lem k s h = ground (arith, h.entry, put_sem-fits t valid k s h (v s.sem).1)

  -- Wait on a name that no entry has returns -1 and changes nothing. On the name of an entry it
  -- makes one pass of P on that semaphore, and on no other: the call returns 0 if P passes, and
  -- else sleeps on it.
  pub wait-outcome :
      (thread : ℕ)
      → (Absent t name 0 × (wait thread name t ≡ some (no_such_name, t)))
        ⊎ ((k : ℕ) × (s : Sem) × (t1 : STable) × Holds t k s
            × (s.name ≡ name)
            × (wait thread name t ≡ some (if (try_p thread s.sem).0 then passed else asleep k, t1))
            × Updated t k (record s { sem = (try_p thread s.sem).1 }) t1)
  wait-outcome thread = elim (find_name_lem t valid name) [
    | inl (e, absent) ↦ inl (absent, unfold wait in rw e)
    | inr (k, s, e, h, same) ↦ inr (
      k,
      s,
      t' t valid k s h (try_p thread s.sem).1,
      h,
      same,
      wait-found thread k e ∙ p_at_lem thread k s h,
      updates t valid k s h (try_p thread s.sem).1,
    )
  ]

  -- Signal on a name that no entry has returns -1 and changes nothing. On the name of an entry it
  -- runs V on that semaphore, and on no other, and returns 0.
  pub signal-outcome :
      (Absent t name 0 × (signal name t ≡ some (minus_one, none, t)))
      ⊎ ((k : ℕ) × (s : Sem) × (t1 : STable) × Holds t k s
          × (s.name ≡ name)
          × (signal name t ≡ some (pos 0, (v s.sem).0, t1))
          × Updated t k (record s { sem = (v s.sem).1 }) t1)
  signal-outcome = elim (find_name_lem t valid name) [
    | inl (e, absent) ↦ inl (absent, unfold signal in rw e)
    | inr (k, s, e, h, same) ↦ inr (
      k,
      s,
      t' t valid k s h (v s.sem).1,
      h,
      same,
      signal-found k e ∙ v_at_lem k s h,
      updates t valid k s h (v s.sem).1,
    )
  ]
