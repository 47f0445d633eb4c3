-- ===== src/STable/Creating.antt =====
-- `STable::Create`: one more name, an error, or a name that does not fit its buffer.
use nach_operator_system.Prelude.{
  ℕ, ◌≤◌, ◌<◌, ◌≡◌, refl, ◌≢◌, ◌⊎◌, inl, inr, true, false, ◌||◌, some, none, ◌==◌, length,
  get_elem?, set, length-set, get_elem?-set, arith, ◌>>=◌, ◌∙◌, if◌then◌else◌, sym, ap, subst, ℤ,
  pos, minus_one, CString,
}
use native.Mathlib.Decide.{ℕ_discrete, dec_lt}
use nach_operator_system.BitMap.Laws.{marked, set_bit, marked-set_bit, set_bit-IsValid}
use nach_operator_system.BitMap.Find.{AllMarked, IsFirstClear, find-Finds}
use nach_operator_system.Semaphore.{new_semaphore}
use nach_operator_system.STable.{
  Sem, STable, name_size, put_sem, find_free_solt, put_new, create, new_sem, find_name,
}
use nach_operator_system.STable.Invariant.{Holds, IsValid, Absent, find_name_lem, Holds-unique}

-- Entry `i` was free and now holds `s`; the other entries are as they were.
pub record Created (t : STable) (i : ℕ) (s : Sem) (t' : STable) : Type 0 where
  pub was_clear : marked t.bm i ≡ false
  pub holds : Holds t' i s
  pub valid : IsValid t'
  pub others :
      (k : ℕ) (r : Sem) → k ≢ i → (Holds t' k r → Holds t k r) × (Holds t k r → Holds t' k r)

module _ (t : STable) (v : IsValid t) (name : CString) (init : ℤ) where
  abbrev fresh : Sem
  fresh = record { name = name; sem = new_semaphore init }

  module _ (n : ℕ) (first : IsFirstClear t.bm 0 t.bm.num_bits n) (absent : Absent t name 0) where
    abbrev with_new : STable
    with_new = record t { bm = set_bit t.bm n; sem_tab = set t.sem_tab n (some fresh) }

    in_size : n < t.size
    in_size = omega (arith, first.below, v.bits)

    marks-new : (k : ℕ) → k < t.size → marked with_new.bm k ≡ (n == k || marked t.bm k)
    marks-new k h = marked-set_bit t.bm v.words n k first.below

    entries-new :
        (k : ℕ)
        → get_elem? with_new.sem_tab k
          ≡ (if n == k then some (some fresh) else get_elem? t.sem_tab k)
    entries-new k = get_elem?-set t.sem_tab n k (some fresh) (omega (arith, in_size, v.entries))

    Holds-new : Holds with_new n fresh
    Holds-new = record {
      below = in_size;
      is_marked = ground (arith, marks-new n in_size);
      entry = ground (arith, entries-new n);
    }

    Holds-back : (k : ℕ) (r : Sem) → k ≢ n → Holds with_new k r → Holds t k r
    Holds-back k r ne h = record {
      below = h.below;
      is_marked = ground (arith, marks-new k h.below, h.is_marked);
      entry = ground (arith, entries-new k, h.entry);
    }

    Holds-on : (k : ℕ) (r : Sem) → k ≢ n → Holds t k r → Holds with_new k r
    Holds-on k r ne h = record {
      below = h.below;
      is_marked = ground (arith, marks-new k h.below, h.is_marked);
      entry = ground (arith, entries-new k, h.entry);
    }

    new-name : (k : ℕ) (r : Sem) → Holds with_new k r → n ≡ k → r.name ≡ name
    new-name k r h e =
        ap (λ (x : Sem). x.name)
          (Holds-unique with_new k r fresh h (subst (λ j. Holds with_new j fresh) e Holds-new))

    distinct-new :
        (i j : ℕ) (s r : Sem) → Holds with_new i s → Holds with_new j r → s.name ≡ r.name → i ≡ j
    distinct-new i j s r hi hj same = elim (ℕ_discrete i n) [
      | yes ei ↦ elim (ℕ_discrete j n) [
        | yes ej ↦ ei ∙ sym ej
        | no nj ↦
            absurd (
              absent j r (omega arith) (Holds-back j r nj hj) (sym same ∙ new-name i s hi (sym ei)))
      ]
      | no ni ↦ elim (ℕ_discrete j n) [
        | yes ej ↦
            absurd
              (absent i s (omega arith) (Holds-back i s ni hi) (same ∙ new-name j r hj (sym ej)))
        | no nj ↦ v.distinct i j s r (Holds-back i s ni hi) (Holds-back j r nj hj) same
      ]
    ]

    filled-new : (i : ℕ) → i < t.size → marked with_new.bm i ≡ true → (s : Sem) × Holds with_new i s
    filled-new i h m = elim (ℕ_discrete n i) [
      | yes e ↦ (fresh, subst (λ k. Holds with_new k fresh) e Holds-new)
      | no ne ↦
          let (s, old) = v.filled i h (ground (arith, marks-new i h)) in
          (s, Holds-on i s (λ e. ne (sym e)) old)
    ]

    Created-new : Created t n fresh with_new
    Created-new = record {
      was_clear = first.is_clear;
      holds = Holds-new;
      valid = record {
        bits = v.bits;
        words = set_bit-IsValid t.bm n v.words;
        entries = length-set t.sem_tab n (some fresh) ∙ v.entries;
        filled = filled-new;
        distinct = distinct-new;
      };
      others = λ k r ne. (Holds-back k r ne, Holds-on k r ne);
    }

    put_new-fits :
        length name < name_size
        → put_new name init (pos n, record t { bm = set_bit t.bm n }) ≡ some (pos 0, with_new)
    unfolding put_new new_sem put_sem
    put_new-fits fits = ground (arith, in_size, v.entries)

    put_new-overflows :
        name_size ≤ length name → put_new name init (pos n, record t { bm = set_bit t.bm n }) ≡ none
    unfolding put_new new_sem
    put_new-overflows long = ground arith

  free_slot :
      Absent t name 0
      → (AllMarked t.bm 0 t.size × ((find_free_solt t >>= put_new name init) ≡ some (minus_one, t)))
        ⊎ ((n : ℕ) × (t' : STable) × Created t n fresh t'
            × AllMarked t.bm 0 n
            × (((length name < name_size)
                  × ((find_free_solt t >>= put_new name init) ≡ some (pos 0, t')))
                ⊎ ((name_size ≤ length name) × ((find_free_solt t >>= put_new name init) ≡ none))))
  unfolding find_free_solt
  free_slot absent = elim (find-Finds t.bm) [
    | inl (e, all) ↦ inl (λ k p q. all k p (omega (arith, v.bits)), rw e (unfold put_new in refl))
    | inr (n, e, first) ↦ inr (
      n,
      with_new n first absent,
      Created-new n first absent,
      first.before,
      rw e (elim (dec_lt (length name) name_size) [
        | yes fits ↦ inl (fits, put_new-fits n first absent fits)
        | no long ↦ inr (omega arith, put_new-overflows n first absent (omega arith))
      ]),
    )
  ]

  create-taken :
      (k : ℕ) → find_name t.size 0 name t ≡ some (some k) → create name init t ≡ some (minus_one, t)
  create-taken k e = unfold create in rw e

  create-absent :
      find_name t.size 0 name t ≡ some none
      → create name init t ≡ (find_free_solt t >>= put_new name init)
  create-absent e = unfold create in rw e

  -- What Create does, case by case. A name that is taken, and a table that is full, give -1 and
  -- change nothing. Otherwise a name below 32 bytes is entered in the lowest free slot, with a new
  -- semaphore of the given value, and 0 is returned; a longer one overruns its buffer.
  pub create-outcome :
      ((k : ℕ) × (s : Sem) × Holds t k s
        × (s.name ≡ name)
        × (create name init t ≡ some (minus_one, t)))
      ⊎ (Absent t name 0
          × (AllMarked t.bm 0 t.size × (create name init t ≡ some (minus_one, t))
              ⊎ ((n : ℕ) × (t' : STable) × Created t n fresh t'
                  × AllMarked t.bm 0 n
                  × (((length name < name_size) × (create name init t ≡ some (pos 0, t')))
                      ⊎ ((name_size ≤ length name) × (create name init t ≡ none))))))
  create-outcome = elim (find_name_lem t v name) [
    | inr (k, s, e, h, same) ↦ inl (k, s, h, same, create-taken k e)
    | inl (e, absent) ↦ inr (absent, rw (create-absent e) (free_slot absent))
  ]
