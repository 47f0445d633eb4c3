-- ===== src/FdTable/Slot.antt =====
-- FDTable::FindIdFile behind its checks: the descriptor that it takes, and what it leaves alone.
use nach_operator_system.Prelude.{
  ℕ, ◌-◌, ◌≤◌, ◌<◌, ◌≡◌, refl, ◌≢◌, ◌⊎◌, inl, inr, true, false, ◌||◌, Option, some, none, ◌==◌,
  length, get_elem?, set, length-set, get_elem?-set, ℤ, pos, minus_one, arith, ◌∙◌, if◌then◌else◌,
  sym, Option-cases, subst,
}
use native.Mathlib.Decide.{ℕ_discrete}
use nach_operator_system.BitMap.{BitMap, find_between}
use nach_operator_system.BitMap.Laws.{
  marked, set_bit, clear_bit, marked-set_bit, marked-clear_bit, set_bit-IsValid, clear_bit-IsValid,
  clear_lem,
}
use nach_operator_system.BitMap.Find.{AllMarked, IsFirstClear, find_between-Finds}
use nach_operator_system.FdTable.{Pointer, live, null, FdTable, take_slot, bind_file}
use nach_operator_system.FdTable.Invariant.{IsType, IsOpen, IsValid}

module _ {File : Type 0} where
  -- Descriptor `n`, free before, is now open on `f`; the others are as they were.
  pub record Opened (t : FdTable File) (n : ℕ) (f : File) (type : ℤ) (t' : FdTable File)
      : Type 0 where
    pub low : 2 ≤ n
    pub high : n < 10
    pub was_clear : marked t.flags n ≡ false
    pub is_open : IsOpen t' n f type
    pub valid : IsValid t'
    pub others :
        (i : ℕ)
        → i < 10
        → i ≢ n
        → (marked t'.flags i ≡ marked t.flags i)
          × (get_elem? t'.list_file i ≡ get_elem? t.list_file i)

  -- No descriptor has been opened or closed.
  pub record Unopened (t : FdTable File) (t' : FdTable File) : Type 0 where
    pub valid : IsValid t'
    pub marks : (i : ℕ) → i < 10 → marked t'.flags i ≡ marked t.flags i
    pub entries :
        (i : ℕ)
        → i < 10
        → marked t.flags i ≡ true
        → get_elem? t'.list_file i ≡ get_elem? t.list_file i

  module _ (t : FdTable File) (v : IsValid t) where
    Unopened-refl : Unopened t t
    Unopened-refl = record { valid = v; marks = λ i h. refl; entries = λ i h m. refl }

    search :
        ((find_between t.flags 2 (t.size - 1) ≡ some (minus_one, t.flags)) × AllMarked t.flags 2 10)
        ⊎ ((n : ℕ) × (find_between t.flags 2 (t.size - 1) ≡ some (pos n, set_bit t.flags n))
            × IsFirstClear t.flags 2 10 n)
    search =
        let nine : t.size - 1 ≡ 9 = omega (arith, v.sized) in
        rw nine (find_between-Finds t.flags 2 9 (omega arith) (omega (arith, v.bits)))

    module _ (type : ℤ) (n : ℕ) (first : IsFirstClear t.flags 2 10 n) where
      abbrev flags' : BitMap
      flags' = set_bit t.flags n

      abbrev with_entry : Pointer File → FdTable File
      with_entry p = record t {
        flags = flags';
        list_file = set t.list_file n (record { p_file = p; type = type });
      }

      in_bits : n < t.flags.num_bits
      in_bits = omega (arith, first.below, v.bits)

      in_entries : n < length t.list_file
      in_entries = omega (arith, first.below, v.entries)

      marks-set : (i : ℕ) → i < 10 → marked flags' i ≡ (n == i || marked t.flags i)
      marks-set i h = marked-set_bit t.flags v.words n i in_bits

      entries-set :
          (p : Pointer File) (i : ℕ)
          → get_elem? (with_entry p).list_file i ≡ (
              if n == i then some (record { p_file = p; type = type }) else get_elem? t.list_file i)
      entries-set p i =
          get_elem?-set t.list_file n i (record { p_file = p; type = type }) in_entries

      bind-some :
          (f : File)
          → bind_file (some f) type (pos n) (record t { flags = flags' })
            ≡ some (pos n, with_entry (live f))
      unfolding bind_file
      bind-some f = ground (arith, in_entries)

      bind-none :
          bind_file none type (pos n) (record t { flags = flags' })
          ≡ some (minus_one, record (with_entry null) { flags = clear_bit flags' n })
      unfolding bind_file
      bind-none = ground (arith, in_entries, clear_lem flags' n in_bits)

      with_file-here : (f : File) → IsType type → IsOpen (with_entry (live f)) n f type
      with_file-here f mode = record {
        is_marked = ground (arith, marks-set n first.below);
        entry = ground (arith, entries-set (live f) n);
        mode = mode;
      }

      -- The other open descriptors stay open, whatever is stored in the free slot.
      keeps-open :
          (p : Pointer File) (flags : BitMap) (i : ℕ) (f0 : File) (type0 : ℤ)
          → n ≢ i
          → marked flags i ≡ true
          → IsOpen t i f0 type0
          → IsOpen (record (with_entry p) { flags = flags }) i f0 type0
      keeps-open p flags i f0 type0 ne m o = record {
        is_marked = m;
        entry = ground (arith, entries-set p i, o.entry);
        mode = o.mode;
      }

      with_file-opened :
          (f : File)
          → IsType type
          → (i : ℕ) → 2 ≤ i
          → i < 10
          → marked flags' i ≡ true
          → (f0 : File) × (type0 : ℤ) × IsOpen (with_entry (live f)) i f0 type0
      with_file-opened f mode i lo hi m = elim (ℕ_discrete n i) [
        | yes e ↦
            (f, type, subst (λ k. IsOpen (with_entry (live f)) k f type) e (with_file-here f mode))
        | no ne ↦
            let (f0, type0, o) = v.opened i lo hi (ground (arith, marks-set i hi)) in
            (f0, type0, keeps-open (live f) flags' i f0 type0 ne m o)
      ]

      with_file-Opened : (f : File) → IsType type → Opened t n f type (with_entry (live f))
      with_file-Opened f mode = record {
        low = first.from;
        high = first.below;
        was_clear = first.is_clear;
        is_open = with_file-here f mode;
        valid = record {
          sized = v.sized;
          bits = v.bits;
          words = set_bit-IsValid t.flags n v.words;
          entries = length-set t.list_file n _ ∙ v.entries;
          opened = with_file-opened f mode;
        };
        others = λ i h ne. (ground (arith, marks-set i h), ground (arith, entries-set (live f) i));
      }

      marks-cleared : (i : ℕ) → i < 10 → marked (clear_bit flags' n) i ≡ marked t.flags i
      marks-cleared i h = ground (
        arith,
        marks-set i h,
        marked-clear_bit flags' (set_bit-IsValid t.flags n v.words) n i in_bits,
        first.is_clear,
      )

      no_file-Unopened : Unopened t (record (with_entry null) { flags = clear_bit flags' n })
      no_file-Unopened = record {
        valid = record {
          sized = v.sized;
          bits = v.bits;
          words = clear_bit-IsValid flags' n (set_bit-IsValid t.flags n v.words);
          entries = length-set t.list_file n _ ∙ v.entries;
          opened = λ i lo hi m.
              let m0 : marked t.flags i ≡ true = sym (marks-cleared i hi) ∙ m in
              let (f0, type0, o) = v.opened i lo hi m0 in
              (f0, type0, keeps-open null (clear_bit flags' n) i f0 type0 (differs i m0) m o);
        };
        marks = marks-cleared;
        entries = λ i h m. ground (arith, entries-set null i, differs i m);
      }
        where
          differs : (i : ℕ) → marked t.flags i ≡ true → n ≢ i
          differs i m e = ground (arith, first.is_clear)

    -- With a file found, FindIdFile opens the lowest free descriptor on it. With no descriptor free,
    -- or no file of that name, it returns -1, and nothing has been opened or closed.
    pub take_slot-outcome :
        (opened : Option File) (type : ℤ)
        → IsType type
        → ((n : ℕ) × (f : File) × (t' : FdTable File) × (opened ≡ some f)
            × (take_slot opened type t ≡ some (pos n, t'))
            × AllMarked t.flags 2 n
            × Opened t n f type t')
          ⊎ ((t' : FdTable File) × (take_slot opened type t ≡ some (minus_one, t'))
              × (AllMarked t.flags 2 10 ⊎ (opened ≡ none))
              × Unopened t t')
    unfolding take_slot
    take_slot-outcome opened type mode = elim search [
      | inl (e, all) ↦ inr (t, rw e, inl all, Unopened-refl)
      | inr (n, e, first) ↦ elim (Option-cases opened) [
        | inl absent ↦ inr (
          _,
          rw (e, absent) (ground (arith, bind-none type n first)),
          inr absent,
          no_file-Unopened type n first,
        )
        | inr (f, found) ↦ inl (
          n,
          f,
          _,
          found,
          rw (e, found) (ground (arith, bind-some type n first f)),
          first.before,
          with_file-Opened type n first f mode,
        )
      ]
    ]
