-- ===== src/Machine/Translate/Laws.antt =====
-- Which addresses Translate accepts, and which exception it reports for the others.
use nach_operator_system.Prelude.{
  ℕ, ◌+◌, ◌*◌, ◌/◌, ◌%◌, ◌≤◌, ◌<◌, ◌≡◌, ◌⊎◌, inl, inr, Bool, true, false, ◌&&◌, some, none, List,
  length, get_elem?, set, arith, ◌>>=◌, Bool-cases, ◌∙◌, Option-cases, get_elem?-lt,
  get_elem?-none-le,
}
use native.Mathlib.Decide.{ℕ_discrete}
use nach_operator_system.Machine.{
  Machine, TranslationEntry, page_fault_exception, read_only_exception, bus_error_exception,
  address_error_exception, page_size, num_phys_pages,
}
use nach_operator_system.Machine.Translate.{fault, at, slot, locate_page, touch, finish, translate}
use nach_operator_system.Machine.Translate.Verdict.{
  IsSize, Aligned, misaligned_lem, offset_fits, unaligned, beyond, invalid, protected, bad_frame,
  mapped, Judged,
}

-- From an entry on, for the page table and the TLB alike.
pub finish_cases :
    {size : ℕ} (m : Machine) (table : List TranslationEntry) (put : List TranslationEntry → Machine)
    (addr i : ℕ) (writing : Bool) (e : TranslationEntry)
    → IsSize size
    → Aligned addr size
    → get_elem? table i ≡ some e
    → let run = finish m table put (addr % page_size) size writing (slot i) in
      ((run ≡ some (fault read_only_exception, m)) × (e.read_only ≡ true) × (writing ≡ true))
      ⊎ ((run ≡ some (fault bus_error_exception, m))
          × ((e.read_only && writing) ≡ false)
          × (num_phys_pages ≤ e.physical_page))
      ⊎ ((run
            ≡ some (
              at (e.physical_page * page_size + addr % page_size),
              put (set table i (touch writing e)),
            ))
          × ((e.read_only && writing) ≡ false)
          × (e.physical_page < num_phys_pages))
unfolding finish
finish_cases m table put addr i writing e s al here = ground (arith, offset_fits addr s al)

module _ (m : Machine) (table : List TranslationEntry) {size : ℕ} (addr : ℕ) (writing : Bool)
    (s : IsSize size) (no_tlb : m.tlb ≡ none) (paged : m.page_table ≡ some table)
    (sized : m.page_table_size ≡ length table) where
  pub same : record m { page_table = some table } ≡ m
  same = ground arith

  abbrev Goal : Type 0
  Goal = Judged m table addr size writing (translate addr size writing m)

  unaligned-Judged : ¬ Aligned addr size → Goal
  unfolding translate
  unaligned-Judged al = record {
    verdict = fault address_error_exception;
    after = table;
    returns = ground (arith, misaligned_lem addr s, same);
    because = unaligned al;
  }

  enters :
      Aligned addr size
      → translate addr size writing m ≡ (
          locate_page table (length table) (addr / page_size)
          >>= finish m table
              (λ t. record m { page_table = some t })
              (addr % page_size)
              size
              writing)
  unfolding translate
  enters al = ground (arith, misaligned_lem addr s)

  found-slot :
      (e : TranslationEntry)
      → get_elem? table (addr / page_size) ≡ some e
      → e.valid ≡ true
      → locate_page table (length table) (addr / page_size) ≡ some (slot (addr / page_size))
  unfolding locate_page
  found-slot e here ok = ground (arith, get_elem?-lt table (addr / page_size) e here)

  pub at-slot :
      (e : TranslationEntry)
      → Aligned addr size
      → get_elem? table (addr / page_size) ≡ some e
      → e.valid ≡ true
      → translate addr size writing m
        ≡ finish m table
            (λ t. record m { page_table = some t })
            (addr % page_size)
            size
            writing
            (slot (addr / page_size))
  at-slot e al here ok = enters al ∙ rw (found-slot e here ok)

  entry-Judged :
      (e : TranslationEntry)
      → Aligned addr size
      → get_elem? table (addr / page_size) ≡ some e
      → e.valid ≡ true
      → Goal
  entry-Judged e al here ok =
      elim (finish_cases m table (λ t. record m { page_table = some t }) addr (addr / page_size)
        writing e s al here) [
          | inl (stops, ro, w) ↦ record {
            verdict = fault read_only_exception;
            after = table;
            returns = at-slot e al here ok ∙ stops ∙ ground (arith, same);
            because = protected e al here ok ro w;
          }
          | inr (inl (stops, p, big)) ↦ record {
            verdict = fault bus_error_exception;
            after = table;
            returns = at-slot e al here ok ∙ stops ∙ ground (arith, same);
            because = bad_frame e al here ok p big;
          }
          | inr (inr (goes, p, fits)) ↦ record {
            verdict = at (e.physical_page * page_size + addr % page_size);
            after = set table (addr / page_size) (touch writing e);
            returns = at-slot e al here ok ∙ goes;
            because = mapped e al here ok p fits;
          }
        ]

  invalid-Judged :
      (e : TranslationEntry)
      → Aligned addr size
      → get_elem? table (addr / page_size) ≡ some e
      → e.valid ≡ false
      → Goal
  unfolding locate_page finish
  invalid-Judged e al here bad = record {
    verdict = fault page_fault_exception;
    after = table;
    returns = enters al ∙ ground (arith, get_elem?-lt table (addr / page_size) e here, same);
    because = invalid e al here bad;
  }

  beyond-Judged : Aligned addr size → length table ≤ addr / page_size → Goal
  unfolding locate_page finish
  beyond-Judged al big = record {
    verdict = fault address_error_exception;
    after = table;
    returns = enters al ∙ ground (arith, same);
    because = beyond al big;
  }

  -- On a machine with a page table, Translate never fails an ASSERT: it reports the exception
  -- that the table calls for, or the physical address, and marks the entry it went through.
  pub translate-Judged : Goal
  translate-Judged = elim (ℕ_discrete (addr % size) 0) [
    | no off ↦ unaligned-Judged off
    | yes al ↦ elim (Option-cases (get_elem? table (addr / page_size))) [
      | inl past ↦ beyond-Judged al (get_elem?-none-le table (addr / page_size) past)
      | inr (e, here) ↦ elim (Bool-cases e.valid) [
        | inl ok ↦ entry-Judged e al here ok
        | inr bad ↦ invalid-Judged e al here bad
      ]
    ]
  ]
