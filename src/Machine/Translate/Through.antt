-- ===== src/Machine/Translate/Through.antt =====
-- What a successful translation of machine/translate.cc guarantees about the entry it went through.
use nach_operator_system.Prelude.{
  ℕ, ◌+◌, ◌*◌, ◌/◌, ◌%◌, ◌≤◌, ◌<◌, ◌≡◌, refl, Bool, true, false, ◌&&◌, Option, some, none, List,
  length, get_elem?, set, arith, ◌∙◌, sym, subst,
}
use nach_operator_system.Machine.{Machine, TranslationEntry, page_size, num_phys_pages}
use nach_operator_system.Machine.Translate.{Translated, at, touch, translate}
use nach_operator_system.Machine.Translate.Verdict.{
  IsSize, Aligned, offset_fits, Verdict, unaligned, beyond, invalid, protected, bad_frame, mapped,
  Judged,
}
use nach_operator_system.Machine.Translate.Laws.{translate-Judged, at-slot, finish_cases}

-- The entry through which a reference went, and where it led.
pub record Through (m : Machine) (table : List TranslationEntry) (addr size : ℕ) (writing : Bool)
    (a : ℕ) (m1 : Machine) : Type 0 where
  pub e : TranslationEntry
  pub entry : get_elem? table (addr / page_size) ≡ some e
  pub aligned : Aligned addr size
  pub valid : e.valid ≡ true
  pub allowed : (e.read_only && writing) ≡ false
  pub in_memory : e.physical_page < num_phys_pages
  pub address : e.physical_page * page_size + addr % page_size ≡ a
  pub fits : a % page_size + size ≤ page_size
  pub leaves : m1 ≡ record m { page_table = some (set table (addr / page_size) (touch writing e)) }

Verdict-Through :
    {size : ℕ} (m : Machine) (table : List TranslationEntry) (addr a : ℕ) (writing : Bool)
    (after : List TranslationEntry)
    → IsSize size
    → (v : Translated) → v ≡ at a
    → Verdict table addr size writing v after
    → Through m table addr size writing a (record m { page_table = some after })
Verdict-Through m table addr a writing after s v q (unaligned _) = absurd (cc)
Verdict-Through m table addr a writing after s v q (beyond _ _) = absurd (cc)
Verdict-Through m table addr a writing after s v q (invalid _ _ _ _) = absurd (cc)
Verdict-Through m table addr a writing after s v q (protected _ _ _ _ _ _) = absurd (cc)
Verdict-Through m table addr a writing after s v q (bad_frame _ _ _ _ _ _) = absurd (cc)
Verdict-Through m table addr a writing after s v q (mapped e al here ok open_ fits) =
    let eq : e.physical_page * page_size + addr % page_size ≡ a = ground arith in
    record {
      e = e;
      entry = here;
      aligned = al;
      valid = ok;
      allowed = open_;
      in_memory = fits;
      address = eq;
      fits = omega (arith, offset_fits addr s al);
      leaves = refl;
    }

module _ (m : Machine) (table : List TranslationEntry) {size : ℕ} (addr : ℕ) (writing : Bool)
    (s : IsSize size) (no_tlb : m.tlb ≡ none) (paged : m.page_table ≡ some table)
    (sized : m.page_table_size ≡ length table) where
  -- A physical address that Translate gives lies in the frame of the page's entry, which is open
  -- to the reference, at the same offset, and the reference ends within the frame.
  pub translate-Through :
      (a : ℕ) (m1 : Machine)
      → translate addr size writing m ≡ some (at a, m1)
      → Through m table addr size writing a m1
  translate-Through a m1 h =
      let j : Judged m table addr size writing (translate addr size writing m) =
        translate-Judged m table addr writing s no_tlb paged sized in
      let ends : ◌≡◌ {A = Option (Translated × Machine)}
          (some (j.verdict, record m { page_table = some j.after })) (some (at a, m1)) =
        sym j.returns ∙ h in
      let same_verdict : j.verdict ≡ at a = ground arith in
      let same_machine : record m { page_table = some j.after } ≡ m1 = ground arith in
      subst (Through m table addr size writing a) same_machine
        (Verdict-Through m table addr a writing j.after s j.verdict same_verdict j.because)

  -- And it does give one, if nothing stands against it.
  pub translate-mapped :
      (e : TranslationEntry)
      → Aligned addr size
      → get_elem? table (addr / page_size) ≡ some e
      → e.valid ≡ true
      → (e.read_only && writing) ≡ false
      → e.physical_page < num_phys_pages
      → translate addr size writing m
        ≡ some (
          at (e.physical_page * page_size + addr % page_size),
          record m { page_table = some (set table (addr / page_size) (touch writing e)) },
        )
  translate-mapped e al here ok open_ fits =
      at-slot m table addr writing s no_tlb paged sized e al here ok
      ∙ ground (
        arith,
        finish_cases m table (λ t. record m { page_table = some t }) addr (addr / page_size) writing
            e s al here,
      )
