-- ===== src/Machine/Translate/Verdict.antt =====
-- What Machine::Translate of machine/translate.cc has to say about a reference through a page table.
use nach_operator_system.Prelude.{
  ℕ, ◌+◌, ◌*◌, ◌/◌, ◌%◌, ◌≤◌, ◌<◌, ◌≡◌, Bool, true, false, not, ◌&&◌, Option, some, List, ◌==◌,
  length, get_elem?, set, arith,
}
use nach_operator_system.Prelude.Bits.{bit_and-mask}
use nach_operator_system.Machine.{
  Machine, TranslationEntry, page_fault_exception, read_only_exception, bus_error_exception,
  address_error_exception, page_size, num_phys_pages,
}
use nach_operator_system.Machine.Translate.{Translated, fault, at, misaligned, touch}

-- The sizes of a memory reference.
pub data IsSize : ℕ → Type 0 where
  byte : IsSize 1
  half : IsSize 2
  word : IsSize 4

abbrev pub Aligned : ℕ → ℕ → Type 0
Aligned addr size = addr % size ≡ 0

pub misaligned_lem :
    {size : ℕ} (addr : ℕ) → IsSize size → misaligned addr size ≡ not (addr % size == 0)
misaligned_lem addr byte = ground arith
misaligned_lem addr half = ground (arith, bit_and-mask 1 addr)
misaligned_lem addr word = ground (arith, bit_and-mask 2 addr)

-- An aligned reference does not cross the end of its page.
pub offset_fits :
    {size : ℕ} (addr : ℕ) → IsSize size → Aligned addr size → addr % page_size + size ≤ page_size
offset_fits addr byte e = omega arith
offset_fits addr half e = omega arith
offset_fits addr word e = omega arith

-- What the table says about one reference, case by case: the first that applies decides.
pub data Verdict (table : List TranslationEntry) (addr size : ℕ) (writing : Bool)
    : Translated → List TranslationEntry → Type 0 where
  unaligned :
      ¬ Aligned addr size → Verdict table addr size writing (fault address_error_exception) table
  beyond :
      Aligned addr size
      → length table ≤ addr / page_size
      → Verdict table addr size writing (fault address_error_exception) table
  invalid :
      (e : TranslationEntry)
      → Aligned addr size
      → get_elem? table (addr / page_size) ≡ some e
      → e.valid ≡ false
      → Verdict table addr size writing (fault page_fault_exception) table
  protected :
      (e : TranslationEntry)
      → Aligned addr size
      → get_elem? table (addr / page_size) ≡ some e
      → e.valid ≡ true
      → e.read_only ≡ true
      → writing ≡ true
      → Verdict table addr size writing (fault read_only_exception) table
  bad_frame :
      (e : TranslationEntry)
      → Aligned addr size
      → get_elem? table (addr / page_size) ≡ some e
      → e.valid ≡ true
      → (e.read_only && writing) ≡ false
      → num_phys_pages ≤ e.physical_page
      → Verdict table addr size writing (fault bus_error_exception) table
  mapped :
      (e : TranslationEntry)
      → Aligned addr size
      → get_elem? table (addr / page_size) ≡ some e
      → e.valid ≡ true
      → (e.read_only && writing) ≡ false
      → e.physical_page < num_phys_pages
      → Verdict table addr size writing
          (at (e.physical_page * page_size + addr % page_size))
          (set table (addr / page_size) (touch writing e))

-- A run that ended with the verdict `r`, in the machine `m` with the table changed to `t`.
pub record Judged (m : Machine) (table : List TranslationEntry) (addr size : ℕ) (writing : Bool)
    (run : Option (Translated × Machine)) : Type 0 where
  pub verdict : Translated
  pub after : List TranslationEntry
  pub returns : run ≡ some (verdict, record m { page_table = some after })
  pub because : Verdict table addr size writing verdict after
