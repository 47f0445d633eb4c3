-- ===== src/Machine/Translate.antt =====
-- Machine::Translate of machine/translate.cc: from a virtual address to a physical one, through
-- the page table or the TLB.
pub mod Verdict
pub mod Laws
pub mod Through
pub mod Registers
use nach_operator_system.Prelude.{
  ℕ, zero, suc, ◌+◌, ◌*◌, ◌/◌, ◌%◌, ◌≡◌, bit_and, Bool, true, false, not, ◌&&◌, ◌||◌, Option, some,
  none, List, ltb, leb, ◌==◌, if◌then◌else◌, length, get_elem?, set, assert, ◌>>=◌, ◌>>◌,
}
use nach_operator_system.Machine.{
  Machine, TranslationEntry, ExceptionType, page_fault_exception, read_only_exception,
  bus_error_exception, address_error_exception, page_size, num_phys_pages, memory_size, tlb_size,
}

-- The result of a translation: the exception to raise, or the physical address.
pub data Translated : Type 0 where
  fault : ExceptionType → Translated
  at : ℕ → Translated

-- The result of the search for an entry: its place in the table.
pub data Located : Type 0 where
  missing : ExceptionType → Located
  slot : ℕ → Located

abbrev pub misaligned : ℕ → ℕ → Bool
misaligned addr size =
    (size == 4 && not (bit_and addr 3 == 0)) || (size == 2 && not (bit_and addr 1 == 0))

pub locate_page : List TranslationEntry → ℕ → ℕ → Option Located
locate_page table size vpn =
    if leb size vpn
    then some (missing address_error_exception)
    else (get_elem? table vpn >>= λ e.
        if not e.valid then some (missing page_fault_exception) else some (slot vpn))

-- The search of the TLB, at entry `i` with `left` entries to go.
pub locate_tlb : List TranslationEntry → ℕ → ℕ → ℕ → Option Located
locate_tlb tlb zero i vpn = some (missing page_fault_exception)
locate_tlb tlb (suc left) i vpn =
    let rest = locate_tlb tlb left (suc i) vpn in
    get_elem? tlb i >>= λ e. if e.valid && (e.virtual_page == vpn) then some (slot i) else rest

-- The use and dirty bits of an entry that a reference goes through.
abbrev pub touch : Bool → TranslationEntry → TranslationEntry
touch writing e = record e { used = true; dirty = if writing then true else e.dirty }

-- From the entry on. `put` stores the changed table back.
pub finish :
    Machine
    → List TranslationEntry
    → (List TranslationEntry → Machine)
    → ℕ
    → ℕ
    → Bool
    → Located
    → Option (Translated × Machine)
finish m table put offset size writing (missing e) = some (fault e, m)
finish m table put offset size writing (slot i) = get_elem? table i >>= λ e.
    if e.read_only && writing
    then some (fault read_only_exception, m)
    else if leb num_phys_pages e.physical_page
    then some (fault bus_error_exception, m)
    else (let phys_addr = e.physical_page * page_size + offset in
        assert (leb (phys_addr + size) memory_size)
        >> some (at phys_addr, put (set table i (touch writing e))))

-- Exactly one of the TLB and the page table is there: two ASSERTs.
pub walk :
    Machine
    → ℕ
    → ℕ
    → Bool
    → Option (List TranslationEntry)
    → Option (List TranslationEntry)
    → Option (Translated × Machine)
walk m addr size writing none none = none
walk m addr size writing (some tlb) (some table) = none
walk m addr size writing none (some table) =
    locate_page table m.page_table_size (addr / page_size)
    >>= finish m table (λ t. record m { page_table = some t }) (addr % page_size) size writing
walk m addr size writing (some tlb) none =
    locate_tlb tlb tlb_size 0 (addr / page_size)
    >>= finish m tlb (λ t. record m { tlb = some t }) (addr % page_size) size writing

unfoldable pub translate : ℕ → ℕ → Bool → Machine → Option (Translated × Machine)
unfolding walk finish locate_tlb locate_page
translate addr size writing m =
    if misaligned addr size
    then some (fault address_error_exception, m)
    else walk m addr size writing m.tlb m.page_table
