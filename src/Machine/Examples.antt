-- ===== src/Machine/Examples.antt =====
-- A machine with a page table of two pages: tests of Translate, and the laws at addresses that
-- meet their hypotheses.
use nach_operator_system.Prelude.{
  ℕ, zero, suc, ◌≡◌, ◌≢◌, refl, true, false, Option, some, none, List, [], ◌∷◌, length, get_elem?,
  arith, ap,
}
use nach_operator_system.Machine.{
  Machine, Handler, TranslationEntry, MachineStatus, memory_size, address_error_exception,
  read_only_exception, page_fault_exception, bus_error_exception,
}
use nach_operator_system.Machine.Translate.{Translated, fault, at, translate}
use nach_operator_system.Machine.Translate.Verdict.{word, Judged}
use nach_operator_system.Machine.Translate.Laws.{translate-Judged}
use nach_operator_system.Machine.Memory.{read_mem, write_mem}
use nach_operator_system.Machine.Memory.Laws.{IsPaged, write_mem-mapped}
use nach_operator_system.Machine.Memory.Pages.{read_mem-write_mem, write_mem-isolated}

-- A memory of `n` zeros.
blank : ℕ → List ℕ
blank zero = []
blank (suc n) = 0 ∷ blank n

length-blank : (n : ℕ) → length (blank n) ≡ n
unfolding blank
length-blank zero = refl
length-blank (suc n) = ap suc (length-blank n)

abbrev writable : ℕ → TranslationEntry
writable frame = record {
  virtual_page = 0;
  physical_page = frame;
  valid = true;
  read_only = false;
  used = false;
  dirty = false;
}

-- Page 0 in frame 5, page 1 read-only in frame 3, page 2 not valid, page 3 in no frame.
abbrev table : List TranslationEntry
table =
    writable 5
    ∷ record (writable 3) { read_only = true }
    ∷ record (writable 4) { valid = false }
    ∷ writable 300
    ∷ []

abbrev machine : Machine
machine = record {
  main_memory = blank memory_size;
  registers = [];
  tlb = none;
  page_table = some table;
  page_table_size = 4;
  status = MachineStatus.user_mode;
}

abbrev kernel : Handler
kernel which m = some m

machine-IsPaged : IsPaged machine table
machine-IsPaged = record {
  no_tlb = refl;
  paged = refl;
  sized = refl;
  memory = length-blank memory_size;
}

translate_faults :
    (translate 2 4 false machine ≡ some (fault address_error_exception, machine))
    × (translate 600 1 false machine ≡ some (fault address_error_exception, machine))
    × (translate 130 2 true machine ≡ some (fault read_only_exception, machine))
    × (translate 256 1 false machine ≡ some (fault page_fault_exception, machine))
    × (translate 384 4 false machine ≡ some (fault bus_error_exception, machine))
unfolding translate
translate_faults = (refl, refl, refl, refl, refl)

-- The TLB is searched for the page number instead.
abbrev with_tlb : Machine
with_tlb = record machine {
  tlb = some (writable 9 ∷ record (writable 7) { virtual_page = 1 } ∷ writable 0 ∷ writable 0 ∷ []);
  page_table = none;
}

address_of : Option (Translated × Machine) → Option Translated
address_of none = none
address_of (some (t, m)) = some t

tlb_hit_and_miss :
    (address_of (translate 132 4 false with_tlb) ≡ some (at 900))
    × (address_of (translate 300 1 false with_tlb) ≡ some (fault page_fault_exception))
unfolding translate address_of
tlb_hit_and_miss = (refl, refl)

translate-Judged_example : Judged machine table 12 4 true (translate 12 4 true machine)
translate-Judged_example = translate-Judged machine table 12 true word refl refl refl

read_mem-write_mem_example :
    (m' m2 : Machine) × (write_mem kernel 12 4 0xdead_beef machine ≡ some (true, m'))
    × (read_mem kernel 12 4 m' ≡ some (some 0xdead_beef, m2))
read_mem-write_mem_example =
    read_mem-write_mem kernel machine table 12 0xdead_beef word machine-IsPaged (omega arith)
      (writable 5) refl refl refl refl (omega arith)

wrote : (m' : Machine) × (write_mem kernel 12 4 0xdead_beef machine ≡ some (true, m'))
wrote =
    write_mem-mapped kernel machine table 12 0xdead_beef word machine-IsPaged (omega arith)
      (writable 5) refl refl refl refl (omega arith)

frame_six : (i : ℕ) (e : TranslationEntry) → get_elem? table i ≡ some e → e.physical_page ≢ 6
frame_six zero e h = ground arith
frame_six (suc zero) e h = ground arith
frame_six (suc (suc zero)) e h = ground arith
frame_six (suc (suc (suc zero))) e h = ground arith
frame_six (suc (suc (suc (suc i)))) e h = absurd (cc)

write_mem-isolated_example : get_elem? (wrote.0).main_memory 770 ≡ get_elem? machine.main_memory 770
write_mem-isolated_example =
    write_mem-isolated kernel machine table 12 0xdead_beef word machine-IsPaged (omega arith)
      wrote.1 6 frame_six 770 refl
