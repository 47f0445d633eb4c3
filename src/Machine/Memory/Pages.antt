-- ===== src/Machine/Memory/Pages.antt =====
-- ReadMem after WriteMem, and the frames that a user program can reach: what keeps the processes
-- apart.
use nach_operator_system.Prelude.{
  ℕ, ◌/◌, ◌<◌, ◌≡◌, refl, ◌≢◌, true, false, some, List, get_elem?, set, arith, length-set,
  get_elem?-set, get_elem?-lt, word_mod,
}
use nach_operator_system.Machine.{Machine, Handler, TranslationEntry, page_size, num_phys_pages}
use nach_operator_system.Machine.Translate.{touch}
use nach_operator_system.Machine.Translate.Verdict.{IsSize, Aligned}
use nach_operator_system.Machine.Translate.Through.{Through, translate-mapped}
use nach_operator_system.Machine.Memory.{load, read_mem, write_mem, finish_read}
use nach_operator_system.Machine.Memory.Laws.{
  IsPaged, Written, write_mem-Written, write_mem-mapped, read_back,
}

module _ {m m' : Machine} {table : List TranslationEntry} {addr size value : ℕ} {s : IsSize size}
    (p : IsPaged m table) (w : Written m table addr s value m') where
  abbrev th : Through m table addr size true w.a w.m1
  th = w.through

  abbrev table' : List TranslationEntry
  table' = set table (addr / page_size) (touch true th.e)

  Written-IsPaged : IsPaged m' table'
  Written-IsPaged =
      let whole = w.leaves in
      let before = th.leaves in
      record {
        no_tlb = ground (arith, p.no_tlb);
        paged = ground arith;
        sized = ground (arith, p.sized, length-set table (addr / page_size) (touch true th.e));
        memory = ground (arith, p.memory, w.stored.same_length, w.stored.returns);
      }

  Written-reads : load m'.main_memory w.a size ≡ some (read_back s value)
  Written-reads = ground (arith, w.stored.reads, w.stored.returns)

  entry-after : get_elem? table' (addr / page_size) ≡ some (touch true th.e)
  entry-after = ground (
    arith,
    get_elem?-set table (addr / page_size) (addr / page_size) (touch true th.e),
    get_elem?-lt table (addr / page_size) th.e th.entry,
  )

  reads-again :
      (handler : Handler)
      → (m2 : Machine) × (read_mem handler addr size m' ≡ some (some (read_back s value), m2))
  unfolding read_mem finish_read
  reads-again handler =
      let q = Written-IsPaged in
      let goes =
        translate-mapped m' table' addr false s q.no_tlb q.paged q.sized (touch true th.e)
          th.aligned entry-after th.valid (ground arith) th.in_memory in
      (
        record m' {
          page_table = some (set table' (addr / page_size) (touch false (touch true th.e)));
        },
        rw goes (rw th.address (rw Written-reads refl)),
      )

module _ (handler : Handler) (m : Machine) (table : List TranslationEntry) {size : ℕ}
    (addr value : ℕ) (s : IsSize size) (p : IsPaged m table) (fits_word : value < word_mod) where
  -- Where the page of an aligned address has a valid, writable entry with an existing frame,
  -- WriteMem succeeds, and ReadMem at the same address with the same size then succeeds and gives
  -- the value back: whole for 4 bytes, zero-extended for 2, sign-extended for 1.
  pub read_mem-write_mem :
      (e : TranslationEntry)
      → Aligned addr size
      → get_elem? table (addr / page_size) ≡ some e
      → e.valid ≡ true
      → e.read_only ≡ false
      → e.physical_page < num_phys_pages
      → (m' m2 : Machine) × (write_mem handler addr size value m ≡ some (true, m'))
        × (read_mem handler addr size m' ≡ some (some (read_back s value), m2))
  read_mem-write_mem e al here ok writable fits =
      let (m', wrote) =
        write_mem-mapped handler m table addr value s p fits_word e al here ok writable fits in
      let (m2, read) =
        reads-again p (write_mem-Written handler m table addr value s p fits_word wrote) handler in
      (m', m2, wrote, read)

  -- On a machine with a page table and a whole memory: a WriteMem of 1, 2 or 4 bytes that succeeds
  -- leaves every byte of a frame as it was, if no entry of the page table names that frame.
  pub write_mem-isolated :
      {m' : Machine}
      → write_mem handler addr size value m ≡ some (true, m')
      → (frame : ℕ)
      → ((i : ℕ) (e : TranslationEntry) → get_elem? table i ≡ some e → e.physical_page ≢ frame)
      → (j : ℕ) → j / page_size ≡ frame
      → get_elem? m'.main_memory j ≡ get_elem? m.main_memory j
  write_mem-isolated {m'} h frame unmapped j at_frame =
      let w = write_mem-Written handler m table addr value s p fits_word h in
      let th = w.through in
      let apart = unmapped (addr / page_size) th.e th.entry in
      ground (arith, w.stored.kept j, w.stored.returns, th.address, th.fits, th.in_memory)
