-- ===== src/Machine/Memory/Laws.antt =====
-- What ReadMem gives back after WriteMem, and which bytes WriteMem may change.
use nach_operator_system.Prelude.{
  ℕ, ◌+◌, ◌*◌, ◌/◌, ◌%◌, ◌^◌, ◌≤◌, ◌<◌, ◌≡◌, refl, ◌⊎◌, true, false, Option, some, none, List,
  length, get_elem?, set, arith, ◌>>=◌, ◌∙◌, length-set, get_elem?-set, word_mod, sym, ap, subst,
  >>=-eq-some,
}
use nach_operator_system.Machine.{
  Machine, Handler, TranslationEntry, page_size, memory_size, num_phys_pages, raise_exception,
}
use nach_operator_system.Machine.Translate.{Translated, fault, at, touch, translate}
use nach_operator_system.Machine.Translate.Verdict.{IsSize, Aligned, offset_fits, byte, half, word}
use nach_operator_system.Machine.Translate.Through.{Through, translate-Through, translate-mapped}
use nach_operator_system.Machine.Memory.{sign_extend_byte, load, store, write_mem, finish_write}

-- What a reference of this size reads where it wrote `value`.
abbrev pub read_back : {size : ℕ} → IsSize size → ℕ → ℕ
read_back byte value = sign_extend_byte (value % 2 ^ 8)
read_back half value = value % 2 ^ 16
read_back word value = value

-- The bytes from `a` on are written, the others kept.
pub record IsStored (mem : List ℕ) (a : ℕ) {size : ℕ} (s : IsSize size) (value : ℕ)
    (run : Option (List ℕ)) : Type 0 where
  pub out : List ℕ
  pub returns : run ≡ some out
  pub same_length : length out ≡ length mem
  pub reads : load out a size ≡ some (read_back s value)
  pub kept : (j : ℕ) → (j < a) ⊎ (a + size ≤ j) → get_elem? out j ≡ get_elem? mem j

store-IsStored :
    {size : ℕ} (mem : List ℕ) (a value : ℕ) (s : IsSize size)
    → a + size ≤ length mem
    → value < word_mod
    → IsStored mem a s value (store mem a size value)
unfolding store load
store-IsStored mem a value byte h v = record {
  out = set mem a (value % 2 ^ 8);
  returns = ground arith;
  same_length = length-set mem a (value % 2 ^ 8);
  reads = ground (arith, get_elem?-set mem a a (value % 2 ^ 8));
  kept = λ j out. ground (arith, get_elem?-set mem a j (value % 2 ^ 8));
}
store-IsStored mem a value half h v =
    let mem0 = set mem a (value % 2 ^ 16 % 2 ^ 8) in
    let b1 = value % 2 ^ 16 / 2 ^ 8 in
    let l0 : length mem0 ≡ length mem = length-set mem a (value % 2 ^ 16 % 2 ^ 8) in
    record {
      out = set mem0 (a + 1) b1;
      returns = ground arith;
      same_length = length-set mem0 (a + 1) b1 ∙ l0;
      reads = ground (
        arith,
        get_elem?-set mem a a (value % 2 ^ 16 % 2 ^ 8),
        get_elem?-set mem0 (a + 1) a b1,
        get_elem?-set mem0 (a + 1) (a + 1) b1,
      );
      kept = λ j out.
          ground (
            arith,
            get_elem?-set mem a j (value % 2 ^ 16 % 2 ^ 8),
            get_elem?-set mem0 (a + 1) j b1,
          );
    }
store-IsStored mem a value word h v =
    let b0 = value % 2 ^ 8 in
    let b1 = value / 2 ^ 8 % 2 ^ 8 in
    let b2 = value / 2 ^ 16 % 2 ^ 8 in
    let b3 = value / 2 ^ 24 in
    let mem0 = set mem a b0 in
    let mem1 = set mem0 (a + 1) b1 in
    let mem2 = set mem1 (a + 2) b2 in
    let l0 : length mem0 ≡ length mem = length-set mem a b0 in
    let l1 : length mem1 ≡ length mem = length-set mem0 (a + 1) b1 ∙ l0 in
    let l2 : length mem2 ≡ length mem = length-set mem1 (a + 2) b2 ∙ l1 in
    let whole : b0 + b1 * 2 ^ 8 + b2 * 2 ^ 16 + b3 * 2 ^ 24 ≡ value = omega arith in
    record {
      out = set mem2 (a + 3) b3;
      returns = ground arith;
      same_length = length-set mem2 (a + 3) b3 ∙ l2;
      reads = ground (
        arith,
        get_elem?-set mem a a b0,
        get_elem?-set mem0 (a + 1) a b1,
        get_elem?-set mem0 (a + 1) (a + 1) b1,
        get_elem?-set mem1 (a + 2) a b2,
        get_elem?-set mem1 (a + 2) (a + 1) b2,
        get_elem?-set mem1 (a + 2) (a + 2) b2,
        get_elem?-set mem2 (a + 3) a b3,
        get_elem?-set mem2 (a + 3) (a + 1) b3,
        get_elem?-set mem2 (a + 3) (a + 2) b3,
        get_elem?-set mem2 (a + 3) (a + 3) b3,
      );
      kept = λ j out. ground (
        arith,
        get_elem?-set mem a j b0,
        get_elem?-set mem0 (a + 1) j b1,
        get_elem?-set mem1 (a + 2) j b2,
        get_elem?-set mem2 (a + 3) j b3,
      );
    }

-- The machine has a page table of the stated size, no TLB, and its full memory.
pub record IsPaged (m : Machine) (table : List TranslationEntry) : Type 0 where
  pub no_tlb : m.tlb ≡ none
  pub paged : m.page_table ≡ some table
  pub sized : m.page_table_size ≡ length table
  pub memory : length m.main_memory ≡ memory_size

-- A write that went through, at the physical address `a` in the frame of the entry `e`.
pub record Written (m : Machine) (table : List TranslationEntry) (addr : ℕ) {size : ℕ}
    (s : IsSize size) (value : ℕ) (m' : Machine) : Type 0 where
  pub a : ℕ
  pub m1 : Machine
  pub through : Through m table addr size true a m1
  pub stored : IsStored m.main_memory a s value (some m'.main_memory)
  pub leaves : m' ≡ record m1 { main_memory = m'.main_memory }

module _ (handler : Handler) (m : Machine) (table : List TranslationEntry) {size : ℕ}
    (addr value : ℕ) (s : IsSize size) (p : IsPaged m table) (fits_word : value < word_mod) where
  stores :
      (a : ℕ) (m1 m' : Machine)
      → Through m table addr size true a m1
      → finish_write handler addr size value (at a, m1) ≡ some (true, m')
      → Written m table addr s value m'
  unfolding finish_write
  stores a m1 m' th h =
      let st : IsStored m.main_memory a s value (store m.main_memory a size value) =
        store-IsStored m.main_memory a value s
          (omega (arith, p.memory, th.address, th.in_memory, th.fits)) fits_word in
      let same_memory : m1.main_memory ≡ m.main_memory =
        ap (λ (x : Machine). x.main_memory) th.leaves in
      let writes : store m1.main_memory a size value ≡ some st.out =
        ap (λ mem. store mem a size value) same_memory ∙ st.returns in
      let ends : record m1 { main_memory = st.out } ≡ m' = ground (arith, writes) in
      let memory : st.out ≡ m'.main_memory = ap (λ (x : Machine). x.main_memory) ends in
      record {
        a = a;
        m1 = m1;
        through = th;
        stored =
            subst (λ mem. IsStored m.main_memory a s value (some mem)) memory
              (record {
                out = st.out;
                returns = refl;
                same_length = st.same_length;
                reads = st.reads;
                kept = st.kept;
              });
        leaves = sym ends ∙ ap (λ mem. record m1 { main_memory = mem }) memory;
      }

  finish_write-Written :
      (t : Option (Translated × Machine)) {m' : Machine}
      → translate addr size true m ≡ t
      → (t >>= finish_write handler addr size value) ≡ some (true, m')
      → Written m table addr s value m'
  unfolding finish_write
  finish_write-Written none e h = absurd (cc)
  finish_write-Written (some (fault x, m1)) e h =
      let (m2, _, bad) =
        >>=-eq-some (raise_exception handler x addr m1) (λ m2. some (false, m2)) h in
      absurd (cc)
  finish_write-Written (some (at a, m1)) {m'} e h =
      stores a m1 m' (translate-Through m table addr true s p.no_tlb p.paged p.sized a m1 e) h

  -- WriteMem that returns TRUE has written the bytes of its reference, which lie in one frame, that
  -- of an entry that is not read-only; the rest of memory and of the machine is as before, but for
  -- the entry's use and dirty bits.
  pub write_mem-Written :
      {m' : Machine}
      → write_mem handler addr size value m ≡ some (true, m')
      → Written m table addr s value m'
  unfolding write_mem
  write_mem-Written h = finish_write-Written (translate addr size true m) refl h

  -- And a write goes through wherever the table has a valid, writable entry for an aligned address.
  pub write_mem-mapped :
      (e : TranslationEntry)
      → Aligned addr size
      → get_elem? table (addr / page_size) ≡ some e
      → e.valid ≡ true
      → e.read_only ≡ false
      → e.physical_page < num_phys_pages
      → (m' : Machine) × (write_mem handler addr size value m ≡ some (true, m'))
  unfolding write_mem finish_write
  write_mem-mapped e al here ok writable fits =
      let goes =
        translate-mapped m table addr true s p.no_tlb p.paged p.sized e al here ok (ground arith)
          fits in
      let a : ℕ = e.physical_page * page_size + addr % page_size in
      let st : IsStored m.main_memory a s value (store m.main_memory a size value) =
        store-IsStored m.main_memory a value s (omega (arith, p.memory, offset_fits addr s al))
          fits_word in
      (
        record m {
          page_table = some (set table (addr / page_size) (touch true e));
          main_memory = st.out;
        },
        rw (goes, st.returns),
      )
