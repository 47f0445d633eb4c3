-- ===== src/Kernel/Files/Seeking.antt =====
-- SC_SeekF of userprog/exception.cc, which goes on into SC_CloseF.
use nach_operator_system.Prelude.{
  ℕ, ◌≤◌, ◌<◌, ◌≡◌, refl, ◌∙◌, true, false, some, length, get_elem?, set, length-set, get_elem?-set,
  ℤ, pos, to_int, arith, ◌==◌, if◌then◌else◌, ltb, get_elem?-set_ne, get_elem?-set_self, ◌≢◌,
  Bool-cases, inl, inr,
}
use nach_operator_system.Machine.{read_register, write_register}
use nach_operator_system.FdTable.{live, FdTable, entry, set_entry, open_fd, is_read, is_write}
use nach_operator_system.FdTable.Invariant.{IsOpen, IsValid}
use nach_operator_system.FdTable.Closing.{close-IsOpen}
use nach_operator_system.Kernel.{Kernel, Services, returns, write_reg}
use nach_operator_system.Kernel.Files.{put_file, sys_close, seek_in, sys_seek}

module _ {File : Type 0} (t : FdTable File) (v : IsValid t) (n : ℕ) (f : File) (type : ℤ)
    (low : 2 ≤ n) (high : n < 10) (o : IsOpen t n f type) (g : File) where
  abbrev moved : FdTable File
  moved = record t { list_file = set t.list_file n (record { p_file = live g; type = type }) }

  entries-moved :
      (i : ℕ)
      → get_elem? moved.list_file i ≡ (
          if n == i
          then some (record { p_file = live g; type = type })
          else get_elem? t.list_file i)
  entries-moved i =
      get_elem?-set t.list_file n i (record { p_file = live g; type = type })
        (omega (arith, v.entries))

  IsOpen-moved :
      (i : ℕ) (h : File) (type' : ℤ)
      → IsOpen t i h type'
      → (h' : File) × (type'' : ℤ) × IsOpen moved i h' type''
  IsOpen-moved i h type' q = elim (Bool-cases (n == i)) [
    | inl same ↦ (
      g,
      type,
      record { is_marked = q.is_marked; entry = ground (arith, entries-moved i); mode = o.mode },
    )
    | inr other ↦ (
      h,
      type',
      record {
        is_marked = q.is_marked;
        entry = ground (arith, entries-moved i, q.entry);
        mode = q.mode;
      },
    )
  ]

  IsValid-moved : IsValid moved
  IsValid-moved = record {
    sized = v.sized;
    bits = v.bits;
    words = v.words;
    entries = length-set t.list_file n _ ∙ v.entries;
    opened = λ i lo hi m. let (h, type', q) = v.opened i lo hi m in IsOpen-moved i h type' q;
  }

module _ {File World : Type 0} where
  abbrev with_result : ℕ → Kernel File World → Kernel File World
  with_result v k = record k {
    machine = record k.machine { registers = set k.machine.registers 2 v };
  }

  write_reg-returns :
      (v : ℕ) (k : Kernel File World)
      → length k.machine.registers ≡ 40
      → write_reg 2 v k ≡ returns (with_result v k)
  unfolding write_register
  write_reg-returns v k size =
      let fits : ltb 2 (length k.machine.registers) ≡ true = ground (arith, size) in rw fits refl

  -- SC_CloseF of an open descriptor.
  close-returns :
      (k : Kernel File World) (v : IsValid k.fd_table) (n : ℕ) (f : File) (type : ℤ)
      → 2 ≤ n
      → n < 10
      → IsOpen k.fd_table n f type
      → get_elem? k.machine.registers 4 ≡ some n
      → length k.machine.registers ≡ 40
      → (k' : Kernel File World) × (sys_close k ≡ returns k')
        × IsValid k'.fd_table
        × (is_read (pos n) k'.fd_table ≡ some false)
        × (is_write (pos n) k'.fd_table ≡ some false)
        × (get_elem? k'.machine.registers 2 ≡ some 0)
        × ((i : ℕ)
            → i < 10
            → i ≢ n
            → get_elem? k'.fd_table.list_file i ≡ get_elem? k.fd_table.list_file i)
  unfolding sys_close read_register
  close-returns k v n f type low high o at size =
      let (t', closes, v', unread, unwritten, others) =
        close-IsOpen k.fd_table v n f type low high o in
      let same : to_int n ≡ pos n = ground arith in
      let k1 = record k { fd_table = t' } in
      (
        with_result 0 k1,
        rw at (rw same (rw closes (write_reg-returns 0 k1 size))),
        v',
        unread,
        unwritten,
        get_elem?-set_self k.machine.registers 2 0 (omega (arith, size)),
        λ i h ne. (others i h ne).1,
      )

  put_file-returns :
      (k : Kernel File World) (v : IsValid k.fd_table) (n : ℕ) (f g : File) (type : ℤ)
      → 2 ≤ n
      → n < 10
      → IsOpen k.fd_table n f type
      → put_file (pos n) g k
        ≡ returns (record k {
          fd_table = record k.fd_table {
            list_file = set k.fd_table.list_file n (record { p_file = live g; type = type });
          };
        })
  unfolding put_file entry set_entry
  put_file-returns k v n f g type low high o =
      let fits : ltb n (length k.fd_table.list_file) ≡ true = ground (arith, v.entries) in
      rw o.entry (rw fits refl)

  -- A seek of an open descriptor to position n, where 2 ≤ n < 10 and descriptor n is open too: it
  -- returns 0 in r2, and moves the file to position n, which stays open unless it is the one of
  -- descriptor n; but descriptor n is closed: it can be neither read from nor written to afterwards.
  pub seek_closes :
      (fs : Services File World) (k : Kernel File World) (v : IsValid k.fd_table) (id n : ℕ)
      (f g : File) (type type' : ℤ)
      → 2 ≤ id
      → id < 10
      → IsOpen k.fd_table id f type
      → 2 ≤ n
      → n < 10
      → IsOpen k.fd_table n g type'
      → get_elem? k.machine.registers 4 ≡ some n
      → get_elem? k.machine.registers 5 ≡ some id
      → length k.machine.registers ≡ 40
      → (k' : Kernel File World) × (sys_seek fs k ≡ returns k')
        × IsValid k'.fd_table
        × (is_read (pos n) k'.fd_table ≡ some false)
        × (is_write (pos n) k'.fd_table ≡ some false)
        × (get_elem? k'.machine.registers 2 ≡ some 0)
        × (id ≢ n
            → get_elem? k'.fd_table.list_file id
              ≡ some (record { p_file = live (fs.seek_file n f); type = type }))
  unfolding sys_seek seek_in read_register open_fd entry
  seek_closes fs k v id n f g type type' lo hi o lo' hi' o' at4 at5 size =
      let f' = fs.seek_file n f in
      let k1 = record k { fd_table = moved k.fd_table v id f type lo hi o f' } in
      let (h, mode, o1) = IsOpen-moved k.fd_table v id f type lo hi o f' n g type' o' in
      let k2 = with_result 0 k1 in
      let size2 : length k2.machine.registers ≡ 40 = length-set k.machine.registers 2 0 ∙ size in
      let at2 : get_elem? k2.machine.registers 4 ≡ some n =
        get_elem?-set_ne k.machine.registers 0 (ground arith) ∙ at4 in
      let at_n : to_int n ≡ pos n = ground arith in
      let at_id : to_int id ≡ pos id = ground arith in
      let found : open_fd (pos id) k.fd_table ≡ some (live f) = ground (arith, o.entry) in
      let (k', runs, v'', unread, unwritten, zero_result, others) =
        close-returns k2 (IsValid-moved k.fd_table v id f type lo hi o f') n h mode lo' hi' o1 at2
          size2 in
      (
        k',
        rw at4 (
            rw at5 (
              rw at_n (
                rw at_id (
                  rw found (
                    rw (put_file-returns k v id f f' type lo hi o)
                      (rw (write_reg-returns 0 k1 size) runs)))))),
        v'',
        unread,
        unwritten,
        zero_result,
        λ ne. others id hi ne ∙ ground (arith, entries-moved k.fd_table v id f type lo hi o f' id),
      )
