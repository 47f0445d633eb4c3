-- ===== src/FdTable/Closing.antt =====
-- `FDTable::Close` and the life of a descriptor: what Close gives back, and the calls that leave
-- the table's guards and end in undefined behaviour.
use nach_operator_system.Prelude.{
  ℕ, ◌≤◌, ◌<◌, ◌≡◌, ◌≢◌, true, false, ◌&&◌, some, none, ◌==◌, not, get_elem?, set, length-set,
  get_elem?-set, ℤ, pos, arith, ◌∙◌, if◌then◌else◌,
}
use nach_operator_system.BitMap.Laws.{
  marked, clear_bit, marked-clear_bit, clear_bit-IsValid, clear_lem,
}
use nach_operator_system.FdTable.{wild, FdTable, close, is_read, is_write, open_fd}
use nach_operator_system.FdTable.Invariant.{IsOpen, IsValid, is_read-clear}

module _ {File : Type 0} (t : FdTable File) (v : IsValid t) (n : ℕ) (f : File) (type : ℤ)
    (low : 2 ≤ n) (high : n < 10) (o : IsOpen t n f type) where
  abbrev closed : FdTable File
  closed = record t {
    flags = clear_bit t.flags n;
    list_file = set t.list_file n (record { p_file = wild; type = type });
  }

  marks-closed :
      (i : ℕ) → i < 10 → marked (clear_bit t.flags n) i ≡ (not (n == i) && marked t.flags i)
  marks-closed i h = marked-clear_bit t.flags v.words n i (omega (arith, v.bits))

  entries-closed :
      (i : ℕ)
      → get_elem? closed.list_file i
        ≡ (if n == i then some (record { p_file = wild; type = type }) else get_elem? t.list_file i)
  entries-closed i =
      get_elem?-set t.list_file n i (record { p_file = wild; type = type })
        (omega (arith, v.entries))

  closed-IsValid : IsValid closed
  closed-IsValid = record {
    sized = v.sized;
    bits = v.bits;
    words = clear_bit-IsValid t.flags n v.words;
    entries = length-set t.list_file n _ ∙ v.entries;
    opened = λ i lo hi m.
        let m0 : marked t.flags i ≡ true = ground (arith, marks-closed i hi) in
        let ne : (n == i) ≡ false = ground (arith, marks-closed i hi) in
        let (f0, type0, o0) = v.opened i lo hi m0 in
        (
          f0,
          type0,
          record {
            is_marked = m;
            entry = ground (arith, entries-closed i, o0.entry);
            mode = o0.mode;
          },
        );
  }

  close-closed : close (pos n) t ≡ some (pos 0, closed)
  unfolding close
  close-closed = ground (arith, o.entry, v.entries, v.bits, clear_lem t.flags n)

  -- Close of an open descriptor returns 0 and gives the number back: it can be neither read from
  -- nor written to any more. Every other descriptor stays as it was, and the table stays valid.
  pub close-IsOpen :
      (t' : FdTable File) × (close (pos n) t ≡ some (pos 0, t'))
      × IsValid t'
      × (is_read (pos n) t' ≡ some false)
      × (is_write (pos n) t' ≡ some false)
      × ((i : ℕ)
          → i < 10
          → i ≢ n
          → (marked t'.flags i ≡ marked t.flags i)
            × (get_elem? t'.list_file i ≡ get_elem? t.list_file i))
  close-IsOpen =
      let gone : marked closed.flags n ≡ false = ground (arith, marks-closed n high) in
      let unusable = is_read-clear closed closed-IsValid n high gone in
      (
        closed,
        close-closed,
        closed-IsValid,
        unusable.0,
        unusable.1,
        λ i h ne. (ground (arith, marks-closed i h), ground (arith, entries-closed i)),
      )

  -- Close does not ask whether a descriptor is open: to close one again deletes its file a second
  -- time, and the file of a closed descriptor is still what Open returns for it.
  pub close_twice :
      (t' : FdTable File) × (close (pos n) t ≡ some (pos 0, t'))
      × (close (pos n) t' ≡ none)
      × (open_fd (pos n) t' ≡ some wild)
  unfolding close open_fd
  close_twice =
      (closed, close-closed, ground (arith, entries-closed n), ground (arith, entries-closed n))
