-- ===== src/Kernel/Files.antt =====
-- The cases of ExceptionHandler in userprog/exception.cc that work on files. `delete` of a buffer
-- is taken to free it, and `new` to succeed.
pub mod Seeking
use nach_operator_system.Prelude.{
  ℕ, zero, suc, ◌+◌, ◌-◌, Bool, true, false, not, Option, some, none, List, [], ◌∷◌, ◌++◌, ltb, leb,
  ◌==◌, if◌then◌else◌, length, ℤ, pos, negsuc, minus_one, ltb_ℤ, leb_ℤ, eqb_ℤ, to_int, ◌+ℤ◌,
  CString,
}
use nach_operator_system.FdTable.{
  FdTable, FilePtr, Pointer, null, wild, live, entry, set_entry, find_id_file, open_fd, is_read,
  is_write, close,
}
use nach_operator_system.Kernel.{
  Kernel, Services, Run, returns, stops, ◌>>=◌, lift, read_reg, set_result, write_reg,
}
use nach_operator_system.Kernel.Console.{console_read}
use nach_operator_system.Kernel.Transfer.{user2system, system2user, kernel_buf}
use nach_operator_system.Kernel.Text.{filled, store_line, print_loop}

-- `#define MaxFileLength 32`.
abbrev pub max_file_length : ℕ
max_file_length = 32

module _ {File World : Type 0} where
  -- The object behind a descriptor, after an operation that has changed it.
  unfoldable pub put_file :
      ℤ → File → Kernel File World → Run (Kernel File World) (Kernel File World)
  put_file id f k = lift (entry k.fd_table id) >>= λ p.
      lift (set_entry k.fd_table id (record p { p_file = live f })) >>= λ t.
      returns (record k { fd_table = t })

  module _ (fs : Services File World) where
    -- A name that is too long or empty is deleted and used again after that, as no `break` stands
    -- behind the two checks.
    unfoldable pub sys_create : Kernel File World → Run (Kernel File World) (Kernel File World)
    unfolding user2system
    sys_create k = do
      virt_addr ← read_reg 4 k
      (filename, k1) ← user2system virt_addr (max_file_length + 1) k
      if ltb max_file_length (length filename)
          then (set_result minus_one k1 >>= λ k2. stops)
          else if length filename == 0
          then (set_result minus_one k1 >>= λ k2. stops)
          else (let (created, world) = fs.create_file filename k1.world in
              let k2 = record k1 { world = world } in
              if not created then set_result minus_one k2 else set_result (pos 0) k2)

    unfoldable pub sys_open : Kernel File World → Run (Kernel File World) (Kernel File World)
    unfolding user2system
    sys_open k = do
      virt_addr ← read_reg 4 k
      itype ← read_reg 5 k
      (filename, k1) ← user2system virt_addr (max_file_length + 1) k
      (id_file, t) ←
          lift
            (find_id_file (λ name. fs.open_file name k1.world) filename (to_int itype) k1.fd_table)
      set_result id_file (record k1 { fd_table = t })

    -- SC_ReadF on a file, from `fdTable->Open` on.
    unfoldable pub read_from :
        ℕ → ℕ → ℤ → Pointer File → Kernel File World → Run (Kernel File World) (Kernel File World)
    unfolding put_file system2user
    read_from virt_addr size id null k = set_result minus_one k
    read_from virt_addr size id wild k = stops
    read_from virt_addr size id (live f) k =
        let (len, bytes, f', world) = fs.read_file size f k.world in
        put_file id f' (record k { world = world }) >>= λ k1.
        if eqb_ℤ len (pos 0)
        then set_result (negsuc 1) k1
        else (system2user virt_addr (len +ℤ pos 1) (filled (size + 1) bytes) k1
            >>= λ (r : ℤ × Kernel File World). set_result len r.1)

    unfoldable pub sys_read : Kernel File World → Run (Kernel File World) (Kernel File World)
    unfolding store_line console_read read_from
    sys_read k = do
      virt_addr ← read_reg 4 k
      size_buffer ← read_reg 5 k
      id ← read_reg 6 k
      if leb_ℤ (to_int size_buffer) (pos 0)
          then set_result minus_one k
          else (lift (is_read (to_int id) k.fd_table) >>= λ readable.
              if not readable
              then set_result minus_one k
              else if eqb_ℤ (to_int id) (pos 0)
              then (console_read size_buffer k >>= λ (r : ℤ × List ℕ × Kernel File World).
                  store_line virt_addr (size_buffer + 1) r.0 r.1 r.2)
              else (lift (open_fd (to_int id) k.fd_table) >>= λ open_file.
                  read_from virt_addr size_buffer (to_int id) open_file k))

    unfoldable pub write_to :
        List ℕ
        → ℕ
        → ℤ
        → Pointer File
        → Kernel File World
        → Run (Kernel File World) (Kernel File World)
    unfolding put_file
    write_to buffer size id null k = set_result minus_one k
    write_to buffer size id wild k = stops
    write_to buffer size id (live f) k =
        let (len, f', world) = fs.write_file buffer size f k.world in
        put_file id f' (record k { world = world }) >>= λ k1.
        set_result (if eqb_ℤ len (pos 0) then negsuc 1 else len) k1

    unfoldable pub sys_write : Kernel File World → Run (Kernel File World) (Kernel File World)
    unfolding print_loop user2system write_to
    sys_write k = do
      virt_addr ← read_reg 4 k
      size_buffer ← read_reg 5 k
      id ← read_reg 6 k
      if leb_ℤ (to_int size_buffer) (pos 0)
          then set_result minus_one k
          else (lift (is_write (to_int id) k.fd_table) >>= λ writable.
              if not writable
              then set_result minus_one k
              else (user2system virt_addr size_buffer k >>= λ (r : CString × Kernel File World).
                  let buffer = kernel_buf size_buffer r.0 in
                  if eqb_ℤ (to_int id) (pos 1)
                  then (print_loop (some size_buffer) buffer 0 r.1
                      >>= λ (p : ℕ × Kernel File World). set_result (pos p.0) p.1)
                  else (lift (open_fd (to_int id) r.1.fd_table) >>= λ open_file.
                      write_to buffer size_buffer (to_int id) open_file r.1)))

  unfoldable pub sys_close : Kernel File World → Run (Kernel File World) (Kernel File World)
  sys_close k = do
    id ← read_reg 4 k
    (error, t) ← lift (close (to_int id) k.fd_table)
    let k1 = record k { fd_table = t } in
        if eqb_ℤ error minus_one then set_result minus_one k1 else set_result (pos 0) k1

  -- SC_SeekF goes on into SC_CloseF where the seek was made, as no `break` stands at its end.
  unfoldable pub seek_in :
      Services File World
      → ℤ
      → ℤ
      → Pointer File
      → Kernel File World
      → Run (Kernel File World) (Kernel File World)
  unfolding put_file sys_close
  seek_in fs position id null k = set_result minus_one k
  seek_in fs (negsuc n) id wild k = set_result minus_one k
  seek_in fs (pos n) id wild k = stops
  seek_in fs (negsuc n) id (live f) k = set_result minus_one k
  seek_in fs (pos n) id (live f) k =
      put_file id (fs.seek_file n f) k >>= λ k1. set_result (pos 0) k1 >>= sys_close

  unfoldable pub sys_seek :
      Services File World → Kernel File World → Run (Kernel File World) (Kernel File World)
  unfolding seek_in
  sys_seek fs k = do
    position ← read_reg 4 k
    id ← read_reg 5 k
    open_file ← lift (open_fd (to_int id) k.fd_table)
    seek_in fs (to_int position) (to_int id) open_file k
