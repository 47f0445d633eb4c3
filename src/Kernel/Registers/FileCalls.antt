-- ===== src/Kernel/Registers/FileCalls.antt =====
-- The cases of ExceptionHandler in userprog/exception.cc that work on files and names, for the
-- registers.
use nach_operator_system.Prelude.{
  ℕ, ◌+◌, not, some, List, ltb, ◌==◌, length, ℤ, pos, negsuc, minus_one, leb_ℤ, eqb_ℤ, to_int, ◌+ℤ◌,
}
use nach_operator_system.Machine.{Machine, read_register}
use nach_operator_system.FdTable.{
  Pointer, null, wild, live, entry, set_entry, find_id_file, open_fd, is_read, is_write, close,
}
use nach_operator_system.Kernel.{Run, Kernel, Services}
use nach_operator_system.Kernel.Return.{
  OnReturn, OnReturn-returns, OnReturn-stops, OnReturn-if, OnReturn->>=, OnReturn-lift,
}
use nach_operator_system.Kernel.Transfer.{kernel_buf}
use nach_operator_system.Kernel.Text.{filled}
use nach_operator_system.Kernel.Files.{
  max_file_length, put_file, sys_create, sys_open, read_from, sys_read, write_to, sys_write,
  sys_close, seek_in, sys_seek,
}
use nach_operator_system.Kernel.Registers.{
  Since, write_reg-Since, user2system-Since, system2user-Since, console_read-Since,
}
use nach_operator_system.Kernel.Registers.Calls.{store_line-Since, print_loop-Since}

module _ {File World : Type 0} (m0 : Machine) where
  abbrev Fine : Run (Kernel File World) (Kernel File World) → Type 0
  Fine r = OnReturn (Since m0) r

  put_file-Since : (id : ℤ) (f : File) (k : Kernel File World) → Since m0 k → Fine (put_file id f k)
  unfolding put_file
  put_file-Since id f k kept = OnReturn-lift (entry k.fd_table id) λ p e.
      OnReturn-lift (set_entry k.fd_table id (record p { p_file = live f }))
        λ t e'. OnReturn-returns _ kept

  pub close-Since : (k : Kernel File World) → Since m0 k → Fine (sys_close k)
  unfolding sys_close
  close-Since k kept = OnReturn-lift (read_register 4 k.machine) λ id e.
      OnReturn-lift (close (to_int id) k.fd_table) λ r e'.
        OnReturn-if (eqb_ℤ r.0 minus_one) (write_reg-Since m0 _ _ kept)
          (write_reg-Since m0 _ _ kept)

  module _ (fs : Services File World) where
    pub create-Since : (k : Kernel File World) → Since m0 k → Fine (sys_create fs k)
    unfolding sys_create
    create-Since k kept = OnReturn-lift (read_register 4 k.machine) λ addr e.
        OnReturn->>= (user2system-Since m0 addr (max_file_length + 1) k kept) λ r kept1.
          OnReturn-if (ltb max_file_length (length r.0))
            (OnReturn->>= (write_reg-Since m0 _ r.1 kept1) λ k2 kept2. OnReturn-stops)
            (OnReturn-if (length r.0 == 0)
              (OnReturn->>= (write_reg-Since m0 _ r.1 kept1) λ k2 kept2. OnReturn-stops)
              (OnReturn-if (not (fs.create_file r.0 r.1.world).0) (write_reg-Since m0 _ _ kept1)
                (write_reg-Since m0 _ _ kept1)))

    pub open-Since : (k : Kernel File World) → Since m0 k → Fine (sys_open fs k)
    unfolding sys_open
    open-Since k kept = OnReturn-lift (read_register 4 k.machine) λ addr e.
        OnReturn-lift (read_register 5 k.machine) λ type e'.
          OnReturn->>= (user2system-Since m0 addr (max_file_length + 1) k kept) λ r kept1.
            OnReturn-lift
              (find_id_file (λ name. fs.open_file name r.1.world) r.0 (to_int type) r.1.fd_table)
              λ t opened. write_reg-Since m0 _ _ kept1

    read_from-Since :
        (addr size : ℕ) (id : ℤ) (p : Pointer File) (k : Kernel File World)
        → Since m0 k
        → Fine (read_from fs addr size id p k)
    unfolding read_from
    read_from-Since addr size id null k kept = write_reg-Since m0 _ k kept
    read_from-Since addr size id wild k kept = OnReturn-stops
    read_from-Since addr size id (live f) k kept =
        let (len, bytes, f', world) = fs.read_file size f k.world in
        OnReturn->>= (put_file-Since id f' (record k { world = world }) kept) λ k1 kept1.
          OnReturn-if (eqb_ℤ len (pos 0)) (write_reg-Since m0 _ k1 kept1) (
            OnReturn->>=
              (system2user-Since m0 addr (len +ℤ pos 1) (filled (size + 1) bytes) k1 kept1)
              λ r kept2. write_reg-Since m0 _ r.1 kept2)

    pub read-Since : (k : Kernel File World) → Since m0 k → Fine (sys_read fs k)
    unfolding sys_read
    read-Since k kept = OnReturn-lift (read_register 4 k.machine) λ addr e.
        OnReturn-lift (read_register 5 k.machine) λ size e1.
          OnReturn-lift (read_register 6 k.machine) λ id e2.
            OnReturn-if (leb_ℤ (to_int size) (pos 0)) (write_reg-Since m0 _ k kept) (
              OnReturn-lift (is_read (to_int id) k.fd_table) λ readable e3.
                OnReturn-if (not readable) (write_reg-Since m0 _ k kept) (
                  OnReturn-if (eqb_ℤ (to_int id) (pos 0))
                    (OnReturn->>= (console_read-Since m0 size k kept)
                      λ r kept1. store_line-Since m0 addr (size + 1) r.0 r.1 r.2 kept1)
                    (OnReturn-lift (open_fd (to_int id) k.fd_table)
                      λ p e4. read_from-Since addr size (to_int id) p k kept)))

    write_to-Since :
        (buffer : List ℕ) (size : ℕ) (id : ℤ) (p : Pointer File) (k : Kernel File World)
        → Since m0 k
        → Fine (write_to fs buffer size id p k)
    unfolding write_to
    write_to-Since buffer size id null k kept = write_reg-Since m0 _ k kept
    write_to-Since buffer size id wild k kept = OnReturn-stops
    write_to-Since buffer size id (live f) k kept =
        let (len, f', world) = fs.write_file buffer size f k.world in
        OnReturn->>= (put_file-Since id f' (record k { world = world }) kept)
          λ k1 kept1. write_reg-Since m0 _ k1 kept1

    pub write-Since : (k : Kernel File World) → Since m0 k → Fine (sys_write fs k)
    unfolding sys_write
    write-Since k kept = OnReturn-lift (read_register 4 k.machine) λ addr e.
        OnReturn-lift (read_register 5 k.machine) λ size e1.
          OnReturn-lift (read_register 6 k.machine) λ id e2.
            OnReturn-if (leb_ℤ (to_int size) (pos 0)) (write_reg-Since m0 _ k kept) (
              OnReturn-lift (is_write (to_int id) k.fd_table) λ writable e3.
                OnReturn-if (not writable) (write_reg-Since m0 _ k kept) (
                  OnReturn->>= (user2system-Since m0 addr size k kept) λ r kept1.
                    OnReturn-if (eqb_ℤ (to_int id) (pos 1))
                      (OnReturn->>=
                        (print_loop-Since m0 (some size) (kernel_buf size r.0) 0 r.1 kept1)
                        λ p kept2. write_reg-Since m0 _ p.1 kept2)
                      (OnReturn-lift (open_fd (to_int id) r.1.fd_table)
                        λ p e4. write_to-Since (kernel_buf size r.0) size (to_int id) p r.1 kept1)))

    seek_in-Since :
        (position id : ℤ) (p : Pointer File) (k : Kernel File World)
        → Since m0 k
        → Fine (seek_in fs position id p k)
    unfolding seek_in
    seek_in-Since position id null k kept = write_reg-Since m0 _ k kept
    seek_in-Since (negsuc n) id wild k kept = write_reg-Since m0 _ k kept
    seek_in-Since (pos n) id wild k kept = OnReturn-stops
    seek_in-Since (negsuc n) id (live f) k kept = write_reg-Since m0 _ k kept
    seek_in-Since (pos n) id (live f) k kept =
        OnReturn->>= (put_file-Since id (fs.seek_file n f) k kept)
          λ k1 kept1. OnReturn->>= (write_reg-Since m0 _ k1 kept1) λ k2 kept2. close-Since k2 kept2

    pub seek-Since : (k : Kernel File World) → Since m0 k → Fine (sys_seek fs k)
    unfolding sys_seek
    seek-Since k kept = OnReturn-lift (read_register 4 k.machine) λ position e.
        OnReturn-lift (read_register 5 k.machine) λ id e1.
          OnReturn-lift (open_fd (to_int id) k.fd_table)
            λ p e2. seek_in-Since (to_int position) (to_int id) p k kept
