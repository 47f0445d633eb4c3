-- ===== src/Kernel/Registers/Calls.antt =====
-- Each case of ExceptionHandler in userprog/exception.cc, for the registers.
use nach_operator_system.Prelude.{
  ℕ, ◌+◌, ◌-◌, Bool, true, false, Option, some, none, List, [], ◌∷◌, ltb, ◌==◌, if◌then◌else◌, ℤ,
  pos, negsuc, ltb_ℤ, to_int, wrap_neg,
}
use nach_operator_system.Machine.{Machine, read_register}
use nach_operator_system.Kernel.{Run, Kernel}
use nach_operator_system.Kernel.Return.{
  OnReturn, OnReturn-returns, OnReturn-stops, OnReturn-if, OnReturn->>=, OnReturn-lift,
}
use nach_operator_system.Kernel.Console.{console_write}
use nach_operator_system.Kernel.Transfer.{kernel_buf}
use nach_operator_system.Kernel.Numbers.{max_int_length, minus_sign, numeral}
use nach_operator_system.Kernel.Text.{
  max_string_length, filled, finish_read_int, sys_read_int, sys_print_int, sys_print_char,
  finish_read_char, sys_read_char, store_line, sys_read_string, print_loop, sys_print_string,
}
use nach_operator_system.Kernel.Registers.{
  Since, write_reg-Since, user2system-Since, system2user-Since, console_read-Since,
}

module _ {File World : Type 0} (m0 : Machine) where
  abbrev Fine : Run (Kernel File World) (Kernel File World) → Type 0
  Fine r = OnReturn (Since m0) r

  finish_read_int-Since :
      (n : ℤ) (got : List ℕ) (k : Kernel File World) → Since m0 k → Fine (finish_read_int n got k)
  unfolding finish_read_int
  finish_read_int-Since (negsuc n) got k kept = write_reg-Since m0 _ k kept
  finish_read_int-Since (pos count) got k kept =
      OnReturn-if (count == max_int_length + 1) (write_reg-Since m0 _ k kept)
        (write_reg-Since m0 _ k kept)

  pub read_int-Since : (k : Kernel File World) → Since m0 k → Fine (sys_read_int k)
  unfolding sys_read_int
  read_int-Since k kept =
      OnReturn->>= (console_read-Since m0 (max_int_length + 1) k kept)
        λ r kept'. finish_read_int-Since r.0 r.1 r.2 kept'

  signed-Since :
      (b : Bool) (sign : List ℕ) (k : Kernel File World)
      → Since m0 k
      → Since m0 (if b then console_write sign 1 k else k)
  unfolding console_write
  signed-Since true sign k kept = kept
  signed-Since false sign k kept = kept

  pub print_int-Since : (k : Kernel File World) → Since m0 k → Fine (sys_print_int k)
  unfolding sys_print_int console_write
  print_int-Since k kept = OnReturn-lift (read_register 4 k.machine) λ n e.
      let negative = ltb_ℤ (to_int n) (pos 0) in
      OnReturn-lift (numeral (to_int (if negative then wrap_neg n else n)))
        λ text e'. OnReturn-returns _ (signed-Since negative (minus_sign ∷ []) k kept)

  pub print_char-Since : (k : Kernel File World) → Since m0 k → Fine (sys_print_char k)
  unfolding sys_print_char console_write
  print_char-Since k kept = OnReturn-lift (read_register 4 k.machine) λ n e. OnReturn-returns _ kept

  finish_read_char-Since :
      (n : ℤ) (got : List ℕ) (k : Kernel File World) → Since m0 k → Fine (finish_read_char n got k)
  unfolding finish_read_char
  finish_read_char-Since (negsuc n) got k kept = write_reg-Since m0 _ k kept
  finish_read_char-Since (pos n) [] k kept = write_reg-Since m0 _ k kept
  finish_read_char-Since (pos n) (c ∷ rest) k kept = write_reg-Since m0 _ k kept

  pub read_char-Since : (k : Kernel File World) → Since m0 k → Fine (sys_read_char k)
  unfolding sys_read_char
  read_char-Since k kept =
      OnReturn->>= (console_read-Since m0 1 k kept)
        λ r kept'. finish_read_char-Since r.0 r.1 r.2 kept'

  pub store_line-Since :
      (addr size : ℕ) (n : ℤ) (got : List ℕ) (k : Kernel File World)
      → Since m0 k
      → Fine (store_line addr size n got k)
  unfolding store_line
  store_line-Since addr size (negsuc n) got k kept = write_reg-Since m0 _ k kept
  store_line-Since addr size (pos n) got k kept =
      OnReturn->>= (system2user-Since m0 addr (pos (n + 1)) (filled size got) k kept)
        λ r kept'. write_reg-Since m0 _ r.1 kept'

  pub read_string-Since : (k : Kernel File World) → Since m0 k → Fine (sys_read_string k)
  unfolding sys_read_string
  read_string-Since k kept = OnReturn-lift (read_register 4 k.machine) λ addr e.
      OnReturn-lift (read_register 5 k.machine) λ size e'.
        OnReturn-if _ (write_reg-Since m0 _ k kept) (
          OnReturn->>= (console_read-Since m0 (size - 1) k kept)
            λ r kept'. store_line-Since addr size r.0 r.1 r.2 kept')

  pub print_loop-Since :
      (bound : Option ℕ) (buffer : List ℕ) (i : ℕ) (k : Kernel File World)
      → Since m0 k
      → OnReturn (λ (r : ℕ × Kernel File World). Since m0 r.1) (print_loop bound buffer i k)
  unfolding print_loop console_write
  print_loop-Since bound [] i k kept = OnReturn-stops
  print_loop-Since none (c ∷ rest) i k kept =
      OnReturn-if (c == 0) (OnReturn-returns _ kept) (print_loop-Since none rest (i + 1) _ kept)
  print_loop-Since (some size) (c ∷ rest) i k kept =
      OnReturn-if (c == 0) (OnReturn-returns _ kept) (
        OnReturn-if (ltb i size) (print_loop-Since (some size) rest (i + 1) _ kept)
          (OnReturn-returns _ kept))

  pub print_string-Since : (k : Kernel File World) → Since m0 k → Fine (sys_print_string k)
  unfolding sys_print_string
  print_string-Since k kept = OnReturn-lift (read_register 4 k.machine) λ addr e.
      OnReturn->>= (user2system-Since m0 addr max_string_length k kept) λ r kept1.
        OnReturn->>= (print_loop-Since none (kernel_buf max_string_length r.0) 0 r.1 kept1)
          λ p kept2. write_reg-Since m0 _ p.1 kept2
