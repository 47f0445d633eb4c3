-- ===== src/Kernel/Text.antt =====
-- The cases of ExceptionHandler in userprog/exception.cc that work on the console: SC_ReadInt,
-- SC_PrintInt, SC_PrintChar, SC_ReadChar, SC_ReadString and SC_PrintString.
pub mod RoundTrip
use nach_operator_system.Prelude.{
  ℕ, zero, suc, ◌+◌, ◌-◌, ◌*◌, ◌/◌, ◌%◌, ◌^◌, Bool, true, false, ◌&&◌, ◌||◌, not, Option, some,
  none, List, [], ◌∷◌, ◌++◌, ltb, leb, ◌==◌, if◌then◌else◌, length, get_elem?, replicate, ℤ, pos,
  negsuc, minus_one, ltb_ℤ, leb_ℤ, to_int, of_int, word_mod, wrap_neg, is_negative, ◌+ℤ◌, CString,
}
use nach_operator_system.Machine.Memory.{sign_extend_byte}
use nach_operator_system.Kernel.{
  Kernel, Run, returns, stops, ◌>>=◌, lift, read_reg, set_result, write_reg,
}
use nach_operator_system.Kernel.Console.{console_read, console_write}
use nach_operator_system.Kernel.Transfer.{user2system, system2user, kernel_buf}
use nach_operator_system.Kernel.Numbers.{max_int_length, minus_sign, parse_int, numeral}

abbrev pub max_string_length : ℕ
max_string_length = 1000

-- The first `size` characters of a buffer that was set to zero, after Read.
abbrev pub filled : ℕ → List ℕ → List ℕ
filled size got = got ++ replicate (size - length got) 0

module _ {File World : Type 0} where
  -- From the result of the Read on.
  unfoldable pub finish_read_int :
      ℤ → List ℕ → Kernel File World → Run (Kernel File World) (Kernel File World)
  unfolding parse_int
  finish_read_int (negsuc n) got k = set_result minus_one k
  finish_read_int (pos count) got k =
      if count == max_int_length + 1 then set_result (negsuc 1) k else write_reg 2 (parse_int got) k

  unfoldable pub sys_read_int : Kernel File World → Run (Kernel File World) (Kernel File World)
  unfolding finish_read_int console_read
  sys_read_int k = console_read (max_int_length + 1) k >>= λ (r : ℤ × List ℕ × Kernel File World).
      finish_read_int r.0 r.1 r.2

  unfoldable pub sys_print_int : Kernel File World → Run (Kernel File World) (Kernel File World)
  unfolding console_write numeral
  sys_print_int k = read_reg 4 k >>= λ n.
      let negative = ltb_ℤ (to_int n) (pos 0) in
      let k1 = if negative then console_write (minus_sign ∷ []) 1 k else k in
      lift (numeral (to_int (if negative then wrap_neg n else n))) >>= λ s.
      returns (console_write s (length s) k1)

  unfoldable pub sys_print_char : Kernel File World → Run (Kernel File World) (Kernel File World)
  unfolding console_write
  sys_print_char k = read_reg 4 k >>= λ ch. returns (console_write (ch % 2 ^ 8 ∷ []) 1 k)

  unfoldable pub finish_read_char :
      ℤ → List ℕ → Kernel File World → Run (Kernel File World) (Kernel File World)
  finish_read_char (negsuc n) got k = set_result minus_one k
  finish_read_char (pos size) [] k = set_result (pos 0) k
  finish_read_char (pos size) (ch ∷ rest) k = write_reg 2 (sign_extend_byte ch) k

  unfoldable pub sys_read_char : Kernel File World → Run (Kernel File World) (Kernel File World)
  unfolding console_read finish_read_char
  sys_read_char k =
      console_read 1 k >>= λ (r : ℤ × List ℕ × Kernel File World). finish_read_char r.0 r.1 r.2

  -- From the result of a Read on into a buffer of `size` zeros: what
  -- SC_ReadString does and SC_ReadF does for the console.
  unfoldable pub store_line :
      ℕ → ℕ → ℤ → List ℕ → Kernel File World → Run (Kernel File World) (Kernel File World)
  unfolding system2user
  store_line virt_addr size (negsuc n) got k = set_result minus_one k
  store_line virt_addr size (pos len) got k =
      system2user virt_addr (pos (len + 1)) (filled size got) k >>= λ (r : ℤ × Kernel File World).
      set_result (pos len) r.1

  unfoldable pub sys_read_string : Kernel File World → Run (Kernel File World) (Kernel File World)
  unfolding console_read store_line
  sys_read_string k = do
    virt_addr ← read_reg 4 k
    size_buffer ← read_reg 5 k
    if leb_ℤ (to_int size_buffer) (pos 0)
        then set_result minus_one k
        else (console_read (size_buffer - 1) k >>= λ (r : ℤ × List ℕ × Kernel File World).
            store_line virt_addr size_buffer r.0 r.1 r.2)

  -- The loop that prints a buffer from its character `i` on, while `i` is below the bound, where
  -- there is one.
  unfoldable pub print_loop :
      Option ℕ → List ℕ → ℕ → Kernel File World → Run (Kernel File World) (ℕ × Kernel File World)
  unfolding console_write
  print_loop bound [] i k = stops
  print_loop bound (c ∷ rest) i k =
      let after = print_loop bound rest (i + 1) (console_write (c ∷ []) 1 k) in
      if c == 0
      then returns (i, k)
      else (elim bound [ none ↦ after | some size ↦ if ltb i size then after else returns (i, k) ])

  unfoldable pub sys_print_string : Kernel File World → Run (Kernel File World) (Kernel File World)
  unfolding user2system print_loop
  sys_print_string k = do
    virt_addr ← read_reg 4 k
    (text, k1) ← user2system virt_addr max_string_length k
    (i, k2) ← print_loop none (kernel_buf max_string_length text) 0 k1
    set_result (pos i) k2
