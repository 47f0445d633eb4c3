-- ===== src/Kernel/Console.antt =====
-- SynchConsole::Read and SynchConsole::Write of threads/synchcons.cc, over the characters that the
-- console gives. The two line locks are free, as no other thread is inside.
use nach_operator_system.Prelude.{
  ℕ, zero, suc, List, [], ◌∷◌, ◌++◌, ◌==◌, if◌then◌else◌, length, take, ℤ, pos, minus_one,
}
use nach_operator_system.Kernel.{Kernel, Run, returns, sleeps, stops}

-- A character: EOF as a `char`, '\012', '\001', or one that goes into the buffer.
pub data Key : Type 0 where
  eof end_of_line control_a plain : Key

abbrev pub key_of : ℕ → Key
key_of c =
    if c == 255 then eof else if c == 10 then end_of_line else if c == 1 then control_a else plain

-- What ends the loops of Read: the buffer is full, the end of the line, CTRL-A, or the wait for a
-- character that does not come. Each with the characters put into the buffer, and those left.
pub data Line : Type 0 where
  full ended control : List ℕ → List ℕ → Line
  waiting : Line

abbrev pub put_char : ℕ → Line → Line
put_char c (full got rest) = full (c ∷ got) rest
put_char c (ended got rest) = ended (c ∷ got) rest
put_char c (control got rest) = control (c ∷ got) rest
put_char c waiting = waiting

-- With room for `left` characters.
unfoldable pub read_line : ℕ → List ℕ → Line
read_line zero input = full [] input
read_line (suc left) [] = waiting
read_line (suc left) (c ∷ rest) = elim (key_of c) [
  | eof ↦ read_line (suc left) rest
  | end_of_line ↦ ended [] rest
  | control_a ↦ control [] rest
  | plain ↦ put_char c (read_line left rest)
]

module _ {File World : Type 0} where
  abbrev pub line_result :
      Line → Kernel File World → Run (Kernel File World) (ℤ × List ℕ × Kernel File World)
  line_result (full got rest) k = returns (pos (length got), got, record k { input = rest })
  line_result (ended got rest) k = returns (pos (length got), got, record k { input = rest })
  line_result (control got rest) k = returns (minus_one, got, record k { input = rest })
  line_result waiting k = sleeps (record k { input = [] })

  -- The result of Read and the characters at the front of the buffer; zeros follow them. With no
  -- room the last test is of a `ch` that has no value.
  unfoldable pub console_read :
      ℕ → Kernel File World → Run (Kernel File World) (ℤ × List ℕ × Kernel File World)
  console_read zero k = stops
  console_read (suc n) k = line_result (read_line (suc n) k.input) k

  -- `from` holds at least `num_bytes` characters.
  unfoldable pub console_write : List ℕ → ℕ → Kernel File World → Kernel File World
  console_write from num_bytes k = record k { output = k.output ++ take num_bytes from }
