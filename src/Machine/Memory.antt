-- ===== src/Machine/Memory.antt =====
-- Machine::ReadMem and Machine::WriteMem of machine/translate.cc.
-- The simulated memory is little-endian, and so is the host that the Makefiles build for
-- (HOST_IS_BIG_ENDIAN is not defined): the conversions of a word are the identity there.
pub mod Laws
pub mod Registers
pub mod Pages
use nach_operator_system.Prelude.{
  ℕ, ◌+◌, ◌-◌, ◌*◌, ◌/◌, ◌%◌, ◌^◌, Bool, true, false, Option, some, none, List, ltb, ◌==◌,
  if◌then◌else◌, get_elem?, ◌>>=◌, ◌>>◌, word_mod,
}
use nach_operator_system.Machine.{Machine, Handler, ExceptionType, raise_exception, store_at}
use nach_operator_system.Machine.Translate.{Translated, fault, at, translate}

abbrev pub word_to_host : ℕ → ℕ
word_to_host w = w

abbrev pub short_to_host : ℕ → ℕ
short_to_host w = w

abbrev pub word_to_machine : ℕ → ℕ
word_to_machine w = word_to_host w

abbrev pub short_to_machine : ℕ → ℕ
short_to_machine w = short_to_host w

-- A `char` that becomes an `int`.
abbrev pub sign_extend_byte : ℕ → ℕ
sign_extend_byte b = if ltb b 128 then b else b + word_mod - 256

-- The `switch (size)` of ReadMem; any other size is ASSERT(FALSE).
pub load : List ℕ → ℕ → ℕ → Option ℕ
load mem a size =
    if size == 1
    then (get_elem? mem a >>= λ b. some (sign_extend_byte b))
    else if size == 2
    then (do
      b0 ← get_elem? mem a
      b1 ← get_elem? mem (a + 1)
      some (short_to_host (b0 + b1 * 2 ^ 8)))
    else if size == 4
    then (do
      b0 ← get_elem? mem a
      b1 ← get_elem? mem (a + 1)
      b2 ← get_elem? mem (a + 2)
      b3 ← get_elem? mem (a + 3)
      some (word_to_host (b0 + b1 * 2 ^ 8 + b2 * 2 ^ 16 + b3 * 2 ^ 24)))
    else none

-- The `switch (size)` of WriteMem. `& 0xff` and `& 0xffff` are remainders.
pub store : List ℕ → ℕ → ℕ → ℕ → Option (List ℕ)
store mem a size value =
    if size == 1
    then store_at mem a (value % 2 ^ 8)
    else if size == 2
    then (let v = short_to_machine (value % 2 ^ 16) in
        do mem0 ← store_at mem a (v % 2 ^ 8); store_at mem0 (a + 1) (v / 2 ^ 8))
    else if size == 4
    then (let v = word_to_machine value in
        do
          mem0 ← store_at mem a (v % 2 ^ 8)
          mem1 ← store_at mem0 (a + 1) (v / 2 ^ 8 % 2 ^ 8)
          mem2 ← store_at mem1 (a + 2) (v / 2 ^ 16 % 2 ^ 8)
          store_at mem2 (a + 3) (v / 2 ^ 24))
    else none

-- A run of the kernel's code on the machine, which raises exceptions by the handler.
module _ (handler : Handler) where
  -- The rest of ReadMem, from the result of the translation on: `some v` is TRUE with `*value` set
  -- to `v`, `none` is FALSE.
  pub finish_read : ℕ → ℕ → Translated × Machine → Option (Option ℕ × Machine)
  finish_read addr size (fault e, m) = raise_exception handler e addr m >>= λ m'. some (none, m')
  finish_read addr size (at a, m) = load m.main_memory a size >>= λ v. some (some v, m)

  unfoldable pub read_mem : ℕ → ℕ → Machine → Option (Option ℕ × Machine)
  unfolding load finish_read
  read_mem addr size m = translate addr size false m >>= finish_read addr size

  pub finish_write : ℕ → ℕ → ℕ → Translated × Machine → Option (Bool × Machine)
  finish_write addr size value (fault e, m) =
      raise_exception handler e addr m >>= λ m'. some (false, m')
  finish_write addr size value (at a, m) =
      store m.main_memory a size value >>= λ mem. some (true, record m { main_memory = mem })

  unfoldable pub write_mem : ℕ → ℕ → ℕ → Machine → Option (Bool × Machine)
  unfolding store finish_write
  write_mem addr size value m = translate addr size true m >>= finish_write addr size value
