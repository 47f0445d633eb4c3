-- ===== src/Machine/Memory/Registers.antt =====
-- ReadMem and WriteMem of machine/translate.cc leave the registers alone where they succeed.
use nach_operator_system.Prelude.{ℕ, ◌≡◌, true, false, some, >>=-eq-some, arith, ◌∙◌}
use nach_operator_system.Machine.{Machine, Handler, raise_exception}
use nach_operator_system.Machine.Translate.{Translated, fault, at, translate}
use nach_operator_system.Machine.Translate.Registers.{translate-registers}
use nach_operator_system.Machine.Memory.{
  load, store, finish_read, finish_write, read_mem, write_mem,
}

module _ (handler : Handler) (addr size : ℕ) (m : Machine) where
  finish_read-registers :
      (r : Translated × Machine) {v : ℕ} {m' : Machine}
      → finish_read handler addr size r ≡ some (some v, m')
      → m'.registers ≡ r.1.registers
  unfolding finish_read
  finish_read-registers (fault e, m1) h =
      let (m2, raised, same) = >>=-eq-some (raise_exception handler e addr m1) _ h in
      absurd (ground arith)
  finish_read-registers (at a, m1) h =
      let (v, loaded, same) = >>=-eq-some (load m1.main_memory a size) _ h in ground arith

  pub read_mem-registers :
      {v : ℕ} {m' : Machine}
      → read_mem handler addr size m ≡ some (some v, m')
      → m'.registers ≡ m.registers
  unfolding read_mem
  read_mem-registers h =
      let (r, translated, read) = >>=-eq-some (translate addr size false m) _ h in
      finish_read-registers r read ∙ translate-registers m addr size false translated

  finish_write-registers :
      (value : ℕ) (r : Translated × Machine) {m' : Machine}
      → finish_write handler addr size value r ≡ some (true, m')
      → m'.registers ≡ r.1.registers
  unfolding finish_write
  finish_write-registers value (fault e, m1) h =
      let (m2, raised, same) = >>=-eq-some (raise_exception handler e addr m1) _ h in
      absurd (ground arith)
  finish_write-registers value (at a, m1) h =
      let (mem, stored, same) = >>=-eq-some (store m1.main_memory a size value) _ h in ground arith

  pub write_mem-registers :
      (value : ℕ) {m' : Machine}
      → write_mem handler addr size value m ≡ some (true, m')
      → m'.registers ≡ m.registers
  unfolding write_mem
  write_mem-registers value h =
      let (r, translated, wrote) = >>=-eq-some (translate addr size true m) _ h in
      finish_write-registers value r wrote ∙ translate-registers m addr size true translated
