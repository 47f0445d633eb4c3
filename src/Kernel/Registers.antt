-- ===== src/Kernel/Registers.antt =====
-- Which registers a system call of userprog/exception.cc may change: r2 only, before the program
-- counters are moved on.
pub mod Calls
pub mod FileCalls
pub mod Handling
pub mod Counters
use nach_operator_system.Prelude.{
  ℕ, zero, suc, ◌≡◌, ◌≢◌, refl, ◌∙◌, Bool, true, false, Option, some, none, List, [], ◌∷◌, ◌==◌,
  if◌then◌else◌, get_elem?, set, get_elem?-set_ne, length, length-set, ltb, ℤ, pos, negsuc,
  wrap_add, assert, ◌%◌, ◌^◌, subst, CString, arith, sym, ap, Bool-cases, ◌⊎◌, inl, inr,
  Option-cases, >>=-eq-some, word_mod,
}
use nach_operator_system.Machine.{Machine, read_register, write_register, store_at}
use nach_operator_system.Machine.Memory.{read_mem, write_mem, sign_extend_byte}
use nach_operator_system.Machine.Memory.Registers.{read_mem-registers, write_mem-registers}
use nach_operator_system.Kernel.{
  Run, Kernel, returns, sleeps, halts, stops, ◌>>=◌, lift, read_reg, write_reg, set_result,
}
use nach_operator_system.Kernel.Return.{
  OnReturn, OnReturn-returns, OnReturn-halts, OnReturn-stops, OnReturn-sleeps, OnReturn-elim,
  OnReturn->>=, OnReturn-lift,
}
use nach_operator_system.Kernel.Console.{
  Line, full, ended, control, waiting, console_read, read_line, line_result, console_write,
}
use nach_operator_system.Kernel.Transfer.{
  halt_handler, if_read, if_written, read_char, write_char, copy_in, copy_out, user2system,
  system2user,
}

-- Every register but r2 as it was.
pub record Keeps (m m' : Machine) : Type 0 where
  pub others : (s : ℕ) → s ≢ 2 → get_elem? m'.registers s ≡ get_elem? m.registers s

pub Keeps-refl : (m : Machine) → Keeps m m
Keeps-refl m = record { others = λ s h. refl }

pub Keeps-same : {m m' : Machine} → m'.registers ≡ m.registers → Keeps m m'
Keeps-same e = record { others = λ s h. ap (λ r. get_elem? r s) e }

pub Keeps-trans : {m m1 m2 : Machine} → Keeps m m1 → Keeps m1 m2 → Keeps m m2
Keeps-trans p q = record { others = λ s h. q.others s h ∙ p.others s h }

write_register-Keeps : (v : ℕ) (m m' : Machine) → write_register 2 v m ≡ some m' → Keeps m m'
unfolding write_register
write_register-Keeps v m m' h =
    let (registers, stored, same) = >>=-eq-some (store_at m.registers 2 v) _ h in
    let (checked, written, put) = >>=-eq-some (assert (ltb 2 (length m.registers))) _ stored in
    record {
      others =
          λ s ne. ground (arith, get_elem?-set_ne m.registers v (λ e. ne (sym e)), stored, same);
    }

if_read-Keeps :
    {S : Type 0} (addr : ℕ) (m : Machine) (r : Option ℕ × Machine)
    → read_mem halt_handler addr 1 m ≡ some r
    → OnReturn {S = S} (λ a. Keeps m a.1) (if_read r)
if_read-Keeps addr m (none, m1) h = OnReturn-halts
if_read-Keeps addr m (some v, m1) h =
    OnReturn-returns (v, m1) (Keeps-same (read_mem-registers halt_handler addr 1 m h))

if_written-Keeps :
    {S : Type 0} (addr value : ℕ) (m : Machine) (r : Bool × Machine)
    → write_mem halt_handler addr 1 value m ≡ some r
    → OnReturn {S = S} (Keeps m) (if_written r)
if_written-Keeps addr value m (false, m1) h = OnReturn-halts
if_written-Keeps addr value m (true, m1) h =
    OnReturn-returns m1 (Keeps-same (write_mem-registers halt_handler addr 1 m value h))

module _ {S : Type 0} where
  read_char-Keeps :
      (addr : ℕ) (m : Machine) → OnReturn {S = S} (λ r. Keeps m r.1) (read_char addr m)
  unfolding read_char
  read_char-Keeps addr m = OnReturn-lift (read_mem halt_handler addr 1 m) (if_read-Keeps addr m)

  write_char-Keeps :
      (addr value : ℕ) (m : Machine) → OnReturn {S = S} (Keeps m) (write_char addr value m)
  unfolding write_char
  write_char-Keeps addr value m =
      OnReturn-lift (write_mem halt_handler addr 1 value m) (if_written-Keeps addr value m)

  copy_in-Keeps :
      (left addr : ℕ) (m : Machine) → OnReturn {S = S} (λ r. Keeps m r.1) (copy_in left addr m)
  unfolding copy_in
  copy_in-Keeps zero addr m = OnReturn-returns _ (Keeps-refl m)
  copy_in-Keeps (suc left) addr m = OnReturn->>= (read_char-Keeps addr m) λ r kept.
      OnReturn-elim (r.0 == 0) (OnReturn-returns _ kept) (
        OnReturn->>= (copy_in-Keeps left (wrap_add addr 1) r.1)
          λ s kept'. OnReturn-returns _ (Keeps-trans kept kept'))

  copy_out-Keeps :
      (left addr : ℕ) (buffer : List ℕ) (m : Machine)
      → OnReturn {S = S} (λ r. Keeps m r.1) (copy_out left addr buffer m)
  unfolding copy_out
  copy_out-Keeps zero addr buffer m = OnReturn-returns _ (Keeps-refl m)
  copy_out-Keeps (suc left) addr [] m = OnReturn-stops
  copy_out-Keeps (suc left) addr (c ∷ rest) m =
      OnReturn->>= (write_char-Keeps addr (sign_extend_byte c) m) λ m1 kept.
        OnReturn-elim (c == 0) (OnReturn-returns _ kept) (
          OnReturn->>= (copy_out-Keeps left (wrap_add addr 1) rest m1)
            λ s kept'. OnReturn-returns _ (Keeps-trans kept kept'))

-- The same of the kernel's state: `m0` is the machine at the start.
abbrev pub Since : {File World : Type 0} → Machine → Kernel File World → Type 0
Since m0 k = Keeps m0 k.machine

module _ {File World : Type 0} (m0 : Machine) where
  pub write_reg-Since :
      (v : ℕ) (k : Kernel File World) → Since m0 k → OnReturn (Since m0) (write_reg 2 v k)
  write_reg-Since v k kept =
      OnReturn-lift (write_register 2 v k.machine)
        λ m e. OnReturn-returns _ (Keeps-trans kept (write_register-Keeps v k.machine m e))

  pub user2system-Since :
      (addr limit : ℕ) (k : Kernel File World)
      → Since m0 k
      → OnReturn (λ (r : CString × Kernel File World). Since m0 r.1) (user2system addr limit k)
  unfolding user2system
  user2system-Since addr limit k kept =
      OnReturn->>= (copy_in-Keeps limit addr k.machine)
        λ r kept'. OnReturn-returns _ (Keeps-trans kept kept')

  pub system2user-Since :
      (addr : ℕ) (len : ℤ) (buffer : List ℕ) (k : Kernel File World)
      → Since m0 k
      → OnReturn (λ (r : ℤ × Kernel File World). Since m0 r.1) (system2user addr len buffer k)
  unfolding system2user
  system2user-Since addr (negsuc n) buffer k kept = OnReturn-returns _ kept
  system2user-Since addr (pos len) buffer k kept =
      OnReturn->>= (copy_out-Keeps len addr buffer k.machine)
        λ r kept'. OnReturn-returns _ (Keeps-trans kept kept')

  line_result-Since :
      (line : Line) (k : Kernel File World)
      → Since m0 k
      → OnReturn (λ (r : ℤ × List ℕ × Kernel File World). Since m0 r.2) (line_result line k)
  line_result-Since (full got rest) k kept = OnReturn-returns _ kept
  line_result-Since (ended got rest) k kept = OnReturn-returns _ kept
  line_result-Since (control got rest) k kept = OnReturn-returns _ kept
  line_result-Since waiting k kept = OnReturn-sleeps _

  pub console_read-Since :
      (n : ℕ) (k : Kernel File World)
      → Since m0 k
      → OnReturn (λ (r : ℤ × List ℕ × Kernel File World). Since m0 r.2) (console_read n k)
  unfolding console_read
  console_read-Since zero k kept = OnReturn-stops
  console_read-Since (suc n) k kept = line_result-Since (read_line (suc n) k.input) k kept
