-- ===== src/Cpu/Step.antt =====
-- Machine::OneInstruction of machine/mipssim.cc: fetch, decode, execute, the delayed load, and the
-- program counters.
pub mod Loads
pub mod Advance
use nach_operator_system.Prelude.{ℕ, Option, some, none, ◌>>=◌}
use nach_operator_system.Machine.{Machine, Handler, delayed_load, pc_reg, next_pc_reg, prev_pc_reg}
use nach_operator_system.Machine.Memory.{read_mem}
use nach_operator_system.Cpu.{decode}
use nach_operator_system.Cpu.Execute.{Outcome, trapped, done, reg, set_reg}
use nach_operator_system.Cpu.Execute.Dispatch.{execute}

abbrev pub advance : ℕ → Machine → Machine
advance pc_after m =
    let m1 = set_reg prev_pc_reg (reg m pc_reg) m in
    let m2 = set_reg pc_reg (reg m1 next_pc_reg) m1 in set_reg next_pc_reg pc_after m2

pub settle : Outcome → Option Machine
unfolding delayed_load
settle (trapped m) = some m
settle (done m pc_after next_load_reg next_load_value) =
    delayed_load next_load_reg next_load_value m >>= λ m'. some (advance pc_after m')

-- From the word that was fetched on.
pub run_fetched : Handler → Option ℕ × Machine → Option Machine
unfolding settle decode execute
run_fetched handler (none, m) = some m
run_fetched handler (some raw, m) =
    decode raw >>= λ instr. execute handler instr.op_code instr m >>= settle

unfoldable pub one_instruction : Handler → Machine → Option Machine
unfolding run_fetched read_mem
one_instruction handler m = read_mem handler (reg m pc_reg) 4 m >>= run_fetched handler
