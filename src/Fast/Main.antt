-- ===== src/Fast/Main.antt =====
-- The loop of `sim_main` of Project1/part1/sim-fast.c, as it is built without a jump table.
use computer_architecture.Base.{
  ℕ, zero, suc, ◌+◌, Bool, ◌||◌, Option, none, some, if◌then◌else◌, update,
}
use mathlib.Core.Option
use computer_architecture.Base.Word.{u32}
use computer_architecture.Memory.{Memory}
use computer_architecture.Isa.{opfield}
use computer_architecture.Pipe.Stages.{SysSyscall}
use computer_architecture.Basic.Decode.{fetch_inst}
use computer_architecture.Fast.Insts.{Fast, execute}

-- Before the loop; `none` is `fatal`.
unfoldable pub start_run : {Space : Type 0} → Bool → Bool → Fast Space → Option (Fast Space)
start_run sim_swap_bytes sim_swap_words m =
    if sim_swap_bytes || sim_swap_words then none else some (record m { npc = u32 (m.pc + 8) })

module _ {Space : Type 0} (M : Memory Space) (sys_syscall : SysSyscall Space) where
  -- The end of a round of the loop.
  abbrev pub advance : Fast Space → Fast Space
  advance m = record m { pc = m.npc; npc = u32 (m.npc + 8) }

  unfoldable pub step : Fast Space → Option (Fast Space)
  unfolding execute
  step m =
      let m' = record m { regs = update m.regs 0 0; num_insn = m.num_insn + 1 } in
      let i = fetch_inst M m.mem m.pc in Option.map advance (execute M sys_syscall (opfield i) i m')

  -- The loop, for a number of rounds.
  unfoldable pub run_fast : ℕ → Fast Space → Option (Fast Space)
  unfolding step
  run_fast zero m = some m
  run_fast (suc n) m = elim (step m) [ none ↦ none | some m' ↦ run_fast n m' ]
