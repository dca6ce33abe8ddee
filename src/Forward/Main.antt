-- ===== src/Forward/Main.antt =====
-- `sim_main` of Project1/part2/sim-pipe.c.
use computer_architecture.Base.{
  ℕ, zero, suc, ◌+◌, Bool, ◌||◌, Option, none, some, if◌then◌else◌, update,
}
use mathlib.Core.Option
use computer_architecture.Base.Word.{sub32}
use computer_architecture.Memory.{Memory}
use computer_architecture.Pipe.Stages.{SysSyscall}
use computer_architecture.Pipe.Main.{Loader}
use computer_architecture.Basic.State.{Sim}
use computer_architecture.Forward.Stages.{
  pipeline_control, do_wb, do_mem, do_ex, do_id, do_forward, do_if,
}

-- `sim_load_prog`, with the program counter that the loader sets.
unfoldable pub sim_load_prog : {Space : Type 0} → Loader Space → Sim Space → ℕ × Sim Space
sim_load_prog ld_load_prog s =
    let (pc, regs', mem') = ld_load_prog s.regs s.mem in (pc, record s { regs = regs'; mem = mem' })

-- Before the loop, at the program counter that the loader set; `none` is `fatal`.
unfoldable pub sim_start : {Space : Type 0} → Bool → Bool → ℕ → Sim Space → Option (Sim Space)
sim_start sim_swap_bytes sim_swap_words pc s =
    if sim_swap_bytes || sim_swap_words
    then none
    else some (record s { regs = update s.regs 0 0; fd = record (s.fd) { pc = sub32 pc 8 } })

module _ {Space : Type 0} (M : Memory Space) (sys_syscall : SysSyscall Space) where
  unfoldable pub after_wb : Sim Space → Sim Space
  after_wb s =
      let s' = do_if M (do_forward (do_id (do_ex (do_mem M s)))) in
      record s' { num_insn = s'.num_insn + 1 }

  unfoldable pub round : Sim Space → Option (Sim Space)
  unfolding after_wb
  round s = Option.map after_wb (do_wb sys_syscall (pipeline_control s))

  -- The loop, for a number of rounds.
  unfoldable pub sim_main : ℕ → Sim Space → Option (Sim Space)
  sim_main zero s = some s
  sim_main (suc n) s = elim (round s) [ none ↦ none | some s' ↦ sim_main n s' ]
