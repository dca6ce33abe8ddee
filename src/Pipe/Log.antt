-- ===== src/Pipe/Log.antt =====
-- What `do_log` and `cache_log` of Project2/sim-pipe.c print, without the texts around the numbers.
use computer_architecture.Base.{ℕ, ◌+◌, List, [], ◌∷◌}
use computer_architecture.Isa.{Inst}
use computer_architecture.Pipe.State.{Sim, Regs}

-- A count, an instruction at its address (`md_print_insn`), or a line of values.
pub data LogLine : Type 0 where
  count : ℕ → LogLine
  insn : Inst → ℕ → LogLine
  values : List ℕ → LogLine

abbrev pub eight_from : Regs → ℕ → List ℕ
eight_from regs n =
    regs n
    ∷ regs (n + 1)
    ∷ regs (n + 2)
    ∷ regs (n + 3)
    ∷ regs (n + 4)
    ∷ regs (n + 5)
    ∷ regs (n + 6)
    ∷ regs (n + 7)
    ∷ []

module _ {Space : Type 0} where
  unfoldable pub do_log : Sim Space → List LogLine
  do_log s =
      count s.num_insn
      ∷ insn s.fd.inst s.fd.pc
      ∷ insn s.de.inst s.de.pc
      ∷ insn s.em.inst s.em.pc
      ∷ insn s.mw.inst s.mw.pc
      ∷ insn s.wb.inst s.wb.pc
      ∷ values (eight_from s.regs 0)
      ∷ values (eight_from s.regs 8)
      ∷ values (eight_from s.regs 16)
      ∷ values (eight_from s.regs 24)
      ∷ []

  unfoldable pub cache_log : Sim Space → List LogLine
  cache_log s =
      let c = s.cache in
      count s.num_clk
      ∷ count c.access
      ∷ count c.hit
      ∷ count c.miss
      ∷ count c.replace
      ∷ count c.wb
      ∷ []
