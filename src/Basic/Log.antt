-- ===== src/Basic/Log.antt =====
-- What `do_log` of the pipelines of Project1/part2 prints, without the texts around the numbers.
use computer_architecture.Base.{◌+◌, List, [], ◌∷◌}
use computer_architecture.Base.Word.{u32}
use computer_architecture.Memory.{Memory}
use computer_architecture.Pipe.Log.{LogLine, count, insn, values}
use computer_architecture.Basic.State.{Sim}

-- The last value is the word at 16 bytes above register 30.
unfoldable pub do_log : {Space : Type 0} → Memory Space → Sim Space → List LogLine
do_log M s =
    count s.num_insn
    ∷ insn s.fd.inst s.fd.pc
    ∷ insn s.de.inst s.de.pc
    ∷ insn s.em.inst s.em.pc
    ∷ insn s.mw.inst s.mw.pc
    ∷ insn s.wb.inst s.wb.pc
    ∷ values (
        s.regs 2
        ∷ s.regs 3
        ∷ s.regs 4
        ∷ s.regs 5
        ∷ s.regs 6
        ∷ M.read_word s.mem (u32 (s.regs 30 + 16))
        ∷ [])
    ∷ []
