-- ===== src/Pipe/Bubble.antt =====
-- Bubbles: a stage that meets a `NOP` only takes its instruction word over.
use computer_architecture.Base.{◌≡◌, some, arith}
use computer_architecture.Memory.{Memory}
use computer_architecture.Isa.{nop}
use computer_architecture.Pipe.State.{Sim}
use computer_architecture.Pipe.Stages.{SysSyscall, do_wb, do_mem, do_ex}

module _ {Space : Type 0} (M : Memory Space) (sys_syscall : SysSyscall Space) (s : Sim Space) where
  pub do_wb_bubble :
      s.mw.inst.a ≡ nop
      → do_wb M sys_syscall s ≡ some (record s { wb = record (s.wb) { inst = s.mw.inst } })
  unfolding do_wb
  do_wb_bubble h = ground arith

  pub do_mem_bubble :
      s.em.inst.a ≡ nop → do_mem M s ≡ record s { mw = record (s.mw) { inst = s.em.inst } }
  unfolding do_mem
  do_mem_bubble h = ground arith

  pub do_ex_bubble :
      s.de.inst.a ≡ nop → do_ex s ≡ record s { em = record (s.em) { inst = s.de.inst } }
  unfolding do_ex
  do_ex_bubble h = ground arith
