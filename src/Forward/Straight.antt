-- ===== src/Forward/Straight.antt =====
-- Straight-line code on the pipeline of Project1/part2/sim-pipe.c, against the instructions of machine.def.
use computer_architecture.Base.{◌≡◌, ◌≢◌, true, false, Option, none, some, List, [], ◌∷◌}
use computer_architecture.Memory.{Memory}
use computer_architecture.Isa.{Inst, opfield, syscall}
use computer_architecture.Pipe.Stages.{SysSyscall}
use computer_architecture.Basic.State.{Sim}
use computer_architecture.Fast.Insts.{Fast, execute}
use computer_architecture.Forward.Stages.{pipeline_control}
use computer_architecture.Forward.Main.{round}
use computer_architecture.Forward.Retire.{retired}
use computer_architecture.Forward.Issue.{CanRun}
use computer_architecture.Forward.Refine.{IsFresh}

module _ {Space : Type 0} (M : Memory Space) (sys_syscall : SysSyscall Space) where
  -- A round that decodes an instruction of this development.
  pub record IsPlain (s s' : Sim Space) : Type 0 where
    pub no_call : s.mw.inst.a ≢ syscall
    pub rounds : round M sys_syscall s ≡ some s'
    pub fresh : IsFresh s
    pub can : let i = (pipeline_control s).fd.inst in CanRun (opfield i) (retired M s).regs i.b

  -- Rounds one after the other, with the instructions that they decode: one that waits is decoded
  -- again.
  pub data Rounds : Sim Space → List Inst → Sim Space → Type 0 where
    stop : {s : Sim Space} → Rounds s [] s
    wait :
        {s s' t : Sim Space} {is : List Inst}
        → IsPlain s s'
        → s'.ctl.stall ≡ true
        → Rounds s' is t
        → Rounds s is t
    decode :
        {s s' t : Sim Space} {is : List Inst}
        → IsPlain s s'
        → s'.ctl.stall ≡ false
        → Rounds s' is t
        → Rounds s ((pipeline_control s).fd.inst ∷ is) t

  -- The instructions of a list one after the other, without the reset of register 0 that the loop of
  -- the functional simulator has.
  unfoldable pub execute_all : List Inst → Fast Space → Option (Fast Space)
  execute_all [] m = some m
  execute_all (i ∷ is) m = elim (execute M sys_syscall (opfield i) i m) [
    | none ↦ none
    | some m' ↦ execute_all is m'
  ]
