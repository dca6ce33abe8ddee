-- ===== src/Forward/Wake.antt =====
-- The round behind a wait of the pipeline of Project1/part2/sim-pipe.c.
use computer_architecture.Base.{
  ◌≡◌, ◌≢◌, refl, sym, ap, ◌∙◌, true, false, some, inl, inr, Bool-cases, arith,
}
use computer_architecture.Memory.{Memory}
use computer_architecture.Isa.{InstDef, opfield, nop, syscall}
use computer_architecture.Isa.Table.{def_inst}
use computer_architecture.Pipe.State.{IfidBuf}
use computer_architecture.Pipe.Stages.{SysSyscall}
use computer_architecture.Basic.State.{ControlBuf, Sim}
use computer_architecture.Forward.Stages.{pipeline_control, squash, replay, do_id}
use computer_architecture.Forward.Main.{round}
use computer_architecture.Forward.Squash.{FlagIsBit}
use computer_architecture.Forward.Retire.{loads, wrote, round-plain}
use computer_architecture.Forward.Settled.{IsSettled, before_id-of_load, round-IsSettled}
use computer_architecture.Forward.Latch.{before_id}
use computer_architecture.Forward.Operands.{before_id-fd}
use computer_architecture.Forward.Wait.{do_id-waits, after_wb-ends, waits-latch}

module _ {Space : Type 0} where
  -- The instruction that waits is put back behind the fetch.
  control-replays :
      (s : Sim Space) → FlagIsBit s → s.ctl.stall ≡ true → (pipeline_control s).fd.inst ≡ s.de.inst
  unfolding pipeline_control squash replay
  control-replays s bit waits = ground (arith, waits)

-- A wait lasts one round: in settled latches, without a system call in `mw` in either round and
-- with `flag` at most 1, the round behind one that waits with an instruction of the table, not a
-- `nop`, decodes the same instruction again and does not wait.
pub round-wakes :
    {Space : Type 0} (M : Memory Space) (sys_syscall : SysSyscall Space) (s s' s'' : Sim Space)
    (d : InstDef)
    → IsSettled s
    → s.mw.inst.a ≢ syscall
    → round M sys_syscall s ≡ some s'
    → s'.ctl.stall ≡ true
    → FlagIsBit s'
    → opfield (pipeline_control s).fd.inst ≢ nop
    → def_inst (opfield (pipeline_control s).fd.inst) ≡ some d
    → s'.mw.inst.a ≢ syscall
    → round M sys_syscall s' ≡ some s''
    → ((pipeline_control s').fd.inst ≡ (pipeline_control s).fd.inst) × (s''.ctl.stall ≡ false)
round-wakes {Space = Space} M sys_syscall s s' s'' d h plain one waits bit real line plain' two =
    let op = opfield (pipeline_control s).fd.inst in
    let (zero, _, _, _, inst) =
      waits-latch M sys_syscall s s' op d h plain one waits refl real line in
    let same : (pipeline_control s').fd.inst ≡ (pipeline_control s).fd.inst =
      control-replays s' bit waits ∙ inst in
    let h' = round-IsSettled M sys_syscall s s' h plain one in
    let x = before_id M s' in
    let at : opfield x.fd.inst ≡ op =
      ap (λ (z : IfidBuf). opfield z.inst) (before_id-fd M s') ∙ ap opfield same in
    let (_, _, _, _, ctl, _) = after_wb-ends M sys_syscall (wrote s') in
    let ends : s''.ctl.stall ≡ (do_id x).ctl.stall =
      ap (λ (z : Sim Space). z.ctl.stall) (sym (round-plain M sys_syscall s' s'' plain' two))
      ∙ ap (λ (z : ControlBuf). z.stall) ctl in
    (
      same,
      elim (Bool-cases (do_id x).ctl.stall) [
        | inl again ↦
            let ((k, mark), _) = do_id-waits x op d at real line again in
            let load : loads s'.de.rw ≡ true = (before_id-of_load M s' h' k mark).0 in
            absurd (ground (arith, zero, load))
        | inr free ↦ ends ∙ free
      ],
    )
