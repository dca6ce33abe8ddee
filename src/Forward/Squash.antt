-- ===== src/Forward/Squash.antt =====
-- The test for a wrong prediction in `pipeline_control` of Project1/part2/sim-pipe.c.
use computer_architecture.Base.{◌≤◌, ◌≡◌, false, some, arith, inl, inr, Option-cases}
use computer_architecture.Memory.{Memory}
use computer_architecture.Isa.{opfield}
use computer_architecture.Pipe.Decode.{fill_operands}
use computer_architecture.Pipe.Stages.{SysSyscall}
use computer_architecture.Basic.State.{Sim}
use computer_architecture.Basic.Decode.{dispatch}
use computer_architecture.Forward.Stages.{
  pipeline_control, route, latch_id, do_id, do_ex, do_wb, do_forward, do_if, do_mem,
}
use computer_architecture.Forward.Main.{after_wb, round}

module _ {Space : Type 0} where
  -- What the code stores in `flag`.
  abbrev pub FlagIsBit : Sim Space → Type 0
  FlagIsBit s = s.ctl.flag ≤ 1

  control-flag : (s : Sim Space) → FlagIsBit s → FlagIsBit (pipeline_control s)
  unfolding pipeline_control
  control-flag s h = ground arith

  control-inst :
      (s : Sim Space) → FlagIsBit s → s.ctl.stall ≡ false → (pipeline_control s).de.inst ≡ s.de.inst
  unfolding pipeline_control
  control-inst s h free = ground arith

  dispatch-flag : (s : Sim Space) → FlagIsBit s → FlagIsBit (dispatch s)
  unfolding dispatch
  dispatch-flag s h = ground arith

  route-flag : (s : Sim Space) → FlagIsBit s → FlagIsBit (route s)
  unfolding route
  route-flag s h = ground arith

  dispatch-em : (s : Sim Space) → (dispatch s).em ≡ s.em
  unfolding dispatch
  dispatch-em s = ground arith

  route-em : (s : Sim Space) → (route s).em ≡ s.em
  unfolding route
  route-em s = ground arith

  do_id-flag : (s : Sim Space) → FlagIsBit s → FlagIsBit (do_id s)
  unfolding do_id
  do_id-flag s h =
      let s1 = record s {
        de = fill_operands (record (latch_id s) { opcode = opfield s.fd.inst });
      } in
      let s2 = record s1 { ctl = record (s.ctl) { stall = false } } in
      ground (arith, dispatch-flag s2, route-flag (dispatch s2))

  do_id-em : (s : Sim Space) → (do_id s).em ≡ s.em
  unfolding do_id
  do_id-em s =
      let s1 = record s {
        de = fill_operands (record (latch_id s) { opcode = opfield s.fd.inst });
      } in
      let s2 = record s1 { ctl = record (s.ctl) { stall = false } } in
      ground (arith, dispatch-em s2, route-em (dispatch s2))

  do_ex-flag : (s : Sim Space) → FlagIsBit s → FlagIsBit (do_ex s) × ((do_ex s).em.inst ≡ s.de.inst)
  unfolding do_ex
  do_ex-flag s h = ground arith

  do_wb-flag :
      (sys_syscall : SysSyscall Space) (s s' : Sim Space)
      → do_wb sys_syscall s ≡ some s'
      → (s'.ctl ≡ s.ctl) × (s'.de ≡ s.de)
  unfolding do_wb
  do_wb-flag sys_syscall s s' e = ground arith

  do_mem-flag :
      (M : Memory Space) (s : Sim Space)
      → ((do_mem M s).ctl.flag ≡ s.ctl.flag) × ((do_mem M s).de ≡ s.de)
  unfolding do_mem
  do_mem-flag M s = ground arith

  after_wb-executes :
      (M : Memory Space) (sys_syscall : SysSyscall Space) (s : Sim Space)
      → FlagIsBit s
      → ((after_wb M sys_syscall s).em.inst ≡ s.de.inst) × FlagIsBit (after_wb M sys_syscall s)
  unfolding after_wb do_if do_forward
  after_wb-executes M sys_syscall s h =
      let s1 = do_mem M s in
      let s2 = do_ex s1 in
      ground (arith, do_mem-flag M s, do_ex-flag s1, do_id-flag s2, do_id-em s2)

-- The test for a wrong prediction never sees its bit: if `flag` is at most 1, a round that ends
-- executes the instruction that the last round decoded, behind a taken branch too, unless that
-- instruction waits; and `flag` stays at most 1.
pub round-executes :
    {Space : Type 0} (M : Memory Space) (sys_syscall : SysSyscall Space) (s s' : Sim Space)
    → FlagIsBit s
    → s.ctl.stall ≡ false
    → round M sys_syscall s ≡ some s'
    → (s'.em.inst ≡ s.de.inst) × FlagIsBit s'
unfolding round
round-executes M sys_syscall s s' h free e =
    elim (Option-cases (do_wb sys_syscall (pipeline_control s))) [
      | inl stop ↦ ground (arith, stop)
      | inr (w, wrote) ↦ ground (
        arith,
        control-flag s h,
        control-inst s h free,
        do_wb-flag sys_syscall (pipeline_control s) w wrote,
        after_wb-executes M sys_syscall w,
      )
    ]
