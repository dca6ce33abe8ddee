-- ===== src/Forward/Fetch.antt =====
-- The order in which Project1/part2/sim-pipe.c fetches and decodes straight-line code.
use computer_architecture.Base.{
  ℕ, ◌+◌, ◌≡◌, ◌≢◌, refl, sym, ap, subst, ◌∙◌, true, false, ◌||◌, some, inl, inr, Bool-cases, arith,
}
use computer_architecture.Base.Word.{u32}
use computer_architecture.Memory.{Memory}
use computer_architecture.Isa.{InstDef, opfield, nop, syscall}
use computer_architecture.Isa.Table.{def_inst}
use computer_architecture.Pipe.State.{AluFunc, IfidBuf}
use computer_architecture.Pipe.Stages.{SysSyscall}
use computer_architecture.Basic.State.{Sim}
use computer_architecture.Basic.Decode.{dispatch, is_marked, with_func}
use computer_architecture.Forward.Stages.{
  pipeline_control, squash, replay, route, issue, do_id, do_ex, do_mem, do_forward, do_if, resolve,
}
use computer_architecture.Forward.Main.{after_wb, round}
use computer_architecture.Forward.Retire.{wrote, round-plain}
use computer_architecture.Forward.Latch.{before_id}
use computer_architecture.Forward.Issue.{filled, do_id-issue}
use computer_architecture.Forward.Operands.{before_id-fd}

-- No branch or jump is pending.
abbrev pub IsQuiet : {Space : Type 0} → Sim Space → Type 0
IsQuiet s = (s.ctl.cond ≡ 0) × (s.ctl.flag ≡ 0)

-- The address of the instruction that the next round decodes.
abbrev pub decode_pc : {Space : Type 0} → Sim Space → ℕ
decode_pc s = (pipeline_control s).fd.pc

module _ {Space : Type 0} where
  control-IsQuiet :
      (s : Sim Space)
      → IsQuiet s
      → IsQuiet (pipeline_control s)
        × (s.ctl.stall ≡ true → decode_pc s ≡ s.de.pc)
        × (s.ctl.stall ≡ false → decode_pc s ≡ s.fd.pc)
  unfolding pipeline_control squash replay
  control-IsQuiet s h =
      (ground (arith, h), λ waits. ground (arith, h, waits), λ free. ground (arith, h, free))

  do_mem-IsQuiet : (M : Memory Space) (w : Sim Space) → IsQuiet w → IsQuiet (do_mem M w)
  unfolding do_mem
  do_mem-IsQuiet M w h = ground (arith, h)

  do_ex-IsQuiet : (m : Sim Space) → IsQuiet m → IsQuiet (do_ex m)
  unfolding do_ex resolve
  do_ex-IsQuiet m h = ground (arith, h)

  route-IsQuiet :
      (t : Sim Space)
      → IsQuiet t
      → IsQuiet (route t) × ((route t).de.pc ≡ t.de.pc) × ((route t).fd ≡ t.fd)
  unfolding route
  route-IsQuiet t h = (h, refl, refl)

  issue-IsQuiet :
      (t : Sim Space) (func : AluFunc)
      → IsQuiet t
      → (let t' = record t { ctl = record (t.ctl) { stall = false } } in
          dispatch t' ≡ with_func t' func)
      → IsQuiet (issue t) × ((issue t).de.pc ≡ t.de.pc) × ((issue t).fd ≡ t.fd)
  unfolding issue
  issue-IsQuiet t func h pick =
      elim (Bool-cases (is_marked t.ctl t.de.oprand.in1 || is_marked t.ctl t.de.oprand.in2)) [
        | inl mark ↦ rw (mark, issue) (h, refl, refl)
        | inr clear ↦
            let t' = record t { ctl = record (t.ctl) { stall = false } } in
            let shape : issue t ≡ route (dispatch t') = rw (clear, issue) refl in
            subst (λ (z : Sim Space). IsQuiet z × (z.de.pc ≡ t.de.pc) × (z.fd ≡ t.fd))
              (sym (shape ∙ ap route pick)) (route-IsQuiet (with_func t' func) h)
      ]

  after_wb-fetch :
      (M : Memory Space) (sys_syscall : SysSyscall Space) (w : Sim Space)
      → let d = do_id (do_ex (do_mem M w)) in
        let s' = after_wb M sys_syscall w in
        IsQuiet d → IsQuiet s' × (s'.de.pc ≡ d.de.pc) × (s'.fd.pc ≡ u32 (d.fd.pc + 8))
  unfolding after_wb do_if do_forward
  after_wb-fetch M sys_syscall w h = ground (arith, h)

-- Where a round without a branch or a jump leaves the fetch: at the instruction that it decodes if
-- that waits, else behind it.
pub round-fetches :
    {Space : Type 0} (M : Memory Space) (sys_syscall : SysSyscall Space) (s s' : Sim Space) (op : ℕ)
    (d : InstDef) (func : AluFunc)
    → s.mw.inst.a ≢ syscall
    → round M sys_syscall s ≡ some s'
    → opfield (pipeline_control s).fd.inst ≡ op
    → op ≢ nop
    → def_inst op ≡ some d
    → ((t : Sim Space) → t.de.opcode ≡ op → dispatch t ≡ with_func t func)
    → IsQuiet s
    → IsQuiet s'
      × (s'.ctl.stall ≡ true → decode_pc s' ≡ decode_pc s)
      × (s'.ctl.stall ≡ false → decode_pc s' ≡ u32 (decode_pc s + 8))
round-fetches {Space = Space} M sys_syscall s s' op d func plain one is real line pick quiet =
    let x = before_id M s in
    let fd = before_id-fd M s in
    let go = do_id-issue x op d (ap (λ (z : IfidBuf). opfield z.inst) fd ∙ is) real line in
    let t = record x { de = filled x d } in
    let before =
      do_ex-IsQuiet (do_mem M (wrote s)) (do_mem-IsQuiet M (wrote s) (control-IsQuiet s quiet).0) in
    let (calm, at, stays) = issue-IsQuiet t func before (
      pick (record t { ctl = record (t.ctl) { stall = false } })
        (ap (λ (z : IfidBuf). opfield z.inst) fd ∙ is)) in
    let (later, de_pc, fd_pc) =
      after_wb-fetch M sys_syscall (wrote s) (subst IsQuiet (sym go) calm) in
    let ends = round-plain M sys_syscall s s' plain one in
    let quiet' = subst IsQuiet ends later in
    let (_, waits, goes) = control-IsQuiet s' quiet' in
    (
      quiet',
      λ stall.
          waits stall
          ∙ ap (λ (z : Sim Space). z.de.pc) (sym ends)
          ∙ de_pc
          ∙ ap (λ (z : Sim Space). z.de.pc) go
          ∙ at
          ∙ ap (λ (z : IfidBuf). z.pc) fd,
      λ free.
          goes free
          ∙ ap (λ (z : Sim Space). z.fd.pc) (sym ends)
          ∙ fd_pc
          ∙ ap (λ (z : IfidBuf). u32 (z.pc + 8)) (ap (λ (z : Sim Space). z.fd) go ∙ stays ∙ fd),
    )
