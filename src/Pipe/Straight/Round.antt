-- ===== src/Pipe/Straight/Round.antt =====
-- One round of Project2/sim-pipe.c without a system call, stage by stage, and what decode makes of
-- an instruction that Project1/part2 decodes with one function of the execute stage.
use computer_architecture.Base.{
  ℕ, ◌≡◌, ◌≢◌, ◌⊎◌, refl, sym, ap, ◌∙◌, Bool, true, false, ◌||◌, none, some, inl, inr, Bool-cases,
  ◌==◌, if◌then◌else◌, arith,
}
use mathlib.Core.Option
use mathlib.Core.Option.{some-injective}
use computer_architecture.Memory.{Memory}
use computer_architecture.Isa.{Dep, InstDef, opfield, operand, nop, syscall, lw, sw}
use computer_architecture.Isa.Table.{def_inst}
use computer_architecture.Pipe.State.{AluFunc, ControlBuf, Sim, mask_bit}
use computer_architecture.Pipe.Decode.{do_id, select, route, set_func, is_busy}
use computer_architecture.Pipe.Stages.{
  SysSyscall, do_wb, do_mem, do_ex, latch_wb, write_back, pipeline_control,
}
use computer_architecture.Pipe.Main.{after_wb, round}
use computer_architecture.Pipe.Hazards.{decoded, waits, do_id_stall, do_id_issue}
use computer_architecture.Pipe.Straight.View.{flat}
use computer_architecture.Basic.State as basic
use computer_architecture.Basic.Decode.{dispatch}
use computer_architecture.Fast.Agree.{IsCommon, fill_operands-some}
use computer_architecture.Forward.Issue.{latched, filled}

or_false : {a b : Bool} → (a || b) ≡ false → (a ≡ false) × (b ≡ false)
or_false {a = true} h = absurd (ground (arith, h))
or_false {a = false} h = (refl, h)

busy-one : (ctl : ControlBuf) (d : Dep) → is_busy ctl d ≡ true → (k : ℕ) × (ctl.regs k ≡ true)
busy-one ctl none h = absurd (ground (arith, h))
busy-one ctl (some n) h = (mask_bit (some n), h)

busy-two :
    (ctl : ControlBuf) (a b : Dep)
    → (is_busy ctl a || is_busy ctl b) ≡ true
    → (k : ℕ) × (ctl.regs k ≡ true)
busy-two ctl a b h = elim (Bool-cases (is_busy ctl a)) [
  | inl mark ↦ busy-one ctl a mark
  | inr clear ↦ busy-one ctl b (ground (arith, h, clear))
]

module _ {Space : Type 0} (M : Memory Space) where
  -- The registers behind the write-back.
  abbrev pub written_back : Sim Space → Sim Space
  written_back c =
      if c.mw.inst.a == nop
      then record c { wb = record (c.wb) { inst = c.mw.inst } }
      else record c { wb = latch_wb c; regs = write_back c.mw c.regs }

  do_wb-plain :
      (sys_syscall : SysSyscall Space) (c : Sim Space)
      → c.mw.inst.a ≢ syscall
      → do_wb M sys_syscall c ≡ some (written_back c)
  unfolding do_wb
  do_wb-plain sys_syscall c plain = ground (arith, plain)

  -- The state of a round behind its write-back, when that is of no system call, and in front of
  -- decode.
  abbrev pub wrote : Sim Space → Sim Space
  wrote s = written_back (pipeline_control s)

  abbrev pub before_id : Sim Space → Sim Space
  before_id s = do_ex (do_mem M (wrote s))

  control-mw : (s : Sim Space) → (pipeline_control s).mw ≡ s.mw
  unfolding pipeline_control
  control-mw s = ground arith

  pub round-wrote :
      (sys_syscall : SysSyscall Space) (s : Sim Space)
      → s.mw.inst.a ≢ syscall
      → round M sys_syscall s ≡ some (after_wb M sys_syscall (wrote s))
  unfolding round
  round-wrote sys_syscall s plain = ap (Option.map (after_wb M sys_syscall)) (
      do_wb-plain sys_syscall (pipeline_control s)
        (λ h. plain (sym (ap (λ m. m.inst.a) (control-mw s)) ∙ h)))

  -- The latches and the marks as the other pipelines have them.
  abbrev pub as_basic : Sim Space → basic.Sim (ℕ → ℕ)
  as_basic s = record {
    fd = s.fd;
    de = s.de;
    em = s.em;
    mw = s.mw;
    wb = s.wb;
    ctl = record { flag = 0; cond = s.ctl.cond; regs = s.ctl.regs; stall = s.ctl.stall };
    regs = s.regs;
    mem = flat M s;
    num_insn = s.num_insn;
  }

  -- Decode either waits, for a register that is marked, or issues what the other pipelines issue.
  abbrev pub Waits : Sim Space → InstDef → Type 0
  Waits x line =
      (do_id x ≡ record x { de = filled (as_basic x) line; ctl = record (x.ctl) { stall = true } })
      × ((k : ℕ) × (x.ctl.regs k ≡ true))

  abbrev pub Issues : Sim Space → InstDef → AluFunc → Type 0
  Issues x line func =
      (do_id x
        ≡ route (
            set_func
              (record x { de = filled (as_basic x) line; ctl = record (x.ctl) { stall = false } })
              func))
      × (is_busy x.ctl (operand line.in1 x.fd.inst.b) ≡ false)
      × (is_busy x.ctl (operand line.in2 x.fd.inst.b) ≡ false)

  pub do_id-cases :
      (x : Sim Space) (op : ℕ) (line : InstDef) (func : AluFunc)
      → opfield x.fd.inst ≡ op
      → op ≢ nop
      → def_inst op ≡ some line
      → ((t : Sim Space) → t.de.opcode ≡ op → select t ≡ set_func t func)
      → Waits x line ⊎ Issues x line func
  do_id-cases x op line func is real defined pick =
      let there : x.fd.inst.a ≢ nop = λ h. ground (arith, is, real, h) in
      let fill : decoded x ≡ filled (as_basic x) line =
        fill_operands-some line (latched (as_basic x)) (ap def_inst is ∙ defined) in
      let held : waits x ≡ (
          is_busy x.ctl (operand line.in1 x.fd.inst.b)
          || is_busy x.ctl (operand line.in2 x.fd.inst.b)) =
        ap (λ de. is_busy x.ctl de.oprand.in1 || is_busy x.ctl de.oprand.in2) fill in
      elim (Bool-cases (waits x)) [
        | inl busy ↦ inl (
          do_id_stall x there busy
              ∙ ap (λ de. record x { de = de; ctl = record (x.ctl) { stall = true } }) fill,
          busy-two x.ctl (operand line.in1 x.fd.inst.b) (operand line.in2 x.fd.inst.b)
              (sym held ∙ busy),
        )
        | inr free ↦ inr (
          do_id_issue x there free
              ∙ ap
                  (λ de.
                    route (select (record x { de = de; ctl = record (x.ctl) { stall = false } })))
                  fill
              ∙ ap route (
                  pick
                    (record x {
                      de = filled (as_basic x) line;
                      ctl = record (x.ctl) { stall = false };
                    })
                    is),
          (or_false (sym held ∙ free)).0,
          (or_false (sym held ∙ free)).1,
        )
      ]

  -- The switch of decode chooses what the one of Project1/part2 chooses.
  pub select-picks :
      (t : Sim Space)
      → IsCommon t.de.opcode ⊎ (t.de.opcode ≡ lw) ⊎ (t.de.opcode ≡ sw)
      → select t ≡ set_func t (dispatch (as_basic t)).de.func
  unfolding select dispatch
  select-picks t can = ground (arith, can)
