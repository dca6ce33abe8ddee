-- ===== src/Pipe/Straight/Step.antt =====
-- One round of Project2/sim-pipe.c over straight-line code: the state that it leaves is ready for the
-- next, and the instruction either waits or is issued.
use computer_architecture.Pipe.Straight.Calm.{DeAccess, control-calm, before_id-moves}
use computer_architecture.Base.{
  ℕ, ◌+◌, ◌%◌, ◌^◌, ◌<◌, ◌≡◌, ◌≢◌, sym, ap, subst, ◌∙◌, true, false, none, some, if_true, if_false,
  ne→==, eq→==, ◌==◌, arith,
}
use mathlib.Core.Path.{subst₂}
use computer_architecture.Base.Word.{u32}
use computer_architecture.Memory.{Memory}
use computer_architecture.Memory.Table.{table}
use computer_architecture.Isa.{Inst, InstDef, opfield, nop}
use computer_architecture.Pipe.State.{AluFunc, IfidBuf, IdexBuf, ControlBuf, Sim}
use computer_architecture.Pipe.Decode.{do_id}
use computer_architecture.Pipe.Stages.{SysSyscall, pipeline_control}
use computer_architecture.Pipe.Straight.Round.{before_id, as_basic, Waits, Issues}
use computer_architecture.Pipe.Straight.Drain.{retired}
use computer_architecture.Pipe.Straight.Ready.{IsReady, IsEnding}
use computer_architecture.Pipe.Straight.Refine.{
  IsFresh, issued_state, issued-latch, do_forward-de, round-latch,
}
use computer_architecture.Fast.Agree.{}
use computer_architecture.Fast.Insts.{execute}
use computer_architecture.Forward.Stages as forwarding
use computer_architecture.Forward.Retire.{Retired, loads, finish}
use computer_architecture.Forward.Issue.{CanRun, IsReach, with_operands, issued, fast}
use computer_architecture.Forward.Runs.{IsRun}
use computer_architecture.Forward.Refine.{CanRun-real}
use computer_architecture.Pipe.Straight.Words.{
  CanRun-single, opfield-nop, execute-words, IsPlainLatch, IsMarkedLatch,
}

module _ {Space : Type 0} (M : Memory Space) (Code : ℕ → Type 0) (calls : SysSyscall (ℕ → ℕ)) where
  -- The instruction that a round decodes waits, and is decoded again by the next one.
  pub record IsWait (s s' : Sim Space) : Type 0 where
    pub waits : s'.ctl.stall ≡ true
    pub same : retired M s' ≡ retired M s
    pub same_pc : (pipeline_control s').fd.pc ≡ (pipeline_control s).fd.pc
    pub same_inst : (pipeline_control s').fd.inst ≡ (pipeline_control s).fd.inst

  -- The instruction that a round decodes is issued, and the next one decodes the word behind it.
  pub record IsIssue (s s' : Sim Space) : Type 0 where
    pub goes : s'.ctl.stall ≡ false
    pub effect :
        (pc npc n : ℕ)
        → let i = (pipeline_control s).fd.inst in
          execute table calls (opfield i) i (fast pc npc n (retired M s))
          ≡ some (fast pc npc n (retired M s'))
    pub next_pc : (pipeline_control s').fd.pc ≡ u32 ((pipeline_control s).fd.pc + 8)

  pub Waits-IsReady :
      (s s' : Sim Space) (line : InstDef)
      → IsReady M Code s
      → IsEnding M Code s s'
      → Waits M (before_id M s) line
      → IsReady M Code s' × IsWait s s'
  Waits-IsReady s s' line h r (held, _) =
      let c = pipeline_control s in
      let x = before_id M s in
      let d = do_id x in
      let stall : s'.ctl.stall ≡ true =
        ap (λ (z : ControlBuf). z.stall) r.marks ∙ ap (λ (z : Sim Space). z.ctl.stall) held in
      let (fd_pc, fd_inst, idle) = (control-calm M Code s' r.calm).1 stall in
      let latch = r.decoded ∙ do_forward-de M Code d in
      let fd = (before_id-moves M Code s).0 in
      let pc : (pipeline_control s').fd.pc ≡ c.fd.pc =
        fd_pc
        ∙ ap (λ (b : IdexBuf). b.pc) latch
        ∙ ap (λ (z : Sim Space). z.de.pc) held
        ∙ ap (λ (f : IfidBuf). f.pc) fd in
      let inst : (pipeline_control s').fd.inst ≡ c.fd.inst =
        fd_inst
        ∙ ap (λ (b : IdexBuf). b.inst) latch
        ∙ ap (λ (z : Sim Space). z.de.inst) held
        ∙ ap (λ (f : IfidBuf). f.inst) fd in
      let same : retired M s' ≡ retired M s =
        if_true _ (eq→== (pipeline_control s').de.inst.a nop idle) ∙ r.finished in
      (
        record {
          behind = r.behind;
          kept = r.kept;
          calm = r.calm;
          em_access = r.em_access;
          de_plain = λ real. absurd (real idle);
          de_access = λ real. absurd (real idle);
          de_marked = λ real. absurd (real idle);
          decode_at = ap (λ k. k % 4) pc ∙ h.decode_at;
          words = λ n. subst (λ (z : Retired (ℕ → ℕ)). z.regs n < 2 ^ 32) (sym same) (h.words n);
        },
        record { waits = stall; same = same; same_pc = pc; same_inst = inst },
      )

  -- The latch that the next round executes.
  abbrev pub latch_of : (s : Sim Space) → InstDef → AluFunc → IdexBuf
  latch_of s line func =
      with_operands (retired M s).regs (issued (as_basic M (before_id M s)) line func)

  pub latch_of-keeps :
      (s : Sim Space) (line : InstDef) (func : AluFunc)
      → ((latch_of s line func).inst ≡ (pipeline_control s).fd.inst)
        × ((latch_of s line func).opcode ≡ opfield (pipeline_control s).fd.inst)
  unfolding issued forwarding.route
  latch_of-keeps s line func =
      let fd = (before_id-moves M Code s).0 in
      (ap (λ (f : IfidBuf). f.inst) fd, ap (λ (f : IfidBuf). opfield f.inst) fd)

  -- What the program sees once the instruction has left decode.
  Issues-retired :
      (s s' : Sim Space) (line : InstDef) (func : AluFunc)
      → IsEnding M Code s s'
      → opfield (pipeline_control s).fd.inst ≢ nop
      → (pipeline_control s').de ≡ latch_of s line func
      → retired M s' ≡ finish table (latch_of s line func) (retired M s)
  Issues-retired s s' line func r real latched =
      let inst = ap (λ (b : IdexBuf). b.inst) latched ∙ (latch_of-keeps s line func).0 in
      let live : ((pipeline_control s').de.inst.a == nop) ≡ false =
        ne→== (pipeline_control s').de.inst.a nop (λ e.
          real
            (opfield-nop (pipeline_control s).fd.inst (ap (λ (z : Inst). z.a) (sym inst) ∙ e))) in
      if_false _ live ∙ (λ j. finish table (latched j) (r.finished j))

  Issues-effect :
      (s s' : Sim Space) (run : IsRun table calls (opfield (pipeline_control s).fd.inst))
      → let i = (pipeline_control s).fd.inst in
        CanRun (opfield i) (retired M s).regs i.b
        → retired M s' ≡ finish table (latch_of s run.line run.func) (retired M s)
        → (pc npc n : ℕ)
        → execute table calls (opfield i) i (fast pc npc n (retired M s))
          ≡ some (fast pc npc n (retired M s'))
  Issues-effect s s' run can done pc npc n =
      let i = (pipeline_control s).fd.inst in
      let x = before_id M s in
      let r = retired M s in
      let fd = (before_id-moves M Code s).0 in
      ap (λ (z : IfidBuf). execute table calls (opfield i) z.inst (fast pc npc n r)) (sym fd)
      ∙ run.runs (as_basic M x) r pc npc n
          (subst (λ (z : IfidBuf). CanRun (opfield i) r.regs z.inst.b) (sym fd) can)
      ∙ ap (λ (r : Retired (ℕ → ℕ)). some (fast pc npc n r)) (sym done)

  pub Issues-IsReady :
      (s s' : Sim Space) (run : IsRun table calls (opfield (pipeline_control s).fd.inst))
      → IsReady M Code s
      → IsFresh M Code s
      → IsEnding M Code s s'
      → let i = (pipeline_control s).fd.inst in
        CanRun (opfield i) (retired M s).regs i.b
        → IsReach Code (opfield i) (retired M s).regs i.b
        → Issues M (before_id M s) run.line run.func
        → IsReady M Code s'
          × IsIssue s s'
          × ((pipeline_control s').de ≡ latch_of s run.line run.func)
          × (s'.ctl ≡ (issued_state M (before_id M s) run.line run.func).ctl)
  Issues-IsReady s s' run h fresh r can reach (shape, one, two) =
      let c = pipeline_control s in
      let x = before_id M s in
      let d = do_id x in
      let i = c.fd.inst in
      let R = (retired M s).regs in
      let (latch, free, plain, mark) = issued-latch M Code x run.line run.func in
      let fd : x.fd ≡ c.fd = (before_id-moves M Code s).0 in
      let stall : s'.ctl.stall ≡ false =
        ap (λ (z : ControlBuf). z.stall) r.marks
        ∙ ap (λ (z : Sim Space). z.ctl.stall) shape
        ∙ free in
      let (fd', de') = (control-calm M Code s' r.calm).2 stall in
      let latched : (pipeline_control s').de ≡ latch_of s run.line run.func =
        de' ∙ round-latch M Code s s' run.line run.func h fresh (shape, one, two) r in
      let real = CanRun-real (opfield i) R i.b can in
      let done = Issues-retired s s' run.line run.func r real latched in
      let effect = Issues-effect s s' run can done in
      let pc : (pipeline_control s').fd.pc ≡ u32 (c.fd.pc + 8) =
        ap (λ (f : IfidBuf). f.pc) fd' ∙ r.fetched_at in
      let plain' : loads (pipeline_control s').de.rw ≡ false
          → (pipeline_control s').de.dst_m ≡ none =
        subst IsPlainLatch (sym latched) (subst IsPlainLatch latch plain) in
      let marks : s'.ctl ≡ (issued_state M x run.line run.func).ctl =
        r.marks ∙ ap (λ (z : Sim Space). z.ctl) shape in
      let mark' : IsMarkedLatch s'.ctl (pipeline_control s').de =
        subst₂ IsMarkedLatch (sym marks) (sym latched)
          (subst (IsMarkedLatch (issued_state M x run.line run.func).ctl) latch mark) in
      (
        record {
          behind = r.behind;
          kept = r.kept;
          calm = r.calm;
          em_access = r.em_access;
          de_plain = λ _. (
            λ e. CanRun-single (opfield i) R i.b can (
                sym
                  (ap (λ (b : IdexBuf). b.opcode) latched ∙ (latch_of-keeps s run.line run.func).1)
                ∙ e),
            plain',
          );
          de_access = subst (DeAccess Code) (sym latched) (λ _.
              run.legal Code (as_basic M x) R h.words
                (subst (λ (z : IfidBuf). IsReach Code (opfield i) R z.inst.b) (sym fd) reach));
          de_marked = λ _. mark';
          decode_at = omega (arith, pc, h.decode_at);
          words =
              execute-words calls (opfield i) i (fast 0 0 0 (retired M s))
                (fast 0 0 0 (retired M s')) can h.words (effect 0 0 0);
        },
        record { goes = stall; effect = effect; next_pc = pc },
        latched,
        marks,
      )
