-- ===== src/Pipe/Straight/Start.antt =====
-- The start of a program on the pipeline of Project2/sim-pipe.c: `sim_init`, `sim_load_prog`, the part of
-- `sim_main` before its loop, and the first round, which decodes a bubble.
use computer_architecture.Pipe.Straight.Fetched.{fetched-word}
use computer_architecture.Pipe.Straight.Calm.{control-calm, before_id-moves}
use computer_architecture.Base.{
  ℕ, ◌+◌, ◌^◌, ◌<◌, ◌≡◌, refl, sym, ap, subst, ◌∙◌, false, none, if_true, eq→==, arith,
}
use computer_architecture.Base.Word.{u32}
use computer_architecture.Memory.{Memory}
use computer_architecture.Isa.{Inst, nop}
use computer_architecture.Pipe.State.{IfidBuf, IdexBuf, ControlBuf, Sim}
use computer_architecture.Pipe.Decode.{do_id, latch_id}
use computer_architecture.Pipe.Stages.{
  SysSyscall, pipeline_control, do_mem, do_ex, mem_load, mem_store, resolve,
}
use computer_architecture.Pipe.Main.{after_wb}
use computer_architecture.Pipe.Hazards.{do_forward-keeps}
use computer_architecture.Pipe.Straight.Round.{wrote, before_id}
use computer_architecture.Pipe.Straight.Drain.{retired, IsSameFlight, IsSameFront, wrote-keeps}
use computer_architecture.Pipe.Straight.Ready.{IsReady, IsEnding, round-IsEnding}
use computer_architecture.Pipe.Straight.Marks.{IsMarkedSim, before_id-marks}
use computer_architecture.Pipe.Straight.Going.{IsGoing, round-calls}
use computer_architecture.Forward.Retire.{Retired}

module _ {Space : Type 0} (M : Memory Space) (Code : ℕ → Type 0) where
  -- A state in front of the first round: bubbles in every latch.
  pub record IsFirst (s : Sim Space) : Type 0 where
    pub ready : IsReady M Code s
    pub bubble : (pipeline_control s).fd.inst.a ≡ nop
    pub free : s.ctl.stall ≡ false
    pub no_marks : (k : ℕ) → s.ctl.regs k ≡ false
    pub idle_de : (pipeline_control s).de.inst.a ≡ nop
    pub idle_em : s.em.inst.a ≡ nop
    pub idle_mw : s.mw.inst.a ≡ nop
    pub zero : (retired M s).regs 0 ≡ 0

  do_id-bubble : (x : Sim Space) → x.fd.inst.a ≡ nop → do_id x ≡ record x { de = latch_id x }
  unfolding do_id
  do_id-bubble x e = if_true _ (eq→== x.fd.inst.a nop e)

  bubble-IsSame :
      (x : Sim Space) → x.fd.inst.a ≡ nop → IsSameFlight M x (do_id x) × IsSameFront M x (do_id x)
  bubble-IsSame x e =
      subst (λ d. IsSameFlight M x d × IsSameFront M x d) (sym (do_id-bubble x e))
        (
          record { same_em = refl; same_mw = refl; same_wb = refl; same_regs = refl },
          record {
            same_fd = refl;
            same_cache = refl;
            same_mem = refl;
            same_cond = refl;
            same_flag = refl;
          },
        )

  do_mem-stall : (w : Sim Space) → (do_mem M w).ctl.stall ≡ w.ctl.stall
  unfolding do_mem mem_load mem_store
  do_mem-stall w = ground arith

  do_ex-stall : (m : Sim Space) → (do_ex m).ctl.stall ≡ m.ctl.stall
  unfolding do_ex resolve
  do_ex-stall m = ground arith

  before_id-stall : (s : Sim Space) → IsFirst s → (do_id (before_id M s)).ctl.stall ≡ false
  before_id-stall s h =
      let x = before_id M s in
      let (_, _, _, _, _, _, ctl) = wrote-keeps M (pipeline_control s) in
      ap (λ (z : Sim Space). z.ctl.stall)
        (do_id-bubble x (ap (λ (f : IfidBuf). f.inst.a) (before_id-moves M Code s).0 ∙ h.bubble))
      ∙ do_ex-stall (do_mem M (wrote M s))
      ∙ do_mem-stall (wrote M s)
      ∙ ap (λ (z : ControlBuf). z.stall) (ctl ∙ (control-calm M Code s h.ready.calm).0)
      ∙ h.free

  -- Behind the first round the program goes on at its first instruction.
  pub first-IsGoing :
      (calls : SysSyscall (ℕ → ℕ)) (sys_syscall : SysSyscall Space) (s : Sim Space)
      → IsFirst s
      → let s' = after_wb M sys_syscall (wrote M s) in
        IsGoing M Code calls none s'
        × (retired M s' ≡ retired M s)
        × ((pipeline_control s').fd.pc ≡ u32 ((pipeline_control s).fd.pc + 8))
  first-IsGoing calls sys_syscall s h =
      let s' = after_wb M sys_syscall (wrote M s) in
      let x = before_id M s in
      let d = do_id x in
      let at : x.fd.inst.a ≡ nop =
        ap (λ (f : IfidBuf). f.inst.a) (before_id-moves M Code s).0 ∙ h.bubble in
      let r : IsEnding M Code s s' =
        round-IsEnding M Code sys_syscall s h.ready (bubble-IsSame x at) in
      let goes : s'.ctl.stall ≡ false =
        ap (λ (z : ControlBuf). z.stall) r.marks ∙ before_id-stall s h in
      let (fd, de) = (control-calm M Code s' r.calm).2 goes in
      let idle : (pipeline_control s').de.inst.a ≡ nop =
        ap (λ (b : IdexBuf). b.inst.a) (de ∙ r.decoded)
        ∙ ap (λ (i : Inst). i.a) (do_forward-keeps M d).0
        ∙ ap (λ (z : Sim Space). z.de.inst.a) (do_id-bubble x at)
        ∙ at in
      let same : retired M s' ≡ retired M s =
        if_true _ (eq→== (pipeline_control s').de.inst.a nop idle) ∙ r.finished in
      let pc : (pipeline_control s').fd.pc ≡ u32 ((pipeline_control s).fd.pc + 8) =
        ap (λ (f : IfidBuf). f.pc) fd ∙ r.fetched_at in
      let ready : IsReady M Code s' = record {
        behind = r.behind;
        kept = r.kept;
        calm = r.calm;
        em_access = r.em_access;
        de_plain = λ real. absurd (real idle);
        de_access = λ real. absurd (real idle);
        de_marked = λ real. absurd (real idle);
        decode_at = omega (arith, pc, h.ready.decode_at);
        words =
            λ n. subst (λ (z : Retired (ℕ → ℕ)). z.regs n < 2 ^ 32) (sym same) (h.ready.words n);
      } in
      let (mw, em) = round-calls M Code calls s s' r in
      let unmarked : IsMarkedSim s = λ k m. absurd (ground (arith, m, h.no_marks k)) in
      (
        record {
          ready = ready;
          marked = λ k m.
              let old =
                sym (
                  ap (λ (z : ControlBuf). z.regs k)
                    (r.marks ∙ ap (λ (z : Sim Space). z.ctl) (do_id-bubble x at)))
                ∙ m in
              absurd ((before_id-marks M Code s h.ready.calm unmarked k old).0 h.idle_de);
          mw_call = λ e. absurd (omega (arith, ap (λ (i : Inst). i.a) mw, e, h.idle_em));
          em_call = λ e. absurd (omega (arith, ap (λ (i : Inst). i.a) em, e, h.idle_de));
          de_call = λ e. absurd (omega (arith, idle, e));
          fresh = λ _ _ live _. absurd (live idle);
          zero = ap (λ (z : Retired (ℕ → ℕ)). z.regs 0) same ∙ h.zero;
          at_word = fetched-word M Code calls s s' r ready goes;
          recent = λ live _. absurd (live idle);
        },
        same,
        pc,
      )
