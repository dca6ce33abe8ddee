-- ===== src/Pipe/Straight/Issued.antt =====
-- A round of Project2/sim-pipe.c that issues an instruction of a straight-line program, against one
-- step of the functional simulator.
use computer_architecture.Pipe.Straight.Words.{opfield-nop}
use computer_architecture.Pipe.Straight.Calm.{IsCalm, before_id-moves}
use computer_architecture.Base.{
  ℕ, ◌+◌, ◌≡◌, ◌≢◌, ◌⊎◌, sym, ap, subst, ◌∙◌, true, some, inl, inr, if_true, eq→==, arith,
}
use computer_architecture.Memory.{Memory}
use computer_architecture.Memory.Table.{table}
use computer_architecture.Isa.{sw, Inst, Dep, opfield, field, rt, nop, syscall, lw}
use computer_architecture.Pipe.State.{Regs, IfidBuf, IdexBuf, ExmemBuf, ControlBuf, Sim, mask_bit}
use computer_architecture.Pipe.Stages.{SysSyscall, pipeline_control}
use computer_architecture.Pipe.Straight.Retire.{executed_em}
use computer_architecture.Pipe.Straight.Drain.{retired}
use computer_architecture.Pipe.Straight.Ready.{IsEnding}
use computer_architecture.Pipe.Straight.Round.{before_id, as_basic, Issues}
use computer_architecture.Pipe.Straight.Step.{latch_of, latch_of-keeps, Issues-IsReady}
use computer_architecture.Pipe.Straight.Refine.{IsFresh, issued_state, issued-latch}
use computer_architecture.Forward.Refine.{CanRun-real}
use computer_architecture.Pipe.Straight.Marks.{
  IsMarkedSim, before_id-em, before_id-marks, moved-IsLoading, issued-mark,
}
use computer_architecture.Pipe.Straight.Going.{as_fast, IsGoing, round-calls}
use computer_architecture.Forward.Issue.{CanRun, IsReach, fast}
use computer_architecture.Pipe.Straight.Program.{loaded_by, IsNext, execute-zero}
use computer_architecture.Fast.Main.{step}
use computer_architecture.Forward.Runs.{IsRun}
use computer_architecture.Fast.Insts.{target_field}
use computer_architecture.Forward.Retire.{loads}
use computer_architecture.Pipe.Straight.Fetched.{step-as_fast, fetched-word}

opfield-syscall : (i : Inst) → i.a ≡ syscall → opfield i ≡ syscall
opfield-syscall i e = omega (arith, e)

CanRun-no_call : (op : ℕ) (regs : Regs) (b : ℕ) → CanRun op regs b → op ≢ syscall
CanRun-no_call op regs b (inl (c, _)) = ground (arith, c)
CanRun-no_call op regs b (inr (inl e)) = omega arith
CanRun-no_call op regs b (inr (inr e)) = omega arith

module _ {Space : Type 0} (M : Memory Space) (Code : ℕ → Type 0) (calls : SysSyscall (ℕ → ℕ)) where
  -- The load that a latch is, by the table.
  latch_of-loading :
      (s : Sim Space) (run : IsRun table calls (opfield (pipeline_control s).fd.inst))
      → let i = (pipeline_control s).fd.inst in
        let de = latch_of M Code calls s run.line run.func in
        loads de.rw ≡ true
        → (opfield i ≡ lw) × (de.dst_m ≡ some (field rt i.b)) × (loaded_by i ≡ some (field rt i.b))
  latch_of-loading s run load =
      let i = (pipeline_control s).fd.inst in
      let (op, dst) = run.loading (as_basic M (before_id M s)) load in
      (
        op,
        dst ∙ ap (λ (f : IfidBuf). some (field rt f.inst.b)) (before_id-moves M Code s).0,
        if_true _ (eq→== (opfield i) lw op),
      )

  -- The marks behind a round that issues.
  Issues-IsMarkedSim :
      (s s' : Sim Space) (run : IsRun table calls (opfield (pipeline_control s).fd.inst))
      → IsCalm s.ctl
      → IsMarkedSim s
      → IsEnding M Code s s'
      → (pipeline_control s').de.inst.a ≢ nop
      → (pipeline_control s').de ≡ latch_of M Code calls s run.line run.func
      → s'.ctl ≡ (issued_state M (before_id M s) run.line run.func).ctl
      → IsMarkedSim s'
  Issues-IsMarkedSim s s' run calm h r live latched marks k m =
      let x = before_id M s in
      let P : IdexBuf → Type 0 = λ b. (loads b.rw ≡ true) × (mask_bit b.dst_m ≡ k) in
      let was = ap (λ (z : ControlBuf). z.regs k) (sym marks) ∙ m in
      elim (issued-mark M Code x run.line run.func k was) [
        | inl old ↦ inr (moved-IsLoading M Code s s' k r (before_id-marks M Code s calm h k old))
        | inr new ↦
            let latch = (issued-latch M Code x run.line run.func).0 in
            let (load, at) = subst P (sym latched) (subst P latch new) in inl (live, load, at)
      ]

  -- The load that has moved to `em` is into another register than the one just issued.
  Issues-IsFresh :
      (last : Dep) (s s' : Sim Space)
      → IsGoing M Code calls last s
      → IsEnding M Code s s'
      → (let i = (pipeline_control s).fd.inst in
          (l : ℕ)
          → last ≡ some l
          → opfield i ≡ lw
          → mask_bit (some l) ≢ mask_bit (some (field rt i.b)))
      → (loads (pipeline_control s').de.rw ≡ true
          → let i = (pipeline_control s).fd.inst in
            (opfield i ≡ lw)
            × ((pipeline_control s').de.dst_m ≡ some (field rt i.b))
            × (loaded_by i ≡ some (field rt i.b)))
      → IsFresh M Code s'
  Issues-IsFresh last s s' h r apart load_of live load live' load' =
      let c = pipeline_control s in
      let em = (round-calls M Code calls s s' r).1 in
      let real : c.de.inst.a ≢ nop = λ e. live (ap (λ (i : Inst). i.a) em ∙ e) in
      let moved : s'.em ≡ executed_em c.de = r.flight.same_em ∙ (before_id-em M Code s).1 real in
      let (l, dst, is) = h.recent real (ap (λ (e : ExmemBuf). loads e.rw) (sym moved) ∙ load) in
      let (op, into, _) = load_of load' in
      λ same.
        apart l is op
          (ap mask_bit (sym (ap (λ (e : ExmemBuf). e.dst_m) moved ∙ dst)) ∙ same ∙ ap mask_bit into)

  -- A round that issues.
  pub Issues-IsGoing :
      (last : Dep) (s s' : Sim Space)
      (run : IsRun table calls (opfield (pipeline_control s).fd.inst)) (n : ℕ)
      → IsGoing M Code calls last s
      → IsNext Code calls last (as_fast M s n)
      → IsEnding M Code s s'
      → Issues M (before_id M s) run.line run.func
      → IsGoing M Code calls (loaded_by (pipeline_control s).fd.inst) s'
        × (step table calls (as_fast M s n) ≡ some (as_fast M s' (n + 1)))
  Issues-IsGoing last s s' run n h next r go =
      let c = pipeline_control s in
      let c' = pipeline_control s' in
      let i = c.fd.inst in
      let R = (retired M s).regs in
      let x = before_id M s in
      let word = h.at_word next.first_word next.second_word in
      let can : CanRun (opfield i) R i.b =
        subst (λ i. CanRun (opfield i) R i.b) (sym word) next.can in
      let reach : IsReach Code (opfield i) R i.b =
        subst (λ i. IsReach Code (opfield i) R i.b) (sym word) next.reach in
      let target =
        subst (λ i. (opfield i ≡ sw) ⊎ (target_field (opfield i) i.b ≢ 0)) (sym word) next.target in
      let (ready, one, latched, marks) =
        Issues-IsReady M Code calls s s' run h.ready h.fresh r can reach go in
      let (mw, em) = round-calls M Code calls s s' r in
      let inst : c'.de.inst ≡ i =
        ap (λ (b : IdexBuf). b.inst) latched
        ∙ (latch_of-keeps M Code calls s run.line run.func).0 in
      let live : c'.de.inst.a ≢ nop = λ e.
        CanRun-real (opfield i) R i.b can (opfield-nop i (ap (λ (i : Inst). i.a) (sym inst) ∙ e)) in
      let load_of : loads c'.de.rw ≡ true
          → (opfield i ≡ lw)
            × (c'.de.dst_m ≡ some (field rt i.b))
            × (loaded_by i ≡ some (field rt i.b)) =
        subst
          (λ (b : IdexBuf).
            loads b.rw ≡ true
            → (opfield i ≡ lw)
              × (b.dst_m ≡ some (field rt i.b))
              × (loaded_by i ≡ some (field rt i.b)))
          (sym latched) (latch_of-loading s run) in
      (
        record {
          ready = ready;
          marked = Issues-IsMarkedSim s s' run h.ready.calm h.marked r live latched marks;
          mw_call = λ e. h.em_call (ap (λ (i : Inst). i.a) (sym mw) ∙ e);
          em_call = λ e. h.de_call (ap (λ (i : Inst). i.a) (sym em) ∙ e);
          de_call = λ e.
              CanRun-no_call (opfield i) R i.b can
                (opfield-syscall i (ap (λ (i : Inst). i.a) (sym inst) ∙ e));
          fresh =
              Issues-IsFresh last s s' h r
                (subst
                  (λ i.
                    (l : ℕ)
                    → last ≡ some l
                    → opfield i ≡ lw
                    → mask_bit (some l) ≢ mask_bit (some (field rt i.b)))
                  (sym word) next.apart)
                load_of;
          zero =
              execute-zero Code calls (opfield i) i (fast 0 0 0 (retired M s))
                (fast 0 0 0 (retired M s')) can target (one.effect 0 0 0)
              ∙ h.zero;
          at_word = fetched-word M Code calls s s' r ready one.goes;
          recent = λ live load. (field rt i.b, (load_of load).1, (load_of load).2);
        },
        step-as_fast M Code calls s s' n one h.zero word,
      )
