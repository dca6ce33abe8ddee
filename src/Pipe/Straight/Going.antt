-- ===== src/Pipe/Straight/Going.antt =====
-- A round of Project2/sim-pipe.c over a straight-line program, against one step of the functional
-- simulator.
use computer_architecture.Pipe.Straight.Calm.{EmAccess, DeAccess, control-calm}
use computer_architecture.Base.{
  ℕ, ◌+◌, ◌≡◌, ◌≢◌, sym, ap, subst, ◌∙◌, true, some, inl, inr, Bool-cases, ◌==◌, ==→ne, if_true,
  if_false, ne→==, arith,
}
use computer_architecture.Base.Word.{u32}
use computer_architecture.Memory.{Memory}
use computer_architecture.Memory.Table.{table}
use computer_architecture.Isa.{Inst, InstDef, Dep, nop, syscall}
use computer_architecture.Pipe.State.{ExmemBuf, MemwbBuf, ControlBuf, Sim}
use computer_architecture.Pipe.Stages.{SysSyscall, pipeline_control, alu_b_of}
use computer_architecture.Pipe.Alu.{alu}
use computer_architecture.Pipe.Straight.View.{flat}
use computer_architecture.Pipe.Straight.Retire.{settled, drained}
use computer_architecture.Pipe.Straight.Drain.{retired}
use computer_architecture.Pipe.Straight.Ready.{IsReady, IsEnding}
use computer_architecture.Pipe.Straight.Round.{before_id, Waits}
use computer_architecture.Pipe.Straight.Step.{Waits-IsReady}
use computer_architecture.Pipe.Straight.Refine.{IsFresh}
use computer_architecture.Pipe.Straight.Marks.{
  IsMarkedSim, before_id-em, before_id-mw, before_id-marks, moved-IsLoading,
}
use computer_architecture.Basic.Decode.{fetch_inst}
use computer_architecture.Fast.Insts.{Fast}
use computer_architecture.Forward.Retire.{Retired, IsAccess, access, loads, stores}

module _ {Space : Type 0} (M : Memory Space) where
  -- The functional simulator at the instruction that the next round decodes, on what the program
  -- sees.
  abbrev pub as_fast : Sim Space → ℕ → Fast (ℕ → ℕ)
  as_fast s n =
      let r = retired M s in
      let pc = (pipeline_control s).fd.pc in
      record { regs = r.regs; mem = r.mem; pc = pc; npc = u32 (pc + 8); num_insn = n }

module _ {Space : Type 0} (M : Memory Space) (Code : ℕ → Type 0) where
  -- No access in flight is a store into the code.
  access-Code :
      (rw addr src : ℕ) (r : Retired (ℕ → ℕ)) (a : ℕ)
      → IsAccess Code rw addr src
      → Code a
      → (access table rw addr src r).mem a ≡ r.mem a
  access-Code rw addr src r a legal code = elim (Bool-cases (loads rw)) [
    | inl load ↦ ap (λ (z : Retired (ℕ → ℕ)). z.mem a) (if_true _ load)
    | inr other ↦ elim (Bool-cases (stores rw)) [
      | inl store ↦
          let ne : a ≢ addr = λ e. (legal.store_at store).2 (subst Code e code) in
          ap (λ (z : Retired (ℕ → ℕ)). z.mem a) (if_false _ other ∙ if_true _ store)
          ∙ if_false _ (ne→== a addr ne)
      | inr neither ↦ ap (λ (z : Retired (ℕ → ℕ)). z.mem a) (if_false _ other ∙ if_false _ neither)
    ]
  ]

  drained-Code :
      (s : Sim Space) (a : ℕ) → EmAccess Code s.em → Code a → (drained M s).mem a ≡ flat M s a
  drained-Code s a legal code = elim (Bool-cases (s.em.inst.a == nop)) [
    | inl bubble ↦ ap (λ (z : Retired (ℕ → ℕ)). z.mem a) (if_true _ bubble)
    | inr live ↦
        ap (λ (z : Retired (ℕ → ℕ)). z.mem a) (if_false _ live)
        ∙ access-Code s.em.rw s.em.val_e s.em.val_a (settled M s) a
            (legal (==→ne s.em.inst.a nop live)) code
  ]

  -- In the code the program sees what is in the cache and the memory.
  pub retired-Code :
      (s : Sim Space) (a : ℕ)
      → EmAccess Code s.em
      → DeAccess Code (pipeline_control s).de
      → Code a
      → (retired M s).mem a ≡ flat M s a
  retired-Code s a em_legal legal code =
      let de = (pipeline_control s).de in
      elim (Bool-cases (de.inst.a == nop)) [
        | inl bubble ↦
            ap (λ (z : Retired (ℕ → ℕ)). z.mem a) (if_true _ bubble)
            ∙ drained-Code s a em_legal code
        | inr live ↦
            ap (λ (z : Retired (ℕ → ℕ)). z.mem a) (if_false _ live)
            ∙ access-Code de.rw (alu de.func de.alu_a (alu_b_of de)) de.val_a (drained M s) a
                (legal (==→ne de.inst.a nop live)) code
            ∙ drained-Code s a em_legal code
      ]

module _ {Space : Type 0} (M : Memory Space) (Code : ℕ → Type 0) (calls : SysSyscall (ℕ → ℕ)) where
  -- A state between two rounds over a straight-line program, of which the instruction before the next
  -- has loaded the register `last`, if it is a load: the state is ready, the marks are those of loads
  -- in flight, no system call is in flight, register 0 is zero, and the instruction that is to be
  -- decoded is the one that the program has there.
  pub record IsGoing (last : Dep) (s : Sim Space) : Type 0 where
    pub ready : IsReady M Code s
    pub marked : IsMarkedSim s
    pub mw_call : s.mw.inst.a ≢ syscall
    pub em_call : s.em.inst.a ≢ syscall
    pub de_call : (pipeline_control s).de.inst.a ≢ syscall
    pub fresh : IsFresh M Code s
    pub zero : (retired M s).regs 0 ≡ 0
    pub at_word :
        Code (pipeline_control s).fd.pc
        → Code (u32 ((pipeline_control s).fd.pc + 4))
        → (pipeline_control s).fd.inst
          ≡ fetch_inst table (retired M s).mem (pipeline_control s).fd.pc
    pub recent :
        (pipeline_control s).de.inst.a ≢ nop
        → loads (pipeline_control s).de.rw ≡ true
        → (l : ℕ) × ((pipeline_control s).de.dst_m ≡ some l) × (last ≡ some l)

  pub round-calls :
      (s s' : Sim Space)
      → IsEnding M Code s s'
      → (s'.mw.inst ≡ s.em.inst) × (s'.em.inst ≡ (pipeline_control s).de.inst)
  round-calls s s' r = (
    ap (λ (b : MemwbBuf). b.inst) r.flight.same_mw ∙ before_id-mw M Code s,
    ap (λ (e : ExmemBuf). e.inst) r.flight.same_em ∙ (before_id-em M Code s).0,
  )

  -- A round that waits.
  pub Waits-IsGoing :
      (last : Dep) (s s' : Sim Space) (line : InstDef)
      → IsGoing last s
      → IsEnding M Code s s'
      → Waits M (before_id M s) line
      → IsGoing last s'
        × ((pipeline_control s').de.inst.a ≡ nop)
        × ((pipeline_control s).de.inst.a ≢ nop)
        × ((n : ℕ) → as_fast M s' n ≡ as_fast M s n)
  Waits-IsGoing last s s' line h r (held, (k, mark)) =
      let (ready, w) = Waits-IsReady M Code calls s s' line h.ready r (held, (k, mark)) in
      let (mw, em) = round-calls s s' r in
      let idle : (pipeline_control s').de.inst.a ≡ nop =
        ((control-calm M Code s' r.calm).1 w.waits).2 in
      let same_ctl : (j : ℕ) → s'.ctl.regs j ≡ (before_id M s).ctl.regs j =
        λ j. ap (λ (z : ControlBuf). z.regs j) (r.marks ∙ ap (λ (z : Sim Space). z.ctl) held) in
      (
        record {
          ready = ready;
          marked = λ j m. inr (
              moved-IsLoading M Code s s' j r
                (before_id-marks M Code s h.ready.calm h.marked j (sym (same_ctl j) ∙ m)));
          mw_call = λ e. h.em_call (ap (λ (i : Inst). i.a) (sym mw) ∙ e);
          em_call = λ e. h.de_call (ap (λ (i : Inst). i.a) (sym em) ∙ e);
          de_call = λ e. absurd (omega (arith, idle, e));
          fresh = λ _ _ live _. absurd (live idle);
          zero = ap (λ (z : Retired (ℕ → ℕ)). z.regs 0) w.same ∙ h.zero;
          at_word = λ first second.
              w.same_inst
              ∙ h.at_word (subst Code w.same_pc first)
                  (subst (λ pc. Code (u32 (pc + 4))) w.same_pc second)
              ∙ (λ i. fetch_inst table (sym w.same i).mem (sym w.same_pc i));
          recent = λ live _. absurd (live idle);
        },
        idle,
        (before_id-marks M Code s h.ready.calm h.marked k mark).0,
        λ n i. record {
          regs = (w.same i).regs;
          mem = (w.same i).mem;
          pc = w.same_pc i;
          npc = u32 (w.same_pc i + 8);
          num_insn = n;
        },
      )
