-- ===== src/Pipe/Straight/Ready.antt =====
-- A round of Project2/sim-pipe.c without a branch, a jump or a system call: what it fetches, and what
-- it leaves behind decode.
use computer_architecture.Pipe.Straight.Access.{IsFetched, fetch-IsFetched}
use computer_architecture.Base.{
  ℕ, ◌+◌, ◌%◌, ◌^◌, ◌<◌, ◌≡◌, ◌≢◌, refl, sym, ap, subst, ◌∙◌, true, arith,
}
use mathlib.Core.Path.{subst₂}
use computer_architecture.Base.Word.{u32}
use computer_architecture.Memory.{Memory, IsAligned}
use computer_architecture.Isa.{nop}
use computer_architecture.Pipe.State.{IfidBuf, Sim, mask_bit}
use computer_architecture.Pipe.Decode.{do_id}
use computer_architecture.Pipe.Stages.{
  SysSyscall, pipeline_control, do_mem, do_ex, do_forward, do_if, next_pc,
}
use computer_architecture.Pipe.Main.{after_wb}
use computer_architecture.Pipe.Hazards.{do_if-keeps, do_forward-keeps}
use computer_architecture.Pipe.Straight.View.{seen, flat, IsKept}
use computer_architecture.Pipe.Straight.Round.{wrote, before_id}
use computer_architecture.Pipe.Straight.Retire.{drained}
use computer_architecture.Pipe.Straight.Drain.{
  retired, IsSameFlight, IsSameFront, do_if-IsSame, same-drained, before_id-drained,
}
use computer_architecture.Pipe.Straight.Ordered.{IsBehind}
use computer_architecture.Pipe.Straight.Behind.{IsPlainDe, before_id-IsBehind}
use computer_architecture.Forward.Retire.{loads}
use computer_architecture.Pipe.Straight.Calm.{
  IsCalm, EmAccess, DeAccess, before_id-IsCalm, before_id-moves, same-IsBehind, before_id-access,
}

module _ {Space : Type 0} (M : Memory Space) (Code : ℕ → Type 0) where
  -- What a round leaves for the next one, but for the latch of decode.
  pub record IsEnding (s s' : Sim Space) : Type 0 where
    pub finished : drained M s' ≡ retired M s
    pub behind : IsBehind s'
    pub kept : IsKept M s'.cache s'.mem
    pub calm : IsCalm s'.ctl
    pub em_access : EmAccess Code s'.em
    pub fetched : s'.fd.inst ≡ record { a = flat M s' s'.fd.pc; b = flat M s' (u32 (s'.fd.pc + 4)) }
    pub fetched_at : s'.fd.pc ≡ u32 ((pipeline_control s).fd.pc + 8)
    pub decoded : s'.de ≡ (do_forward (do_id (before_id M s))).de
    pub marks : s'.ctl ≡ (do_id (before_id M s)).ctl
    pub flight : IsSameFlight M (before_id M s) s'

  abbrev ended : Sim Space → Sim Space
  ended d =
      let t = do_if M (do_forward d) in
      record t { num_insn = t.num_insn + 1; num_clk = t.num_clk + 1 }

  next_pc-calm : (d : Sim Space) → IsCalm d.ctl → next_pc (do_forward d) ≡ u32 (d.fd.pc + 8)
  unfolding do_forward
  next_pc-calm d h = ground (arith, h)

  ended-IsFetched :
      (d : Sim Space)
      → IsKept M d.cache d.mem
      → IsCalm d.ctl
      → d.fd.pc % 4 ≡ 0
      → IsFetched M d (u32 (d.fd.pc + 8)) (ended d)
  unfolding do_if do_forward
  ended-IsFetched d ok h at =
      let next = next_pc-calm d h in
      subst (λ pc. IsFetched M d pc (ended d)) next
        (fetch-IsFetched M (do_forward d) (next_pc (do_forward d)) ok
          (subst IsAligned (sym next) (omega (arith, at))))

  ended-keeps :
      (d : Sim Space)
      → IsSameFlight M d (ended d)
        × ((ended d).ctl ≡ d.ctl)
        × ((ended d).de ≡ (do_forward d).de)
        × ((ended d).fd.pc ≡ next_pc (do_forward d))
  ended-keeps d =
      let k = do_if-IsSame M d in
      let (de, ctl, _, pc, _, _) = do_if-keeps M (do_forward d) in
      (
        record {
          same_em = k.same_em;
          same_mw = k.same_mw;
          same_wb = k.same_wb;
          same_regs = k.same_regs;
        },
        ctl ∙ (do_forward-keeps M d).2,
        de,
        pc,
      )

  then_same : (x y z : Sim Space) → IsSameFlight M x y → IsSameFlight M y z → IsSameFlight M x z
  then_same x y z h k = record {
    same_em = k.same_em ∙ h.same_em;
    same_mw = k.same_mw ∙ h.same_mw;
    same_wb = k.same_wb ∙ h.same_wb;
    same_regs = k.same_regs ∙ h.same_regs;
  }

  -- A state between two rounds without a branch or a jump: the latches behind the execute stage, the
  -- cache, the accesses in flight, the mark of a load in `de`, and the registers that the program
  -- sees, which are words of 32 bits.
  pub record IsReady (s : Sim Space) : Type 0 where
    pub behind : IsBehind s
    pub kept : IsKept M s.cache s.mem
    pub calm : IsCalm s.ctl
    pub em_access : EmAccess Code s.em
    pub de_plain : IsPlainDe (pipeline_control s).de
    pub de_access : DeAccess Code (pipeline_control s).de
    pub de_marked :
        (pipeline_control s).de.inst.a ≢ nop
        → loads (pipeline_control s).de.rw ≡ true
        → s.ctl.regs (mask_bit (pipeline_control s).de.dst_m) ≡ true
    pub decode_at : (pipeline_control s).fd.pc % 4 ≡ 0
    pub words : (n : ℕ) → (retired M s).regs n < 2 ^ 32

  after_wb-ended :
      (sys_syscall : SysSyscall Space) (w : Sim Space)
      → after_wb M sys_syscall w ≡ ended (do_id (do_ex (do_mem M w)))
  unfolding after_wb
  after_wb-ended sys_syscall w = refl

  pub round-IsEnding :
      (sys_syscall : SysSyscall Space) (s : Sim Space)
      → IsReady s
      → IsSameFlight M (before_id M s) (do_id (before_id M s))
        × IsSameFront M (before_id M s) (do_id (before_id M s))
      → IsEnding s (after_wb M sys_syscall (wrote M s))
  round-IsEnding sys_syscall s h (flight, front) =
      let x = before_id M s in
      let d = do_id x in
      let (done, kept) =
        before_id-drained M Code s h.kept h.em_access (λ real. (h.de_plain real).0) in
      let (quiet_x, quiet_f) = before_id-IsCalm M Code s h.calm in
      let calm : IsCalm d.ctl = (front.same_cond ∙ quiet_x, front.same_flag ∙ quiet_f) in
      let kept_d : IsKept M d.cache d.mem =
        subst₂ (IsKept M) (sym front.same_cache) (sym front.same_mem) kept in
      let pc : d.fd.pc ≡ (pipeline_control s).fd.pc =
        ap (λ (f : IfidBuf). f.pc) (front.same_fd ∙ (before_id-moves M Code s).0) in
      let (words, same, kept') = ended-IsFetched d kept_d calm (ap (λ k. k % 4) pc ∙ h.decode_at) in
      let (ends, ctl, de, at) = ended-keeps d in
      let all = then_same x d (ended d) flight ends in
      let next : (ended d).fd.pc ≡ u32 (d.fd.pc + 8) = at ∙ next_pc-calm d calm in
      let seen_d : (b : ℕ) → flat M d b ≡ flat M x b =
        λ b. λ i. seen M (front.same_cache i) (front.same_mem i) b in
      subst (IsEnding s) (sym (after_wb-ended sys_syscall (wrote M s))) (record {
        finished = same-drained M x (ended d) all (λ b. same b ∙ seen_d b) ∙ done;
        behind = same-IsBehind M Code x (ended d) all (before_id-IsBehind M s h.behind h.de_plain);
        kept = kept';
        calm = subst IsCalm (sym ctl) calm;
        em_access = subst (EmAccess Code) (sym all.same_em) (before_id-access M Code s h.de_access);
        fetched =
            words
            ∙ (λ i. record {
              a = sym (same (u32 (d.fd.pc + 8))) i;
              b = sym (same (u32 (u32 (d.fd.pc + 8) + 4))) i;
            })
            ∙ (λ i. record {
              a = flat M (ended d) (sym next i);
              b = flat M (ended d) (u32 (sym next i + 4));
            });
        fetched_at = next ∙ ap (λ k. u32 (k + 8)) pc;
        decoded = de;
        marks = ctl;
        flight = all;
      })
