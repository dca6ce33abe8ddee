-- ===== src/Forward/Operands.antt =====
-- The operands of an instruction that Project1/part2/sim-pipe.c decodes without a wait: no load ahead
-- has yet to fill them.
use computer_architecture.Base.{
  ℕ, ◌%◌, ◌≡◌, ◌≢◌, refl, sym, ap, ap₂, ◌∙◌, true, false, none, some, inl, inr, Bool-cases, arith,
  ◌⊎◌, ◌==◌, ==→eq, if◌then◌else◌,
}
use computer_architecture.Memory.{Memory}
use computer_architecture.Isa.{Dep, InstDef, has_flag, f_disp, operand}
use computer_architecture.Pipe.State.{Regs, AluFunc, ExmemBuf, gpr, set_gpr, same_dep, mask_bit}
use computer_architecture.Pipe.Forwarding.{set_gpr_lem}
use computer_architecture.Pipe.Stages.{SysSyscall}
use computer_architecture.Basic.State.{ControlBuf, Sim}
use computer_architecture.Basic.Decode.{is_marked}
use computer_architecture.Forward.Stages.{
  route, pipeline_control, do_id, do_ex, do_mem, do_forward, do_if,
}
use computer_architecture.Forward.Main.{after_wb}
use computer_architecture.Forward.Order.{ordered}
use computer_architecture.Forward.Retire.{Retired, access, loads, drained, wrote}
use computer_architecture.Forward.Latch.{control-de, control-em, do_ex-moves, before_id}
use computer_architecture.Forward.Issue.{with_operands, issued}

module _ {Space : Type 0} (M : Memory Space) where
  pub access-regs :
      (rw addr src : ℕ) (r : Retired Space)
      → ((access M rw addr src r).regs ≡ r.regs)
        × (loads rw ≡ false → (access M rw addr src r).val_m ≡ r.val_m)
  access-regs rw addr src r = elim (Bool-cases (loads rw)) [
    | inl load ↦ ground (arith, load)
    | inr other ↦ ground (arith, other)
  ]

  -- An operand that no load in `em` is to fill has its final value.
  pub ordered-drained :
      (s : Sim Space) (d : Dep)
      → (loads s.em.rw ≡ false
          → (s.em.dst_m ≡ none) ⊎ ((s.em.dst_m ≡ s.mw.dst_m) × (s.mw.dst_e ≡ none)))
      → (loads s.em.rw ≡ true → (n : ℕ) → d ≡ some n → same_dep (some n) s.em.dst_m ≡ false)
      → gpr (ordered s) d ≡ gpr (drained M s).regs d
  ordered-drained s none repeats away = refl
  ordered-drained s (some n) repeats away =
      let r1 = set_gpr (set_gpr s.regs s.mw.dst_m s.mw.val_m) s.mw.dst_e s.mw.val_e in
      let r =
        access M s.em.rw s.em.val_e s.em.val_a
          (record { regs = r1; mem = s.mem; val_m = s.mw.val_m }) in
      let k =
        access-regs s.em.rw s.em.val_e s.em.val_a
          (record { regs = r1; mem = s.mem; val_m = s.mw.val_m }) in
      let at : r.regs n ≡ r1 n = ap (λ (f : Regs). f n) k.0 in
      let inner : set_gpr r.regs s.em.dst_m r.val_m n ≡ r1 n = elim (Bool-cases (loads s.em.rw)) [
        | inl load ↦
            let other : same_dep (some n) s.em.dst_m ≡ false = away load n refl in
            ground (arith, set_gpr_lem r.regs s.em.dst_m r.val_m n, other, at)
        | inr plain ↦ elim (repeats plain) [
          | inl e ↦ ap (λ d. set_gpr r.regs d r.val_m n) e ∙ at
          | inr (same, alone) ↦
              let word : r.val_m ≡ s.mw.val_m = k.1 plain in
              let was : r1 n ≡ (if same_dep (some n) s.mw.dst_m then s.mw.val_m else s.regs n) =
                ap (λ d. set_gpr (set_gpr s.regs s.mw.dst_m s.mw.val_m) d s.mw.val_e n) alone
                ∙ set_gpr_lem s.regs s.mw.dst_m s.mw.val_m n in
              let is : set_gpr r.regs s.em.dst_m r.val_m n
                  ≡ (if same_dep (some n) s.mw.dst_m then s.mw.val_m else r1 n) =
                ap (λ d. set_gpr r.regs d r.val_m n) same
                ∙ set_gpr_lem r.regs s.mw.dst_m r.val_m n
                ∙ ap₂ (λ v w. if same_dep (some n) s.mw.dst_m then v else w) word at in
              ground (arith, is, was)
        ]
      ] in
      set_gpr_lem r1 s.em.dst_e s.em.val_e n
      ∙ ap (λ w. if same_dep (some n) s.em.dst_e then s.em.val_e else w) (sym inner)
      ∙ sym (set_gpr_lem (set_gpr r.regs s.em.dst_m r.val_m) s.em.dst_e s.em.val_e n)

  -- The marks that decode sees: those of the round before, but for the load that has just ended.
  do_mem-mark :
      (w : Sim Space) (k : ℕ)
      → w.ctl.regs k ≡ true
      → (loads w.em.rw ≡ true → mask_bit w.em.dst_m ≢ k)
      → (do_mem M w).ctl.regs k ≡ true
  unfolding do_mem
  do_mem-mark w k mark other = ground (arith, mark, other)

  pub before_id-mark :
      (s : Sim Space) (k : ℕ)
      → s.ctl.regs k ≡ true
      → (loads s.em.rw ≡ true → mask_bit s.em.dst_m ≢ k)
      → (before_id M s).ctl.regs k ≡ true
  before_id-mark s k mark other =
      let c = control-de s in
      let e = (control-em s).1 in
      ap (λ f. f k) (do_ex-moves (do_mem M (wrote s))).5
      ∙ do_mem-mark (wrote s) k (ap (λ f. f k) c.3 ∙ mark) (λ load h.
        other (ap (λ (z : ExmemBuf). loads z.rw) (sym e) ∙ load)
          (ap (λ (z : ExmemBuf). mask_bit z.dst_m) (sym e) ∙ h))

  do_mem-fd : (w : Sim Space) → (do_mem M w).fd ≡ w.fd
  unfolding do_mem
  do_mem-fd w = ground arith

  do_ex-fd : (m : Sim Space) → (do_ex m).fd ≡ m.fd
  unfolding do_ex
  do_ex-fd m = ground arith

  pub before_id-fd : (s : Sim Space) → (before_id M s).fd ≡ (pipeline_control s).fd
  before_id-fd s = do_ex-fd (do_mem M (wrote s)) ∙ do_mem-fd (wrote s)

  -- A register that is not marked is not the one of a load whose register is.
  pub unmarked-away :
      (ctl : ControlBuf) (dst d : Dep)
      → ctl.regs (mask_bit dst) ≡ true
      → is_marked ctl d ≡ false
      → (n : ℕ) → d ≡ some n
      → same_dep (some n) dst ≡ false
  unmarked-away ctl none d mark clear n e = refl
  unmarked-away ctl (some m) d mark clear n e =
      let free : ctl.regs (n % 32) ≡ false = ap (is_marked ctl) (sym e) ∙ clear in
      elim (Bool-cases (n == m)) [
        | inl same ↦
            absurd (ground (arith, free, mark, ap (λ k. ctl.regs (k % 32)) (==→eq n m same)))
        | inr other ↦ other
      ]

  pub issued-marks :
      (x : Sim Space) (line : InstDef) (func : AluFunc)
      → is_marked x.ctl (operand line.in1 x.fd.inst.b) ≡ false
      → is_marked x.ctl (operand line.in2 x.fd.inst.b) ≡ false
      → let de = issued x line func in
        (is_marked x.ctl de.src_a ≡ false)
        × (is_marked x.ctl de.src_b ≡ false)
        × (is_marked x.ctl de.oprand.in1 ≡ false)
  unfolding issued route
  issued-marks x line func one two = elim (Bool-cases (has_flag line.flags f_disp)) [
    | inl disp ↦ (
      ap
            (λ c.
              is_marked x.ctl
                (if c then operand line.in2 x.fd.inst.b else operand line.in1 x.fd.inst.b))
            disp
          ∙ two,
      two,
      one,
    )
    | inr plain ↦ (
      ap
            (λ c.
              is_marked x.ctl
                (if c then operand line.in2 x.fd.inst.b else operand line.in1 x.fd.inst.b))
            plain
          ∙ one,
      two,
      one,
    )
  ]

  pub after_wb-latches :
      (sys_syscall : SysSyscall Space) (w : Sim Space)
      → let d = do_id (do_ex (do_mem M w)) in
        let s' = after_wb M sys_syscall w in
        ((regs : Regs) → with_operands regs s'.de ≡ with_operands regs d.de)
        × (s'.de.src_a ≡ d.de.src_a)
        × (s'.de.src_b ≡ d.de.src_b)
        × (s'.de.oprand ≡ d.de.oprand)
        × (s'.ctl ≡ d.ctl)
        × (s'.em ≡ d.em)
  unfolding after_wb do_if do_forward
  after_wb-latches sys_syscall w = (λ regs. refl, refl, refl, refl, refl, refl)
