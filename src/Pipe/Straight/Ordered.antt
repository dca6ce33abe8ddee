-- ===== src/Pipe/Straight/Ordered.antt =====
-- What Project2/sim-pipe.c forwards, against the registers once the instructions in flight are
-- finished.
use computer_architecture.Base.{
  ℕ, ◌≡◌, ◌≢◌, refl, sym, ap, ◌∙◌, true, false, none, some, inl, inr, Bool-cases, ◌==◌, ==→eq,
  ==→ne, if_true, if_false, if◌then◌else◌, arith,
}
use computer_architecture.Memory.{Memory}
use computer_architecture.Memory.Table.{table}
use computer_architecture.Isa.{Dep, nop}
use computer_architecture.Pipe.State.{Regs, Sim, gpr, set_gpr, same_dep}
use computer_architecture.Pipe.Stages.{forward, write_back}
use computer_architecture.Pipe.Forwarding.{in_order, WbWritten, set_gpr_lem, forward-in_order}
use computer_architecture.Pipe.Straight.Retire.{settled, drained}
use computer_architecture.Forward.Retire.{Retired, access, loads}
use computer_architecture.Forward.Operands.{access-regs}

module _ {Space : Type 0} where
  -- The latches behind the execute stage: those of bubbles repeat what is written already, and
  -- only a load has a register for a loaded word.
  pub record IsBehind (s : Sim Space) : Type 0 where
    pub wb_written : WbWritten s
    pub mw_written : s.mw.inst.a ≡ nop → (n : ℕ) → write_back s.mw s.regs n ≡ s.regs n
    pub em_repeats : s.em.inst.a ≡ nop → (s.em.dst_e ≡ s.mw.dst_e) × (s.em.val_e ≡ s.mw.val_e)
    pub em_plain : s.em.inst.a ≢ nop → loads s.em.rw ≡ false → s.em.dst_m ≡ none

  -- The register `n` is not that of a load in `em`.
  abbrev pub IsAway : Sim Space → ℕ → Type 0
  IsAway s n = s.em.inst.a ≢ nop → loads s.em.rw ≡ true → same_dep (some n) s.em.dst_m ≡ false

module _ {Space : Type 0} (M : Memory Space) (s : Sim Space) (h : IsBehind s) where
  settled-regs : (n : ℕ) → (settled M s).regs n ≡ write_back s.mw s.regs n
  settled-regs n = elim (Bool-cases (s.mw.inst.a == nop)) [
    | inl bubble ↦
        ap (λ (f : Regs). f n) (if_true _ bubble)
        ∙ sym (h.mw_written (==→eq s.mw.inst.a nop bubble) n)
    | inr live ↦ ap (λ (f : Regs). f n) (if_false _ live)
  ]

  again : (regs : Regs) (d : Dep) (v n : ℕ) → set_gpr (set_gpr regs d v) d v n ≡ set_gpr regs d v n
  again regs none v n = refl
  again regs (some m) v n = ground arith

  -- The instruction in `em`, when it is no bubble.
  in_order-live :
      (n : ℕ) → (s.em.inst.a == nop) ≡ false → IsAway s n → in_order s n ≡ (drained M s).regs n
  in_order-live n live away =
      let real = ==→ne s.em.inst.a nop live in
      let r = access table s.em.rw s.em.val_e s.em.val_a (settled M s) in
      let k = access-regs table s.em.rw s.em.val_e s.em.val_a (settled M s) in
      let at : r.regs n ≡ (settled M s).regs n = ap (λ (f : Regs). f n) k.0 in
      let inner : set_gpr r.regs s.em.dst_m r.val_m n ≡ (settled M s).regs n =
        elim (Bool-cases (loads s.em.rw)) [
          | inl load ↦ set_gpr_lem r.regs s.em.dst_m r.val_m n ∙ if_false _ (away real load) ∙ at
          | inr other ↦ ap (λ d. set_gpr r.regs d r.val_m n) (h.em_plain real other) ∙ at
        ] in
      set_gpr_lem (write_back s.mw s.regs) s.em.dst_e s.em.val_e n
      ∙ ap (λ v. if same_dep (some n) s.em.dst_e then s.em.val_e else v)
          (sym (inner ∙ settled-regs n))
      ∙ sym (set_gpr_lem (set_gpr r.regs s.em.dst_m r.val_m) s.em.dst_e s.em.val_e n)
      ∙ sym (ap (λ (x : Retired (ℕ → ℕ)). x.regs n) (if_false _ live))

  pub in_order-drained : (n : ℕ) → IsAway s n → in_order s n ≡ (drained M s).regs n
  in_order-drained n away = elim (Bool-cases (s.em.inst.a == nop)) [
    | inl bubble ↦
        let (dst, value) = h.em_repeats (==→eq s.em.inst.a nop bubble) in
        (λ i. set_gpr (write_back s.mw s.regs) (dst i) (value i) n)
        ∙ again (set_gpr s.regs s.mw.dst_m s.mw.val_m) s.mw.dst_e s.mw.val_e n
        ∙ sym (settled-regs n)
        ∙ sym (ap (λ (x : Retired (ℕ → ℕ)). x.regs n) (if_true _ bubble))
    | inr live ↦ in_order-live n live away
  ]

  pub forward-drained :
      (d : Dep) → ((n : ℕ) → d ≡ some n → IsAway s n) → forward s d ≡ gpr (drained M s).regs d
  unfolding forward
  forward-drained none away = refl
  forward-drained (some n) away =
      forward-in_order s n h.wb_written ∙ in_order-drained n (away n refl)
