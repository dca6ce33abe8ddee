-- ===== src/Pipe/Straight/Behind.antt =====
-- How a round of Project2/sim-pipe.c moves the latches behind the execute stage.
use computer_architecture.Base.{
  ℕ, ◌≡◌, ◌≢◌, sym, ap, subst, ◌∙◌, false, none, inl, inr, Bool-cases, ◌==◌, ==→eq, if_true,
  if_false, arith,
}
use mathlib.Core.Path.{subst₂}
use native.Mathlib.Decide.{ℕ_discrete}
use computer_architecture.Memory.{Memory}
use computer_architecture.Isa.{nop, multu as multu_op}
use computer_architecture.Pipe.State.{Regs, IdexBuf, ExmemBuf, MemwbBuf, WbBuf, Sim, set_gpr}
use computer_architecture.Pipe.Stages.{
  pipeline_control, do_mem, do_ex, mem_load, mem_store, write_back,
}
use computer_architecture.Pipe.Forwarding.{WbWritten, set_twice, do_ex-regs}
use computer_architecture.Pipe.Straight.Round.{written_back, wrote, before_id}
use computer_architecture.Pipe.Straight.Retire.{executed_em}
use computer_architecture.Pipe.Straight.Drain.{
  control-IsSame, wrote-keeps, do_mem-keeps, do_ex-keeps,
}
use computer_architecture.Pipe.Straight.Ordered.{IsBehind}
use computer_architecture.Forward.Retire.{loads}

-- What a state needs of its `de` for the latches behind it.
abbrev pub IsPlainDe : IdexBuf → Type 0
IsPlainDe de = de.inst.a ≢ nop → (de.opcode ≢ multu_op) × (loads de.rw ≡ false → de.dst_m ≡ none)

abbrev pub WrittenOf : WbBuf → Regs → Type 0
WrittenOf wb regs = (n : ℕ) → set_gpr (set_gpr regs wb.dst_m wb.val_m) wb.dst_e wb.val_e n ≡ regs n

abbrev pub AgainOf : MemwbBuf → Regs → Type 0
AgainOf mw regs = mw.inst.a ≡ nop → (n : ℕ) → write_back mw regs n ≡ regs n

module _ {Space : Type 0} where
  -- Writing `mw` once more changes nothing.
  abbrev IsMwWritten : Sim Space → Type 0
  IsMwWritten s = s.mw.inst.a ≡ nop → (n : ℕ) → write_back s.mw s.regs n ≡ s.regs n

  wrote-WbWritten : (M : Memory Space) (c : Sim Space) → WbWritten c → WbWritten (written_back M c)
  wrote-WbWritten M c h n = elim (Bool-cases (c.mw.inst.a == nop)) [
    | inl bubble ↦ subst (λ (w : Sim Space). WbWritten w) (sym (if_true _ bubble)) h n
    | inr live ↦
        subst (λ (w : Sim Space). WbWritten w) (sym (if_false _ live))
          (λ k. set_twice c.regs c.mw.dst_m c.mw.dst_e c.mw.val_m c.mw.val_e k) n
  ]

  wrote-twice :
      (M : Memory Space) (c : Sim Space)
      → IsMwWritten c
      → (n : ℕ) → write_back c.mw (written_back M c).regs n ≡ (written_back M c).regs n
  wrote-twice M c h n = elim (Bool-cases (c.mw.inst.a == nop)) [
    | inl bubble ↦
        subst (λ (w : Sim Space). write_back c.mw w.regs n ≡ w.regs n) (sym (if_true _ bubble))
          (h (==→eq c.mw.inst.a nop bubble) n)
    | inr live ↦
        subst (λ (w : Sim Space). write_back c.mw w.regs n ≡ w.regs n) (sym (if_false _ live))
          (set_twice c.regs c.mw.dst_m c.mw.dst_e c.mw.val_m c.mw.val_e n)
  ]

  -- Where the memory stage puts `em`.
  pub do_mem-mw :
      (M : Memory Space) (w : Sim Space)
      → let m = do_mem M w in
        (m.mw.inst ≡ w.em.inst)
        × (m.em.inst ≡ w.em.inst)
        × (m.em.dst_e ≡ w.em.dst_e)
        × (m.em.val_e ≡ w.em.val_e)
        × (w.em.inst.a ≢ nop → (m.mw.dst_e ≡ w.em.dst_e) × (m.mw.val_e ≡ w.em.val_e))
        × (w.em.inst.a ≡ nop
            → (m.mw.dst_e ≡ w.mw.dst_e)
              × (m.mw.val_e ≡ w.mw.val_e)
              × (m.mw.dst_m ≡ w.mw.dst_m)
              × (m.mw.val_m ≡ w.mw.val_m))
  unfolding do_mem mem_load mem_store
  do_mem-mw M w = elim (Bool-cases (w.em.inst.a == nop)) [
    | inl bubble ↦ ground (arith, bubble)
    | inr live ↦ ground (arith, live)
  ]

  -- Where the execute stage puts `de`.
  pub do_ex-em :
      (m : Sim Space)
      → (m.de.inst.a ≡ nop → (do_ex m).em ≡ record (m.em) { inst = m.de.inst })
        × (m.de.inst.a ≢ nop → (do_ex m).em ≡ executed_em m.de)
  unfolding do_ex
  do_ex-em m = (λ h. ground (arith, h), λ h. ground (arith, h))

  -- The latches of a round in front of decode.
  pub before_id-IsBehind :
      (M : Memory Space) (s : Sim Space)
      → IsBehind s
      → IsPlainDe (pipeline_control s).de
      → IsBehind (before_id M s)
  before_id-IsBehind M s h plain =
      let c = pipeline_control s in
      let w = wrote M s in
      let m = do_mem M w in
      let x = before_id M s in
      let flight = (control-IsSame M s).0 in
      let (_, de, em, mw, _, _, _) = wrote-keeps M c in
      let (_, m_de, m_wb, m_regs) = do_mem-keeps M w in
      let (_, _, x_mw, x_wb, _, _, _) = do_ex-keeps M m in
      let at : m.de ≡ c.de = m_de ∙ de in
      let plain_m = subst (λ d. IsPlainDe d) (sym at) plain in
      let (m_inst, em_inst, em_dst, em_val, live_mw, bubble_mw) = do_mem-mw M w in
      let em_w : w.em ≡ s.em = em ∙ flight.same_em in
      let mw_w : w.mw ≡ s.mw = mw ∙ flight.same_mw in
      let (idle, runs) = do_ex-em m in
      let regs : x.regs ≡ w.regs = (do_ex-regs m (λ real. (plain_m real).0)).0 ∙ m_regs in
      let first : WbWritten c =
        subst₂ WrittenOf (sym flight.same_wb) (sym flight.same_regs) h.wb_written in
      let mw_c : IsMwWritten c =
        subst₂ AgainOf (sym flight.same_mw) (sym flight.same_regs) h.mw_written in
      record {
        wb_written = subst₂ WrittenOf (sym (x_wb ∙ m_wb)) (sym regs) (wrote-WbWritten M c first);
        mw_written = λ bubble n.
            let still : w.em.inst.a ≡ nop =
              ap (λ i. i.a) (sym m_inst ∙ ap (λ (b : MemwbBuf). b.inst) (sym x_mw)) ∙ bubble in
            let (dst_e, val_e, dst_m, val_m) = bubble_mw still in
            (λ i. write_back (x_mw i) (regs i) n)
            ∙ (λ i. set_gpr (set_gpr w.regs (dst_m i) (val_m i)) (dst_e i) (val_e i) n)
            ∙ ap (λ b. write_back b w.regs n) mw
            ∙ wrote-twice M c mw_c n
            ∙ ap (λ (f : Regs). f n) (sym regs);
        em_repeats = λ bubble. elim (ℕ_discrete m.de.inst.a nop) [
          | yes idles ↦
              let moved = idle idles in
              elim (ℕ_discrete w.em.inst.a nop) [
                | yes still ↦
                    let (dst_e, val_e, _, _) = bubble_mw still in
                    let (dst, value) =
                      h.em_repeats (ap (λ (e : ExmemBuf). e.inst.a) (sym em_w) ∙ still) in
                    ground
                      (arith, moved, em_dst, em_val, em_w, mw_w, x_mw, dst_e, val_e, dst, value)
                | no real ↦
                    let (dst_e, val_e) = live_mw real in
                    ground (arith, moved, em_dst, em_val, x_mw, dst_e, val_e)
              ]
          | no real ↦ absurd (real (sym (ap (λ (e : ExmemBuf). e.inst.a) (runs real)) ∙ bubble))
        ];
        em_plain = λ real load. elim (ℕ_discrete m.de.inst.a nop) [
          | yes idles ↦ absurd (real (ap (λ (e : ExmemBuf). e.inst.a) (idle idles) ∙ idles))
          | no live ↦
              let moved = runs live in
              ap (λ (e : ExmemBuf). e.dst_m) moved
              ∙ (plain_m live).1 (ap (λ (e : ExmemBuf). loads e.rw) (sym moved) ∙ load)
        ];
      }
