-- ===== src/Forward/Latch.antt =====
-- How a round of Project1/part2/sim-pipe.c moves the latches and the marks in `ctl.regs`.
use computer_architecture.Base.{
  ℕ, ◌≡◌, ◌⊎◌, refl, sym, ap, ◌∙◌, true, false, ◌||◌, none, inl, inr, Bool-cases, ◌==◌, arith,
}
use computer_architecture.Memory.{Memory}
use computer_architecture.Isa.{Dep, opfield, nop}
use computer_architecture.Pipe.State.{IdexBuf, mask_bit}
use computer_architecture.Pipe.Decode.{fill_operands}
use computer_architecture.Basic.State.{Sim}
use computer_architecture.Basic.Decode.{dispatch, is_marked}
use computer_architecture.Forward.Stages.{pipeline_control, route, latch_id, do_id, do_ex, do_mem}
use computer_architecture.Forward.Retire.{loads, wrote}

fill-keeps :
    (de : IdexBuf)
    → ((fill_operands de).dst_m ≡ de.dst_m)
      × ((fill_operands de).dst_e ≡ de.dst_e)
      × ((fill_operands de).rw ≡ de.rw)
unfolding fill_operands
fill-keeps de = ground arith

module _ {Space : Type 0} where
  -- What decode leaves in its latch, against the latch before.
  abbrev pub IsLatched : Dep → Dep → Sim Space → Type 0
  IsLatched dst_m dst_e d =
      ((dst_m ≡ none) ⊎ (dst_e ≡ none) → (d.de.dst_m ≡ none) ⊎ (d.de.dst_e ≡ none))
      × (loads d.de.rw ≡ true → d.ctl.regs (mask_bit d.de.dst_m) ≡ true)
      × (loads d.de.rw ≡ false → (d.de.dst_m ≡ none) ⊎ (d.de.dst_m ≡ dst_m))
      × (loads d.de.rw ≡ true → d.de.dst_e ≡ none)

  route-IsLatched : (t : Sim Space) (m e : Dep) → t.de.rw ≡ 0 → IsLatched m e (route t)
  unfolding route
  route-IsLatched t m e zero = (
    λ h. ground arith,
    λ h. ground (arith, zero),
    λ h. ground (arith, zero),
    λ h. ground (arith, zero),
  )

  dispatch-rw : (t : Sim Space) → (dispatch t).de.rw ≡ t.de.rw
  unfolding dispatch
  dispatch-rw t = ground arith

  pub do_id-IsLatched : (x : Sim Space) → IsLatched x.de.dst_m x.de.dst_e (do_id x)
  unfolding do_id
  do_id-IsLatched x = elim (Bool-cases (x.fd.inst.a == nop)) [
    | inl bubble ↦
        rw (bubble, do_id)
          (λ h. h, λ h. absurd (ground arith), λ h. inr refl, λ h. absurd (ground arith))
    | inr inst ↦
        let t = record x {
          de = fill_operands (record (latch_id x) { opcode = opfield x.fd.inst });
        } in
        let k = fill-keeps (record (latch_id x) { opcode = opfield x.fd.inst }) in
        elim (Bool-cases (is_marked t.ctl t.de.oprand.in1 || is_marked t.ctl t.de.oprand.in2)) [
          | inl waits ↦
              rw (inst, waits, do_id)
                (
                  λ h. ground (arith, h, k),
                  λ h. absurd (ground (arith, k)),
                  λ h. inr k.0,
                  λ h. absurd (ground (arith, k)),
                )
          | inr free ↦
              let t' = record t { ctl = record (t.ctl) { stall = false } } in
              rw (inst, free, do_id)
                (route-IsLatched (dispatch t') x.de.dst_m x.de.dst_e (dispatch-rw t' ∙ k.2))
        ]
  ]

  -- A mark behind decode was there before, or is that of the load just decoded.
  abbrev IsMarkOf : Sim Space → Sim Space → ℕ → Type 0
  IsMarkOf x d k =
      d.ctl.regs k ≡ true
      → (x.ctl.regs k ≡ true) ⊎ ((loads d.de.rw ≡ true) × (mask_bit d.de.dst_m ≡ k))

  route-mark : (t : Sim Space) (k : ℕ) → t.de.rw ≡ 0 → IsMarkOf t (route t) k
  unfolding route
  route-mark t k zero mark = ground (arith, zero)

  dispatch-marks : (t : Sim Space) → (dispatch t).ctl.regs ≡ t.ctl.regs
  unfolding dispatch
  dispatch-marks t = ground arith

  pub do_id-mark : (x : Sim Space) (k : ℕ) → IsMarkOf x (do_id x) k
  unfolding do_id
  do_id-mark x k = elim (Bool-cases (x.fd.inst.a == nop)) [
    | inl bubble ↦ rw (bubble, do_id) (λ h. inl h)
    | inr inst ↦
        let t = record x {
          de = fill_operands (record (latch_id x) { opcode = opfield x.fd.inst });
        } in
        let zero = (fill-keeps (record (latch_id x) { opcode = opfield x.fd.inst })).2 in
        elim (Bool-cases (is_marked t.ctl t.de.oprand.in1 || is_marked t.ctl t.de.oprand.in2)) [
          | inl waits ↦ rw (inst, waits, do_id) (λ h. inl h)
          | inr free ↦
              let t' = record t { ctl = record (t.ctl) { stall = false } } in
              rw (inst, free, do_id)
                (λ h. elim (route-mark (dispatch t') k (dispatch-rw t' ∙ zero) h) [
                  | inl old ↦ inl (sym (ap (λ f. f k) (dispatch-marks t')) ∙ old)
                  | inr new ↦ inr new
                ])
        ]
  ]

  pub control-em :
      (s : Sim Space) → ((pipeline_control s).mw ≡ s.mw) × ((pipeline_control s).em ≡ s.em)
  unfolding pipeline_control
  control-em s = ground arith

  -- The latch and the marks, but for its instruction word.
  pub control-de :
      (s : Sim Space)
      → ((pipeline_control s).de.dst_m ≡ s.de.dst_m)
        × ((pipeline_control s).de.dst_e ≡ s.de.dst_e)
        × ((pipeline_control s).de.rw ≡ s.de.rw)
        × ((pipeline_control s).ctl.regs ≡ s.ctl.regs)
  unfolding pipeline_control
  control-de s = ground arith

  -- The state of a round in front of decode.
  abbrev pub before_id : Memory Space → Sim Space → Sim Space
  before_id M s = do_ex (do_mem M (wrote s))

  pub do_mem-moves :
      (M : Memory Space) (w : Sim Space)
      → ((do_mem M w).de ≡ w.de)
        × ((do_mem M w).mw.dst_m ≡ w.em.dst_m)
        × ((do_mem M w).mw.dst_e ≡ w.em.dst_e)
  unfolding do_mem
  do_mem-moves M w = ground arith

  pub do_ex-moves :
      (m : Sim Space)
      → ((do_ex m).em.dst_m ≡ m.de.dst_m)
        × ((do_ex m).em.dst_e ≡ m.de.dst_e)
        × ((do_ex m).em.rw ≡ m.de.rw)
        × ((do_ex m).mw ≡ m.mw)
        × ((do_ex m).de ≡ m.de)
        × ((do_ex m).ctl.regs ≡ m.ctl.regs)
  unfolding do_ex
  do_ex-moves m = ground arith

  pub before_id-moves :
      (M : Memory Space) (s : Sim Space)
      → let x = before_id M s in
        (x.de.dst_m ≡ s.de.dst_m)
        × (x.de.dst_e ≡ s.de.dst_e)
        × (x.em.dst_m ≡ s.de.dst_m)
        × (x.em.dst_e ≡ s.de.dst_e)
        × (x.em.rw ≡ s.de.rw)
        × (x.mw.dst_m ≡ s.em.dst_m)
        × (x.mw.dst_e ≡ s.em.dst_e)
  before_id-moves M s = ground (
    arith,
    do_ex-moves (do_mem M (wrote s)),
    do_mem-moves M (wrote s),
    control-de s,
    control-em s,
  )

  pub do_mem-clears :
      (M : Memory Space) (w : Sim Space) (k : ℕ)
      → (do_mem M w).ctl.regs k ≡ true
      → (w.ctl.regs k ≡ true) × ¬ ((loads w.em.rw ≡ true) × (mask_bit w.em.dst_m ≡ k))
  unfolding do_mem
  do_mem-clears M w k mark = (ground (arith, mark), λ h. ground (arith, mark, h))
