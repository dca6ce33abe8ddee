-- ===== src/Pipe/Straight/Refine.antt =====
-- A round of Project2/sim-pipe.c against the functional simulator: the operands that decode hands on,
-- and the effect of the instruction that it issues.
use computer_architecture.Pipe.Straight.Calm.{control-calm, before_id-moves}
use computer_architecture.Base.{
  none, ℕ, ◌≡◌, ◌≢◌, refl, sym, ap, subst, ◌∙◌, true, false, some, inr, arith,
}
use native.Mathlib.Decide.{ℕ_discrete}
use computer_architecture.Memory.{Memory}
use computer_architecture.Memory.Table.{table}
use computer_architecture.Isa.{Dep, InstDef, operand, nop}
use computer_architecture.Pipe.State.{
  AluFunc, IdexBuf, ExmemBuf, ControlBuf, Sim, gpr, same_dep, mask_bit,
}
use computer_architecture.Pipe.Decode.{do_id, set_func, route, is_busy}
use computer_architecture.Pipe.Stages.{
  pipeline_control, do_mem, do_forward, forward, mem_load, mem_store,
}
use computer_architecture.Pipe.Straight.Round.{wrote, before_id, as_basic, Issues}
use computer_architecture.Pipe.Straight.Retire.{executed_em}
use computer_architecture.Pipe.Straight.Drain.{
  retired, IsSameFlight, control-IsSame, do_id-IsSame, wrote-keeps, do_ex-keeps,
}
use computer_architecture.Pipe.Straight.Behind.{do_ex-em}
use computer_architecture.Pipe.Straight.Ordered.{IsAway, forward-drained}
use computer_architecture.Pipe.Straight.Ready.{IsReady, IsEnding}
use computer_architecture.Forward.Stages as forwarding
use computer_architecture.Forward.Retire.{Retired, loads}
use computer_architecture.Forward.Issue.{filled, with_operands, issued}
use computer_architecture.Forward.Operands.{unmarked-away, issued-marks}
use computer_architecture.Basic.Decode.{is_marked}

module _ {Space : Type 0} (M : Memory Space) where
  abbrev pub issued_state : Sim Space → InstDef → AluFunc → Sim Space
  issued_state x line func = route (
      set_func
        (record x { de = filled (as_basic M x) line; ctl = record (x.ctl) { stall = false } }) func)

module _ {Space : Type 0} (M : Memory Space) (Code : ℕ → Type 0) where
  -- No load in `em` is into the register of a load in `de`.
  abbrev pub IsFresh : Sim Space → Type 0
  IsFresh s =
      s.em.inst.a ≢ nop
      → loads s.em.rw ≡ true
      → (pipeline_control s).de.inst.a ≢ nop
      → loads (pipeline_control s).de.rw ≡ true
      → mask_bit s.em.dst_m ≢ mask_bit (pipeline_control s).de.dst_m

  -- What decode issues is what the other pipelines issue, with the mark of a load.
  pub issued-latch :
      (x : Sim Space) (line : InstDef) (func : AluFunc)
      → let d = issued_state M x line func in
        (d.de ≡ issued (as_basic M x) line func)
        × (d.ctl.stall ≡ false)
        × (loads d.de.rw ≡ false → d.de.dst_m ≡ none)
        × (loads d.de.rw ≡ true → d.ctl.regs (mask_bit d.de.dst_m) ≡ true)
  unfolding route issued forwarding.route
  issued-latch x line func =
      (refl, refl, λ other. ground (arith, other), λ load. ground (arith, load))

  do_mem-mark :
      (w : Sim Space) (k : ℕ)
      → w.ctl.regs k ≡ true
      → (w.em.inst.a ≢ nop → loads w.em.rw ≡ true → mask_bit w.em.dst_m ≢ k)
      → (do_mem M w).ctl.regs k ≡ true
  unfolding do_mem mem_load mem_store
  do_mem-mark w k mark other = ground (arith, mark, other)

  forward-same : (a b : Sim Space) → IsSameFlight M a b → (d : Dep) → forward b d ≡ forward a d
  unfolding forward
  forward-same a b h none = refl
  forward-same a b h (some n) = λ i.
      forward
        (record b { em = h.same_em i; mw = h.same_mw i; wb = h.same_wb i; regs = h.same_regs i })
        (some n)

  pub do_forward-de :
      (d : Sim Space)
      → (do_forward d).de ≡ record (d.de) {
        alu_a = forward d d.de.src_a;
        alu_b = forward d d.de.src_b;
        val_a = forward d d.de.oprand.in1;
      }
  unfolding do_forward
  do_forward-de d = refl

  busy-marked : (x : Sim Space) (d : Dep) → is_marked (as_basic M x).ctl d ≡ is_busy x.ctl d
  busy-marked x none = refl
  busy-marked x (some n) = refl

  -- A register without a mark is not that of a load that has just left decode.
  unmarked-IsAway :
      (s s' : Sim Space) (d : Dep)
      → IsReady M Code s
      → IsFresh s
      → s'.em ≡ (before_id M s).em
      → is_marked (as_basic M (before_id M s)).ctl d ≡ false
      → (n : ℕ) → d ≡ some n
      → IsAway s' n
  unmarked-IsAway s s' d h fresh em clear n at real load =
      let c = pipeline_control s in
      let x = before_id M s in
      let w = wrote M s in
      let m = do_mem M w in
      let de : m.de ≡ c.de = (before_id-moves M Code s).1 in
      let (idle, runs) = do_ex-em m in
      let (_, _, w_em, _, _, _, w_ctl) = wrote-keeps M c in
      let w_em' : w.em ≡ s.em = w_em ∙ (control-IsSame M s).0.same_em in
      elim (ℕ_discrete m.de.inst.a nop) [
        | yes idles ↦ absurd (real (ap (λ (e : ExmemBuf). e.inst.a) (em ∙ idle idles) ∙ idles))
        | no live ↦
            let moved : s'.em ≡ executed_em c.de = em ∙ runs live ∙ ap executed_em de in
            let live' : c.de.inst.a ≢ nop = subst (λ (b : IdexBuf). b.inst.a ≢ nop) de live in
            let loading : loads c.de.rw ≡ true =
              ap (λ (e : ExmemBuf). loads e.rw) (sym moved) ∙ load in
            let mark : x.ctl.regs (mask_bit c.de.dst_m) ≡ true =
              ap (λ f. f (mask_bit c.de.dst_m)) (do_ex-keeps M m).6
              ∙ do_mem-mark w (mask_bit c.de.dst_m)
                  (ap (λ (b : ControlBuf). b.regs (mask_bit c.de.dst_m))
                      (w_ctl ∙ (control-calm M Code s h.calm).0)
                    ∙ h.de_marked live' loading)
                  (subst
                    (λ (e : ExmemBuf).
                      e.inst.a ≢ nop → loads e.rw ≡ true → mask_bit e.dst_m ≢ mask_bit c.de.dst_m)
                    (sym w_em') (λ a b. fresh a b live' loading)) in
            ap (λ (e : ExmemBuf). same_dep (some n) e.dst_m) moved
            ∙ unmarked-away table (as_basic M x).ctl c.de.dst_m d mark clear n at
      ]

  -- The latch of an instruction that is issued, with its operands.
  pub round-latch :
      (s s' : Sim Space) (line : InstDef) (func : AluFunc)
      → IsReady M Code s
      → IsFresh s
      → Issues M (before_id M s) line func
      → IsEnding M Code s s'
      → s'.de ≡ with_operands (retired M s).regs (issued (as_basic M (before_id M s)) line func)
  round-latch s s' line func h fresh (shape, one, two) r =
      let x = before_id M s in
      let d = do_id x in
      let R = (retired M s).regs in
      let (latch, _, _, _) = issued-latch x line func in
      let de : d.de ≡ issued (as_basic M x) line func =
        ap (λ (z : Sim Space). z.de) shape ∙ latch in
      let (clear_a, clear_b, clear_v) =
        issued-marks table (as_basic M x) line func
          (busy-marked x (operand line.in1 x.fd.inst.b) ∙ one)
          (busy-marked x (operand line.in2 x.fd.inst.b) ∙ two) in
      let flight = (do_id-IsSame M x line func (inr (shape, one, two))).0 in
      let value : (src : Dep)
          → is_marked (as_basic M x).ctl src ≡ false
          → forward d src ≡ gpr R src =
        λ src clear.
          forward-same x d flight src
          ∙ sym (forward-same x s' r.flight src)
          ∙ forward-drained M s' r.behind src
              (unmarked-IsAway s s' src h fresh r.flight.same_em clear)
          ∙ ap (λ (z : Retired (ℕ → ℕ)). gpr z.regs src) r.finished in
      let latch_a = ap (λ (z : IdexBuf). z.src_a) de in
      let latch_b = ap (λ (z : IdexBuf). z.src_b) de in
      let latch_v = ap (λ (z : IdexBuf). z.oprand.in1) de in
      let value_a = value d.de.src_a (ap (is_marked (as_basic M x).ctl) latch_a ∙ clear_a) in
      let value_b = value d.de.src_b (ap (is_marked (as_basic M x).ctl) latch_b ∙ clear_b) in
      let value_v = value d.de.oprand.in1 (ap (is_marked (as_basic M x).ctl) latch_v ∙ clear_v) in
      r.decoded
      ∙ do_forward-de d
      ∙ (λ i. record (d.de) { alu_a = value_a i; alu_b = value_b i; val_a = value_v i })
      ∙ ap (with_operands R) de
