-- ===== src/Pipe/Hazards.antt =====
-- Stalls and squashes: what one turn of the loop, from decode through the fetch to the next
-- `pipeline_control`, does to the instruction in decode.
use computer_architecture.Base.{
  ℕ, ◌+◌, ◌≡◌, ◌≢◌, refl, sym, ap, ◌∙◌, subst, Bool-cases, inl, inr, Bool, true, false, ◌||◌, arith,
}
use native.Mathlib.Decide.{ℕ_discrete}
use computer_architecture.Base.Word.{u32}
use computer_architecture.Memory.{Memory, IsAligned}
use computer_architecture.Isa.{Inst, nop, opfield, has_flag, f_load}
use computer_architecture.Pipe.State.{IdexBuf, ExmemBuf, Sim, cond_branch, mask_bit}
use computer_architecture.Pipe.Decode.{do_id, route, select, fill_operands, latch_id, is_busy}
use computer_architecture.Pipe.Stages.{do_forward, fetch, do_if, next_pc, pipeline_control}
use computer_architecture.Pipe.Straight.View.{flat, IsKept}
use computer_architecture.Pipe.Straight.Access.{fetch-IsFetched}

module _ {Space : Type 0} (s : Sim Space) where
  -- The latch with the operands of the instruction that is decoded.
  abbrev pub decoded : IdexBuf
  decoded = fill_operands (record (latch_id s) { opcode = opfield s.fd.inst })

  -- The instruction in `fd` reads a register that a load has yet to fill.
  abbrev pub waits : Bool
  waits = is_busy s.ctl decoded.oprand.in1 || is_busy s.ctl decoded.oprand.in2

  pub fill-inst :
      (de : IdexBuf) → ((fill_operands de).inst ≡ de.inst) × ((fill_operands de).pc ≡ de.pc)
  unfolding fill_operands
  fill-inst de = ground arith

  pub do_id_stall :
      s.fd.inst.a ≢ nop
      → waits ≡ true
      → do_id s ≡ record s { de = decoded; ctl = record (s.ctl) { stall = true } }
  unfolding do_id
  do_id_stall real busy = ground arith

  pub do_id_issue :
      s.fd.inst.a ≢ nop
      → waits ≡ false
      → do_id s ≡ route (select (record s { de = decoded; ctl = record (s.ctl) { stall = false } }))
  unfolding do_id
  do_id_issue real free = ground arith

module _ {Space : Type 0} (M : Memory Space) where
  -- From decode to the control of the next round.
  abbrev pub turn : Sim Space → Sim Space
  turn s = pipeline_control (do_if M (do_forward (do_id s)))

  pub do_if-keeps :
      (s : Sim Space)
      → ((do_if M s).de ≡ s.de)
        × ((do_if M s).ctl ≡ s.ctl)
        × ((do_if M s).em ≡ s.em)
        × ((do_if M s).fd.pc ≡ next_pc s)
        × ((do_if M s).regs ≡ s.regs)
        × ((do_if M s).mw ≡ s.mw)
  unfolding do_if
  do_if-keeps s = ground arith

  pub do_forward-keeps :
      (s : Sim Space)
      → ((do_forward s).de.inst ≡ s.de.inst)
        × ((do_forward s).de.pc ≡ s.de.pc)
        × ((do_forward s).ctl ≡ s.ctl)
        × ((do_forward s).em ≡ s.em)
        × ((do_forward s).regs ≡ s.regs)
        × ((do_forward s).de.target ≡ s.de.target)
        × ((do_forward s).mw ≡ s.mw)
  unfolding do_forward
  do_forward-keeps s = (refl, refl, refl, refl, refl, refl, refl)

  -- An instruction that reads a register which a load has yet to fill is decoded again: while no
  -- branch or jump is pending, the turn puts it back behind the fetch with its address, leaves a
  -- bubble in its place, and writes no register.
  pub turn_stall :
      (s : Sim Space)
      → s.fd.inst.a ≢ nop
      → waits s ≡ true
      → s.ctl.cond ≡ 0
      → ((turn s).fd.inst ≡ s.fd.inst)
        × ((turn s).fd.pc ≡ s.fd.pc)
        × ((turn s).de.inst.a ≡ nop)
        × ((turn s).regs ≡ s.regs)
  unfolding pipeline_control
  turn_stall s real busy calm =
      let s' = record s { de = decoded s; ctl = record (s.ctl) { stall = true } } in
      ground (
        arith,
        do_id_stall s real busy,
        fill-inst s (record (latch_id s) { opcode = opfield s.fd.inst }),
        do_forward-keeps s',
        do_if-keeps (do_forward s'),
      )

  select-keeps :
      (s : Sim Space)
      → ((select s).em ≡ s.em)
        × ((select s).ctl.stall ≡ s.ctl.stall)
        × ((select s).ctl.regs ≡ s.ctl.regs)
        × ((select s).de.inst ≡ s.de.inst)
        × ((select s).de.oprand ≡ s.de.oprand)
        × ((select s).de.pc ≡ s.de.pc)
        × (cond_branch s.ctl.cond ≡ true → cond_branch (select s).ctl.cond ≡ true)
  unfolding select
  select-keeps s = ground arith

  route-keeps :
      (s : Sim Space)
      → ((route s).em ≡ s.em)
        × ((route s).ctl.stall ≡ s.ctl.stall)
        × ((route s).ctl.cond ≡ s.ctl.cond)
        × ((route s).de.inst ≡ s.de.inst)
        × ((route s).de.pc ≡ s.de.pc)
  unfolding route
  route-keeps s = ground arith

  do_id-keeps :
      (s : Sim Space)
      → ((do_id s).em ≡ s.em)
        × (cond_branch s.ctl.cond ≡ true → cond_branch (do_id s).ctl.cond ≡ true)
        × ((do_id s).de.inst.a ≡ s.fd.inst.a)
        × ((do_id s).de.pc ≡ s.fd.pc)
  unfolding do_id
  do_id-keeps s = elim (ℕ_discrete s.fd.inst.a nop) [
    | yes bubble ↦ ground arith
    | no real ↦ elim (Bool-cases (waits s)) [
      | inl busy ↦ ground (
        arith,
        do_id_stall s real busy,
        fill-inst s (record (latch_id s) { opcode = opfield s.fd.inst }),
      )
      | inr free ↦
          let s' = record s { de = decoded s; ctl = record (s.ctl) { stall = false } } in
          ground (
            arith,
            do_id_issue s real free,
            fill-inst s (record (latch_id s) { opcode = opfield s.fd.inst }),
            select-keeps s',
            route-keeps (select s'),
          )
    ]
  ]

  select-load :
      (s : Sim Space)
      → has_flag s.de.inst_flags f_load ≡ true
      → has_flag (select s).de.inst_flags f_load ≡ true
  unfolding select
  select-load s loads = ground arith

  route-load :
      (s : Sim Space)
      → has_flag s.de.inst_flags f_load ≡ true
      → (route s).ctl.regs (mask_bit s.de.oprand.out1) ≡ true
  unfolding route
  route-load s loads = ground arith

  do_id-load :
      (s : Sim Space)
      → s.fd.inst.a ≢ nop
      → waits s ≡ false
      → has_flag (decoded s).inst_flags f_load ≡ true
      → (do_id s).ctl.regs (mask_bit (decoded s).oprand.out1) ≡ true
  do_id-load s real free loads =
      let s' = record s { de = decoded s; ctl = record (s.ctl) { stall = false } } in
      ground (
        arith,
        do_id_issue s real free,
        select-keeps s',
        select-load s' loads,
        route-load (select s') (select-load s' loads),
      )

  do_id-stall : (s : Sim Space) → s.fd.inst.a ≢ nop → waits s ≡ false → (do_id s).ctl.stall ≡ false
  do_id-stall s real free =
      let s' = record s { de = decoded s; ctl = record (s.ctl) { stall = false } } in
      ground (arith, do_id_issue s real free, select-keeps s', route-keeps (select s'))

  turn_cleared :
      (s : Sim Space)
      → cond_branch s.ctl.cond ≡ true
      → (do_id s).ctl.stall ≡ false
      → ((turn s).fd.pc ≡ s.em.target)
        × ((turn s).de.inst.a ≡ nop)
        × ((turn s).ctl.cond ≡ 0)
        × ((turn s).ctl.flag ≡ false)
  unfolding pipeline_control
  turn_cleared s taken free =
      ground (arith, do_id-keeps s, do_forward-keeps (do_id s), do_if-keeps (do_forward (do_id s)))

  -- The two words that the program sees at an address and behind it.
  abbrev pub words_at : Sim Space → ℕ → Inst
  words_at s pc = record { a = flat M s pc; b = flat M s (u32 (pc + 4)) }

  do_id-memory : (s : Sim Space) → ((do_id s).cache ≡ s.cache) × ((do_id s).mem ≡ s.mem)
  unfolding do_id select route
  do_id-memory s = ground arith

  do_if-taken :
      (s : Sim Space)
      → cond_branch s.ctl.cond ≡ true
      → IsKept M s.cache s.mem
      → IsAligned s.em.target
      → (do_if M s).fd.inst ≡ words_at s s.em.target
  unfolding do_if
  do_if-taken s taken kept aligned =
      let goes : next_pc s ≡ s.em.target = ground (arith, taken) in
      ap (λ pc. (fetch M s pc).fd.inst) goes ∙ (fetch-IsFetched M s s.em.target kept aligned).0

  turn-fetched :
      (s : Sim Space)
      → (do_id s).ctl.stall ≡ false
      → (turn s).fd.inst ≡ (do_if M (do_forward (do_id s))).fd.inst
  unfolding pipeline_control
  turn-fetched s free =
      ground (arith, do_forward-keeps (do_id s), do_if-keeps (do_forward (do_id s)))

  -- A branch that the execute stage has found taken, to an aligned address, with a cache that is
  -- coherent if it is in use: if the instruction behind the branch does not wait, the turn
  -- fetches from the target the two words that the program sees there, leaves a bubble in the
  -- place of that instruction, and clears the pending branch.
  pub turn_taken :
      (s : Sim Space)
      → cond_branch s.ctl.cond ≡ true
      → (do_id s).ctl.stall ≡ false
      → IsKept M s.cache s.mem
      → IsAligned s.em.target
      → ((turn s).fd.pc ≡ s.em.target)
        × ((turn s).fd.inst ≡ words_at s s.em.target)
        × ((turn s).de.inst.a ≡ nop)
        × ((turn s).ctl.cond ≡ 0)
        × ((turn s).ctl.flag ≡ false)
  unfolding do_forward
  turn_taken s taken free kept aligned =
      let d = do_id s in
      let t = do_forward d in
      let (held, still, _, _) = do_id-keeps s in
      let (cache_at, mem_at) = do_id-memory s in
      let (pc_at, left, cleared, unset) = turn_cleared s taken free in
      let view : (pc : ℕ) → words_at t pc ≡ words_at s pc =
        λ pc i. words_at (record s { cache = cache_at i; mem = mem_at i }) pc in
      let em_at : t.em.target ≡ s.em.target = ap (λ (em : ExmemBuf). em.target) held in
      (
        pc_at,
        turn-fetched s free
            ∙ do_if-taken t (still taken)
                (subst (λ c. IsKept M c t.mem) (sym cache_at)
                  (subst (IsKept M s.cache) (sym mem_at) kept))
                (subst IsAligned (sym em_at) aligned)
            ∙ view t.em.target
            ∙ ap (words_at s) em_at,
        left,
        cleared,
        unset,
      )

  -- A taken branch with an instruction behind it that waits: the turn throws the fetch from the
  -- target away, a bubble with the address of the instruction behind the branch takes its place,
  -- the pending branch is cleared, and the stall goes on.
  pub turn_taken_stall :
      (s : Sim Space)
      → cond_branch s.ctl.cond ≡ true
      → (do_id s).ctl.stall ≡ true
      → ((turn s).fd.pc ≡ s.fd.pc)
        × ((turn s).fd.inst.a ≡ nop)
        × ((turn s).ctl.cond ≡ 0)
        × ((turn s).ctl.stall ≡ true)
  unfolding pipeline_control
  turn_taken_stall s taken held =
      ground (arith, do_id-keeps s, do_forward-keeps (do_id s), do_if-keeps (do_forward (do_id s)))

  -- A load behind a taken branch that does not wait is thrown away, but the register that it
  -- would fill stays marked as waiting for it.
  pub turn_taken_load :
      (s : Sim Space)
      → s.fd.inst.a ≢ nop
      → waits s ≡ false
      → has_flag (decoded s).inst_flags f_load ≡ true
      → cond_branch s.ctl.cond ≡ true
      → ((turn s).de.inst.a ≡ nop) × ((turn s).ctl.regs (mask_bit (decoded s).oprand.out1) ≡ true)
  unfolding pipeline_control
  turn_taken_load s real free loads taken = ground (
    arith,
    do_id-keeps s,
    do_id-load s real free loads,
    do_id-stall s real free,
    do_forward-keeps (do_id s),
    do_if-keeps (do_forward (do_id s)),
  )
