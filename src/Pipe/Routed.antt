-- ===== src/Pipe/Routed.antt =====
-- What the latches of Project2/sim-pipe.c say of an access to the memory, from `route` on: `rw` and the
-- two destinations.
use computer_architecture.Base.{
  ℕ, zero, suc, ◌≤◌, ◌≡◌, ◌⊎◌, sym, ap, subst, ◌∙◌, none, some, inl, inr, Option-cases, Bool, true,
  false, ◌&&◌, arith,
}
use mathlib.Core.Option
use mathlib.Core.Option.{some-injective}
use computer_architecture.Memory.{Memory}
use computer_architecture.Isa.{Dep, InstDef, opfield, nop, has_flag, f_load, f_store}
use computer_architecture.Isa.Table.{def_inst, def_inst-apart}
use computer_architecture.Pipe.State.{IdexBuf, Regs, Sim}
use computer_architecture.Pipe.Decode.{do_id, select, route, fill_operands, issue, latch_id}
use computer_architecture.Pipe.Stages.{
  SysSyscall, squash, replay, fetch, do_if, do_mem, mem_load, mem_store, do_ex, resolve, do_forward,
  do_wb, call_system, pipeline_control,
}
use computer_architecture.Pipe.Init.{sim_init, static_sim}
use computer_architecture.Pipe.Main.{Loader, sim_load_prog, sim_start, after_wb, round, sim_main}

-- Either no load, with at most a store and no destination for a loaded word, or a load, with no store
-- and no other destination.
abbrev pub IsAccess : ℕ → Dep → Dep → Type 0
IsAccess rw dst_e dst_m = (((rw ≡ 0) ⊎ (rw ≡ 2)) × (dst_m ≡ none)) ⊎ ((rw ≡ 4) × (dst_e ≡ none))

abbrev IsApart : ℕ → Type 0
IsApart flags = (has_flag flags f_load && has_flag flags f_store) ≡ false

filled-none :
    (de : IdexBuf) → def_inst de.opcode ≡ none → (fill_operands de).inst_flags ≡ de.inst_flags
unfolding fill_operands
filled-none de e = ground (arith, e)

filled-some :
    (de : IdexBuf) (d : InstDef)
    → def_inst de.opcode ≡ some d
    → (fill_operands de).inst_flags ≡ d.flags
unfolding fill_operands
filled-some de d e = ground (arith, e)

filled-IsApart : (de : IdexBuf) → IsApart de.inst_flags → IsApart (fill_operands de).inst_flags
filled-IsApart de h = elim (Option-cases (def_inst de.opcode)) [
  | inl e ↦ subst IsApart (sym (filled-none de e)) h
  | inr (d, e) ↦ subst IsApart (sym (filled-some de d e)) (def_inst-apart de.opcode d e)
]

filled-rw : (de : IdexBuf) → (fill_operands de).rw ≡ de.rw
unfolding fill_operands
filled-rw de = ground arith

module _ {Space : Type 0} where
  -- What holds in every stage.
  abbrev IsSound : Sim Space → Type 0
  IsSound s =
      (s.ctl.cond ≤ 3)
      × IsApart s.de.inst_flags
      × IsAccess s.em.rw s.em.dst_e s.em.dst_m
      × IsAccess s.mw.rw s.mw.dst_e s.mw.dst_m

  -- Between `pipeline_control` and the execute stage.
  abbrev IsExecuting : Sim Space → Type 0
  IsExecuting s = IsSound s × ((s.de.inst.a ≡ nop) ⊎ IsAccess s.de.rw s.de.dst_e s.de.dst_m)

  -- Between decode and `pipeline_control`: an instruction that waits has yet to be routed.
  abbrev pub IsRouted : Sim Space → Type 0
  IsRouted s =
      (s.ctl.cond ≤ 3)
      × ((has_flag s.de.inst_flags f_load && has_flag s.de.inst_flags f_store) ≡ false)
      × IsAccess s.em.rw s.em.dst_e s.em.dst_m
      × IsAccess s.mw.rw s.mw.dst_e s.mw.dst_m
      × ((s.de.inst.a ≡ nop) ⊎ (s.ctl.stall ≡ true) ⊎ IsAccess s.de.rw s.de.dst_e s.de.dst_m)

  control-IsExecuting : (s : Sim Space) → IsRouted s → IsExecuting (pipeline_control s)
  unfolding pipeline_control squash replay
  control-IsExecuting s h = ground (arith, h)

  do_ex-IsSound : (s : Sim Space) → IsExecuting s → IsSound (do_ex s)
  unfolding do_ex resolve
  do_ex-IsSound s h = ground (arith, h)

  select-IsSound : (s : Sim Space) → IsSound s → IsSound (select s)
  unfolding select
  select-IsSound s h = ground (arith, h)

  select-rw : (s : Sim Space) → (select s).de.rw ≡ s.de.rw
  unfolding select
  select-rw s = ground arith

  route-IsRouted : (s : Sim Space) → IsSound s → s.de.rw ≡ 0 → IsRouted (route s)
  unfolding route
  route-IsRouted s h e = ground (arith, h, e)

  issue-IsRouted : (s : Sim Space) → IsSound s → s.de.rw ≡ 0 → IsRouted (issue s)
  unfolding issue
  issue-IsRouted s h e =
      let free = record s { ctl = record (s.ctl) { stall = false } } in
      ground (arith, h, route-IsRouted (select free) (select-IsSound free h) (select-rw free ∙ e))

  filled-IsSound :
      (s : Sim Space) (de : IdexBuf)
      → IsSound (record s { de = de })
      → IsSound (record s { de = fill_operands de })
  filled-IsSound s de h = (h.0, filled-IsApart de h.1, h.2, h.3)

  do_id-IsRouted : (s : Sim Space) → IsSound s → IsRouted (do_id s)
  unfolding do_id
  do_id-IsRouted s h =
      let de = record (latch_id s) { opcode = opfield s.fd.inst } in
      let filled = record s { de = fill_operands de } in
      ground (arith, h, issue-IsRouted filled (filled-IsSound s de h) (filled-rw de))

  do_forward-IsRouted : (s : Sim Space) → IsRouted s → IsRouted (do_forward s)
  unfolding do_forward
  do_forward-IsRouted s h = h

module _ {Space : Type 0} (M : Memory Space) where
  do_mem-IsExecuting : (s : Sim Space) → IsExecuting s → IsExecuting (do_mem M s)
  unfolding do_mem mem_load mem_store
  do_mem-IsExecuting s h = ground (arith, h)

  do_wb-IsExecuting :
      (sys_syscall : SysSyscall Space) (s s' : Sim Space)
      → do_wb M sys_syscall s ≡ some s'
      → IsExecuting s
      → IsExecuting s'
  unfolding do_wb call_system
  do_wb-IsExecuting sys_syscall s s' e h = ground (arith, h, e)

  do_if-IsRouted : (s : Sim Space) → IsRouted s → IsRouted (do_if M s)
  unfolding do_if fetch
  do_if-IsRouted s h = ground (arith, h)

module _ {Space : Type 0} (M : Memory Space) (sys_syscall : SysSyscall Space) where
  after_wb-IsRouted : (w : Sim Space) → IsExecuting w → IsRouted (after_wb M sys_syscall w)
  unfolding after_wb
  after_wb-IsRouted w h =
      let m = do_mem M w in
      let x = do_ex m in
      let d = do_id x in
      do_if-IsRouted M (do_forward d)
        (do_forward-IsRouted d (do_id-IsRouted x (do_ex-IsSound m (do_mem-IsExecuting M w h))))

  round-IsRouted : (s s' : Sim Space) → round M sys_syscall s ≡ some s' → IsRouted s → IsRouted s'
  unfolding round
  round-IsRouted s s' e h = elim (Option-cases (do_wb M sys_syscall (pipeline_control s))) [
    | inl ends ↦ absurd (ground (arith, ends, e))
    | inr (w, wrote) ↦
        let same : after_wb M sys_syscall w ≡ s' =
          some-injective _ _ (sym (ap (Option.map (after_wb M sys_syscall)) wrote) ∙ e) in
        subst IsRouted same (
          after_wb-IsRouted w (
            do_wb-IsExecuting M sys_syscall (pipeline_control s) w wrote (control-IsExecuting s h)))
  ]

  sim_main-IsRouted :
      (n : ℕ) (s s' : Sim Space) → sim_main M sys_syscall n s ≡ some s' → IsRouted s → IsRouted s'
  unfolding sim_main
  sim_main-IsRouted zero s s' e h = subst IsRouted (some-injective _ _ e) h
  sim_main-IsRouted (suc n) s s' e h = elim (Option-cases (round M sys_syscall s)) [
    | inl ends ↦ absurd (ground (arith, ends, e))
    | inr (t, one) ↦
        let rest : sim_main M sys_syscall n t ≡ some s' =
          sym (ap (λ o. elim o [ none ↦ none | some z ↦ sim_main M sys_syscall n z ]) one) ∙ e in
        sim_main-IsRouted n t s' rest (round-IsRouted s t one h)
  ]

  started-IsRouted :
      (sim_swap_bytes sim_swap_words : Bool) (ld_load_prog : Loader Space) (r0 : Regs) (m0 : Space)
      (s : Sim Space)
      → (let (pc, loaded) = sim_load_prog ld_load_prog (sim_init r0 m0 (static_sim r0 m0)) in
          sim_start sim_swap_bytes sim_swap_words pc loaded ≡ some s)
      → IsRouted s
  unfolding sim_load_prog sim_start sim_init
  started-IsRouted sim_swap_bytes sim_swap_words ld_load_prog r0 m0 s e = ground (arith, e)

  -- From the start of the simulator, with any loader, any program and any swap flags that it
  -- accepts, after any number of rounds that a system call does not end: in `em` and in `mw`,
  -- and in `de` unless its instruction is a bubble or waits, `rw` is that of a load (4), with no
  -- destination but the one of the loaded word, or it is 0 or that of a store (2), with no
  -- destination of a loaded word; the flags in `de` are not those of a load and a store at once;
  -- and `cond` is at most 3.
  pub run-IsRouted :
      (sim_swap_bytes sim_swap_words : Bool) (ld_load_prog : Loader Space) (r0 : Regs) (m0 : Space)
      (n : ℕ) (s s' : Sim Space)
      → (let (pc, loaded) = sim_load_prog ld_load_prog (sim_init r0 m0 (static_sim r0 m0)) in
          sim_start sim_swap_bytes sim_swap_words pc loaded ≡ some s)
      → sim_main M sys_syscall n s ≡ some s'
      → IsRouted s'
  run-IsRouted sim_swap_bytes sim_swap_words ld_load_prog r0 m0 n s s' starts runs =
      sim_main-IsRouted n s s' runs
        (started-IsRouted sim_swap_bytes sim_swap_words ld_load_prog r0 m0 s starts)
