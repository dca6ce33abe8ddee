-- ===== src/Forward/Settled.antt =====
-- An invariant of the latches of Project1/part2/sim-pipe.c between two rounds: what the marks in
-- `ctl.regs` and the destinations of loads and bubbles tell of the instructions in flight.
use computer_architecture.Base.{
  ℕ, ◌≡◌, ◌≢◌, ◌⊎◌, refl, sym, ap, subst, ◌∙◌, true, false, none, some, inl, inr, arith,
}
use computer_architecture.Memory.{Memory}
use computer_architecture.Isa.{syscall}
use computer_architecture.Pipe.State.{Regs, ExmemBuf, mask_bit}
use computer_architecture.Pipe.Stages.{SysSyscall}
use computer_architecture.Basic.State.{Sim}
use computer_architecture.Forward.Stages.{do_id, do_ex, do_forward, do_if, do_mem}
use computer_architecture.Forward.State.{sim_init}
use computer_architecture.Forward.Main.{after_wb, round}
use computer_architecture.Forward.Retire.{loads, wrote, do_id-flight, round-plain}
use computer_architecture.Forward.Latch.{
  do_id-IsLatched, do_id-mark, control-em, control-de, before_id, do_ex-moves, before_id-moves,
  do_mem-clears,
}

module _ {Space : Type 0} where
  -- No latch has two results; the marks are those of the loads in `de` and `em`, and a load in `de`
  -- has its mark; and a latch that is no load but has the register of one repeats the load ahead of
  -- it.
  pub record IsSettled (s : Sim Space) : Type 0 where
    pub one_in_de : (s.de.dst_m ≡ none) ⊎ (s.de.dst_e ≡ none)
    pub one_in_em : (s.em.dst_m ≡ none) ⊎ (s.em.dst_e ≡ none)
    pub load_de : loads s.de.rw ≡ true → s.de.dst_e ≡ none
    pub of_load :
        (k : ℕ)
        → s.ctl.regs k ≡ true
        → ((loads s.de.rw ≡ true) × (mask_bit s.de.dst_m ≡ k))
          ⊎ ((loads s.em.rw ≡ true) × (mask_bit s.em.dst_m ≡ k))
    pub marked : loads s.de.rw ≡ true → s.ctl.regs (mask_bit s.de.dst_m) ≡ true
    pub de_repeats : loads s.de.rw ≡ false → (s.de.dst_m ≡ none) ⊎ (s.de.dst_m ≡ s.em.dst_m)
    pub em_repeats :
        loads s.em.rw ≡ false
        → (s.em.dst_m ≡ none) ⊎ ((s.em.dst_m ≡ s.mw.dst_m) × (s.mw.dst_e ≡ none))

  -- In front of decode the marks are those of the load that has left it.
  pub before_id-of_load :
      (M : Memory Space) (s : Sim Space)
      → IsSettled s
      → (k : ℕ) → (before_id M s).ctl.regs k ≡ true
      → (loads s.de.rw ≡ true) × (mask_bit s.de.dst_m ≡ k)
  before_id-of_load M s h k mark =
      let w = wrote s in
      let e = (control-em s).1 in
      let (was, other) =
        do_mem-clears M w k (sym (ap (λ f. f k) (do_ex-moves (do_mem M w)).5) ∙ mark) in
      elim (h.of_load k (sym (ap (λ f. f k) (control-de s).3) ∙ was)) [
        | inl here ↦ here
        | inr (load, at) ↦ absurd (
            other (
              ap (λ (z : ExmemBuf). loads z.rw) e ∙ load,
              ap (λ (z : ExmemBuf). mask_bit z.dst_m) e ∙ at,
            ))
      ]

  after_wb-IsSettled :
      (M : Memory Space) (sys_syscall : SysSyscall Space) (w : Sim Space)
      → IsSettled (do_id (do_ex (do_mem M w)))
      → IsSettled (after_wb M sys_syscall w)
  unfolding after_wb do_if do_forward
  after_wb-IsSettled M sys_syscall w h = record {
    one_in_de = h.one_in_de;
    one_in_em = h.one_in_em;
    load_de = h.load_de;
    of_load = h.of_load;
    marked = h.marked;
    de_repeats = h.de_repeats;
    em_repeats = h.em_repeats;
  }

-- The latches of `sim_init` are settled.
pub sim_init-IsSettled :
    {Space : Type 0} (regs : Regs) (mem : Space) (s : Sim Space) → IsSettled (sim_init regs mem s)
unfolding sim_init
sim_init-IsSettled regs mem s = record {
  one_in_de = inl refl;
  one_in_em = inl refl;
  load_de = λ h. refl;
  of_load = λ k h. absurd (ground (arith, h));
  marked = λ h. absurd (ground (arith, h));
  de_repeats = λ h. inl refl;
  em_repeats = λ h. inl refl;
}

-- A round that writes back no system call keeps the latches settled.
pub round-IsSettled :
    {Space : Type 0} (M : Memory Space) (sys_syscall : SysSyscall Space) (s s' : Sim Space)
    → IsSettled s
    → s.mw.inst.a ≢ syscall
    → round M sys_syscall s ≡ some s'
    → IsSettled s'
round-IsSettled M sys_syscall s s' h plain e =
    let x = before_id M s in
    let k = before_id-moves M s in
    let l = do_id-IsLatched x in
    let f = do_id-flight M x in
    subst IsSettled (round-plain M sys_syscall s s' plain e) (
      after_wb-IsSettled M sys_syscall (wrote s) (record {
        one_in_de = l.0 (ground (arith, k, h.one_in_de));
        one_in_em = ground (arith, k, f, h.one_in_de);
        load_de = l.3;
        of_load = λ n m. elim (do_id-mark x n m) [
          | inl old ↦
              let was = before_id-of_load M s h n old in
              inr (ground (arith, was, k, f), ground (arith, was, k, f))
          | inr new ↦ inl new
        ];
        marked = l.1;
        de_repeats = λ n. ground (arith, k, f, l.2 n);
        em_repeats = λ n. ground (arith, k, f, h.de_repeats, h.one_in_em, n);
      }))
