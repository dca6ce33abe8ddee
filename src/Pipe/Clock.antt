-- ===== src/Pipe/Clock.antt =====
-- The clock of Project2/sim-pipe.c.
use computer_architecture.Base.{
  ℕ, zero, suc, ◌+◌, ◌*◌, ◌≤◌, ◌≡◌, sym, ap, ◌∙◌, none, some, inl, inr, Option-cases, arith,
}
use mathlib.Core.Option
use mathlib.Core.Option.{some-injective}
use computer_architecture.Base.Word.{u32}
use computer_architecture.Memory.{Memory}
use computer_architecture.Cache.Set.{Cache}
use computer_architecture.Cache.Line.{CacheWordFunc, cache_word_read, cache_word_write}
use computer_architecture.Cache.Access.{cache_access, cache_read, cache_write, fill}
use computer_architecture.Pipe.State.{Sim}
use computer_architecture.Pipe.Decode.{do_id, select, route}
use computer_architecture.Pipe.Stages.{
  SysSyscall, fetch, do_if, do_mem, mem_load, mem_store, do_ex, do_forward, do_wb, call_system,
  pipeline_control, next_pc,
}
use computer_architecture.Pipe.Main.{after_wb, round, sim_main}

-- The clock goes on by `low` to `high` cycles.
abbrev pub Within : ℕ → ℕ → ℕ → ℕ → Type 0
Within low high clk clk' = (clk + low ≤ clk') × (clk' ≤ clk + high)

module _ {Space : Type 0} (M : Memory Space) where
  access-cycles :
      (c : Cache) (s : Space) (a word : ℕ) (func : CacheWordFunc)
      → Within 1 10 0 (cache_access M c s a word func).cycles
  unfolding cache_access fill
  access-cycles c s a word func = ground arith

  read-cycles :
      (c : Cache) (s : Space) (a word : ℕ) → Within 1 10 0 (cache_read M c s a word).cycles
  unfolding cache_read
  read-cycles c s a word = access-cycles c s a word cache_word_read

  write-cycles :
      (c : Cache) (s : Space) (a word : ℕ) → Within 1 10 0 (cache_write M c s a word).cycles
  unfolding cache_write
  write-cycles c s a word = access-cycles c s a word cache_word_write

  do_if-clock : (s : Sim Space) → Within 2 20 s.num_clk (do_if M s).num_clk
  unfolding do_if fetch
  do_if-clock s =
      let pc = next_pc s in
      let first = cache_read M s.cache s.mem pc 0 in
      ground (
        arith,
        read-cycles s.cache s.mem pc 0,
        read-cycles first.cache first.space (u32 (pc + 4)) 0,
      )

  do_mem-clock : (s : Sim Space) → Within 0 10 s.num_clk (do_mem M s).num_clk
  unfolding do_mem mem_load mem_store
  do_mem-clock s = ground (
    arith,
    read-cycles s.cache s.mem s.em.val_e s.mw.val_m,
    write-cycles s.cache s.mem s.em.val_e s.em.val_a,
  )

  do_ex-clock : (s : Sim Space) → (do_ex s).num_clk ≡ s.num_clk
  unfolding do_ex
  do_ex-clock s = ground arith

  do_id-clock : (s : Sim Space) → (do_id s).num_clk ≡ s.num_clk
  unfolding do_id select route
  do_id-clock s = ground arith

  control-clock : (s : Sim Space) → (pipeline_control s).num_clk ≡ s.num_clk
  unfolding pipeline_control
  control-clock s = ground arith

  do_wb-clock :
      (sys_syscall : SysSyscall Space) (s s' : Sim Space)
      → do_wb M sys_syscall s ≡ some s'
      → s'.num_clk ≡ s.num_clk
  unfolding do_wb call_system
  do_wb-clock sys_syscall s s' e = ground (arith, e)

  after_wb-clock :
      (sys_syscall : SysSyscall Space) (w : Sim Space)
      → Within 3 31 w.num_clk (after_wb M sys_syscall w).num_clk
  unfolding after_wb do_forward
  after_wb-clock sys_syscall w =
      let m = do_mem M w in
      let x = do_ex m in
      omega
        (arith, do_mem-clock w, do_ex-clock m, do_id-clock x, do_if-clock (do_forward (do_id x)))

  round-clock :
      (sys_syscall : SysSyscall Space) (s s' : Sim Space)
      → round M sys_syscall s ≡ some s'
      → Within 3 31 s.num_clk s'.num_clk
  unfolding round
  round-clock sys_syscall s s' e = elim (Option-cases (do_wb M sys_syscall (pipeline_control s))) [
    | inl ends ↦ absurd (ground (arith, ends, e))
    | inr (w, wrote) ↦
        let same : after_wb M sys_syscall w ≡ s' =
          some-injective _ _ (sym (ap (Option.map (after_wb M sys_syscall)) wrote) ∙ e) in
        omega (
          arith,
          control-clock s,
          do_wb-clock sys_syscall (pipeline_control s) w wrote,
          after_wb-clock sys_syscall w,
          ap (λ (z : Sim Space). z.num_clk) same,
        )
  ]

  -- A run that a system call does not end takes at least 3 and at most 31 cycles for a round,
  -- with the cache and without it.
  pub sim_main-clock :
      (sys_syscall : SysSyscall Space) (n : ℕ) (s s' : Sim Space)
      → sim_main M sys_syscall n s ≡ some s'
      → (s.num_clk + n * 3 ≤ s'.num_clk) × (s'.num_clk ≤ s.num_clk + n * 31)
  unfolding sim_main
  sim_main-clock sys_syscall zero s s' e =
      let same : s ≡ s' = some-injective _ _ e in
      omega (arith, ap (λ (z : Sim Space). z.num_clk) same)
  sim_main-clock sys_syscall (suc n) s s' e = elim (Option-cases (round M sys_syscall s)) [
    | inl ends ↦ absurd (ground (arith, ends, e))
    | inr (t, one) ↦
        let rest : sim_main M sys_syscall n t ≡ some s' =
          sym (ap (λ o. elim o [ none ↦ none | some z ↦ sim_main M sys_syscall n z ]) one) ∙ e in
        omega (arith, round-clock sys_syscall s t one, sim_main-clock sys_syscall n t s' rest)
  ]
