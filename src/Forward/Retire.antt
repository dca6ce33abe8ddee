-- ===== src/Forward/Retire.antt =====
-- What the instructions in flight in Project1/part2/sim-pipe.c still do to the registers and the
-- memory.
use computer_architecture.Base.{
  ℕ, ◌/◌, ◌%◌, ◌^◌, ◌<◌, ◌≡◌, ◌≢◌, refl, sym, ap, ◌∙◌, Bool, true, false, some, inl, inr,
  Bool-cases, ◌==◌, if◌then◌else◌, arith,
}
use mathlib.Core.Option
use mathlib.Core.Option.{some-injective}
use computer_architecture.Memory.{Memory, IsAligned}
use computer_architecture.Isa.{Dep, syscall}
use computer_architecture.Pipe.State.{Regs, IdexBuf, ExmemBuf, MemwbBuf, set_gpr}
use computer_architecture.Pipe.Alu.{alu}
use computer_architecture.Pipe.Stages.{SysSyscall, alu_b_of}
use computer_architecture.Basic.State.{Sim}
use computer_architecture.Basic.Decode.{dispatch}
use computer_architecture.Forward.Stages.{
  pipeline_control, route, do_id, do_ex, do_wb, do_forward, do_if, do_mem, latch_wb, squash, replay,
  flag_two,
}
use computer_architecture.Forward.Main.{after_wb, round}

-- Registers and memory, and the word that was loaded last.
pub record Retired (Space : Type 0) : Type 0 where
  pub regs : Regs
  pub mem : Space
  pub val_m : ℕ

-- `rw & 4` and `rw & 2`.
abbrev pub loads : ℕ → Bool
loads rw = rw / 4 % 2 == 1

abbrev pub stores : ℕ → Bool
stores rw = rw / 2 % 2 == 1

-- An access of the memory stage is at an aligned address, and a store is of a word of 32 bits, and
-- not to an address of the code.
pub record IsAccess (Code : ℕ → Type 0) (rw addr src : ℕ) : Type 0 where
  pub load_at : loads rw ≡ true → IsAligned addr
  pub store_at : stores rw ≡ true → IsAligned addr × (src < 2 ^ 32) × ¬ Code addr

module _ {Space : Type 0} (M : Memory Space) where
  -- The memory stage of an access, and the write-back of its results.
  abbrev pub access : ℕ → ℕ → ℕ → Retired Space → Retired Space
  access rw addr src r =
      if loads rw
      then record r { val_m = M.read_word r.mem addr }
      else if stores rw
      then record r { mem = M.write_word r.mem addr src }
      else r

  abbrev pub written : Dep → Dep → ℕ → Retired Space → Retired Space
  written dst_m dst_e val_e r = record r {
    regs = set_gpr (set_gpr r.regs dst_m r.val_m) dst_e val_e;
  }

  -- The instructions in `mw` and `em` have finished, in this order.
  abbrev drain : ExmemBuf → MemwbBuf → Regs → Space → Retired Space
  drain em mw regs mem = written em.dst_m em.dst_e em.val_e (
      access em.rw em.val_e em.val_a (record {
        regs = set_gpr (set_gpr regs mw.dst_m mw.val_m) mw.dst_e mw.val_e;
        mem = mem;
        val_m = mw.val_m;
      }))

  abbrev pub drained : Sim Space → Retired Space
  drained s = drain s.em s.mw s.regs s.mem

  -- The instruction in `de`, from the execute stage on.
  abbrev pub finish : IdexBuf → Retired Space → Retired Space
  finish de r =
      let val_e = alu de.func de.alu_a (alu_b_of de) in
      written de.dst_m de.dst_e val_e (access de.rw val_e de.val_a r)

  -- `wb` has written, and `mw` is about to be replaced.
  abbrev begun : Sim Space → Retired Space
  begun w = written w.em.dst_m w.em.dst_e w.em.val_e (
      access w.em.rw w.em.val_e w.em.val_a
        (record { regs = w.regs; mem = w.mem; val_m = w.mw.val_m }))

  -- `mw` holds an instruction that has accessed the memory.
  abbrev accessed : Sim Space → Retired Space
  accessed m =
      written m.mw.dst_m m.mw.dst_e m.mw.val_e
        (record { regs = m.regs; mem = m.mem; val_m = m.mw.val_m })

  do_mem-accessed : (w : Sim Space) → (accessed (do_mem M w) ≡ begun w) × ((do_mem M w).de ≡ w.de)
  unfolding do_mem
  do_mem-accessed w = elim (Bool-cases (loads w.em.rw)) [
    | inl load ↦ rw (load, do_mem) (refl, refl)
    | inr other ↦ elim (Bool-cases (stores w.em.rw)) [
      | inl store ↦ rw (other, store, do_mem) (refl, refl)
      | inr neither ↦ rw (other, neither, do_mem) (refl, refl)
    ]
  ]

  pub do_id-flight :
      (x : Sim Space)
      → ((do_id x).em ≡ x.em)
        × ((do_id x).mw ≡ x.mw)
        × ((do_id x).regs ≡ x.regs)
        × ((do_id x).mem ≡ x.mem)
  unfolding do_id dispatch route
  do_id-flight x = ground arith

  -- Decode, forwarding and fetch leave what is in flight alone.
  ends-drained : (x : Sim Space) → drained (do_if M (do_forward (do_id x))) ≡ drained x
  unfolding do_if do_forward
  ends-drained x = let k = do_id-flight x in λ i. drain (k.0 i) (k.1 i) (k.2 i) (k.3 i)

  ex-drained : (m : Sim Space) → drained (do_ex m) ≡ finish m.de (accessed m)
  unfolding do_ex
  ex-drained m = elim (Bool-cases (m.ctl.flag == 0)) [
    | inl clear ↦ rw (clear, do_ex) refl
    | inr set ↦ elim (Bool-cases (alu m.de.func m.de.alu_a (alu_b_of m.de) == 0)) [
      | inl zero ↦ rw (set, zero, do_ex) refl
      | inr other ↦ rw (set, other, do_ex) refl
    ]
  ]

  after_wb-drained :
      (sys_syscall : SysSyscall Space) (w : Sim Space)
      → drained (after_wb M sys_syscall w) ≡ finish w.de (begun w)
  unfolding after_wb
  after_wb-drained sys_syscall w =
      let m = do_mem M w in
      let kept = do_mem-accessed w in
      ends-drained (do_ex m)
      ∙ ex-drained m
      ∙ ap (λ de. finish de (accessed m)) kept.1
      ∙ ap (finish w.de) kept.0

module _ {Space : Type 0} where
  -- The state of a round behind its write-back, when that is of no system call.
  abbrev pub wrote : Sim Space → Sim Space
  wrote s =
      let c = pipeline_control s in
      record c {
        wb = latch_wb c;
        regs = set_gpr (set_gpr c.regs c.mw.dst_m c.mw.val_m) c.mw.dst_e c.mw.val_e;
      }

  do_wb-plain :
      (sys_syscall : SysSyscall Space) (c : Sim Space)
      → c.mw.inst.a ≢ syscall
      → do_wb sys_syscall c
        ≡ some (record c {
          wb = latch_wb c;
          regs = set_gpr (set_gpr c.regs c.mw.dst_m c.mw.val_m) c.mw.dst_e c.mw.val_e;
        })
  unfolding do_wb
  do_wb-plain sys_syscall c plain =
      let no : (c.mw.inst.a == syscall) ≡ false = ground arith in rw (no, do_wb) refl

  pub control-keeps :
      (s : Sim Space)
      → ((pipeline_control s).em ≡ s.em)
        × ((pipeline_control s).mw ≡ s.mw)
        × ((pipeline_control s).regs ≡ s.regs)
        × ((pipeline_control s).mem ≡ s.mem)
  unfolding pipeline_control
  control-keeps s = ground arith

  pub round-wrote :
      (M : Memory Space) (sys_syscall : SysSyscall Space) (s : Sim Space)
      → s.mw.inst.a ≢ syscall
      → round M sys_syscall s ≡ some (after_wb M sys_syscall (wrote s))
  unfolding round
  round-wrote M sys_syscall s plain = ap (Option.map (after_wb M sys_syscall)) (
      do_wb-plain sys_syscall (pipeline_control s)
        (λ h. plain (ap (λ (x : MemwbBuf). x.inst.a) (sym (control-keeps s).1) ∙ h)))

  pub round-plain :
      (M : Memory Space) (sys_syscall : SysSyscall Space) (s s' : Sim Space)
      → s.mw.inst.a ≢ syscall
      → round M sys_syscall s ≡ some s'
      → after_wb M sys_syscall (wrote s) ≡ s'
  round-plain M sys_syscall s s' plain e =
      some-injective _ _ (sym (round-wrote M sys_syscall s plain) ∙ e)

  squash-finish :
      (M : Memory Space) (s : Sim Space) (r : Retired Space)
      → finish M (squash s).de r ≡ finish M s.de r
  unfolding squash
  squash-finish M s r = elim (Bool-cases (s.ctl.cond == 0)) [
    | inl quiet ↦ rw (quiet, squash) refl
    | inr pending ↦ elim (Bool-cases (flag_two s.ctl)) [
      | inl two ↦ rw (pending, two, squash) refl
      | inr other ↦ rw (pending, other, squash) refl
    ]
  ]

  replay-finish :
      (M : Memory Space) (s : Sim Space) (r : Retired Space)
      → finish M (replay s).de r ≡ finish M s.de r
  unfolding replay
  replay-finish M s r = elim (Bool-cases s.ctl.stall) [
    | inl waits ↦ rw (waits, replay) refl
    | inr free ↦ rw (free, replay) refl
  ]

  control-finish :
      (M : Memory Space) (s : Sim Space) (r : Retired Space)
      → finish M (pipeline_control s).de r ≡ finish M s.de r
  unfolding pipeline_control
  control-finish M s r = replay-finish M (squash s) r ∙ squash-finish M s r

-- The registers and the memory once every instruction that has left decode is finished: what the
-- program sees.
abbrev pub retired : {Space : Type 0} → Memory Space → Sim Space → Retired Space
retired M s = finish M s.de (drained M s)

-- A round that writes back no system call finishes what was in the latches before it, in the order
-- of the instructions.
pub round-drained :
    {Space : Type 0} (M : Memory Space) (sys_syscall : SysSyscall Space) (s s' : Sim Space)
    → s.mw.inst.a ≢ syscall
    → round M sys_syscall s ≡ some s'
    → drained M s' ≡ retired M s
round-drained M sys_syscall s s' plain e =
    let k = control-keeps s in
    ap (drained M) (sym (round-plain M sys_syscall s s' plain e))
    ∙ after_wb-drained M sys_syscall (wrote s)
    ∙ control-finish M s (begun M (wrote s))
    ∙ (λ i. finish M s.de (drain M (k.0 i) (k.1 i) (k.2 i) (k.3 i)))
