-- ===== src/Pipe/Straight/Boot.antt =====
-- Whole programs on the pipeline of Project2/sim-pipe.c, from `sim_init` on.
use computer_architecture.Pipe.Straight.Words.{update-lt}
use computer_architecture.Base.{
  ℕ, suc, ◌+◌, ◌*◌, ◌^◌, ◌≤◌, ◌<◌, ◌≡◌, refl, sym, ap, subst, ◌∙◌, false, none, some, [],
  if◌then◌else◌, update, arith,
}
use mathlib.Core.Option.{some-injective}
use computer_architecture.Base.Word.{u32, sub32}
use computer_architecture.Memory.{Memory, IsAligned}
use computer_architecture.Memory.Table.{table}
use computer_architecture.Cache.Set.{init_cache}
use computer_architecture.Cache.Coherent.{find, IsCoherent, view_set-none}
use computer_architecture.Cache.Trace.{init_cache-IsCoherent}
use computer_architecture.Pipe.State.{Regs, Sim}
use computer_architecture.Pipe.Init.{sim_init, static_sim, reset_cache}
use computer_architecture.Pipe.Stages.{SysSyscall, pipeline_control, squash, replay}
use computer_architecture.Pipe.Main.{after_wb, Loader, sim_load_prog, sim_start, round, sim_main}
use computer_architecture.Pipe.Straight.View.{is_aligned, seen}
use computer_architecture.Pipe.Straight.Round.{wrote, round-wrote}
use computer_architecture.Pipe.Straight.Drain.{retired}
use computer_architecture.Pipe.Straight.Program.{IsStraight}
use computer_architecture.Pipe.Straight.Going.{as_fast}
use computer_architecture.Pipe.Straight.Simulate.{IsGoing-IsDone, sim_main-suc}
use computer_architecture.Pipe.Straight.Start.{IsFirst, first-IsGoing}
use computer_architecture.Fast.Insts.{Fast}
use computer_architecture.Fast.Main.{run_fast}

module _ {Space : Type 0} (M : Memory Space) where
  -- The words of a memory at aligned addresses.
  abbrev pub words_of : Space → ℕ → ℕ
  words_of mem a = if is_aligned a then M.read_word mem a else 0

  -- The functional simulator at the start of a program, with register 0 cleared.
  abbrev pub fast_start : ℕ → Regs → Space → Fast (ℕ → ℕ)
  fast_start pc regs mem = record {
    regs = update regs 0 0;
    mem = words_of mem;
    pc = pc;
    npc = u32 (pc + 8);
    num_insn = 0;
  }

  -- The pipeline in front of its loop.
  abbrev booted : ℕ → Regs → Space → Regs → Space → Sim Space
  booted pc regs mem r0 m0 =
      let s = sim_init r0 m0 (static_sim r0 m0) in
      record s { regs = update regs 0 0; mem = mem; fd = record (s.fd) { pc = sub32 pc 8 } }

  seen-start : (mem : Space) (a : ℕ) → seen M (reset_cache init_cache) mem a ≡ words_of mem a
  unfolding reset_cache init_cache
  seen-start mem a =
      ap (λ w. if is_aligned a then w else 0) (view_set-none M [] mem a (unfold find in refl))

  start-IsCoherent : (mem : Space) → IsCoherent M (reset_cache init_cache) mem
  unfolding reset_cache
  start-IsCoherent mem = init_cache-IsCoherent M mem

  booted-IsFirst :
      (Code : ℕ → Type 0) (pc : ℕ) (regs : Regs) (mem : Space) (r0 : Regs) (m0 : Space)
      → IsAligned pc
      → ((n : ℕ) → regs n < 2 ^ 32)
      → IsFirst M Code (booted pc regs mem r0 m0)
  unfolding sim_init pipeline_control squash replay
  booted-IsFirst Code pc regs mem r0 m0 h words = record {
    ready = record {
      behind = record {
        wb_written = λ n. refl;
        mw_written = λ _ n. refl;
        em_repeats = λ _. (refl, refl);
        em_plain = λ _ _. refl;
      };
      kept = λ on. start-IsCoherent mem;
      calm = (refl, refl);
      em_access = λ real. absurd (real refl);
      de_plain = λ real. absurd (real refl);
      de_access = λ real. absurd (real refl);
      de_marked = λ real. absurd (real refl);
      decode_at = omega (arith, h);
      words = λ n. update-lt regs 0 0 n words (omega arith);
    };
    bubble = refl;
    free = refl;
    no_marks = λ k. refl;
    idle_de = refl;
    idle_em = refl;
    idle_mw = refl;
    zero = refl;
  }

  start-booted :
      (ld_load_prog : Loader Space) (r0 : Regs) (m0 : Space) (s : Sim Space)
      → (let (pc, loaded) = sim_load_prog ld_load_prog (sim_init r0 m0 (static_sim r0 m0)) in
          sim_start false false pc loaded ≡ some s)
      → (let (pc, regs, mem) = ld_load_prog r0 m0 in booted pc regs mem r0 m0) ≡ s
  unfolding sim_load_prog sim_start sim_init
  start-booted ld_load_prog r0 m0 s e = some-injective _ _ e

  -- The functional simulator from where the first round leaves the pipeline.
  booted-as_fast :
      (Code : ℕ → Type 0) (pc : ℕ) (regs : Regs) (mem : Space) (r0 : Regs) (m0 : Space)
      (t : Sim Space)
      → IsAligned pc
      → retired M t ≡ retired M (booted pc regs mem r0 m0)
      → (pipeline_control t).fd.pc ≡ u32 ((pipeline_control (booted pc regs mem r0 m0)).fd.pc + 8)
      → as_fast M t 0 ≡ fast_start pc regs mem
  unfolding pipeline_control squash replay sim_init
  booted-as_fast Code pc regs mem r0 m0 t h same at =
      let here : (pipeline_control t).fd.pc ≡ pc = omega (arith, at, h) in
      (λ i. record {
        regs = (same i).regs;
        mem = (same i).mem;
        pc = here i;
        npc = u32 (here i + 8);
        num_insn = 0;
      })
      ∙ (λ i. record (fast_start pc regs mem) { mem = λ a. seen-start mem a i })

  -- The first round, and the rounds of the program.
  booted-runs :
      (Code : ℕ → Type 0) (calls : SysSyscall (ℕ → ℕ)) (sys_syscall : SysSyscall Space) (pc : ℕ)
      (regs : Regs) (mem : Space) (r0 : Regs) (m0 : Space) (s : Sim Space) (k : ℕ)
      → booted pc regs mem r0 m0 ≡ s
      → IsAligned pc
      → ((n : ℕ) → regs n < 2 ^ 32)
      → IsStraight Code calls k none (fast_start pc regs mem)
      → (rounds : ℕ) × (t : Sim Space) × (k < rounds)
        × (rounds ≤ 2 * k + 1)
        × (sim_main M sys_syscall rounds s ≡ some t)
        × (run_fast table calls k (fast_start pc regs mem) ≡ some (as_fast M t k))
  booted-runs Code calls sys_syscall pc regs mem r0 m0 s k same h words straight =
      let b = booted pc regs mem r0 m0 in
      let first = booted-IsFirst Code pc regs mem r0 m0 h words in
      let t = after_wb M sys_syscall (wrote M b) in
      let (going, kept, at) = first-IsGoing M Code calls sys_syscall b first in
      let begins : as_fast M t 0 ≡ fast_start pc regs mem =
        booted-as_fast Code pc regs mem r0 m0 t h kept at in
      let d =
        IsGoing-IsDone M Code calls sys_syscall k 0 none t going
          (subst (IsStraight Code calls k none) (sym begins) straight) in
      let one : round M sys_syscall b ≡ some t =
        round-wrote M sys_syscall b (λ e. absurd (omega (arith, e, first.idle_mw))) in
      (
        suc d.rounds,
        d.final,
        omega (arith, d.at_least),
        omega (arith, d.at_most),
        ap (sim_main M sys_syscall (suc d.rounds)) (sym same)
            ∙ sim_main-suc M Code calls sys_syscall d.rounds b t d.final one d.runs,
        ap (run_fast table calls k) (sym begins)
            ∙ d.agrees
            ∙ ap (λ j. some (as_fast M d.final j)) (omega arith),
      )

  -- From the start of the simulator, a loader that leaves an aligned program counter and
  -- registers of 32 bits, and a program whose first `k` steps on the functional simulator, from
  -- these registers with register 0 cleared and the words of this memory, are of instructions as
  -- `IsNext` has them (in the code; an addition, a shift or a comparison that does not fault, or
  -- a load or store of an aligned word, a store not into the code; not with register 0 as the
  -- target; and not a load of the register that the instruction in front has loaded): the
  -- pipeline, with its cache, takes more than `k` and at most 2 k + 1 rounds, and then the
  -- registers, the memory and the address that the program sees are those of the functional
  -- simulator after its `k` steps.
  pub program-refines :
      (Code : ℕ → Type 0) (calls : SysSyscall (ℕ → ℕ)) (sys_syscall : SysSyscall Space)
      (ld_load_prog : Loader Space) (r0 : Regs) (m0 : Space) (s : Sim Space) (k : ℕ)
      → (let (pc, loaded) = sim_load_prog ld_load_prog (sim_init r0 m0 (static_sim r0 m0)) in
          sim_start false false pc loaded ≡ some s)
      → IsAligned (ld_load_prog r0 m0).0
      → ((n : ℕ) → (ld_load_prog r0 m0).1 n < 2 ^ 32)
      → (let (pc, regs, mem) = ld_load_prog r0 m0 in
          IsStraight Code calls k none (fast_start pc regs mem))
      → let (pc, regs, mem) = ld_load_prog r0 m0 in
        (rounds : ℕ) × (t : Sim Space) × (k < rounds)
        × (rounds ≤ 2 * k + 1)
        × (sim_main M sys_syscall rounds s ≡ some t)
        × (run_fast table calls k (fast_start pc regs mem) ≡ some (as_fast M t k))
  program-refines Code calls sys_syscall ld_load_prog r0 m0 s k starts h words straight =
      let (pc, regs, mem) = ld_load_prog r0 m0 in
      booted-runs Code calls sys_syscall pc regs mem r0 m0 s k
        (start-booted ld_load_prog r0 m0 s starts) h words straight
