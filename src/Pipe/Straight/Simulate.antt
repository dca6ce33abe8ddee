-- ===== src/Pipe/Straight/Simulate.antt =====
-- Straight-line programs on the pipeline of Project2/sim-pipe.c with its cache, against the loop of the
-- functional simulator.
use computer_architecture.Pipe.Straight.Words.{CanRun-kind}
use computer_architecture.Pipe.Straight.Calm.{before_id-moves}
use computer_architecture.Base.{
  ℕ, zero, suc, ◌+◌, ◌*◌, ◌≤◌, ◌≡◌, ◌≢◌, ◌⊎◌, refl, sym, ap, subst, ◌∙◌, none, some, inl, inr,
  arith,
}
use computer_architecture.Memory.{Memory}
use computer_architecture.Memory.Table.{table}
use computer_architecture.Isa.{Dep, opfield, nop}
use computer_architecture.Pipe.State.{IfidBuf, Sim}
use computer_architecture.Pipe.Decode.{select, set_func}
use computer_architecture.Pipe.Stages.{SysSyscall, pipeline_control}
use computer_architecture.Pipe.Main.{after_wb, round, sim_main}
use computer_architecture.Pipe.Straight.Round.{
  wrote, before_id, as_basic, round-wrote, do_id-cases, select-picks,
}
use computer_architecture.Pipe.Straight.Drain.{retired, do_id-IsSame}
use computer_architecture.Pipe.Straight.Ready.{round-IsEnding}
use computer_architecture.Pipe.Straight.Program.{loaded_by, next_inst, IsNext, IsStraight}
use computer_architecture.Pipe.Straight.Going.{as_fast, IsGoing, Waits-IsGoing}
use computer_architecture.Pipe.Straight.Issued.{Issues-IsGoing}
use computer_architecture.Fast.Main.{step, run_fast}
use computer_architecture.Forward.Issue.{CanRun}
use computer_architecture.Forward.Runs.{all-IsRun}
use computer_architecture.Forward.Refine.{CanRun-real}

module _ {Space : Type 0} (M : Memory Space) (Code : ℕ → Type 0) (calls : SysSyscall (ℕ → ℕ))
    (sys_syscall : SysSyscall Space) where
  -- The state that a round leaves.
  abbrev after_round : Sim Space → Sim Space
  after_round s = after_wb M sys_syscall (wrote M s)

  -- A round that waits, and one that issues.
  abbrev Held : Dep → Sim Space → Type 0
  Held last s =
      IsGoing M Code calls last (after_round s)
      × ((pipeline_control (after_round s)).de.inst.a ≡ nop)
      × ((pipeline_control s).de.inst.a ≢ nop)
      × ((n : ℕ) → as_fast M (after_round s) n ≡ as_fast M s n)

  abbrev Gone : Sim Space → ℕ → Sim Space → Type 0
  Gone s n t =
      IsGoing M Code calls (loaded_by (next_inst Code calls (as_fast M s n))) t
      × (step table calls (as_fast M s n) ≡ some (as_fast M t (n + 1)))

  IsGoing-round :
      (last : Dep) (s : Sim Space) (n : ℕ)
      → IsGoing M Code calls last s
      → IsNext Code calls last (as_fast M s n)
      → Held last s ⊎ Gone s n (after_round s)
  IsGoing-round last s n h next =
      let i = (pipeline_control s).fd.inst in
      let x = before_id M s in
      let R = (retired M s).regs in
      let word = h.at_word next.first_word next.second_word in
      let can : CanRun (opfield i) R i.b =
        subst (λ i. CanRun (opfield i) R i.b) (sym word) next.can in
      let run = all-IsRun table calls (opfield i) R i.b can in
      let is : opfield x.fd.inst ≡ opfield i =
        ap (λ (f : IfidBuf). opfield f.inst) (before_id-moves M Code s).0 in
      let pick : (t : Sim Space) → t.de.opcode ≡ opfield i → select t ≡ set_func t run.func = λ t e.
        select-picks M t (CanRun-kind t.de.opcode R i.b (subst (λ o. CanRun o R i.b) (sym e) can))
        ∙ ap (λ b. set_func t b.de.func) (run.picked (as_basic M t) e) in
      let id =
        do_id-cases M x (opfield i) run.line run.func is (CanRun-real (opfield i) R i.b can)
          run.defined pick in
      let r = round-IsEnding M Code sys_syscall s h.ready (do_id-IsSame M x run.line run.func id) in
      elim id [
        | inl held ↦ inl (Waits-IsGoing M Code calls last s (after_round s) run.line h r held)
        | inr go ↦
            let (h', one) = Issues-IsGoing M Code calls last s (after_round s) run n h next r go in
            inr (subst (λ i. IsGoing M Code calls (loaded_by i) (after_round s)) word h', one)
      ]

  -- One instruction takes one round or two.
  IsGoing-step :
      (last : Dep) (s : Sim Space) (n : ℕ)
      → IsGoing M Code calls last s
      → IsNext Code calls last (as_fast M s n)
      → Gone s n (after_round s)
        ⊎ (IsGoing M Code calls last (after_round s) × Gone s n (after_round (after_round s)))
  IsGoing-step last s n h next = elim (IsGoing-round last s n h next) [
    | inr gone ↦ inl gone
    | inl (h', idle, _, same) ↦
        let next' = subst (IsNext Code calls last) (sym (same n)) next in
        elim (IsGoing-round last (after_round s) n h' next') [
          | inl (_, _, live, _) ↦ absurd (live idle)
          | inr (h'', one) ↦
              let t = after_round (after_round s) in
              inr (
                h',
                subst
                    (λ m.
                      IsGoing M Code calls (loaded_by (next_inst Code calls m)) t
                      × (step table calls m ≡ some (as_fast M t (n + 1))))
                    (same n) (h'', one),
              )
        ]
  ]

  round-after :
      (last : Dep) (s : Sim Space)
      → IsGoing M Code calls last s
      → round M sys_syscall s ≡ some (after_round s)
  round-after last s h = round-wrote M sys_syscall s h.mw_call

  -- The rounds that a number of instructions take, and the state in the end.
  pub record IsDone (k n : ℕ) (s : Sim Space) : Type 0 where
    pub rounds : ℕ
    pub final : Sim Space
    pub at_least : k ≤ rounds
    pub at_most : rounds ≤ 2 * k
    pub runs : sim_main M sys_syscall rounds s ≡ some final
    pub agrees : run_fast table calls k (as_fast M s n) ≡ some (as_fast M final (n + k))
    pub last : Dep
    pub going : IsGoing M Code calls last final

  run_fast-suc :
      (k n : ℕ) (s t u : Sim Space)
      → step table calls (as_fast M s n) ≡ some (as_fast M t (n + 1))
      → run_fast table calls k (as_fast M t (n + 1)) ≡ some (as_fast M u (n + 1 + k))
      → run_fast table calls (suc k) (as_fast M s n) ≡ some (as_fast M u (n + suc k))
  unfolding run_fast
  run_fast-suc k n s t u one rest =
      ap (λ o. elim o [ none ↦ none | some m' ↦ run_fast table calls k m' ]) one
      ∙ rest
      ∙ ap (λ j. some (as_fast M u j)) (omega arith)

  pub sim_main-suc :
      (k : ℕ) (s t u : Sim Space)
      → round M sys_syscall s ≡ some t
      → sim_main M sys_syscall k t ≡ some u
      → sim_main M sys_syscall (suc k) s ≡ some u
  unfolding sim_main
  sim_main-suc k s t u one rest =
      ap (λ o. elim o [ none ↦ none | some s' ↦ sim_main M sys_syscall k s' ]) one ∙ rest

  pub IsGoing-IsDone :
      (k n : ℕ) (last : Dep) (s : Sim Space)
      → IsGoing M Code calls last s
      → IsStraight Code calls k last (as_fast M s n)
      → IsDone k n s
  unfolding IsStraight sim_main run_fast
  IsGoing-IsDone zero n last s h straight = record {
    rounds = 0;
    final = s;
    at_least = omega arith;
    at_most = omega arith;
    runs = refl;
    agrees = ap (λ j. some (as_fast M s j)) (omega arith);
    last = last;
    going = h;
  }
  IsGoing-IsDone (suc k) n last s h (next, straight) =
      let i = next_inst Code calls (as_fast M s n) in
      let rest : (t : Sim Space)
          → Gone s n t
          → IsStraight Code calls k (loaded_by i) (as_fast M t (n + 1)) =
        λ t gone.
          subst
            (λ o. elim o [ none ↦ Unit {0} | some m' ↦ IsStraight Code calls k (loaded_by i) m' ])
            gone.1 straight in
      elim (IsGoing-step last s n h next) [
        | inl gone ↦
            let t = after_round s in
            let d = IsGoing-IsDone k (n + 1) (loaded_by i) t gone.0 (rest t gone) in
            record {
              rounds = suc d.rounds;
              final = d.final;
              at_least = omega (arith, d.at_least);
              at_most = omega (arith, d.at_most);
              runs = sim_main-suc d.rounds s t d.final (round-after last s h) d.runs;
              agrees = run_fast-suc k n s t d.final gone.1 d.agrees;
              last = d.last;
              going = d.going;
            }
        | inr (h', gone) ↦
            let u = after_round s in
            let t = after_round u in
            let d = IsGoing-IsDone k (n + 1) (loaded_by i) t gone.0 (rest t gone) in
            record {
              rounds = suc (suc d.rounds);
              final = d.final;
              at_least = omega (arith, d.at_least);
              at_most = omega (arith, d.at_most);
              runs =
                  sim_main-suc (suc d.rounds) s u d.final (round-after last s h)
                    (sim_main-suc d.rounds u t d.final (round-after last u h') d.runs);
              agrees = run_fast-suc k n s t d.final gone.1 d.agrees;
              last = d.last;
              going = d.going;
            }
      ]
