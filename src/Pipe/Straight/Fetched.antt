-- ===== src/Pipe/Straight/Fetched.antt =====
-- One step of the functional simulator, and the words that a round of Project2/sim-pipe.c fetches.
use computer_architecture.Pipe.Straight.Calm.{control-calm}
use computer_architecture.Base.{ℕ, ◌+◌, ◌≡◌, sym, ap, ◌∙◌, false, some, update, arith}
use mathlib.Core.Option
use computer_architecture.Base.Word.{u32}
use computer_architecture.Memory.{Memory}
use computer_architecture.Memory.Table.{table}
use computer_architecture.Isa.{opfield}
use computer_architecture.Pipe.State.{Regs, IfidBuf, Sim}
use computer_architecture.Pipe.Stages.{SysSyscall, pipeline_control}
use computer_architecture.Pipe.Straight.View.{flat, seen-lt}
use computer_architecture.Pipe.Straight.Drain.{retired}
use computer_architecture.Pipe.Straight.Ready.{IsReady, IsEnding}
use computer_architecture.Pipe.Straight.Step.{IsIssue}
use computer_architecture.Pipe.Straight.Marks.{}
use computer_architecture.Pipe.Straight.Going.{as_fast, retired-Code}
use computer_architecture.Forward.Issue.{fast}
use computer_architecture.Fast.Main.{step, advance}
use computer_architecture.Basic.Decode.{fetch_inst}
use computer_architecture.Fast.Insts.{execute}

update_zero : (regs : Regs) → regs 0 ≡ 0 → update regs 0 0 ≡ regs
update_zero regs zero =
    let at : (n : ℕ) → update regs 0 0 n ≡ regs n = λ n. ground (arith, zero) in λ i n. at n i

module _ {Space : Type 0} (M : Memory Space) (Code : ℕ → Type 0) (calls : SysSyscall (ℕ → ℕ)) where
  -- One step of the functional simulator, once register 0 is zero and the word is the one decoded.
  pub step-as_fast :
      (s s' : Sim Space) (n : ℕ)
      → IsIssue M Code calls s s'
      → (retired M s).regs 0 ≡ 0
      → (pipeline_control s).fd.inst ≡ fetch_inst table (retired M s).mem (pipeline_control s).fd.pc
      → step table calls (as_fast M s n) ≡ some (as_fast M s' (n + 1))
  unfolding step
  step-as_fast s s' n h zero word =
      let r = retired M s in
      let pc = (pipeline_control s).fd.pc in
      let npc = u32 (pc + 8) in
      ap
        (λ regs.
          let i = fetch_inst table r.mem pc in
          Option.map (advance table calls) (
            execute table calls (opfield i) i
              (record { regs = regs; mem = r.mem; pc = pc; npc = npc; num_insn = n + 1 })))
        (update_zero r.regs zero)
      ∙ ap
          (λ i.
            Option.map (advance table calls)
              (execute table calls (opfield i) i (fast pc npc (n + 1) r)))
          (sym word)
      ∙ ap (Option.map (advance table calls)) (h.effect pc npc (n + 1))
      ∙ (λ i. some (record {
        regs = (retired M s').regs;
        mem = (retired M s').mem;
        pc = sym h.next_pc i;
        npc = u32 (sym h.next_pc i + 8);
        num_insn = n + 1;
      }))

  -- The words that a round has fetched are those of the program.
  pub fetched-word :
      (s s' : Sim Space)
      → IsEnding M Code s s'
      → IsReady M Code s'
      → s'.ctl.stall ≡ false
      → let pc = (pipeline_control s').fd.pc in
        Code pc
        → Code (u32 (pc + 4))
        → (pipeline_control s').fd.inst ≡ fetch_inst table (retired M s').mem pc
  fetched-word s s' r ready goes first second =
      let pc = (pipeline_control s').fd.pc in
      let fd = ((control-calm M Code s' r.calm).2 goes).0 in
      let at : pc ≡ s'.fd.pc = ap (λ (f : IfidBuf). f.pc) fd in
      let value : (a : ℕ) → Code a → flat M s' a ≡ u32 ((retired M s').mem a) = λ a code. omega (
        arith,
        retired-Code M Code s' a ready.em_access ready.de_access code,
        seen-lt M s'.cache s'.mem a ready.kept,
      ) in
      ap (λ (f : IfidBuf). f.inst) fd
      ∙ r.fetched
      ∙ (λ i. record { a = flat M s' (sym at i); b = flat M s' (u32 (sym at i + 4)) })
      ∙ (λ i. record { a = value pc first i; b = value (u32 (pc + 4)) second i })
