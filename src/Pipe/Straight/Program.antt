-- ===== src/Pipe/Straight/Program.antt =====
-- Straight-line programs: what an instruction of one is, on the functional simulator of
-- Project1/part1/sim-fast.c.
use computer_architecture.Pipe.Straight.Words.{execute-lw, execute-sw}
use computer_architecture.Base.{
  ℕ, zero, suc, ◌+◌, ◌≡◌, ◌≢◌, ◌⊎◌, refl, sym, ap, subst, ◌∙◌, none, some, inl, inr, ◌==◌,
  if◌then◌else◌, update, arith,
}
use mathlib.Core.Option.{some-injective}
use computer_architecture.Base.Word.{u32, sign_extend}
use computer_architecture.Memory.Table.{table}
use computer_architecture.Isa.{Inst, Dep, opfield, field, rt, rs, lw, sw}
use computer_architecture.Pipe.State.{Regs, mask_bit}
use computer_architecture.Pipe.Stages.{SysSyscall}
use computer_architecture.Basic.Decode.{fetch_inst}
use computer_architecture.Fast.Agree.{IsCommon}
use computer_architecture.Fast.Insts.{Fast, execute, target_field, write_result}
use computer_architecture.Fast.Main.{step}
use computer_architecture.Forward.Issue.{CanRun, IsReach}
use computer_architecture.Forward.Runs.{execute-result}

-- The register that an instruction loads, if it is a load.
abbrev pub loaded_by : Inst → Dep
loaded_by i = if opfield i == lw then some (field rt i.b) else none

update-zero : (regs : Regs) (d v : ℕ) → d ≢ 0 → update regs d v 0 ≡ regs 0
update-zero regs d v ne = ground (arith, ne)

common-target :
    (op b : ℕ) → IsCommon op → (op ≡ sw) ⊎ (target_field op b ≢ 0) → target_field op b ≢ 0
common-target op b c (inl e) = absurd (ground (arith, c, e))
common-target op b c (inr ne) = ne

load-target : (op b : ℕ) → op ≡ lw → (op ≡ sw) ⊎ (target_field op b ≢ 0) → field rt b ≢ 0
load-target op b load (inl e) = absurd (omega (arith, load, e))
load-target op b load (inr ne) = λ z. ne (ap (λ o. target_field o b) load ∙ z)

module _ (Code : ℕ → Type 0) (calls : SysSyscall (ℕ → ℕ)) where
  abbrev pub next_inst : Fast (ℕ → ℕ) → Inst
  next_inst m = fetch_inst table m.mem m.pc

  -- The next instruction is in the code; it is an addition, a shift or a comparison that does not
  -- fault, or a load or store of an aligned word, a store not into the code; it has not register 0
  -- as its target; and it does not load the register that the instruction before it has loaded.
  pub record IsNext (last : Dep) (m : Fast (ℕ → ℕ)) : Type 0 where
    pub first_word : Code m.pc
    pub second_word : Code (u32 (m.pc + 4))
    pub can : CanRun (opfield (next_inst m)) m.regs (next_inst m).b
    pub reach : IsReach Code (opfield (next_inst m)) m.regs (next_inst m).b
    pub target :
        (opfield (next_inst m) ≡ sw) ⊎ (target_field (opfield (next_inst m)) (next_inst m).b ≢ 0)
    pub apart :
        (l : ℕ)
        → last ≡ some l
        → opfield (next_inst m) ≡ lw
        → mask_bit (some l) ≢ mask_bit (some (field rt (next_inst m).b))

  -- A number of such instructions, as the functional simulator runs them.
  unfoldable pub IsStraight : ℕ → Dep → Fast (ℕ → ℕ) → Type 0
  IsStraight zero last m = Unit {0}
  IsStraight (suc k) last m = IsNext last m × elim (step table calls m) [
    | none ↦ Unit {0}
    | some m' ↦ IsStraight k (loaded_by (next_inst m)) m'
  ]

  -- Register 0 stays as it is.
  pub execute-zero :
      (op : ℕ) (i : Inst) (m m' : Fast (ℕ → ℕ))
      → CanRun op m.regs i.b
      → (op ≡ sw) ⊎ (target_field op i.b ≢ 0)
      → execute table calls op i m ≡ some m'
      → m'.regs 0 ≡ m.regs 0
  execute-zero op i m m' can target e = elim can [
    | inl (c, (v, is)) ↦
        let done =
          sym (
            execute-result table calls op i m c
            ∙ ap (λ o. some (write_result m (target_field op i.b) o)) is)
          ∙ e in
        subst (λ (z : Fast (ℕ → ℕ)). z.regs 0 ≡ m.regs 0) (some-injective _ _ done)
          (update-zero m.regs (target_field op i.b) v (common-target op i.b c target))
    | inr (inl load) ↦
        subst (λ (z : Fast (ℕ → ℕ)). z.regs 0 ≡ m.regs 0)
          (some-injective _ _
            (sym (execute-lw calls i m) ∙ ap (λ o. execute table calls o i m) (sym load) ∙ e))
          (update-zero m.regs (field rt i.b)
            (u32 (m.mem (u32 (m.regs (field rs i.b) + sign_extend i.b))))
            (load-target op i.b load target))
    | inr (inr store) ↦
        subst (λ (z : Fast (ℕ → ℕ)). z.regs 0 ≡ m.regs 0)
          (some-injective _ _
            (sym (execute-sw calls i m) ∙ ap (λ o. execute table calls o i m) (sym store) ∙ e))
          refl
  ]
