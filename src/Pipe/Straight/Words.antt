-- ===== src/Pipe/Straight/Words.antt =====
-- The instructions that the pipelines share with the functional simulator keep the registers words of
-- 32 bits.
use computer_architecture.Base.{
  ℕ, ◌+◌, ◌^◌, ◌<◌, ◌≡◌, ◌≢◌, ◌⊎◌, refl, sym, ap, subst, ◌∙◌, true, false, none, some, inl, inr,
  update, arith,
}
use mathlib.Core.Option.{some-injective}
use computer_architecture.Base.Word.{u32, sign_extend}
use computer_architecture.Memory.Table.{table}
use computer_architecture.Isa.{field, rs, rt, Inst, opfield, nop, multu as multu_op, lw, sw}
use computer_architecture.Pipe.State.{Regs, IdexBuf, ControlBuf, mask_bit}
use computer_architecture.Pipe.Stages.{SysSyscall}
use computer_architecture.Pipe.Straight.Refine.{}
use computer_architecture.Fast.Agree.{
  IsCommon, result-add, result-addi, result-addu, result-addiu, result-sll, result-slti,
}
use computer_architecture.Fast.Insts.{Fast, execute, result, target_field, write_result}
use computer_architecture.Forward.Retire.{loads}
use computer_architecture.Forward.Issue.{CanRun}
use computer_architecture.Forward.Runs.{execute-result}

pub CanRun-kind :
    (op : ℕ) (regs : Regs) (b : ℕ) → CanRun op regs b → IsCommon op ⊎ (op ≡ lw) ⊎ (op ≡ sw)
CanRun-kind op regs b (inl (c, _)) = inl c
CanRun-kind op regs b (inr k) = inr k

-- The register for a loaded word, and its mark.
abbrev pub IsPlainLatch : IdexBuf → Type 0
IsPlainLatch de = loads de.rw ≡ false → de.dst_m ≡ none

abbrev pub IsMarkedLatch : ControlBuf → IdexBuf → Type 0
IsMarkedLatch ctl de = loads de.rw ≡ true → ctl.regs (mask_bit de.dst_m) ≡ true

pub CanRun-single : (op : ℕ) (regs : Regs) (b : ℕ) → CanRun op regs b → op ≢ multu_op
CanRun-single op regs b (inl (c, _)) = ground (arith, c)
CanRun-single op regs b (inr (inl e)) = omega arith
CanRun-single op regs b (inr (inr e)) = omega arith

pub opfield-nop : (i : Inst) → i.a ≡ nop → opfield i ≡ nop
opfield-nop i e = omega (arith, e)

result-lt : (op : ℕ) (regs : Regs) (b v : ℕ) → IsCommon op → result op regs b ≡ some v → v < 2 ^ 32
result-lt op regs b v c e =
    let P : ℕ → Type 0 = λ op. result op regs b ≡ some v → v < 2 ^ 32 in
    let all : P op = elim c [
      | inl o ↦ subst P (sym o) (λ e. omega (arith, result-add regs b v e))
      | inr (inl o) ↦ subst P (sym o) (λ e. omega (arith, result-addi regs b v e))
      | inr (inr (inl o)) ↦ subst P (sym o) (λ e. omega (arith, result-addu regs b v e))
      | inr (inr (inr (inl o))) ↦ subst P (sym o) (λ e. omega (arith, result-addiu regs b v e))
      | inr (inr (inr (inr (inl o)))) ↦ subst P (sym o) (λ e. omega (arith, result-sll regs b v e))
      | inr (inr (inr (inr (inr o)))) ↦
          subst P (sym o) (λ e. ground (arith, result-slti regs b v e))
    ] in
    all e

pub update-lt :
    (regs : Regs) (d v n : ℕ)
    → ((k : ℕ) → regs k < 2 ^ 32)
    → v < 2 ^ 32
    → update regs d v n < 2 ^ 32
update-lt regs d v n words small = ground (arith, words n, small)

module _ (calls : SysSyscall (ℕ → ℕ)) where
  pub execute-lw :
      (i : Inst) (m : Fast (ℕ → ℕ))
      → execute table calls lw i m
        ≡ some (record m {
          regs =
              update m.regs
                (field rt i.b)
                (u32 (m.mem (u32 (m.regs (field rs i.b) + sign_extend i.b))));
        })
  unfolding execute
  execute-lw i m = refl

  pub execute-sw :
      (i : Inst) (m : Fast (ℕ → ℕ))
      → execute table calls sw i m
        ≡ some (record m {
          mem =
              update m.mem (u32 (m.regs (field rs i.b) + sign_extend i.b)) (m.regs (field rt i.b));
        })
  unfolding execute
  execute-sw i m = refl

  -- The registers stay words.
  pub execute-words :
      (op : ℕ) (i : Inst) (m m' : Fast (ℕ → ℕ))
      → CanRun op m.regs i.b
      → ((n : ℕ) → m.regs n < 2 ^ 32)
      → execute table calls op i m ≡ some m'
      → (n : ℕ) → m'.regs n < 2 ^ 32
  execute-words op i m m' can words e n = elim can [
    | inl (c, (v, is)) ↦
        let small = result-lt op m.regs i.b v c is in
        let done =
          sym (
            execute-result table calls op i m c
            ∙ ap (λ o. some (write_result m (target_field op i.b) o)) is)
          ∙ e in
        subst (λ (z : Fast (ℕ → ℕ)). z.regs n < 2 ^ 32) (some-injective _ _ done)
          (update-lt m.regs (target_field op i.b) v n words small)
    | inr (inl load) ↦
        let addr = u32 (m.regs (field rs i.b) + sign_extend i.b) in
        subst (λ (z : Fast (ℕ → ℕ)). z.regs n < 2 ^ 32)
          (some-injective _ _
            (sym (execute-lw i m) ∙ ap (λ o. execute table calls o i m) (sym load) ∙ e))
          (update-lt m.regs (field rt i.b) (u32 (m.mem addr)) n words (omega arith))
    | inr (inr store) ↦
        subst (λ (z : Fast (ℕ → ℕ)). z.regs n < 2 ^ 32)
          (some-injective _ _
            (sym (execute-sw i m) ∙ ap (λ o. execute table calls o i m) (sym store) ∙ e))
          (words n)
  ]
