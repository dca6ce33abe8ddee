-- ===== src/Fast/Agree.antt =====
-- The execute stage of Project2/sim-pipe.c against the instructions of Project1/part1/machine.def.
use computer_architecture.Base.{
  ℕ, ◌+◌, ◌*◌, ◌/◌, ◌%◌, ◌^◌, ◌<◌, ◌≡◌, ◌⊎◌, inl, inr, refl, subst, sym, ap, ◌∙◌, some, arith, ◌==◌,
  if◌then◌else◌,
}
use computer_architecture.Base.Word.{u32, sign_extend, slt}
use computer_architecture.Isa.{
  InstDef, inst, f_icomp, dgpr, dna, opfield, operand, rs, rt, rd, field, shamt, f_imm, add, addi,
  addu, addiu, sll, slti,
}
use computer_architecture.Isa.Table.{def_inst}
use computer_architecture.Pipe.State.{Regs, AluFunc, alu_add, alu_shtl, alu_slt, IdexBuf, Sim, gpr}
use computer_architecture.Pipe.Decode.{
  set_func, fill_operands, select, route, latch_id, branch_target,
}
use computer_architecture.Pipe.Alu.{alu}
use computer_architecture.Pipe.Stages.{alu_b_of}
use computer_architecture.Fast.Insts.{result, target_field, relative}

pub fill_operands-some :
    (d : InstDef) (de : IdexBuf)
    → def_inst de.opcode ≡ some d
    → fill_operands de ≡ record de {
      inst_flags = d.flags;
      oprand = record {
        in1 = operand d.in1 de.inst.b;
        in2 = operand d.in2 de.inst.b;
        in3 = operand d.in3 de.inst.b;
        out1 = operand d.out1 de.inst.b;
        out2 = operand d.out2 de.inst.b;
      };
    }
unfolding fill_operands
fill_operands-some d de h = ground (arith, h)

-- The instructions whose result both compute.
abbrev pub IsCommon : ℕ → Type 0
IsCommon op = (op ≡ add) ⊎ (op ≡ addi) ⊎ (op ≡ addu) ⊎ (op ≡ addiu) ⊎ (op ≡ sll) ⊎ (op ≡ slti)

pub result-add :
    (regs : Regs) (b v : ℕ)
    → result add regs b ≡ some v
    → u32 (regs (field rs b) + regs (field rt b)) ≡ v
unfolding result
result-add regs b v h = ground (arith, h)

pub result-addi :
    (regs : Regs) (b v : ℕ)
    → result addi regs b ≡ some v
    → u32 (regs (field rs b) + sign_extend b) ≡ v
unfolding result
result-addi regs b v h = ground (arith, h)

pub result-addu :
    (regs : Regs) (b v : ℕ)
    → result addu regs b ≡ some v
    → u32 (regs (field rs b) + regs (field rt b)) ≡ v
unfolding result
result-addu regs b v h = ground (arith, h)

pub result-addiu :
    (regs : Regs) (b v : ℕ)
    → result addiu regs b ≡ some v
    → u32 (regs (field rs b) + sign_extend b) ≡ v
unfolding result
result-addiu regs b v h = ground (arith, h)

pub result-sll :
    (regs : Regs) (b v : ℕ)
    → result sll regs b ≡ some v
    → u32 (regs (field rt b) * 2 ^ (shamt b % 32)) ≡ v
unfolding result
result-sll regs b v h = ground (arith, h)

pub result-slti :
    (regs : Regs) (b v : ℕ)
    → result slti regs b ≡ some v
    → (if slt (regs (field rs b)) (sign_extend b) then 1 else 0) ≡ v
unfolding result
result-slti regs b v h = ground (arith, h)

module _ {Space : Type 0} where
  -- The latch of the instruction in `fd` before its operands are known, and with those of a line.
  abbrev latched : Sim Space → IdexBuf
  latched s = record (latch_id s) { opcode = opfield s.fd.inst }

  abbrev filled : Sim Space → InstDef → IdexBuf
  filled s d =
      let b = s.fd.inst.b in
      record (latched s) {
        inst_flags = d.flags;
        oprand = record {
          in1 = operand d.in1 b;
          in2 = operand d.in2 b;
          in3 = operand d.in3 b;
          out1 = operand d.out1 b;
          out2 = operand d.out2 b;
        };
      }

  -- The instruction in `fd`, decoded without a stall.
  abbrev pub decoded : Sim Space → Sim Space
  decoded s = route (select (record s { de = fill_operands (latched s) }))

  -- What the execute stage makes of a decoded state, with the operands read from the registers.
  abbrev pub executed : Sim Space → ℕ
  executed s =
      alu s.de.func (gpr s.regs s.de.src_a)
        (alu_b_of (record (s.de) { alu_b = gpr s.regs s.de.src_b }))

  -- What a line and a function of the execute stage make of the instruction.
  abbrev by_line : Sim Space → AluFunc → InstDef → Sim Space
  by_line s func d = route (set_func (record s { de = filled s d }) func)

  decoded-by_line :
      (s : Sim Space) (op : ℕ) (func : AluFunc) (d : InstDef)
      → opfield s.fd.inst ≡ op
      → def_inst op ≡ some d
      → ((t : Sim Space) → t.de.opcode ≡ op → select t ≡ set_func t func)
      → decoded s ≡ by_line s func d
  decoded-by_line s op func d e line pick =
      let fill = fill_operands-some d (latched s) (ap def_inst e ∙ line) in
      ap route (
        ap (λ (de : IdexBuf). select (record s { de = de })) fill
        ∙ pick (record s { de = filled s d }) e)

  select-add :
      (t : Sim Space) (op : ℕ)
      → (op ≡ add) ⊎ (op ≡ addi) ⊎ (op ≡ addu) ⊎ (op ≡ addiu)
      → t.de.opcode ≡ op
      → select t ≡ set_func t alu_add
  unfolding select
  select-add t op (inl k) e = ground (arith, k, e)
  select-add t op (inr (inl k)) e = ground (arith, k, e)
  select-add t op (inr (inr (inl k))) e = ground (arith, k, e)
  select-add t op (inr (inr (inr k))) e = ground (arith, k, e)

  select-sll : (t : Sim Space) → t.de.opcode ≡ sll → select t ≡ set_func t alu_shtl
  unfolding select
  select-sll t e = ground (arith, e)

  select-slti : (t : Sim Space) → t.de.opcode ≡ slti → select t ≡ set_func t alu_slt
  unfolding select
  select-slti t e = ground (arith, e)

  -- The results agree for a line, if they do for the state that the line makes.
  abbrev Agrees : Sim Space → ℕ → Sim Space → Type 0
  Agrees s v t =
      (executed t ≡ v) × (t.de.dst_e ≡ some (target_field (opfield s.fd.inst) s.fd.inst.b))

  -- For an addition, a shift or a comparison that does not fault, the execute stage computes the
  -- result that the instruction has in machine.def, for the same register.
  pub executed-result :
      (s : Sim Space) (v : ℕ)
      → IsCommon (opfield s.fd.inst)
      → result (opfield s.fd.inst) s.regs s.fd.inst.b ≡ some v
      → (executed (decoded s) ≡ v)
        × ((decoded s).de.dst_e ≡ some (target_field (opfield s.fd.inst) s.fd.inst.b))
  unfolding route operand alu
  executed-result s v (inl e) h =
      subst (Agrees s v)
        (sym (
          decoded-by_line s add alu_add (inst f_icomp (dgpr rd) dna (dgpr rs) (dgpr rt) dna) e
            (unfold def_inst in refl) (λ t. select-add t add (inl refl))))
        (
          result-add s.regs s.fd.inst.b v (ap (λ x. result x s.regs s.fd.inst.b) (sym e) ∙ h),
          ap (λ x. some (target_field x s.fd.inst.b)) (sym e),
        )
  executed-result s v (inr (inl e)) h =
      subst (Agrees s v)
        (sym (
          decoded-by_line s addi alu_add (inst (f_icomp + f_imm) (dgpr rt) dna (dgpr rs) dna dna) e
            (unfold def_inst in refl) (λ t. select-add t addi (inr (inl refl)))))
        (
          result-addi s.regs s.fd.inst.b v (ap (λ x. result x s.regs s.fd.inst.b) (sym e) ∙ h),
          ap (λ x. some (target_field x s.fd.inst.b)) (sym e),
        )
  executed-result s v (inr (inr (inl e))) h =
      subst (Agrees s v)
        (sym (
          decoded-by_line s addu alu_add (inst f_icomp (dgpr rd) dna (dgpr rs) (dgpr rt) dna) e
            (unfold def_inst in refl) (λ t. select-add t addu (inr (inr (inl refl))))))
        (
          result-addu s.regs s.fd.inst.b v (ap (λ x. result x s.regs s.fd.inst.b) (sym e) ∙ h),
          ap (λ x. some (target_field x s.fd.inst.b)) (sym e),
        )
  executed-result s v (inr (inr (inr (inl e)))) h =
      subst (Agrees s v)
        (sym (
          decoded-by_line s addiu alu_add (inst (f_icomp + f_imm) (dgpr rt) dna (dgpr rs) dna dna) e
            (unfold def_inst in refl) (λ t. select-add t addiu (inr (inr (inr refl))))))
        (
          result-addiu s.regs s.fd.inst.b v (ap (λ x. result x s.regs s.fd.inst.b) (sym e) ∙ h),
          ap (λ x. some (target_field x s.fd.inst.b)) (sym e),
        )
  executed-result s v (inr (inr (inr (inr (inl e))))) h =
      subst (Agrees s v)
        (sym (
          decoded-by_line s sll alu_shtl (inst f_icomp (dgpr rd) dna (dgpr rt) dna dna) e
            (unfold def_inst in refl) select-sll))
        (
          result-sll s.regs s.fd.inst.b v (ap (λ x. result x s.regs s.fd.inst.b) (sym e) ∙ h),
          ap (λ x. some (target_field x s.fd.inst.b)) (sym e),
        )
  executed-result s v (inr (inr (inr (inr (inr e))))) h =
      subst (Agrees s v)
        (sym (
          decoded-by_line s slti alu_slt (inst (f_icomp + f_imm) (dgpr rt) dna (dgpr rs) dna dna) e
            (unfold def_inst in refl) select-slti))
        (
          result-slti s.regs s.fd.inst.b v (ap (λ x. result x s.regs s.fd.inst.b) (sym e) ∙ h),
          ap (λ x. some (target_field x s.fd.inst.b)) (sym e),
        )

-- A branch of the pipeline goes where machine.def sends it exactly if the offset is not
-- negative.
pub branch_target-relative :
    (pc b : ℕ) → pc < 2 ^ 32 → (branch_target pc b == relative pc b) ≡ (b / 2 ^ 15 % 2 == 0)
branch_target-relative pc b h = ground arith
