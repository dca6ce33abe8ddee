-- ===== src/Forward/Issue.antt =====
-- Additions, shifts, comparisons, loads and stores of words: what decode in Project1/part2/sim-pipe.c
-- makes of such an instruction, against machine.def.
use computer_architecture.Base.{
  ℕ, ◌+◌, ◌%◌, ◌≡◌, ◌≢◌, ◌⊎◌, refl, sym, ap, ◌∙◌, false, some, inl, inr, Bool-cases, ◌==◌, arith,
}
use computer_architecture.Base.Word.{u32, sign_extend}
use computer_architecture.Isa.{InstDef, opfield, operand, field, rs, lw, sw, nop}
use computer_architecture.Isa.Table.{def_inst}
use computer_architecture.Pipe.State.{AluFunc, IdexBuf, Regs, gpr}
use computer_architecture.Basic.State.{Sim}
use computer_architecture.Basic.Decode.{dispatch, is_marked, with_func}
use computer_architecture.Fast.Insts.{Fast, result}
use computer_architecture.Fast.Agree.{IsCommon, fill_operands-some}
use computer_architecture.Forward.Stages.{route, issue, latch_id, do_id}
use computer_architecture.Forward.Retire.{Retired}

-- The operands read from a register file.
abbrev pub with_operands : Regs → IdexBuf → IdexBuf
with_operands regs de = record de {
  alu_a = gpr regs de.src_a;
  alu_b = gpr regs de.src_b;
  val_a = gpr regs de.oprand.in1;
}

-- The instructions of this file; the first six unless they fault.
abbrev pub CanRun : ℕ → Regs → ℕ → Type 0
CanRun op regs b = (IsCommon op × ((v : ℕ) × (result op regs b ≡ some v))) ⊎ (op ≡ lw) ⊎ (op ≡ sw)

-- The address of a load or a store is that of a word, and of a store not one of the code.
abbrev pub IsReach : (ℕ → Type 0) → ℕ → Regs → ℕ → Type 0
IsReach Code op regs b =
    let addr = u32 (regs (field rs b) + sign_extend b) in
    ((op ≡ lw) ⊎ (op ≡ sw) → addr % 4 ≡ 0) × (op ≡ sw → ¬ Code addr)

module _ {Space : Type 0} where
  abbrev pub latched : Sim Space → IdexBuf
  latched x = record (latch_id x) { opcode = opfield x.fd.inst }

  abbrev pub filled : Sim Space → InstDef → IdexBuf
  filled x d =
      let b = x.fd.inst.b in
      record (latched x) {
        inst_flags = d.flags;
        oprand = record {
          in1 = operand d.in1 b;
          in2 = operand d.in2 b;
          in3 = operand d.in3 b;
          out1 = operand d.out1 b;
          out2 = operand d.out2 b;
        };
      }

  -- What a line of the table and a function of the execute stage make of the instruction in `fd`.
  unfoldable pub issued : Sim Space → InstDef → AluFunc → IdexBuf
  unfolding route
  issued x d func = (route (with_func (record x { de = filled x d }) func)).de

  -- The functional simulator on registers and memory.
  abbrev pub fast : ℕ → ℕ → ℕ → Retired Space → Fast Space
  fast pc npc n r = record { regs = r.regs; mem = r.mem; pc = pc; npc = npc; num_insn = n }

  pub do_id-issue :
      (x : Sim Space) (op : ℕ) (d : InstDef)
      → opfield x.fd.inst ≡ op
      → op ≢ nop
      → def_inst op ≡ some d
      → do_id x ≡ issue (record x { de = filled x d })
  unfolding do_id
  do_id-issue x op d e real line =
      let inst : (x.fd.inst.a == nop) ≡ false = ground (arith, e, real) in
      rw (inst, do_id)
        (ap (λ (de : IdexBuf). issue (record x { de = de }))
          (fill_operands-some d (latched x) (ap def_inst e ∙ line)))

  issue-free :
      (t : Sim Space)
      → (issue t).ctl.stall ≡ false
      → (is_marked t.ctl t.de.oprand.in1 ≡ false)
        × (is_marked t.ctl t.de.oprand.in2 ≡ false)
        × (issue t ≡ route (dispatch (record t { ctl = record (t.ctl) { stall = false } })))
  unfolding issue
  issue-free t free = elim (Bool-cases (is_marked t.ctl t.de.oprand.in1)) [
    | inl one ↦ absurd (ground (arith, one, free))
    | inr one ↦ elim (Bool-cases (is_marked t.ctl t.de.oprand.in2)) [
      | inl two ↦ absurd (ground (arith, one, two, free))
      | inr two ↦ (one, two, rw (one, two, issue) refl)
    ]
  ]

  pub issued-de :
      (x : Sim Space) (op : ℕ) (d : InstDef) (func : AluFunc)
      → opfield x.fd.inst ≡ op
      → op ≢ nop
      → def_inst op ≡ some d
      → ((t : Sim Space) → t.de.opcode ≡ op → dispatch t ≡ with_func t func)
      → (do_id x).ctl.stall ≡ false
      → ((do_id x).de ≡ issued x d func)
        × (is_marked x.ctl (operand d.in1 x.fd.inst.b) ≡ false)
        × (is_marked x.ctl (operand d.in2 x.fd.inst.b) ≡ false)
  unfolding issued route
  issued-de x op d func e real line pick free =
      let t = record x { de = filled x d } in
      let t' = record t { ctl = record (x.ctl) { stall = false } } in
      let go = do_id-issue x op d e real line in
      let (one, two, r) = issue-free t (ap (λ (z : Sim Space). z.ctl.stall) (sym go) ∙ free) in
      (ap (λ (z : Sim Space). z.de) (go ∙ r ∙ ap route (pick t' e)), one, two)
