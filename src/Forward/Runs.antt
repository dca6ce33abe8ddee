-- ===== src/Forward/Runs.antt =====
-- The lines of the table for these instructions, each with what its latch does in the end.
use computer_architecture.Base.{
  ℕ, ◌+◌, ◌*◌, ◌%◌, ◌^◌, ◌<◌, ◌≡◌, true, refl, sym, ap, subst, ◌∙◌, some, inl, inr, if◌then◌else◌,
  update, arith,
}
use computer_architecture.Base.Word.{u32, sign_extend, slt}
use computer_architecture.Memory.{Memory, IsAligned}
use computer_architecture.Isa.{
  Inst, InstDef, inst, operand, rs, rt, rd, field, shamt, dgpr, dna, f_icomp, f_imm, f_mem, f_load,
  f_store, f_disp, add, addi, addu, addiu, sll, slti, lw, sw,
}
use computer_architecture.Isa.Table.{def_inst}
use computer_architecture.Pipe.State.{AluFunc, alu_add, alu_shtl, alu_slt, Regs}
use computer_architecture.Pipe.Alu.{alu}
use computer_architecture.Pipe.Stages.{SysSyscall, alu_b_of}
use computer_architecture.Basic.State.{Sim}
use computer_architecture.Basic.Decode.{dispatch, with_func}
use computer_architecture.Fast.Insts.{Fast, result, target_field, write_result, execute}
use computer_architecture.Fast.Agree.{
  IsCommon, result-add, result-addi, result-addu, result-addiu, result-sll, result-slti,
}
use computer_architecture.Forward.Stages.{route}
use computer_architecture.Forward.Retire.{Retired, IsAccess, finish, loads}
use computer_architecture.Forward.Issue.{CanRun, IsReach, with_operands, issued, fast}

zero-IsAccess : {Code : ℕ → Type 0} {a v : ℕ} → IsAccess Code 0 a v
zero-IsAccess = record {
  load_at = λ h. absurd (ground (arith, h));
  store_at = λ h. absurd (ground (arith, h));
}

load-IsAccess : {Code : ℕ → Type 0} {a v : ℕ} → IsAligned a → IsAccess Code 4 a v
load-IsAccess h = record { load_at = λ _. h; store_at = λ e. absurd (ground (arith, e)) }

store-IsAccess :
    {Code : ℕ → Type 0} {a v : ℕ} → v < 2 ^ 32 → IsAligned a → ¬ Code a → IsAccess Code 2 a v
store-IsAccess small h away = record {
  load_at = λ e. absurd (ground (arith, e));
  store_at = λ _. (h, small, away);
}

module _ {Space : Type 0} (M : Memory Space) (sys_syscall : SysSyscall Space) where
  -- How the table and the `switch` of decode treat an opcode, and that the latch they make does what
  -- the functional simulator does, on the same registers and memory.
  pub record IsRun (op : ℕ) : Type 1 where
    pub line : InstDef
    pub func : AluFunc
    pub defined : def_inst op ≡ some line
    pub picked : (t : Sim Space) → t.de.opcode ≡ op → dispatch t ≡ with_func t func
    pub runs :
        (x : Sim Space) (r : Retired Space) (pc npc n : ℕ)
        → CanRun op r.regs x.fd.inst.b
        → execute M sys_syscall op x.fd.inst (fast pc npc n r)
          ≡ some (fast pc npc n (finish M (with_operands r.regs (issued x line func)) r))
    pub legal :
        (Code : ℕ → Type 0) (x : Sim Space) (regs : Regs)
        → ((n : ℕ) → regs n < 2 ^ 32)
        → IsReach Code op regs x.fd.inst.b
        → let de = with_operands regs (issued x line func) in
          IsAccess Code de.rw (alu de.func de.alu_a (alu_b_of de)) de.val_a
    pub loading :
        (x : Sim Space)
        → loads (issued x line func).rw ≡ true
        → (op ≡ lw) × ((issued x line func).dst_m ≡ some (field rt x.fd.inst.b))

  pub execute-result :
      (op : ℕ) (i : Inst) (m : Fast Space)
      → IsCommon op
      → execute M sys_syscall op i m
        ≡ some (write_result m (target_field op i.b) (result op m.regs i.b))
  unfolding execute
  execute-result op i m c =
      let P : ℕ → Type 0 = λ op.
        execute M sys_syscall op i m
        ≡ some (write_result m (target_field op i.b) (result op m.regs i.b)) in
      elim c [
        | inl e ↦ subst P (sym e) refl
        | inr (inl e) ↦ subst P (sym e) refl
        | inr (inr (inl e)) ↦ subst P (sym e) refl
        | inr (inr (inr (inl e))) ↦ subst P (sym e) refl
        | inr (inr (inr (inr (inl e)))) ↦ subst P (sym e) refl
        | inr (inr (inr (inr (inr e)))) ↦ subst P (sym e) refl
      ]

  common-runs :
      (op : ℕ) (i : Inst) (r : Retired Space) (pc npc n v : ℕ)
      → IsCommon op
      → ((w : ℕ) → result op r.regs i.b ≡ some w → v ≡ w)
      → CanRun op r.regs i.b
      → execute M sys_syscall op i (fast pc npc n r)
        ≡ some (fast pc npc n (record r { regs = update r.regs (target_field op i.b) v }))
  common-runs op i r pc npc n v c same (inl (_, (w, h))) =
      execute-result op i (fast pc npc n r) c
      ∙ ap (λ o. some (write_result (fast pc npc n r) (target_field op i.b) o)) h
      ∙ ap (λ v. some (fast pc npc n (record r { regs = update r.regs (target_field op i.b) v })))
          (sym (same w h))
  common-runs op i r pc npc n v c same (inr (inl e)) = absurd (ground (arith, c, e))
  common-runs op i r pc npc n v c same (inr (inr e)) = absurd (ground (arith, c, e))

  add-IsRun : IsRun add
  unfolding issued route operand alu
  add-IsRun = record {
    line = inst f_icomp (dgpr rd) dna (dgpr rs) (dgpr rt) dna;
    func = alu_add;
    defined = unfold def_inst in refl;
    picked = λ t e. unfold dispatch in ground (arith, e);
    runs = λ x r pc npc n h.
        common-runs add x.fd.inst r pc npc n
          (u32 (r.regs (field rs x.fd.inst.b) + r.regs (field rt x.fd.inst.b))) (inl refl)
          (result-add r.regs x.fd.inst.b) h;
    legal = λ Code x regs words reach. zero-IsAccess;
    loading = λ x h. absurd (ground (arith, h));
  }

  addi-IsRun : IsRun addi
  unfolding issued route operand alu
  addi-IsRun = record {
    line = inst (f_icomp + f_imm) (dgpr rt) dna (dgpr rs) dna dna;
    func = alu_add;
    defined = unfold def_inst in refl;
    picked = λ t e. unfold dispatch in ground (arith, e);
    runs = λ x r pc npc n h.
        common-runs addi x.fd.inst r pc npc n
          (u32 (r.regs (field rs x.fd.inst.b) + sign_extend x.fd.inst.b)) (inr (inl refl))
          (result-addi r.regs x.fd.inst.b) h;
    legal = λ Code x regs words reach. zero-IsAccess;
    loading = λ x h. absurd (ground (arith, h));
  }

  addu-IsRun : IsRun addu
  unfolding issued route operand alu
  addu-IsRun = record {
    line = inst f_icomp (dgpr rd) dna (dgpr rs) (dgpr rt) dna;
    func = alu_add;
    defined = unfold def_inst in refl;
    picked = λ t e. unfold dispatch in ground (arith, e);
    runs = λ x r pc npc n h.
        common-runs addu x.fd.inst r pc npc n
          (u32 (r.regs (field rs x.fd.inst.b) + r.regs (field rt x.fd.inst.b)))
          (inr (inr (inl refl))) (result-addu r.regs x.fd.inst.b) h;
    legal = λ Code x regs words reach. zero-IsAccess;
    loading = λ x h. absurd (ground (arith, h));
  }

  addiu-IsRun : IsRun addiu
  unfolding issued route operand alu
  addiu-IsRun = record {
    line = inst (f_icomp + f_imm) (dgpr rt) dna (dgpr rs) dna dna;
    func = alu_add;
    defined = unfold def_inst in refl;
    picked = λ t e. unfold dispatch in ground (arith, e);
    runs = λ x r pc npc n h.
        common-runs addiu x.fd.inst r pc npc n
          (u32 (r.regs (field rs x.fd.inst.b) + sign_extend x.fd.inst.b))
          (inr (inr (inr (inl refl)))) (result-addiu r.regs x.fd.inst.b) h;
    legal = λ Code x regs words reach. zero-IsAccess;
    loading = λ x h. absurd (ground (arith, h));
  }

  sll-IsRun : IsRun sll
  unfolding issued route operand alu
  sll-IsRun = record {
    line = inst f_icomp (dgpr rd) dna (dgpr rt) dna dna;
    func = alu_shtl;
    defined = unfold def_inst in refl;
    picked = λ t e. unfold dispatch in ground (arith, e);
    runs = λ x r pc npc n h.
        common-runs sll x.fd.inst r pc npc n
          (u32 (r.regs (field rt x.fd.inst.b) * 2 ^ (shamt x.fd.inst.b % 32)))
          (inr (inr (inr (inr (inl refl))))) (result-sll r.regs x.fd.inst.b) h;
    legal = λ Code x regs words reach. zero-IsAccess;
    loading = λ x h. absurd (ground (arith, h));
  }

  slti-IsRun : IsRun slti
  unfolding issued route operand alu
  slti-IsRun = record {
    line = inst (f_icomp + f_imm) (dgpr rt) dna (dgpr rs) dna dna;
    func = alu_slt;
    defined = unfold def_inst in refl;
    picked = λ t e. unfold dispatch in ground (arith, e);
    runs = λ x r pc npc n h.
        common-runs slti x.fd.inst r pc npc n
          (if slt (r.regs (field rs x.fd.inst.b)) (sign_extend x.fd.inst.b) then 1 else 0)
          (inr (inr (inr (inr (inr refl))))) (result-slti r.regs x.fd.inst.b) h;
    legal = λ Code x regs words reach. zero-IsAccess;
    loading = λ x h. absurd (ground (arith, h));
  }

  lw-IsRun : IsRun lw
  unfolding issued route operand alu execute
  lw-IsRun = record {
    line = inst (f_mem + f_load + f_disp) (dgpr rt) dna dna (dgpr rs) dna;
    func = alu_add;
    defined = unfold def_inst in refl;
    picked = λ t e. unfold dispatch in ground (arith, e);
    runs = λ x r pc npc n h. refl;
    legal = λ Code x regs words reach. load-IsAccess (omega arith, reach.0 (inl refl));
    loading = λ x h. (refl, refl);
  }

  sw-IsRun : IsRun sw
  unfolding issued route operand alu execute
  sw-IsRun = record {
    line = inst (f_mem + f_store + f_disp) dna dna (dgpr rt) (dgpr rs) dna;
    func = alu_add;
    defined = unfold def_inst in refl;
    picked = λ t e. unfold dispatch in ground (arith, e);
    runs = λ x r pc npc n h. refl;
    legal = λ Code x regs words reach.
        store-IsAccess (words (field rt x.fd.inst.b)) (omega arith, reach.0 (inr refl))
          (reach.1 refl);
    loading = λ x h. absurd (ground (arith, h));
  }

  pub all-IsRun : (op : ℕ) (regs : Regs) (b : ℕ) → CanRun op regs b → IsRun op
  all-IsRun op regs b h = elim h [
    | inl ((c, _)) ↦ elim c [
      | inl e ↦ subst IsRun (sym e) add-IsRun
      | inr (inl e) ↦ subst IsRun (sym e) addi-IsRun
      | inr (inr (inl e)) ↦ subst IsRun (sym e) addu-IsRun
      | inr (inr (inr (inl e))) ↦ subst IsRun (sym e) addiu-IsRun
      | inr (inr (inr (inr (inl e)))) ↦ subst IsRun (sym e) sll-IsRun
      | inr (inr (inr (inr (inr e)))) ↦ subst IsRun (sym e) slti-IsRun
    ]
    | inr (inl e) ↦ subst IsRun (sym e) lw-IsRun
    | inr (inr e) ↦ subst IsRun (sym e) sw-IsRun
  ]
