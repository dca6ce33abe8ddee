-- ===== src/Forward/Reload.antt =====
-- Two loads into one register, one behind the other, in Project1/part2/sim-pipe.c.
use computer_architecture.Base.{
  ℕ, ◌≡◌, ◌≢◌, refl, sym, ap, ◌∙◌, true, false, none, some, inl, inr, Bool-cases, arith,
}
use computer_architecture.Memory.{Memory}
use computer_architecture.Isa.{
  inst, dgpr, dna, rs, rt, rd, field, f_icomp, opfield, operand, addu, syscall,
}
use computer_architecture.Isa.Table.{def_inst}
use computer_architecture.Pipe.State.{
  alu_add, IdexBuf, IfidBuf, ExmemBuf, MemwbBuf, gpr, set_gpr, mask_bit,
}
use computer_architecture.Pipe.Stages.{SysSyscall}
use computer_architecture.Basic.State.{ControlBuf, Sim}
use computer_architecture.Basic.Decode.{dispatch}
use computer_architecture.Forward.Stages.{
  pipeline_control, route, do_id, do_ex, do_mem, do_forward, do_if,
}
use computer_architecture.Forward.Main.{after_wb, round}
use computer_architecture.Forward.Order.{ordered, round-ordered}
use computer_architecture.Forward.Retire.{loads, wrote, control-keeps, round-plain, do_id-flight}
use computer_architecture.Forward.Settled.{IsSettled, before_id-of_load}
use computer_architecture.Forward.Latch.{
  before_id, before_id-moves, do_mem-clears, do_ex-moves, control-em,
}
use computer_architecture.Forward.Issue.{issued, issued-de}
use computer_architecture.Forward.Wait.{do_id-waits, after_wb-ends}
use computer_architecture.Forward.Operands.{before_id-fd, after_wb-latches}

-- A load in `em` and one in `de`, into the register `r`.
pub record IsReload {Space : Type 0} (r : ℕ) (s : Sim Space) : Type 0 where
  pub first : loads s.em.rw ≡ true
  pub second : loads s.de.rw ≡ true
  pub first_into : s.em.dst_m ≡ some r
  pub second_into : s.de.dst_m ≡ some r

module _ {Space : Type 0} (M : Memory Space) where
  -- The first load clears the mark of the second.
  before_id-clear :
      (s : Sim Space) (r k : ℕ) → IsSettled s → IsReload r s → (before_id M s).ctl.regs k ≢ true
  before_id-clear s r k h both mark =
      let (_, at) = before_id-of_load M s h k mark in
      let e = (control-em s).1 in
      let (_, other) =
        do_mem-clears M (wrote s) k
          (sym (ap (λ f. f k) (do_ex-moves (do_mem M (wrote s))).5) ∙ mark) in
      other (
        ap (λ (z : ExmemBuf). loads z.rw) e ∙ both.first,
        ap (λ (z : ExmemBuf). mask_bit z.dst_m) e
            ∙ ap mask_bit (both.first_into ∙ sym both.second_into)
            ∙ at,
      )

  do_mem-word :
      (w : Sim Space)
      → loads w.em.rw ≡ true
      → ((do_mem M w).mw.val_m ≡ M.read_word w.mem w.em.val_e)
        × ((do_mem M w).mw.dst_m ≡ w.em.dst_m)
        × ((do_mem M w).mw.dst_e ≡ w.em.dst_e)
  unfolding do_mem
  do_mem-word w load = ground (arith, load)

  after_wb-mw :
      (sys_syscall : SysSyscall Space) (w : Sim Space)
      → let s' = after_wb M sys_syscall w in s'.mw ≡ (do_id (do_ex (do_mem M w))).mw
  unfolding after_wb do_if do_forward
  after_wb-mw sys_syscall w = refl

  ordered-word :
      (s : Sim Space) (r : ℕ)
      → s.em.dst_e ≡ none
      → s.mw.dst_e ≡ none
      → s.mw.dst_m ≡ some r
      → ordered s r ≡ s.mw.val_m
  ordered-word s r bare bare' into =
      let word : set_gpr s.regs (some r) s.mw.val_m r ≡ s.mw.val_m = ground arith in
      (λ i.
        set_gpr (set_gpr (set_gpr s.regs (into i) s.mw.val_m) (bare' i) s.mw.val_e) (bare i)
          s.em.val_e r)
      ∙ word

  issued-addu :
      (x : Sim Space)
      → (issued x (inst f_icomp (dgpr rd) dna (dgpr rs) (dgpr rt) dna) alu_add).src_a
        ≡ some (field rs x.fd.inst.b)
  unfolding issued route operand
  issued-addu x = refl

-- A register that is loaded twice in a row: in settled latches with two loads into one register
-- and no system call in `mw`, an `addu` of the register that is decoded next does not wait for
-- the second load, and takes the word that the first one reads as its operand.
pub reload-stale :
    {Space : Type 0} (M : Memory Space) (sys_syscall : SysSyscall Space) (s s' : Sim Space) (r : ℕ)
    → IsSettled s
    → s.mw.inst.a ≢ syscall
    → IsReload r s
    → opfield (pipeline_control s).fd.inst ≡ addu
    → field rs (pipeline_control s).fd.inst.b ≡ r
    → round M sys_syscall s ≡ some s'
    → (s'.ctl.stall ≡ false) × (s'.de.alu_a ≡ M.read_word s.mem s.em.val_e)
reload-stale {Space = Space} M sys_syscall s s' r h plain both is at one =
    let x = before_id M s in
    let fd = before_id-fd M s in
    let line = inst f_icomp (dgpr rd) dna (dgpr rs) (dgpr rt) dna in
    let defined : def_inst addu ≡ some line = unfold def_inst in refl in
    let op : opfield x.fd.inst ≡ addu = ap (λ (z : IfidBuf). opfield z.inst) fd ∙ is in
    let ends = round-plain M sys_syscall s s' plain one in
    let (_, _, _, _, ctl, _) = after_wb-ends M sys_syscall (wrote s) in
    let goes : (do_id x).ctl.stall ≡ false = elim (Bool-cases (do_id x).ctl.stall) [
      | inl waits ↦
          let ((k, mark), _) = do_id-waits x addu line op (omega arith) defined waits in
          absurd (before_id-clear M s r k h both mark)
      | inr free ↦ free
    ] in
    let (decoded, _, _) =
      issued-de x addu line alu_add op (omega arith) defined
        (λ t e. unfold dispatch in ground (arith, e)) goes in
    let (value, _, _, _) = round-ordered M sys_syscall s s' plain one in
    let source : s'.de.src_a ≡ some r =
      ap (λ (z : Sim Space). z.de.src_a) (sym ends)
      ∙ (after_wb-latches M sys_syscall (wrote s)).1
      ∙ ap (λ (z : IdexBuf). z.src_a) decoded
      ∙ issued-addu M x
      ∙ ap some (ap (λ (z : IfidBuf). field rs z.inst.b) fd ∙ at) in
    let m = do_mem M (wrote s) in
    let c = control-keeps s in
    let load : loads (wrote s).em.rw ≡ true = ap (λ (z : ExmemBuf). loads z.rw) c.0 ∙ both.first in
    let (word, into, bare) = do_mem-word M (wrote s) load in
    let mw : s'.mw ≡ m.mw =
      ap (λ (z : Sim Space). z.mw) (sym ends)
      ∙ after_wb-mw M sys_syscall (wrote s)
      ∙ (do_id-flight M x).1
      ∙ (do_ex-moves m).3 in
    let em : s'.em.dst_e ≡ none =
      ap (λ (z : Sim Space). z.em.dst_e) (sym ends)
      ∙ ap (λ (z : ExmemBuf). z.dst_e)
          ((after_wb-ends M sys_syscall (wrote s)).5 ∙ (do_id-flight M x).0)
      ∙ (before_id-moves M s).3
      ∙ h.load_de both.second in
    let em_bare : s.em.dst_e ≡ none = elim h.one_in_em [
      | inl none_m ↦ absurd (ground (arith, none_m, both.first_into))
      | inr e ↦ e
    ] in
    let operand_word =
      ordered-word M s' r em
        (ap (λ (z : MemwbBuf). z.dst_e) mw ∙ bare ∙ ap (λ (z : ExmemBuf). z.dst_e) c.0 ∙ em_bare)
        (ap (λ (z : MemwbBuf). z.dst_m) mw
          ∙ into
          ∙ ap (λ (z : ExmemBuf). z.dst_m) c.0
          ∙ both.first_into) in
    (
      ap (λ (z : Sim Space). z.ctl.stall) (sym ends) ∙ ap (λ (z : ControlBuf). z.stall) ctl ∙ goes,
      value
          ∙ ap (gpr (ordered s')) source
          ∙ operand_word
          ∙ ap (λ (z : MemwbBuf). z.val_m) mw
          ∙ word
          ∙ (λ i. M.read_word (c.3 i) (c.0 i).val_e),
    )
