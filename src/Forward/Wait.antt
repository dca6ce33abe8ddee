-- ===== src/Forward/Wait.antt =====
-- A round in which decode of Project1/part2/sim-pipe.c waits.
use computer_architecture.Base.{
  ℕ, ◌%◌, ◌≡◌, ◌≢◌, refl, sym, ap, ap₂, ◌∙◌, true, false, ◌||◌, none, some, inl, inr, Bool-cases,
  arith,
}
use computer_architecture.Memory.{Memory}
use computer_architecture.Isa.{Dep, InstDef, opfield, operand, nop, syscall}
use computer_architecture.Isa.Table.{def_inst}
use computer_architecture.Pipe.State.{Regs, IdexBuf, IfidBuf, ExmemBuf, set_gpr}
use computer_architecture.Pipe.Stages.{SysSyscall}
use computer_architecture.Basic.State.{ControlBuf, Sim}
use computer_architecture.Basic.Decode.{dispatch, is_marked}
use computer_architecture.Forward.Stages.{
  pipeline_control, route, issue, do_id, do_ex, do_mem, do_forward, do_if,
}
use computer_architecture.Forward.Main.{after_wb, round}
use computer_architecture.Forward.Retire.{
  Retired, access, drained, retired, finish, wrote, round-plain, round-drained, do_id-flight,
}
use computer_architecture.Forward.Settled.{IsSettled, before_id-of_load}
use computer_architecture.Forward.Latch.{before_id, before_id-moves}
use computer_architecture.Forward.Issue.{filled, do_id-issue}
use computer_architecture.Forward.Operands.{before_id-fd}

set_gpr_again : (regs : Regs) (d : Dep) (v : ℕ) → set_gpr (set_gpr regs d v) d v ≡ set_gpr regs d v
set_gpr_again regs none v = refl
set_gpr_again regs (some m) v =
    let at : (n : ℕ) → set_gpr (set_gpr regs (some m) v) (some m) v n ≡ set_gpr regs (some m) v n =
      λ n. ground arith in
    λ i n. at n i

is_marked-one :
    (ctl : ControlBuf) (b : Dep) → is_marked ctl b ≡ true → (k : ℕ) × (ctl.regs k ≡ true)
is_marked-one ctl none h = absurd (ground (arith, h))
is_marked-one ctl (some n) h = (n % 32, h)

is_marked-two :
    (ctl : ControlBuf) (a b : Dep)
    → (is_marked ctl a || is_marked ctl b) ≡ true
    → (k : ℕ) × (ctl.regs k ≡ true)
is_marked-two ctl a b h = elim (Bool-cases (is_marked ctl a)) [
  | inl mark ↦ is_marked-one ctl a mark
  | inr clear ↦ is_marked-one ctl b (ground (arith, h, clear))
]

module _ {Space : Type 0} where
  -- A latch without an access that writes its last word again.
  finish-bubble :
      (M : Memory Space) (de : IdexBuf) (r : Retired Space)
      → de.rw ≡ 0
      → de.dst_e ≡ none
      → set_gpr r.regs de.dst_m r.val_m ≡ r.regs
      → finish M de r ≡ r
  finish-bubble M de r zero bare same =
      ap₂ (λ e rw. finish M (record de { dst_e = e; rw = rw }) r) bare zero
      ∙ ap (λ regs. record r { regs = regs }) same

  route-stall : (t : Sim Space) → (route t).ctl.stall ≡ t.ctl.stall
  unfolding route
  route-stall t = ground arith

  dispatch-stall : (t : Sim Space) → (dispatch t).ctl.stall ≡ t.ctl.stall
  unfolding dispatch
  dispatch-stall t = ground arith

  issue-waits :
      (t : Sim Space)
      → (issue t).ctl.stall ≡ true
      → ((is_marked t.ctl t.de.oprand.in1 || is_marked t.ctl t.de.oprand.in2) ≡ true)
        × ((issue t).de ≡ t.de)
  unfolding issue
  issue-waits t waits =
      elim (Bool-cases (is_marked t.ctl t.de.oprand.in1 || is_marked t.ctl t.de.oprand.in2)) [
        | inl mark ↦ (mark, rw (mark, issue) refl)
        | inr clear ↦
            let t' = record t { ctl = record (t.ctl) { stall = false } } in
            let free : (issue t).ctl.stall ≡ false =
              rw (clear, issue) (route-stall (dispatch t') ∙ dispatch-stall t') in
            absurd (ground (arith, free, waits))
      ]

  -- Decode waits: the marks that it has seen, and its latch.
  pub do_id-waits :
      (x : Sim Space) (op : ℕ) (d : InstDef)
      → opfield x.fd.inst ≡ op
      → op ≢ nop
      → def_inst op ≡ some d
      → (do_id x).ctl.stall ≡ true
      → ((k : ℕ) × (x.ctl.regs k ≡ true)) × ((do_id x).de ≡ filled x d)
  do_id-waits x op d e real line waits =
      let go = do_id-issue x op d e real line in
      let (mark, latch) =
        issue-waits (record x { de = filled x d })
          (ap (λ (z : Sim Space). z.ctl.stall) (sym go) ∙ waits) in
      (
        is_marked-two x.ctl (operand d.in1 x.fd.inst.b) (operand d.in2 x.fd.inst.b) mark,
        ap (λ (z : Sim Space). z.de) go ∙ latch,
      )

  pub after_wb-ends :
      (M : Memory Space) (sys_syscall : SysSyscall Space) (w : Sim Space)
      → let d = do_id (do_ex (do_mem M w)) in
        let s' = after_wb M sys_syscall w in
        (s'.de.rw ≡ d.de.rw)
        × (s'.de.dst_m ≡ d.de.dst_m)
        × (s'.de.dst_e ≡ d.de.dst_e)
        × (s'.de.inst ≡ d.de.inst)
        × (s'.ctl ≡ d.ctl)
        × (s'.em ≡ d.em)
  unfolding after_wb do_if do_forward
  after_wb-ends M sys_syscall w = (refl, refl, refl, refl, refl, refl)

  -- What a round that waits leaves: a latch without an access and without a result of its own, with
  -- the register of the load that it waits for.
  pub waits-latch :
      (M : Memory Space) (sys_syscall : SysSyscall Space) (s s' : Sim Space) (op : ℕ) (d : InstDef)
      → IsSettled s
      → s.mw.inst.a ≢ syscall
      → round M sys_syscall s ≡ some s'
      → s'.ctl.stall ≡ true
      → opfield (pipeline_control s).fd.inst ≡ op
      → op ≢ nop
      → def_inst op ≡ some d
      → (s'.de.rw ≡ 0)
        × (s'.de.dst_m ≡ s'.em.dst_m)
        × (s'.de.dst_e ≡ none)
        × (s'.em.dst_e ≡ none)
        × (s'.de.inst ≡ (pipeline_control s).fd.inst)
  waits-latch M sys_syscall s s' op d h plain one waits is real line =
      let x = before_id M s in
      let fd = before_id-fd M s in
      let moves = before_id-moves M s in
      let (rw_, dst_m, dst_e, inst, ctl, em) = after_wb-ends M sys_syscall (wrote s) in
      let ends = round-plain M sys_syscall s s' plain one in
      let stays : (do_id x).ctl.stall ≡ true =
        ap (λ (z : ControlBuf). z.stall) (sym ctl)
        ∙ ap (λ (z : Sim Space). z.ctl.stall) ends
        ∙ waits in
      let ((k, mark), latch) =
        do_id-waits x op d (ap (λ (z : IfidBuf). opfield z.inst) fd ∙ is) real line stays in
      let bare = h.load_de (before_id-of_load M s h k mark).0 in
      let flight : s'.em ≡ x.em =
        ap (λ (z : Sim Space). z.em) (sym ends) ∙ em ∙ (do_id-flight M x).0 in
      (
        ap (λ (z : Sim Space). z.de.rw) (sym ends) ∙ rw_ ∙ ap (λ (z : IdexBuf). z.rw) latch,
        ap (λ (z : Sim Space). z.de.dst_m) (sym ends)
            ∙ dst_m
            ∙ ap (λ (z : IdexBuf). z.dst_m) latch
            ∙ moves.0
            ∙ sym moves.2
            ∙ ap (λ (z : ExmemBuf). z.dst_m) (sym flight),
        ap (λ (z : Sim Space). z.de.dst_e) (sym ends)
            ∙ dst_e
            ∙ ap (λ (z : IdexBuf). z.dst_e) latch
            ∙ moves.1
            ∙ bare,
        ap (λ (z : ExmemBuf). z.dst_e) flight ∙ moves.3 ∙ bare,
        ap (λ (z : Sim Space). z.de.inst) (sym ends)
            ∙ inst
            ∙ ap (λ (z : IdexBuf). z.inst) latch
            ∙ ap (λ (z : IfidBuf). z.inst) fd,
      )

-- A round that waits changes nothing that the program sees.
pub round-waits :
    {Space : Type 0} (M : Memory Space) (sys_syscall : SysSyscall Space) (s s' : Sim Space) (op : ℕ)
    (d : InstDef)
    → IsSettled s
    → s.mw.inst.a ≢ syscall
    → round M sys_syscall s ≡ some s'
    → s'.ctl.stall ≡ true
    → opfield (pipeline_control s).fd.inst ≡ op
    → op ≢ nop
    → def_inst op ≡ some d
    → retired M s' ≡ retired M s
round-waits {Space = Space} M sys_syscall s s' op d h plain one waits is real line =
    let (zero, same, bare, em_bare, _) =
      waits-latch M sys_syscall s s' op d h plain one waits is real line in
    let r = drained M s' in
    let before = access M s'.em.rw s'.em.val_e s'.em.val_a (record {
      regs = set_gpr (set_gpr s'.regs s'.mw.dst_m s'.mw.val_m) s'.mw.dst_e s'.mw.val_e;
      mem = s'.mem;
      val_m = s'.mw.val_m;
    }) in
    let loaded : r.regs ≡ set_gpr before.regs s'.em.dst_m r.val_m =
      ap (λ e. set_gpr (set_gpr before.regs s'.em.dst_m r.val_m) e s'.em.val_e) em_bare in
    let again : set_gpr r.regs s'.de.dst_m r.val_m ≡ r.regs =
      ap₂ (λ f e. set_gpr f e r.val_m) loaded same
      ∙ set_gpr_again before.regs s'.em.dst_m r.val_m
      ∙ sym loaded in
    finish-bubble M s'.de r zero bare again ∙ round-drained M sys_syscall s s' plain one
