-- ===== src/Pipe/Straight/Retire.antt =====
-- What the instructions in flight in Project2/sim-pipe.c still do to the registers and to the memory
-- that the program sees through the cache.
use computer_architecture.Pipe.Straight.Access.{mem_load-IsLoaded, mem_store-IsStored}
use computer_architecture.Base.{
  ℕ, ◌^◌, ◌<◌, ◌≡◌, ◌≢◌, refl, sym, ap, subst, ◌∙◌, true, false, not, ◌&&◌, ◌||◌, inl, inr,
  Bool-cases, update, ==→ne, ◌==◌, if◌then◌else◌, if_true, if_false, ne→==, arith,
}
use computer_architecture.Memory.{Memory, IsAligned}
use computer_architecture.Memory.Table.{table}
use computer_architecture.Isa.{Inst, nop, multu as multu_op}
use computer_architecture.Pipe.State.{Regs, IdexBuf, ExmemBuf, MemwbBuf, Sim}
use computer_architecture.Pipe.Stages.{
  do_mem, do_ex, mem_load, mem_store, latch_mem, write_back, resolve, set_hi_lo, alu_b_of,
}
use computer_architecture.Pipe.Alu.{alu, multu}
use computer_architecture.Pipe.Straight.View.{flat, IsKept, seen-lt}
use computer_architecture.Forward.Retire.{Retired, access, written, IsAccess, finish, loads, stores}

-- A bubble does nothing.
abbrev pub unless_nop : {A : Type 0} → Inst → A → A → A
unless_nop i idle does = if i.a == nop then idle else does

-- What the execute stage leaves in `em`.
abbrev pub executed_em : IdexBuf → ExmemBuf
executed_em de = record {
  inst = de.inst;
  pc = de.pc;
  dst_e = de.dst_e;
  dst_m = de.dst_m;
  val_a = de.val_a;
  rw = de.rw;
  target = de.target;
  val_e = alu de.func de.alu_a (alu_b_of de);
}

module _ {Space : Type 0} (M : Memory Space) where
  -- The registers once `mw` has written, with the memory and the word loaded last.
  abbrev pub settled : Sim Space → Retired (ℕ → ℕ)
  settled s = record {
    regs = unless_nop s.mw.inst s.regs (write_back s.mw s.regs);
    mem = flat M s;
    val_m = s.mw.val_m;
  }

  -- The instruction in `em`, from the memory stage on.
  abbrev pub complete : ExmemBuf → Retired (ℕ → ℕ) → Retired (ℕ → ℕ)
  complete em r =
      unless_nop em.inst r
        (written table em.dst_m em.dst_e em.val_e (access table em.rw em.val_e em.val_a r))

  -- The instructions in `mw` and `em` have finished, in this order.
  abbrev pub drained : Sim Space → Retired (ℕ → ℕ)
  drained s = complete s.em (settled s)

  -- The registers are written, and `mw` is about to be replaced.
  abbrev begun : Sim Space → Retired (ℕ → ℕ)
  begun w = record { regs = w.regs; mem = flat M w; val_m = w.mw.val_m }

  abbrev latched_mem : Sim Space → Sim Space
  latched_mem w = record w { mw = latch_mem w }

  -- `settled`, of the parts of a state that the memory stage leaves.
  abbrev after : MemwbBuf → Regs → (ℕ → ℕ) → Retired (ℕ → ℕ)
  after mw regs mem = record {
    regs = unless_nop mw.inst regs (write_back mw regs);
    mem = mem;
    val_m = mw.val_m;
  }

  load-keeps :
      (t : Sim Space)
      → ((mem_load M t).mw ≡ record (t.mw) { val_m = (mem_load M t).mw.val_m })
        × ((mem_load M t).regs ≡ t.regs)
  unfolding mem_load
  load-keeps t = ground arith

  store-keeps : (t : Sim Space) → ((mem_store M t).mw ≡ t.mw) × ((mem_store M t).regs ≡ t.regs)
  unfolding mem_store
  store-keeps t = ground arith

  mem-load :
      (w : Sim Space)
      → IsKept M w.cache w.mem
      → IsAligned w.em.val_e
      → (w.em.inst.a == nop) ≡ false
      → loads w.em.rw ≡ true
      → (settled (mem_load M (latched_mem w)) ≡ complete w.em (begun w))
        × IsKept M (mem_load M (latched_mem w)).cache (mem_load M (latched_mem w)).mem
  mem-load w ok h live load =
      let t = mem_load M (latched_mem w) in
      let word = table.read_word (flat M w) w.em.val_e in
      let (got, same, ok') = mem_load-IsLoaded M (latched_mem w) ok h in
      let k = load-keeps (latched_mem w) in
      let value : t.mw.val_m ≡ word = omega (arith, got, seen-lt M w.cache w.mem w.em.val_e ok) in
      let mw : t.mw ≡ record (latch_mem w) { val_m = word } =
        k.0 ∙ ap (λ v. record (latch_mem w) { val_m = v }) value in
      let done : after (record (latch_mem w) { val_m = word }) w.regs (flat M w)
          ≡ complete w.em (begun w) =
        rw (live, load) refl in
      ((λ i. after (mw i) (k.1 i) (λ b. same b i)) ∙ done, ok')

  mem-store :
      (w : Sim Space)
      → IsKept M w.cache w.mem
      → IsAligned w.em.val_e
      → w.em.val_a < 2 ^ 32
      → (w.em.inst.a == nop) ≡ false
      → loads w.em.rw ≡ false
      → stores w.em.rw ≡ true
      → (settled (mem_store M (latched_mem w)) ≡ complete w.em (begun w))
        × IsKept M (mem_store M (latched_mem w)).cache (mem_store M (latched_mem w)).mem
  mem-store w ok h small live other store =
      let (set, ok') = mem_store-IsStored M (latched_mem w) ok h small in
      let k = store-keeps (latched_mem w) in
      let done : after (latch_mem w) w.regs (update (flat M w) w.em.val_e w.em.val_a)
          ≡ complete w.em (begun w) =
        rw (live, other, store) refl in
      ((λ i. after (k.0 i) (k.1 i) (λ b. set b i)) ∙ done, ok')

  abbrev Completes : Sim Space → Sim Space → Type 0
  Completes w m = (settled m ≡ complete w.em (begun w)) × IsKept M m.cache m.mem

  -- The memory stage completes `em`.
  pub do_mem-Completes :
      (Code : ℕ → Type 0) (w : Sim Space)
      → IsKept M w.cache w.mem
      → (w.em.inst.a ≢ nop → IsAccess Code w.em.rw w.em.val_e w.em.val_a)
      → Completes w (do_mem M w)
  unfolding do_mem
  do_mem-Completes Code w ok legal = elim (Bool-cases (w.em.inst.a == nop)) [
    | inl bubble ↦
        let done : settled (record w { mw = record (w.mw) { inst = w.em.inst } })
            ≡ complete w.em (begun w) =
          rw bubble refl in
        subst (Completes w) (sym (if_true _ bubble)) (done, ok)
    | inr live ↦
        let fine = legal (==→ne w.em.inst.a nop live) in
        elim (Bool-cases (loads w.em.rw)) [
          | inl load ↦
              subst (Completes w) (sym (if_false _ live ∙ if_true _ load))
                (mem-load w ok (fine.load_at load) live load)
          | inr other ↦ elim (Bool-cases (stores w.em.rw)) [
            | inl store ↦
                subst (Completes w) (sym (if_false _ live ∙ if_false _ other ∙ if_true _ store))
                  (mem-store w ok (fine.store_at store).0 (fine.store_at store).1 live other store)
            | inr neither ↦
                let done : settled (latched_mem w) ≡ complete w.em (begun w) =
                  rw (live, other, neither) refl in
                subst (Completes w) (sym (if_false _ live ∙ if_false _ other ∙ if_false _ neither))
                  (done, ok)
          ]
        ]
  ]

  resolve-drained : (z : Sim Space) → drained (resolve z) ≡ drained z
  unfolding resolve
  resolve-drained z = elim (Bool-cases z.ctl.flag) [
    | inl set ↦
        elim (Bool-cases (z.ctl.cmp && not (z.em.val_e == 0) || not z.ctl.cmp && z.em.val_e == 0)) [
          | inl taken ↦ ap drained (if_true _ set ∙ if_true _ taken)
          | inr passed ↦ ap drained (if_true _ set ∙ if_false _ passed)
        ]
    | inr clear ↦ ap drained (if_false _ clear)
  ]

  -- The execute stage takes the instruction in `de` over.
  pub do_ex-drained :
      (m : Sim Space)
      → (m.de.inst.a ≢ nop → m.de.opcode ≢ multu_op)
      → drained (do_ex m) ≡ unless_nop m.de.inst (settled m) (finish table m.de (settled m))
  unfolding do_ex
  do_ex-drained m plain = elim (Bool-cases (m.de.inst.a == nop)) [
    | inl bubble ↦ ap drained (if_true _ bubble) ∙ if_true _ bubble ∙ sym (if_true _ bubble)
    | inr live ↦
        let other : (m.de.opcode == multu_op) ≡ false =
          ne→== m.de.opcode multu_op (plain (==→ne m.de.inst.a nop live)) in
        let em = executed_em m.de in
        ap drained (if_false _ live)
        ∙ resolve-drained (record m {
          em = em;
          regs =
              if m.de.opcode == multu_op
              then set_hi_lo m.regs (multu m.de.alu_a (alu_b_of m.de))
              else m.regs;
        })
        ∙ ap (λ regs. drained (record m { em = em; regs = regs })) (if_false _ other)
        ∙ if_false _ live
        ∙ sym (if_false _ live)
  ]
