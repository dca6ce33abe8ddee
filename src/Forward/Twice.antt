-- ===== src/Forward/Twice.antt =====
-- Programs on the pipeline with forwarding with a `nop` behind an addition, and with two loads into
-- one register.
use computer_architecture.Base.{
  ℕ, ◌+◌, ◌*◌, ◌^◌, ◌≡◌, ◌≢◌, refl, sym, subst, false, arith, update, ◌==◌, ==→ne,
}
use computer_architecture.Base.Word.{u32}
use computer_architecture.Memory.Table.{table}
use computer_architecture.Isa.{Inst, operand, opfield, rs, field, lw, addu, nop, syscall}
use computer_architecture.Isa.Table.{def_inst}
use computer_architecture.Pipe.Decode.{fill_operands}
use computer_architecture.Pipe.Alu.{alu}
use computer_architecture.Basic.State.{Sim, static_sim}
use computer_architecture.Basic.Decode.{dispatch}
use computer_architecture.Forward.State.{sim_init}
use computer_architecture.Forward.Stages.{
  pipeline_control, squash, replay, route, issue, do_id, do_ex, resolve, do_mem, do_forward,
  forward, do_if,
}
use computer_architecture.Forward.Main.{after_wb}
use computer_architecture.Forward.Retire.{retired, round-wrote}
use computer_architecture.Forward.Settled.{IsSettled, sim_init-IsSettled, round-IsSettled}
use computer_architecture.Forward.Repeat.{IsAddition, nop-repeats}
use computer_architecture.Forward.Reload.{IsReload, reload-stale}
use computer_architecture.Forward.Program.{sys_none, load_3, add_4, next, inst_of}

-- The pipeline with an instruction fetched at 0x400100.
abbrev fetched : Inst → (ℕ → ℕ) → Sim (ℕ → ℕ)
fetched i mem = record (sim_init (λ n. n) mem (static_sim (λ n. n) mem)) {
  fd = record { inst = i; pc = 0x400100; npc = 0x400100 };
}

fetched-IsSettled : (i : Inst) (mem : ℕ → ℕ) → IsSettled (fetched i mem)
fetched-IsSettled i mem =
    let h = sim_init-IsSettled (λ n. n) mem (static_sim (λ n. n) mem) in
    record {
      one_in_de = h.one_in_de;
      one_in_em = h.one_in_em;
      load_de = h.load_de;
      of_load = h.of_load;
      marked = h.marked;
      de_repeats = h.de_repeats;
      em_repeats = h.em_repeats;
    }

fetched-no_call : (i : Inst) (mem : ℕ → ℕ) → (fetched i mem).mw.inst.a ≢ syscall
unfolding sim_init
fetched-no_call i mem = omega arith

next-IsSettled : (s : Sim (ℕ → ℕ)) → s.mw.inst.a ≢ syscall → IsSettled s → IsSettled (next s)
next-IsSettled s plain h =
    round-IsSettled table sys_none s (next s) h plain (round-wrote table sys_none s plain)

-- `addu $4,$4,$3` and a `nop`.
abbrev sum_4 : Inst
sum_4 = record { a = addu; b = 4 * 2 ^ 24 + 3 * 2 ^ 16 + 4 * 2 ^ 8 }

abbrev summing : Sim (ℕ → ℕ)
summing = next (fetched sum_4 (update (λ a. 0) 0x400108 nop))

summing-nop : (inst_of summing).a ≡ nop
unfolding sim_init pipeline_control squash replay after_wb do_if do_forward forward do_id issue
    route dispatch do_ex resolve do_mem def_inst operand fill_operands alu
summing-nop = refl

summing_adds : IsAddition 4 3 4 summing.de
unfolding sim_init pipeline_control squash replay after_wb do_if do_forward forward do_id issue
    route dispatch do_ex resolve do_mem def_inst operand fill_operands alu
summing_adds = record {
  is_add = refl;
  no_imm = refl;
  no_disp = refl;
  at_a = refl;
  at_b = refl;
  into = refl;
  no_load = refl;
  no_access = refl;
}

summing_writes : (summing.mw.inst.a == syscall) ≡ false
unfolding sim_init pipeline_control squash replay after_wb do_if do_forward forward do_id issue
    route dispatch do_ex resolve do_mem def_inst operand fill_operands alu
summing_writes = refl

-- 4 + 3 + 3.
added_twice : (retired table (next summing)).regs 4 ≡ 10
unfolding sim_init pipeline_control squash replay after_wb do_if do_forward forward do_id issue
    route dispatch do_ex resolve do_mem def_inst operand fill_operands alu
added_twice = refl

nop-repeats_example : retired table (next summing) ≡ record (retired table summing) {
  regs =
      update
        (retired table summing).regs
        4
        (u32 ((retired table summing).regs 4 + (retired table summing).regs 3));
}
nop-repeats_example =
    nop-repeats table sys_none summing (next summing) 4 3 4
      (next-IsSettled (fetched sum_4 (update (λ a. 0) 0x400108 nop))
        (fetched-no_call sum_4 (update (λ a. 0) 0x400108 nop))
        (fetched-IsSettled sum_4 (update (λ a. 0) 0x400108 nop)))
      (==→ne summing.mw.inst.a syscall summing_writes) summing-nop summing_adds
      (round-wrote table sys_none summing (==→ne summing.mw.inst.a syscall summing_writes))

-- `lw $3,8($1)`, `lw $3,12($1)` and `addu $4,$3,$3`.
abbrev memory : ℕ → ℕ
memory =
    update
      (update
        (update (update (update (update (λ a. 0) 9 21) 13 5) 0x400108 lw) 0x40010c
          (1 * 2 ^ 24 + 3 * 2 ^ 16 + 12))
        0x400110 addu)
      0x400114 (add_4.b)

abbrev one : Sim (ℕ → ℕ)
one = next (fetched load_3 memory)

abbrev two : Sim (ℕ → ℕ)
two = next one

one_writes : (one.mw.inst.a == syscall) ≡ false
unfolding sim_init pipeline_control squash replay after_wb do_if do_forward forward do_id issue
    route dispatch do_ex resolve do_mem def_inst operand fill_operands alu
one_writes = refl

two_writes : (two.mw.inst.a == syscall) ≡ false
unfolding sim_init pipeline_control squash replay after_wb do_if do_forward forward do_id issue
    route dispatch do_ex resolve do_mem def_inst operand fill_operands alu
two_writes = refl

two_loads : IsReload 3 two
unfolding sim_init pipeline_control squash replay after_wb do_if do_forward forward do_id issue
    route dispatch do_ex resolve do_mem def_inst operand fill_operands alu
two_loads = record { first = refl; second = refl; first_into = refl; second_into = refl }

two_inst : inst_of two ≡ add_4
unfolding sim_init pipeline_control squash replay after_wb do_if do_forward forward do_id issue
    route dispatch do_ex resolve do_mem def_inst operand fill_operands alu
two_inst = refl

two-IsSettled : IsSettled two
two-IsSettled = next-IsSettled one (==→ne one.mw.inst.a syscall one_writes) (
    next-IsSettled (fetched load_3 memory) (fetched-no_call load_3 memory)
      (fetched-IsSettled load_3 memory))

-- The sum of the words that the first load reads.
stale_sum : (retired table (next two)).regs 4 ≡ 42
unfolding sim_init pipeline_control squash replay after_wb do_if do_forward forward do_id issue
    route dispatch do_ex resolve do_mem def_inst operand fill_operands alu
stale_sum = refl

reload-stale_example :
    ((next two).ctl.stall ≡ false) × ((next two).de.alu_a ≡ table.read_word two.mem two.em.val_e)
reload-stale_example =
    reload-stale table sys_none two (next two) 3 two-IsSettled
      (==→ne two.mw.inst.a syscall two_writes) two_loads
      (subst (λ i. opfield i ≡ addu) (sym two_inst) refl)
      (subst (λ i. field rs i.b ≡ 3) (sym two_inst) refl)
      (round-wrote table sys_none two (==→ne two.mw.inst.a syscall two_writes))
