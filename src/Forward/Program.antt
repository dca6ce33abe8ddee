-- ===== src/Forward/Program.antt =====
-- A program of three instructions on the pipeline with forwarding, and the theorems on straight-line
-- code there.
use computer_architecture.Base.{
  ℕ, ◌==◌, ==→ne, ◌+◌, ◌*◌, ◌^◌, ◌≡◌, ◌≢◌, refl, none, some, true, false, List, [], ◌∷◌, inl, inr,
  arith, update, sym, subst,
}
use computer_architecture.Memory.Table.{table}
use computer_architecture.Isa.{
  Inst, inst, dgpr, dna, rs, rt, rd, f_icomp, operand, opfield, lw, addu, addiu, nop, syscall,
}
use computer_architecture.Isa.Table.{def_inst}
use computer_architecture.Pipe.Decode.{fill_operands}
use computer_architecture.Pipe.Alu.{alu}
use computer_architecture.Basic.Decode.{dispatch}
use computer_architecture.Pipe.Stages.{SysSyscall}
use computer_architecture.Basic.State.{Sim, static_sim}
use computer_architecture.Fast.Insts.{result}
use computer_architecture.Forward.State.{sim_init}
use computer_architecture.Forward.Stages.{
  pipeline_control, squash, replay, route, issue, do_id, do_ex, resolve, do_mem, do_forward,
  forward, do_if,
}
use computer_architecture.Forward.Main.{after_wb}
use computer_architecture.Forward.Retire.{loads, retired, wrote, round-wrote}
use computer_architecture.Forward.Settled.{IsSettled, sim_init-IsSettled, round-IsSettled}
use computer_architecture.Forward.Issue.{CanRun}
use computer_architecture.Forward.Wake.{round-wakes}
use computer_architecture.Forward.Straight.{IsPlain}

abbrev pub sys_none : SysSyscall (ℕ → ℕ)
sys_none regs mem i = none

-- `lw $3,8($1)`, `addu $4,$3,$3` and `addiu $5,$4,1`.
abbrev pub load_3 : Inst
load_3 = record { a = lw; b = 1 * 2 ^ 24 + 3 * 2 ^ 16 + 8 }

abbrev pub add_4 : Inst
add_4 = record { a = addu; b = 3 * 2 ^ 24 + 3 * 2 ^ 16 + 4 * 2 ^ 8 }

abbrev add_5 : Inst
add_5 = record { a = addiu; b = 4 * 2 ^ 24 + 5 * 2 ^ 16 + 1 }

-- The program at 0x400100, and 21 in the word at 9.
abbrev memory : ℕ → ℕ
memory =
    update
      (update (update (update (update (λ a. 0) 9 21) 0x400108 addu) 0x40010c (add_4.b)) 0x400110
        addiu)
      0x400114 (add_5.b)

-- The load has been fetched.
abbrev start : Sim (ℕ → ℕ)
start = record (sim_init (λ n. n) memory (static_sim (λ n. n) memory)) {
  fd = record { inst = load_3; pc = 0x400100; npc = 0x400100 };
}

start-IsSettled : IsSettled start
start-IsSettled =
    let h = sim_init-IsSettled (λ n. n) memory (static_sim (λ n. n) memory) in
    record {
      one_in_de = h.one_in_de;
      one_in_em = h.one_in_em;
      load_de = h.load_de;
      of_load = h.of_load;
      marked = h.marked;
      de_repeats = h.de_repeats;
      em_repeats = h.em_repeats;
    }

abbrev pub next : Sim (ℕ → ℕ) → Sim (ℕ → ℕ)
next s = after_wb table sys_none (wrote s)

abbrev loading : Sim (ℕ → ℕ)
loading = next start

abbrev waiting : Sim (ℕ → ℕ)
waiting = next loading

abbrev adding : Sim (ℕ → ℕ)
adding = next waiting

abbrev ended : Sim (ℕ → ℕ)
ended = next adding

abbrev pub inst_of : Sim (ℕ → ℕ) → Inst
inst_of s = (pipeline_control s).fd.inst

start_inst : inst_of start ≡ load_3
unfolding sim_init pipeline_control squash replay after_wb do_if do_forward forward do_id issue
    route dispatch do_ex resolve do_mem def_inst operand fill_operands alu
start_inst = refl

loading_inst : inst_of loading ≡ add_4
unfolding sim_init pipeline_control squash replay after_wb do_if do_forward forward do_id issue
    route dispatch do_ex resolve do_mem def_inst operand fill_operands alu
loading_inst = refl

waiting_inst : inst_of waiting ≡ add_4
unfolding sim_init pipeline_control squash replay after_wb do_if do_forward forward do_id issue
    route dispatch do_ex resolve do_mem def_inst operand fill_operands alu
waiting_inst = refl

waiting_waits : waiting.ctl.stall ≡ true
unfolding sim_init pipeline_control squash replay after_wb do_if do_forward forward do_id issue
    route dispatch do_ex resolve do_mem def_inst operand fill_operands alu
waiting_waits = refl

sum : (retired table ended).regs 4 ≡ 42
unfolding sim_init pipeline_control squash replay after_wb do_if do_forward forward do_id issue
    route dispatch do_ex resolve do_mem def_inst operand fill_operands alu
sum = refl

start_writes : (start.mw.inst.a == syscall) ≡ false
unfolding sim_init pipeline_control squash replay after_wb do_if do_forward forward do_id issue
    route dispatch do_ex resolve do_mem def_inst operand fill_operands alu
start_writes = refl

loading_writes : (loading.mw.inst.a == syscall) ≡ false
unfolding sim_init pipeline_control squash replay after_wb do_if do_forward forward do_id issue
    route dispatch do_ex resolve do_mem def_inst operand fill_operands alu
loading_writes = refl

waiting_writes : (waiting.mw.inst.a == syscall) ≡ false
unfolding sim_init pipeline_control squash replay after_wb do_if do_forward forward do_id issue
    route dispatch do_ex resolve do_mem def_inst operand fill_operands alu
waiting_writes = refl

start_de_rw : loads start.de.rw ≡ false
unfolding sim_init pipeline_control squash replay after_wb do_if do_forward forward do_id issue
    route dispatch do_ex resolve do_mem def_inst operand fill_operands alu
start_de_rw = refl

loading_em_rw : loads loading.em.rw ≡ false
unfolding sim_init pipeline_control squash replay after_wb do_if do_forward forward do_id issue
    route dispatch do_ex resolve do_mem def_inst operand fill_operands alu
loading_em_rw = refl

waiting_de_rw : loads waiting.de.rw ≡ false
unfolding sim_init pipeline_control squash replay after_wb do_if do_forward forward do_id issue
    route dispatch do_ex resolve do_mem def_inst operand fill_operands alu
waiting_de_rw = refl

start_can : CanRun (opfield (inst_of start)) (retired table start).regs (inst_of start).b
start_can =
    subst (λ i. CanRun (opfield i) (retired table start).regs i.b) (sym start_inst) (inr (inl refl))

add_can :
    (s : Sim (ℕ → ℕ))
    → inst_of s ≡ add_4
    → CanRun (opfield (inst_of s)) (retired table s).regs (inst_of s).b
unfolding result
add_can s e =
    subst (λ i. CanRun (opfield i) (retired table s).regs i.b) (sym e)
      (inl (inr (inr (inl refl)), (_, refl)))

start-IsPlain : IsPlain table sys_none start loading
start-IsPlain = record {
  no_call = ==→ne start.mw.inst.a syscall start_writes;
  rounds = round-wrote table sys_none start (==→ne start.mw.inst.a syscall start_writes);
  fresh = λ a b. absurd (ground (arith, b, start_de_rw));
  can = start_can;
}

loading-IsPlain : IsPlain table sys_none loading waiting
loading-IsPlain = record {
  no_call = ==→ne loading.mw.inst.a syscall loading_writes;
  rounds = round-wrote table sys_none loading (==→ne loading.mw.inst.a syscall loading_writes);
  fresh = λ a b. absurd (ground (arith, a, loading_em_rw));
  can = add_can loading loading_inst;
}

waiting-IsPlain : IsPlain table sys_none waiting adding
waiting-IsPlain = record {
  no_call = ==→ne waiting.mw.inst.a syscall waiting_writes;
  rounds = round-wrote table sys_none waiting (==→ne waiting.mw.inst.a syscall waiting_writes);
  fresh = λ a b. absurd (ground (arith, b, waiting_de_rw));
  can = add_can waiting waiting_inst;
}

abbrev program : List Inst
program = inst_of start ∷ inst_of waiting ∷ inst_of adding ∷ []

loading-IsSettled : IsSettled loading
loading-IsSettled =
    round-IsSettled table sys_none start loading start-IsSettled start-IsPlain.no_call
      start-IsPlain.rounds

round-IsSettled_example : IsSettled waiting
round-IsSettled_example =
    round-IsSettled table sys_none loading waiting loading-IsSettled loading-IsPlain.no_call
      loading-IsPlain.rounds

waiting_flag : waiting.ctl.flag ≡ 0
unfolding sim_init pipeline_control squash replay after_wb do_if do_forward forward do_id issue
    route dispatch do_ex resolve do_mem def_inst operand fill_operands alu
waiting_flag = refl

loading_line :
    def_inst (opfield (inst_of loading)) ≡ some (inst f_icomp (dgpr rd) dna (dgpr rs) (dgpr rt) dna)
loading_line =
    subst (λ i. def_inst (opfield i) ≡ some (inst f_icomp (dgpr rd) dna (dgpr rs) (dgpr rt) dna))
      (sym loading_inst) (unfold def_inst in refl)

loading_real : opfield (inst_of loading) ≢ nop
loading_real = subst (λ i. opfield i ≢ nop) (sym loading_inst) (omega arith)

round-wakes_example : (inst_of waiting ≡ inst_of loading) × (adding.ctl.stall ≡ false)
round-wakes_example =
    round-wakes table sys_none loading waiting adding
      (inst f_icomp (dgpr rd) dna (dgpr rs) (dgpr rt) dna) loading-IsSettled loading-IsPlain.no_call
      loading-IsPlain.rounds waiting_waits (omega (arith, waiting_flag)) loading_real loading_line
      waiting-IsPlain.no_call waiting-IsPlain.rounds
