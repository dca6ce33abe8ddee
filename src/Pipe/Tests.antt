-- ===== src/Pipe/Tests.antt =====
-- The pipeline's theorems at concrete states, over a table of words.
use computer_architecture.Base.{
  [], ◌∷◌, if◌then◌else◌, ℕ, ◌+◌, ◌*◌, ◌^◌, ◌≤◌, ◌≡◌, refl, true, false, none, some, arith, update,
}
use mathlib.Core.Option
use computer_architecture.Memory.Table.{table}
use computer_architecture.Isa.{
  beq, Inst, nop, add, lw, operand, inst, f_icomp, dna, dgpr, rs, rt, rd, opfield,
}
use computer_architecture.Isa.Table.{def_inst}
use computer_architecture.Pipe.State.{Sim, mask_bit}
use computer_architecture.Pipe.Init.{sim_init, static_sim}
use computer_architecture.Base.Word.{sub32}
use computer_architecture.Pipe.Decode.{do_id, fill_operands}
use computer_architecture.Pipe.Alu.{multu, alu}
use computer_architecture.Cache.Access.{cache_read}
use computer_architecture.Cache.Set.{init_cache}
use computer_architecture.Cache.Trace.{init_cache-IsCoherent}
use computer_architecture.Cache.Line.{malloc_cache_line}
use computer_architecture.Pipe.Multu.{multu_lem}
use computer_architecture.Pipe.Stages.{
  SysSyscall, forward, do_forward, do_if, pipeline_control, do_wb, do_mem, do_ex,
}
use computer_architecture.Pipe.Main.{round, sim_main}
use computer_architecture.Pipe.Forwarding.{WbWritten, forward-retired, do_wb-WbWritten}
use computer_architecture.Pipe.Hazards.{
  decoded, turn, words_at, turn_stall, turn_taken, turn_taken_stall, turn_taken_load,
}
use computer_architecture.Pipe.Clock.{sim_main-clock}
use computer_architecture.Pipe.Livelock.{Stuck, sim_main-Stuck}

-- A system call that changes nothing.
abbrev sys_nothing : SysSyscall (ℕ → ℕ)
sys_nothing regs mem i = some (regs, mem)

abbrev start : Sim (ℕ → ℕ)
start = static_sim (λ n. 0) (λ a. 0)

-- `add $3,$2,$1` and `lw $2,4($1)`.
abbrev add_321 : Inst
add_321 = record { a = add; b = 2 * 2 ^ 24 + 1 * 2 ^ 16 + 3 * 2 ^ 8 }

abbrev lw_21 : Inst
lw_21 = record { a = lw; b = 1 * 2 ^ 24 + 2 * 2 ^ 16 + 4 }

multu_lem_example :
    (multu 0xffffffff 7).hi_word * 2 ^ 32 + (multu 0xffffffff 7).lo_word ≡ 0xffffffff * 7
multu_lem_example = multu_lem 0xffffffff 7 (omega arith) (omega arith)

-- Results for register 3 in `em` and in `mw`.
abbrev ahead : Sim (ℕ → ℕ)
ahead = record start {
  em = record (start.em) { inst = add_321; dst_e = some 3; dst_m = none; val_e = 9 };
  mw = record (start.mw) { inst = add_321; dst_e = some 3; dst_m = none; val_e = 8 };
  wb = record (start.wb) { dst_e = none; dst_m = none };
}

ahead-WbWritten : WbWritten ahead
ahead-WbWritten n = refl

abbrev written : Sim (ℕ → ℕ)
written = record ahead {
  wb = record (ahead.wb) {
    inst = add_321;
    pc = 0;
    val_e = 8;
    val_m = 0;
    dst_e = some 3;
    dst_m = none;
  };
  regs = update ahead.regs 3 8;
}

run_do_wb : do_wb table sys_nothing ahead ≡ some written
unfolding do_wb
run_do_wb = refl

do_wb-WbWritten_example : WbWritten written
do_wb-WbWritten_example =
    do_wb-WbWritten table sys_nothing ahead written ahead-WbWritten (omega arith) run_do_wb

-- The state behind the memory stage and the next write-back.
abbrev written_both : Sim (ℕ → ℕ)
written_both = elim (do_wb table sys_nothing (do_mem table written)) [ none ↦ written | some s ↦ s ]

run_both : do_wb table sys_nothing (do_mem table written) ≡ some written_both
unfolding do_wb do_mem
run_both = refl

forward-retired_example : forward ahead (some 3) ≡ written_both.regs 3
forward-retired_example =
    forward-retired table sys_nothing ahead written written_both 3 ahead-WbWritten (omega arith)
      (omega arith) (omega arith) (omega arith) (λ e. absurd (ground (arith, e))) run_do_wb run_both

-- Bubbles in every latch but the first.
abbrev bubbles : Sim (ℕ → ℕ)
bubbles = record start {
  fd = record (start.fd) { inst = add_321; pc = 0x400100 };
  de = record (start.de) { inst = record { a = nop; b = 5 } };
  em = record (start.em) { inst = record { a = nop; b = 6 } };
  mw = record (start.mw) { inst = record { a = nop; b = 7 } };
}

-- Register 2 waits for a load.
abbrev waiting : Sim (ℕ → ℕ)
waiting = record bubbles { ctl = record (bubbles.ctl) { regs = update (λ n. false) 2 true } }

waiting_busy : (do_id waiting).ctl.stall ≡ true
unfolding do_id def_inst operand
waiting_busy = refl

turn_stall_example :
    ((turn table waiting).fd.inst ≡ add_321)
    × ((turn table waiting).fd.pc ≡ 0x400100)
    × ((turn table waiting).de.inst.a ≡ nop)
    × ((turn table waiting).regs ≡ waiting.regs)
unfolding fill_operands def_inst operand
turn_stall_example = turn_stall table waiting (omega arith) refl refl

-- The branch in `em` is taken.
abbrev taken : Sim (ℕ → ℕ) → Sim (ℕ → ℕ)
taken s = record s {
  em = record (s.em) { target = 0x400200 };
  ctl = record (s.ctl) { flag = true; cond = 2 };
}

free_stall : (do_id (taken bubbles)).ctl.stall ≡ false
unfolding do_id def_inst operand
free_stall = refl

held_stall : (do_id (taken waiting)).ctl.stall ≡ true
unfolding do_id def_inst operand
held_stall = refl

turn_taken_example :
    ((turn table (taken bubbles)).fd.pc ≡ 0x400200)
    × ((turn table (taken bubbles)).fd.inst ≡ words_at table (taken bubbles) 0x400200)
    × ((turn table (taken bubbles)).de.inst.a ≡ nop)
    × ((turn table (taken bubbles)).ctl.cond ≡ 0)
    × ((turn table (taken bubbles)).ctl.flag ≡ false)
turn_taken_example =
    turn_taken table (taken bubbles) refl free_stall (λ on. init_cache-IsCoherent table (λ a. 0))
      (omega arith, refl)

turn_taken_stall_example :
    ((turn table (taken waiting)).fd.pc ≡ 0x400100)
    × ((turn table (taken waiting)).fd.inst.a ≡ nop)
    × ((turn table (taken waiting)).ctl.cond ≡ 0)
    × ((turn table (taken waiting)).ctl.stall ≡ true)
turn_taken_stall_example = turn_taken_stall table (taken waiting) refl held_stall

abbrev loading : Sim (ℕ → ℕ)
loading = record bubbles { fd = record (bubbles.fd) { inst = lw_21 } }

turn_taken_load_example :
    ((turn table (taken loading)).de.inst.a ≡ nop)
    × ((turn table (taken loading)).ctl.regs (mask_bit (decoded (taken loading)).oprand.out1)
        ≡ true)
unfolding fill_operands def_inst operand
turn_taken_load_example = turn_taken_load table (taken loading) (omega arith) refl refl refl

-- The line of `ADD`.
stuck_line : def_inst (opfield add_321) ≡ some (inst f_icomp (dgpr rd) dna (dgpr rs) (dgpr rt) dna)
unfolding def_inst
stuck_line = refl

-- A taken `beq $0,$0` to address 16, with `lw $2,0($0)` behind it, and `add_321` at its target: the
-- load is thrown away, and the addition waits for it.
abbrev branch_program : ℕ → ℕ
branch_program =
    update (update (update (update (update (λ a. 0) 0 beq) 4 2) 8 lw) 12 (2 * 2 ^ 16)) 16 add

abbrev program_memory : ℕ → ℕ
program_memory = update branch_program 20 (2 * 2 ^ 24 + 1 * 2 ^ 16 + 3 * 2 ^ 8)

abbrev loaded : Sim (ℕ → ℕ)
loaded =
    let s = sim_init (λ n. 0) program_memory start in
    record s { fd = record (s.fd) { pc = sub32 0 8 } }

run_stuck :
    Option.map
      (λ (s : Sim (ℕ → ℕ)). s.de.pc ∷ s.de.inst.a ∷ (if s.ctl.stall then 1 else 0) ∷ [])
      (sim_main table sys_nothing 9 loaded)
    ≡ some (16 ∷ add ∷ 1 ∷ [])
unfolding sim_main round sim_init do_wb pipeline_control do_if do_forward do_id do_ex do_mem
    cache_read init_cache malloc_cache_line def_inst operand alu
run_stuck = refl

-- The state that the run reaches.
abbrev reached : Sim (ℕ → ℕ)
reached = elim (sim_main table sys_nothing 9 loaded) [ none ↦ loaded | some s ↦ s ]

reached-Stuck : Stuck (inst f_icomp (dgpr rd) dna (dgpr rs) (dgpr rt) dna) reached
unfolding sim_main round sim_init do_wb pipeline_control do_if do_forward do_id do_ex do_mem
    cache_read init_cache malloc_cache_line def_inst operand alu
reached-Stuck = record {
  real = omega arith;
  stalled = refl;
  calm = refl;
  line = stuck_line;
  busy = refl;
  no_ex = refl;
  no_mem = refl;
}

sim_main-Stuck_example :
    (s' : Sim (ℕ → ℕ)) × (sim_main table sys_nothing 1000 reached ≡ some s')
    × Stuck (inst f_icomp (dgpr rd) dna (dgpr rs) (dgpr rt) dna) s'
    × (s'.de.pc ≡ reached.de.pc)
    × (s'.de.inst ≡ reached.de.inst)
    × (s'.regs ≡ reached.regs)
sim_main-Stuck_example =
    sim_main-Stuck table sys_nothing (inst f_icomp (dgpr rd) dna (dgpr rs) (dgpr rt) dna) 1000
      reached reached-Stuck

abbrev reached_later : Sim (ℕ → ℕ)
reached_later =
    (sim_main-Stuck table sys_nothing (inst f_icomp (dgpr rd) dna (dgpr rs) (dgpr rt) dna) 1000
      reached reached-Stuck).0

sim_main-clock_example :
    (reached.num_clk + 3000 ≤ reached_later.num_clk)
    × (reached_later.num_clk ≤ reached.num_clk + 31000)
sim_main-clock_example =
    sim_main-clock table sys_nothing 1000 reached reached_later
      (sim_main-Stuck table sys_nothing (inst f_icomp (dgpr rd) dna (dgpr rs) (dgpr rt) dna) 1000
        reached reached-Stuck).1
