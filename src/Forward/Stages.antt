-- ===== src/Forward/Stages.antt =====
-- The stages of Project1/part2/sim-pipe.c.
use computer_architecture.Base.{
  ℕ, ◌+◌, ◌/◌, ◌%◌, Bool, true, false, ◌||◌, Option, none, some, ◌==◌, if◌then◌else◌, update,
}
use computer_architecture.Base.Word.{u32}
use computer_architecture.Memory.{Memory}
use computer_architecture.Isa.{Dep, opfield, has_flag, f_load, f_store, f_disp, nop, syscall}
use computer_architecture.Pipe.State.{
  IdexBuf, MemwbBuf, WbBuf, set_gpr, same_dep, mask_bit, cond_jump, cond_branch, set_branch,
  make_nop,
}
use computer_architecture.Pipe.Decode.{fill_operands}
use computer_architecture.Pipe.Alu.{alu}
use computer_architecture.Pipe.Stages.{SysSyscall, alu_b_of}
use computer_architecture.Basic.State.{ControlBuf, Sim}
use computer_architecture.Basic.Decode.{dispatch, is_marked, fetch_inst}

-- `ctl.flag & 2`.
abbrev pub flag_two : ControlBuf → Bool
flag_two ctl = ctl.flag / 2 % 2 == 1

module _ {Space : Type 0} where
  unfoldable pub forward : Sim Space → Dep → ℕ
  forward s none = 0
  forward s (some n) =
      if same_dep (some n) s.em.dst_e
      then s.em.val_e
      else if same_dep (some n) s.mw.dst_e
      then s.mw.val_e
      else if same_dep (some n) s.mw.dst_m
      then s.mw.val_m
      else if same_dep (some n) s.wb.dst_e
      then s.wb.val_e
      else if same_dep (some n) s.wb.dst_m
      then s.wb.val_m
      else s.regs n

  unfoldable pub do_forward : Sim Space → Sim Space
  unfolding forward
  do_forward s = record s {
    de = record (s.de) {
      alu_a = forward s s.de.src_a;
      alu_b = forward s s.de.src_b;
      val_a = forward s s.de.oprand.in1;
    };
  }

  unfoldable pub squash : Sim Space → Sim Space
  squash s = if s.ctl.cond == 0 then s else record s {
    de = record (s.de) { inst = if flag_two s.ctl then make_nop s.de.inst else s.de.inst };
    ctl = record (s.ctl) { flag = 0; cond = 0 };
  }

  unfoldable pub replay : Sim Space → Sim Space
  replay s =
      if s.ctl.stall
      then record s {
        fd = record (s.fd) { pc = s.de.pc; inst = s.de.inst };
        de = record (s.de) { inst = make_nop s.de.inst };
      }
      else s

  unfoldable pub pipeline_control : Sim Space → Sim Space
  unfolding squash replay
  pipeline_control s = replay (squash s)

  abbrev pub next_pc : Sim Space → ℕ
  next_pc s =
      if cond_branch s.ctl.cond
      then s.em.target
      else if cond_jump s.ctl.cond
      then s.de.target
      else u32 (s.fd.pc + 8)

  -- The sources and destinations, after the switch; `rw` is zero before.
  unfoldable pub route : Sim Space → Sim Space
  route s =
      let de = s.de in
      let load = has_flag de.inst_flags f_load in
      let store = has_flag de.inst_flags f_store in
      record s {
        de = record de {
          src_a = if has_flag de.inst_flags f_disp then de.oprand.in2 else de.oprand.in1;
          src_b = de.oprand.in2;
          rw = de.rw + (if store then 2 else 0) + (if load then 4 else 0);
          dst_m = if load then de.oprand.out1 else none;
          dst_e = if load then none else de.oprand.out1;
        };
        ctl = record (s.ctl) {
          regs = if load then update s.ctl.regs (mask_bit de.oprand.out1) true else s.ctl.regs;
        };
      }

  -- From the label `READ_OPRAND_VALUE` on.
  unfoldable pub issue : Sim Space → Sim Space
  unfolding dispatch route
  issue s =
      if is_marked s.ctl s.de.oprand.in1 || is_marked s.ctl s.de.oprand.in2
      then record s { ctl = record (s.ctl) { stall = true } }
      else route (dispatch (record s { ctl = record (s.ctl) { stall = false } }))

  abbrev pub latch_id : Sim Space → IdexBuf
  latch_id s = record (s.de) { inst = s.fd.inst; pc = s.fd.pc; rw = 0 }

  unfoldable pub do_id : Sim Space → Sim Space
  unfolding fill_operands issue
  do_id s =
      if s.fd.inst.a == nop
      then record s { de = latch_id s }
      else issue
          (record s { de = fill_operands (record (latch_id s) { opcode = opfield s.fd.inst }) })

  -- The test on `ctl.flag` at the end of `do_ex`.
  unfoldable pub resolve : Sim Space → Sim Space
  resolve s =
      if s.ctl.flag == 0
      then s
      else if s.em.val_e == 0
      then record s { ctl = record (s.ctl) { flag = 0 } }
      else record s { ctl = record (s.ctl) { cond = set_branch s.ctl.cond } }

  -- A bubble is executed like any instruction.
  unfoldable pub do_ex : Sim Space → Sim Space
  unfolding resolve
  do_ex s =
      let de = s.de in
      resolve (record s {
        em = record {
          inst = de.inst;
          pc = de.pc;
          dst_e = de.dst_e;
          dst_m = de.dst_m;
          val_a = de.val_a;
          rw = de.rw;
          target = de.target;
          val_e = alu de.func de.alu_a (alu_b_of de);
        };
      })

  abbrev pub latch_mem : Sim Space → MemwbBuf
  latch_mem s = record (s.mw) {
    inst = s.em.inst;
    dst_e = s.em.dst_e;
    dst_m = s.em.dst_m;
    val_e = s.em.val_e;
    pc = s.em.pc;
    rw = s.em.rw;
  }

  abbrev pub latch_wb : Sim Space → WbBuf
  latch_wb s = record {
    inst = s.mw.inst;
    pc = s.mw.pc;
    val_e = s.mw.val_e;
    val_m = s.mw.val_m;
    dst_e = s.mw.dst_e;
    dst_m = s.mw.dst_m;
  }

  unfoldable pub do_wb : SysSyscall Space → Sim Space → Option (Sim Space)
  do_wb sys_syscall s =
      let regs' = set_gpr (set_gpr s.regs s.mw.dst_m s.mw.val_m) s.mw.dst_e s.mw.val_e in
      if s.mw.inst.a == syscall
      then elim (sys_syscall regs' s.mem s.mw.inst) [
        | none ↦ none
        | some (regs'', mem') ↦ some (record s { wb = latch_wb s; regs = regs''; mem = mem' })
      ]
      else some (record s { wb = latch_wb s; regs = regs' })

module _ {Space : Type 0} (M : Memory Space) where
  open M use {read_word, write_word}

  unfoldable pub do_if : Sim Space → Sim Space
  do_if s = record s {
    fd = record { inst = fetch_inst M s.mem (next_pc s); pc = next_pc s; npc = next_pc s };
  }

  unfoldable pub do_mem : Sim Space → Sim Space
  do_mem s =
      let mw = latch_mem s in
      if mw.rw / 4 % 2 == 1
      then record s {
        mw = record mw { val_m = read_word s.mem mw.val_e };
        ctl = record (s.ctl) { regs = update s.ctl.regs (mask_bit mw.dst_m) false };
      }
      else if mw.rw / 2 % 2 == 1
      then record s { mw = mw; mem = write_word s.mem mw.val_e s.em.val_a }
      else record s { mw = mw }
