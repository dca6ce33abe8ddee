-- ===== src/Pipe/Stages.antt =====
-- The other stages of Project2/sim-pipe.c: `forward`, `do_forward`, `pipeline_control`, `do_if`,
-- `do_ex`, `do_mem` and `do_wb`.
use computer_architecture.Base.{
  ℕ, ◌+◌, ◌/◌, ◌%◌, false, not, ◌||◌, ◌&&◌, Option, none, some, ◌==◌, if◌then◌else◌, update,
}
use computer_architecture.Base.Word.{u32, sign_extend}
use computer_architecture.Memory.{Memory}
use computer_architecture.Cache.Access.{cache_read, cache_write, cache_flush}
use computer_architecture.Isa.{
  Inst, Dep, has_flag, f_disp, f_imm, shamt, nop, multu as multu_op, syscall,
}
use computer_architecture.Pipe.State.{
  is_shtl, IdexBuf, MemwbBuf, WbBuf, Regs, Sim, hi, lo, set_gpr, same_dep, mask_bit, cond_jump,
  cond_branch, set_branch, make_nop,
}
use computer_architecture.Pipe.Alu.{HiLo, multu, alu}

-- The second operand of the execute stage.
abbrev pub alu_b_of : IdexBuf → ℕ
alu_b_of de =
    if has_flag de.inst_flags f_imm || has_flag de.inst_flags f_disp
    then sign_extend de.inst.b
    else if is_shtl de.func
    then shamt de.inst.b
    else de.alu_b

abbrev pub set_hi_lo : Regs → HiLo → Regs
set_hi_lo regs p = update (update regs hi p.hi_word) lo p.lo_word

-- The register writes of the write-back stage.
abbrev pub write_back : MemwbBuf → Regs → Regs
write_back mw regs = set_gpr (set_gpr regs mw.dst_m mw.val_m) mw.dst_e mw.val_e

-- `sys_syscall` works on the registers and the memory, or ends the run of the simulator.
abbrev pub SysSyscall : Type 0 → Type 0
SysSyscall Space = Regs → Space → Inst → Option (Regs × Space)

module _ {Space : Type 0} where
  -- `forward`: the value for `*val`, at the source `*src`.
  unfoldable pub forward : Sim Space → Dep → ℕ
  forward s none = 0
  forward s (some n) =
      if same_dep (some n) s.em.dst_e
      then s.em.val_e
      else if same_dep (some n) s.mw.dst_e
      then s.mw.val_e
      else if same_dep (some n) s.mw.dst_m
      then s.mw.val_m
      else if same_dep (some n) s.wb.dst_e
      then s.wb.val_e
      else if same_dep (some n) s.wb.dst_m
      then s.wb.val_m
      else s.regs n

  unfoldable pub do_forward : Sim Space → Sim Space
  unfolding forward
  do_forward s = record s {
    de = record (s.de) {
      alu_a = forward s s.de.src_a;
      alu_b = forward s s.de.src_b;
      val_a = forward s s.de.oprand.in1;
    };
  }

  -- The first half of `pipeline_control`, on `ctl.cond`.
  unfoldable pub squash : Sim Space → Sim Space
  squash s = if s.ctl.cond == 0 then s else record s {
    de = record (s.de) { inst = if cond_branch s.ctl.cond then make_nop s.de.inst else s.de.inst };
    ctl = record (s.ctl) { flag = false; cond = 0 };
  }

  -- The second half, on `ctl.stall`.
  unfoldable pub replay : Sim Space → Sim Space
  replay s =
      if s.ctl.stall
      then record s {
        fd = record (s.fd) { pc = s.de.pc; inst = s.de.inst };
        de = record (s.de) { inst = make_nop s.de.inst };
      }
      else s

  unfoldable pub pipeline_control : Sim Space → Sim Space
  unfolding squash replay
  pipeline_control s = replay (squash s)

  -- The test on `ctl.flag` at the end of `do_ex`.
  unfoldable pub resolve : Sim Space → Sim Space
  resolve s =
      if s.ctl.flag
      then (if s.ctl.cmp && not (s.em.val_e == 0) || not s.ctl.cmp && s.em.val_e == 0
          then record s { ctl = record (s.ctl) { cond = set_branch s.ctl.cond } }
          else record s { ctl = record (s.ctl) { flag = false } })
      else s

  unfoldable pub do_ex : Sim Space → Sim Space
  unfolding resolve
  do_ex s =
      let de = s.de in
      if de.inst.a == nop
      then record s { em = record (s.em) { inst = de.inst } }
      else resolve (record s {
        em = record {
          inst = de.inst;
          pc = de.pc;
          dst_e = de.dst_e;
          dst_m = de.dst_m;
          val_a = de.val_a;
          rw = de.rw;
          target = de.target;
          val_e = alu de.func de.alu_a (alu_b_of de);
        };
        regs =
            if de.opcode == multu_op
            then set_hi_lo s.regs (multu de.alu_a (alu_b_of de))
            else s.regs;
      })

  -- `do_if`: the next address, then the two words of the instruction. Without the cache the
  -- fetch takes ten cycles.
  abbrev pub next_pc : Sim Space → ℕ
  next_pc s =
      if cond_branch s.ctl.cond
      then s.em.target
      else if cond_jump s.ctl.cond
      then s.de.target
      else u32 (s.fd.pc + 8)

  -- `mw` takes over `em`, but for `valM`; bit 4 of `rw` is a load and bit 2 a store.
  abbrev pub latch_mem : Sim Space → MemwbBuf
  latch_mem s = record (s.mw) {
    inst = s.em.inst;
    dst_e = s.em.dst_e;
    dst_m = s.em.dst_m;
    val_e = s.em.val_e;
    pc = s.em.pc;
    rw = s.em.rw;
  }

  abbrev pub latch_wb : Sim Space → WbBuf
  latch_wb s = record {
    inst = s.mw.inst;
    pc = s.mw.pc;
    val_e = s.mw.val_e;
    val_m = s.mw.val_m;
    dst_e = s.mw.dst_e;
    dst_m = s.mw.dst_m;
  }

module _ {Space : Type 0} (M : Memory Space) where
  open M use {read_word, write_word}

  unfoldable pub fetch : Sim Space → ℕ → Sim Space
  fetch s pc =
      if s.cache.enable
      then (let first = cache_read M s.cache s.mem pc 0 in
          let second = cache_read M first.cache first.space (u32 (pc + 4)) 0 in
          record s {
            fd = record { inst = record { a = first.word; b = second.word }; pc = pc; npc = pc };
            cache = second.cache;
            mem = second.space;
            num_clk = s.num_clk + (first.cycles + second.cycles);
          })
      else record s {
        fd = record {
          inst = record { a = read_word s.mem pc; b = read_word s.mem (u32 (pc + 4)) };
          pc = pc;
          npc = pc;
        };
        num_clk = s.num_clk + 10;
      }

  unfoldable pub do_if : Sim Space → Sim Space
  unfolding fetch
  do_if s = fetch s (next_pc s)

  -- The branch of a load: the word goes to `mw.valM`, and the register is free again.
  unfoldable pub mem_load : Sim Space → Sim Space
  mem_load s =
      let r = cache_read M s.cache s.mem s.mw.val_e s.mw.val_m in
      let free = record (s.ctl) { regs = update s.ctl.regs (mask_bit s.mw.dst_m) false } in
      if s.cache.enable
      then record s {
        mw = record (s.mw) { val_m = r.word };
        cache = r.cache;
        mem = r.space;
        ctl = free;
        num_clk = s.num_clk + r.cycles;
      }
      else record s {
        mw = record (s.mw) { val_m = read_word s.mem s.mw.val_e };
        ctl = free;
        num_clk = s.num_clk + 10;
      }

  unfoldable pub mem_store : Sim Space → Sim Space
  mem_store s =
      let r = cache_write M s.cache s.mem s.mw.val_e s.em.val_a in
      if s.cache.enable
      then record s {
        em = record (s.em) { val_a = r.word };
        cache = r.cache;
        mem = r.space;
        num_clk = s.num_clk + r.cycles;
      }
      else record s { mem = write_word s.mem s.mw.val_e s.em.val_a; num_clk = s.num_clk + 10 }

  unfoldable pub do_mem : Sim Space → Sim Space
  unfolding mem_load mem_store
  do_mem s =
      if s.em.inst.a == nop
      then record s { mw = record (s.mw) { inst = s.em.inst } }
      else if s.em.rw / 4 % 2 == 1
      then mem_load (record s { mw = latch_mem s })
      else if s.em.rw / 2 % 2 == 1
      then mem_store (record s { mw = latch_mem s })
      else record s { mw = latch_mem s }

  -- A system call first brings the memory up to date.
  unfoldable pub call_system : SysSyscall Space → Sim Space → Option (Sim Space)
  call_system sys_syscall s =
      let (cache', mem') = cache_flush M s.cache s.mem in
      elim (sys_syscall s.regs mem' s.wb.inst) [
        | none ↦ none
        | some (regs', mem'') ↦ some (record s { cache = cache'; regs = regs'; mem = mem'' })
      ]

  unfoldable pub do_wb : SysSyscall Space → Sim Space → Option (Sim Space)
  unfolding call_system
  do_wb sys_syscall s =
      if s.mw.inst.a == nop
      then some (record s { wb = record (s.wb) { inst = s.mw.inst } })
      else (let s' = record s { wb = latch_wb s; regs = write_back s.mw s.regs } in
          if s.mw.inst.a == syscall then call_system sys_syscall s' else some s')
