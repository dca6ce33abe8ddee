-- ===== src/Stall/Bubbles.antt =====
-- What a stall of Project1/part2/sim-pipe-withstall.c leaves in the pipeline, and the marks on the
-- registers.
use computer_architecture.Base.{ℕ, ◌≡◌, ◌≢◌, Bool, true, false, ◌||◌, some, arith}
use computer_architecture.Memory.{Memory}
use computer_architecture.Isa.{nop, opfield}
use computer_architecture.Pipe.State.{IdexBuf, mask_bit}
use computer_architecture.Pipe.Decode.{fill_operands}
use computer_architecture.Pipe.Alu.{alu}
use computer_architecture.Basic.State.{Sim}
use computer_architecture.Basic.Decode.{dispatch, is_marked}
use computer_architecture.Stall.Stages.{
  pipeline_control, latch_id, read_operands, do_id, do_ex, do_if,
}

module _ {Space : Type 0} (s : Sim Space) where
  -- The latch with the operands of the instruction that is decoded.
  abbrev pub decoded : IdexBuf
  decoded = fill_operands (record (latch_id s) { opcode = opfield s.fd.inst })

  abbrev pub waits : Bool
  waits = is_marked s.ctl decoded.oprand.in1 || is_marked s.ctl decoded.oprand.in2

  do_id-waits :
      s.fd.inst.a ≢ nop
      → waits ≡ true
      → do_id s ≡ record s { de = decoded; ctl = record (s.ctl) { stall = true } }
  unfolding do_id
  do_id-waits real busy = ground arith

  pub do_id-issues :
      s.fd.inst.a ≢ nop
      → waits ≡ false
      → do_id s
        ≡ read_operands
            (dispatch (record s { de = decoded; ctl = record (s.ctl) { stall = false } }))
  unfolding do_id
  do_id-issues real free = ground arith

fill_operands-keeps :
    (de : IdexBuf)
    → ((fill_operands de).dst_e ≡ de.dst_e)
      × ((fill_operands de).dst_m ≡ de.dst_m)
      × ((fill_operands de).func ≡ de.func)
      × ((fill_operands de).alu_a ≡ de.alu_a)
      × ((fill_operands de).alu_b ≡ de.alu_b)
      × ((fill_operands de).rw ≡ de.rw)
      × ((fill_operands de).val_a ≡ de.val_a)
unfolding fill_operands
fill_operands-keeps de = ground arith

do_if-keeps :
    {Space : Type 0} (M : Memory Space) (s : Sim Space)
    → ((do_if M s).de ≡ s.de) × ((do_if M s).ctl.stall ≡ s.ctl.stall)
unfolding do_if
do_if-keeps M s = ground arith

-- An instruction that waits leaves a bubble which executes the instruction before it again: the
-- same operation on the same values, for the same registers and the same access to the memory, a
-- store with the same word.
pub do_ex-repeats :
    {Space : Type 0} (M : Memory Space) (s : Sim Space)
    → s.fd.inst.a ≢ nop
    → waits s ≡ true
    → let em = (do_ex (pipeline_control (do_if M (do_id s)))).em in
      (em.inst.a ≡ nop)
      × (em.val_e ≡ alu s.de.func s.de.alu_a s.de.alu_b)
      × (em.dst_e ≡ s.de.dst_e)
      × (em.dst_m ≡ s.de.dst_m)
      × (em.rw ≡ s.de.rw)
      × (em.val_a ≡ s.de.val_a)
unfolding do_ex pipeline_control
do_ex-repeats M s real busy = ground (
  arith,
  do_id-waits s real busy,
  fill_operands-keeps (record (latch_id s) { opcode = opfield s.fd.inst }),
  do_if-keeps M (record s { de = decoded s; ctl = record (s.ctl) { stall = true } }),
)

dispatch-keeps :
    {Space : Type 0} (s : Sim Space)
    → ((dispatch s).de.oprand ≡ s.de.oprand) × ((dispatch s).ctl.regs ≡ s.ctl.regs)
unfolding dispatch
dispatch-keeps s = ground arith

-- An instruction that does not wait, with a register as its first output that is still marked
-- for an older instruction, clears the mark.
pub do_id-clears :
    {Space : Type 0} (s : Sim Space) (r : ℕ)
    → s.fd.inst.a ≢ nop
    → waits s ≡ false
    → (decoded s).oprand.out1 ≡ some r
    → s.ctl.regs (mask_bit (some r)) ≡ true
    → (do_id s).ctl.regs (mask_bit (some r)) ≡ false
unfolding read_operands
do_id-clears s r real free out marked =
    let s1 = record s { de = decoded s; ctl = record (s.ctl) { stall = false } } in
    ground (arith, do_id-issues s real free, dispatch-keeps s1)
