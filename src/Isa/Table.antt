-- ===== src/Isa/Table.antt =====
-- The instruction table: the `DEFINST` lines of Project1/part1/machine.def, in order, as a
-- little-endian host compiles them. Only what `do_id` reads of a line is kept.
use computer_architecture.Base.{
  ℕ, zero, suc, ◌+◌, ◌≡◌, refl, Bool, true, false, not, ◌&&◌, Option, none, some, List, [], ◌∷◌,
  ◌++◌, arith,
}
use computer_architecture.Isa.{
  InstDef, inst, rs, rt, rd, dna, link, dhi, dlo, dfcc, dgpr, dgpr_d, dfpr, f_icomp, f_fcomp,
  f_ctrl, f_uncond, f_cond, f_mem, f_load, f_store, f_disp, f_rr, f_trap, f_longlat, f_dirjmp,
  f_indirjmp, f_call, f_fpcond, f_imm, has_flag,
}

unfoldable pub insts_low : List InstDef
insts_low =
    inst f_icomp dna dna dna dna dna
    ∷ inst (f_ctrl + f_uncond + f_dirjmp) dna dna dna dna dna
    ∷ inst (f_ctrl + f_uncond + f_dirjmp + f_call) link dna dna dna dna
    ∷ inst (f_ctrl + f_uncond + f_indirjmp) dna dna (dgpr rs) dna dna
    ∷ inst (f_ctrl + f_uncond + f_indirjmp + f_call) (dgpr rd) dna (dgpr rs) dna dna
    ∷ inst (f_ctrl + f_cond + f_dirjmp) dna dna (dgpr rs) (dgpr rt) dna
    ∷ inst (f_ctrl + f_cond + f_dirjmp) dna dna (dgpr rs) (dgpr rt) dna
    ∷ inst (f_ctrl + f_cond + f_dirjmp) dna dna (dgpr rs) dna dna
    ∷ inst (f_ctrl + f_cond + f_dirjmp) dna dna (dgpr rs) dna dna
    ∷ inst (f_ctrl + f_cond + f_dirjmp) dna dna (dgpr rs) dna dna
    ∷ inst (f_ctrl + f_cond + f_dirjmp) dna dna (dgpr rs) dna dna
    ∷ inst (f_ctrl + f_cond + f_dirjmp + f_fpcond) dna dna dfcc dna dna
    ∷ inst (f_ctrl + f_cond + f_dirjmp + f_fpcond) dna dna dfcc dna dna
    ∷ inst (f_mem + f_load + f_disp) (dgpr rt) dna dna (dgpr rs) dna
    ∷ inst (f_mem + f_load + f_disp) (dgpr rt) dna dna (dgpr rs) dna
    ∷ inst (f_mem + f_load + f_disp) (dgpr rt) dna dna (dgpr rs) dna
    ∷ inst (f_mem + f_load + f_disp) (dgpr rt) dna dna (dgpr rs) dna
    ∷ inst (f_mem + f_load + f_disp) (dgpr rt) dna dna (dgpr rs) dna
    ∷ inst (f_mem + f_load + f_disp) (dgpr_d rt) dna dna (dgpr rs) dna
    ∷ inst (f_mem + f_load + f_disp) (dfpr rt) dna dna (dgpr rs) dna
    ∷ inst (f_mem + f_load + f_disp) (dfpr rt) dna dna (dgpr rs) dna
    ∷ inst (f_mem + f_load + f_disp) (dgpr rt) dna dna (dgpr rs) dna
    ∷ inst (f_mem + f_load + f_disp) (dgpr rt) dna dna (dgpr rs) dna
    ∷ inst (f_mem + f_store + f_disp) dna dna (dgpr rt) (dgpr rs) dna
    ∷ inst (f_mem + f_store + f_disp) dna dna (dgpr rt) (dgpr rs) dna
    ∷ inst (f_mem + f_store + f_disp) dna dna (dgpr rt) (dgpr rs) dna
    ∷ inst (f_mem + f_store + f_disp) dna dna (dgpr_d rt) (dgpr rs) dna
    ∷ inst (f_mem + f_store + f_disp) dna dna dna (dgpr rs) dna
    ∷ inst (f_mem + f_store + f_disp) dna dna (dfpr rt) (dgpr rs) dna
    ∷ inst (f_mem + f_store + f_disp) dna dna (dfpr rt) (dgpr rs) dna
    ∷ inst (f_mem + f_store + f_disp) dna dna (dgpr rt) (dgpr rs) dna
    ∷ inst (f_mem + f_store + f_disp) dna dna (dgpr rt) (dgpr rs) dna
    ∷ inst (f_mem + f_load + f_rr) (dgpr rt) dna dna (dgpr rs) (dgpr rd)
    ∷ inst (f_mem + f_load + f_rr) (dgpr rt) dna dna (dgpr rs) (dgpr rd)
    ∷ inst (f_mem + f_load + f_rr) (dgpr rt) dna dna (dgpr rs) (dgpr rd)
    ∷ inst (f_mem + f_load + f_rr) (dgpr rt) dna dna (dgpr rs) (dgpr rd)
    ∷ inst (f_mem + f_load + f_rr) (dgpr rt) dna dna (dgpr rs) (dgpr rd)
    ∷ inst (f_mem + f_load + f_rr) (dgpr_d rt) dna dna (dgpr rs) (dgpr rd)
    ∷ inst (f_mem + f_load + f_rr) (dfpr rt) dna dna (dgpr rs) (dgpr rd)
    ∷ inst (f_mem + f_load + f_rr) (dfpr rt) dna dna (dgpr rs) (dgpr rd)
    ∷ inst (f_mem + f_store + f_rr) dna dna (dgpr rt) (dgpr rs) (dgpr rd)
    ∷ []

unfoldable pub insts_mid : List InstDef
insts_mid =
    inst (f_mem + f_store + f_rr) dna dna (dgpr rt) (dgpr rs) (dgpr rd)
    ∷ inst (f_mem + f_store + f_rr) dna dna (dgpr rt) (dgpr rs) (dgpr rd)
    ∷ inst (f_mem + f_store + f_rr) dna dna (dgpr_d rt) (dgpr rs) (dgpr rd)
    ∷ inst (f_mem + f_store + f_rr) dna dna dna (dgpr rs) (dgpr rd)
    ∷ inst (f_mem + f_store + f_rr) dna dna (dfpr rt) (dgpr rs) (dgpr rd)
    ∷ inst (f_mem + f_store + f_rr) dna dna (dfpr rt) (dgpr rs) (dgpr rd)
    ∷ inst (f_mem + f_load + f_rr) (dfpr rt) dna dna (dgpr rs) (dgpr rd)
    ∷ inst (f_mem + f_store + f_rr) dna dna (dfpr rt) (dgpr rs) (dgpr rd)
    ∷ inst (f_mem + f_load + f_rr) (dgpr rt) dna dna (dgpr rs) (dgpr rd)
    ∷ inst (f_mem + f_store + f_rr) dna dna (dgpr rt) (dgpr rs) (dgpr rd)
    ∷ inst f_icomp (dgpr rd) dna (dgpr rs) (dgpr rt) dna
    ∷ inst (f_icomp + f_imm) (dgpr rt) dna (dgpr rs) dna dna
    ∷ inst f_icomp (dgpr rd) dna (dgpr rs) (dgpr rt) dna
    ∷ inst (f_icomp + f_imm) (dgpr rt) dna (dgpr rs) dna dna
    ∷ inst f_icomp (dgpr rd) dna (dgpr rs) (dgpr rt) dna
    ∷ inst f_icomp (dgpr rd) dna (dgpr rs) (dgpr rt) dna
    ∷ inst (f_icomp + f_longlat) dhi dlo (dgpr rt) (dgpr rs) dna
    ∷ inst (f_icomp + f_longlat) dhi dlo (dgpr rt) (dgpr rs) dna
    ∷ inst (f_icomp + f_longlat) dhi dlo (dgpr rt) (dgpr rs) dna
    ∷ inst (f_icomp + f_longlat) dhi dlo (dgpr rt) (dgpr rs) dna
    ∷ inst f_icomp (dgpr rd) dna dhi dna dna
    ∷ inst f_icomp dhi dna (dgpr rs) dna dna
    ∷ inst f_icomp (dgpr rd) dna dlo dna dna
    ∷ inst f_icomp dlo dna (dgpr rs) dna dna
    ∷ inst f_icomp (dgpr rd) dna (dgpr rs) (dgpr rt) dna
    ∷ inst (f_icomp + f_imm) (dgpr rt) dna (dgpr rs) dna dna
    ∷ inst f_icomp (dgpr rd) dna (dgpr rs) (dgpr rt) dna
    ∷ inst (f_icomp + f_imm) (dgpr rt) dna (dgpr rs) dna dna
    ∷ inst f_icomp (dgpr rd) dna (dgpr rs) (dgpr rt) dna
    ∷ inst (f_icomp + f_imm) (dgpr rt) dna (dgpr rs) dna dna
    ∷ inst f_icomp (dgpr rd) dna (dgpr rs) (dgpr rt) dna
    ∷ inst f_icomp (dgpr rd) dna (dgpr rt) dna dna
    ∷ inst f_icomp (dgpr rd) dna (dgpr rt) (dgpr rs) dna
    ∷ inst f_icomp (dgpr rd) dna (dgpr rt) dna dna
    ∷ inst f_icomp (dgpr rd) dna (dgpr rt) (dgpr rs) dna
    ∷ inst f_icomp (dgpr rd) dna (dgpr rt) dna dna
    ∷ inst f_icomp (dgpr rd) dna (dgpr rt) (dgpr rs) dna
    ∷ inst f_icomp (dgpr rd) dna (dgpr rs) (dgpr rt) dna
    ∷ inst (f_icomp + f_imm) (dgpr rt) dna (dgpr rs) dna dna
    ∷ inst f_icomp (dgpr rd) dna (dgpr rs) (dgpr rt) dna
    ∷ inst (f_icomp + f_imm) (dgpr rt) dna (dgpr rs) dna dna
    ∷ []

unfoldable pub insts_high : List InstDef
insts_high =
    inst f_icomp (dgpr rd) dna (dgpr rs) (dgpr rt) dna
    ∷ inst (f_icomp + f_imm) (dgpr rt) dna (dgpr rs) dna dna
    ∷ inst f_fcomp (dfpr rd) dna (dfpr rs) (dfpr rt) dna
    ∷ inst f_fcomp (dfpr rd) dna (dfpr rs) (dfpr rt) dna
    ∷ inst f_fcomp (dfpr rd) dna (dfpr rs) (dfpr rt) dna
    ∷ inst f_fcomp (dfpr rd) dna (dfpr rs) (dfpr rt) dna
    ∷ inst (f_fcomp + f_longlat) (dfpr rd) dna (dfpr rs) (dfpr rt) dna
    ∷ inst (f_fcomp + f_longlat) (dfpr rd) dna (dfpr rs) (dfpr rt) dna
    ∷ inst (f_fcomp + f_longlat) (dfpr rd) dna (dfpr rs) (dfpr rt) dna
    ∷ inst (f_fcomp + f_longlat) (dfpr rd) dna (dfpr rs) (dfpr rt) dna
    ∷ inst f_fcomp (dfpr rd) dna (dfpr rs) dna dna
    ∷ inst f_fcomp (dfpr rd) dna (dfpr rs) dna dna
    ∷ inst f_fcomp (dfpr rd) dna (dfpr rs) dna dna
    ∷ inst f_fcomp (dfpr rd) dna (dfpr rs) dna dna
    ∷ inst f_fcomp (dfpr rd) dna (dfpr rs) dna dna
    ∷ inst f_fcomp (dfpr rd) dna (dfpr rs) dna dna
    ∷ inst f_fcomp (dfpr rd) dna (dfpr rs) dna dna
    ∷ inst f_fcomp (dfpr rd) dna (dfpr rs) dna dna
    ∷ inst f_fcomp (dfpr rd) dna (dfpr rs) dna dna
    ∷ inst f_fcomp (dfpr rd) dna (dfpr rs) dna dna
    ∷ inst f_fcomp (dfpr rd) dna (dfpr rs) dna dna
    ∷ inst f_fcomp (dfpr rd) dna (dfpr rs) dna dna
    ∷ inst f_fcomp dfcc dna (dfpr rs) (dfpr rt) dna
    ∷ inst f_fcomp dfcc dna (dfpr rs) (dfpr rt) dna
    ∷ inst f_fcomp dfcc dna (dfpr rs) (dfpr rt) dna
    ∷ inst f_fcomp dfcc dna (dfpr rs) (dfpr rt) dna
    ∷ inst f_fcomp dfcc dna (dfpr rs) (dfpr rt) dna
    ∷ inst f_fcomp dfcc dna (dfpr rs) (dfpr rt) dna
    ∷ inst (f_fcomp + f_longlat) (dfpr rd) dna (dfpr rs) dna dna
    ∷ inst (f_fcomp + f_longlat) (dfpr rd) dna (dfpr rs) dna dna
    ∷ inst f_trap dna dna dna dna dna
    ∷ inst f_trap dna dna dna dna dna
    ∷ inst f_icomp (dgpr rt) dna dna dna dna
    ∷ inst f_icomp (dgpr rt) dna (dfpr rs) dna dna
    ∷ inst f_icomp (dgpr_d rt) dna (dfpr rs) dna dna
    ∷ inst f_icomp dna dna dna dna dna
    ∷ inst f_icomp (dfpr rs) dna (dgpr rt) dna dna
    ∷ inst f_icomp (dfpr rs) dna (dgpr_d rt) dna dna
    ∷ inst f_icomp dna dna dna dna dna
    ∷ []

-- All lines.
unfoldable pub machine : List InstDef
unfolding insts_low insts_mid insts_high
machine = insts_low ++ insts_mid ++ insts_high

nth : List InstDef → ℕ → Option InstDef
nth [] i = none
nth (d ∷ ds) zero = some d
nth (d ∷ ds) (suc i) = nth ds i

-- The line of an opcode's number; 0 is `OP_NA`, which has none.
unfoldable pub def_inst : ℕ → Option InstDef
unfolding machine nth
def_inst zero = none
def_inst (suc i) = nth machine i

-- No line is that of a load and of a store.
abbrev apart : InstDef → Bool
apart d = not (has_flag d.flags f_load && has_flag d.flags f_store)

abbrev all_apart : List InstDef → Bool
all_apart [] = true
all_apart (d ∷ ds) = apart d && all_apart ds

false_of : {b : Bool} → not b ≡ true → b ≡ false
false_of {b} h = ground (arith, h)

nth-apart :
    (ds : List InstDef) (i : ℕ) (d : InstDef)
    → all_apart ds ≡ true
    → nth ds i ≡ some d
    → apart d ≡ true
unfolding nth
nth-apart [] i d h e = cc
nth-apart (c ∷ cs) zero d h e = ground (arith, h, e)
nth-apart (c ∷ cs) (suc i) d h e = nth-apart cs i d (ground (arith, h)) e

machine-apart : all_apart machine ≡ true
unfolding machine
machine-apart = refl

-- An instruction of the table is a load or a store or neither, never both.
pub def_inst-apart :
    (op : ℕ) (d : InstDef)
    → def_inst op ≡ some d
    → (has_flag d.flags f_load && has_flag d.flags f_store) ≡ false
unfolding def_inst
def_inst-apart zero d e = cc
def_inst-apart (suc i) d e = false_of (nth-apart machine i d machine-apart e)
