-- ===== src/Pipe/Alu.antt =====
-- The arithmetic of the execute stage: the `multu` loop and the `switch` on `de.func`
-- (`do_ex` of Project2/sim-pipe.c).
use Prim.Native.Nat.{bit_and, bit_or}
use computer_architecture.Base.{ℕ, zero, suc, ◌+◌, ◌-◌, ◌*◌, ◌%◌, ◌^◌, ◌==◌, ltb, if◌then◌else◌}
use computer_architecture.Base.Word.{u32, sub32, bit, slt}
use computer_architecture.Pipe.State.{
  AluFunc, alu_nop, alu_add, alu_sub, alu_and, alu_or, alu_slt, alu_shtl,
}

-- The pair of registers that a multiplication works on.
pub record HiLo : Type 0 where
  pub hi_word : ℕ
  pub lo_word : ℕ

-- One round at bit `k` of `b`: double the pair, and add `a` if the bit is set.
unfoldable pub multu_round : ℕ → ℕ → ℕ → HiLo → HiLo
multu_round a b k p =
    let hi1 = u32 (u32 (p.hi_word * 2) + bit p.lo_word 31) in
    let lo1 = u32 (p.lo_word * 2) in
    if bit b k == 1
    then (record {
      hi_word = if ltb (2 ^ 32 - 1 - lo1) a then u32 (hi1 + 1) else hi1;
      lo_word = u32 (lo1 + a);
    })
    else record { hi_word = hi1; lo_word = lo1 }

-- The rounds `i` of the loop look at the bits 30 - i, from `left - 1` down to 0.
unfoldable pub multu_loop : ℕ → ℕ → ℕ → HiLo → HiLo
unfolding multu_round
multu_loop a b zero p = p
multu_loop a b (suc left) p = multu_loop a b left (multu_round a b left p)

unfoldable pub multu : ℕ → ℕ → HiLo
unfolding multu_loop
multu a b = multu_loop a b 31 (record { hi_word = 0; lo_word = if bit b 31 == 1 then a else 0 })

-- `em.valE`; the host shifts by the count modulo 32.
unfoldable pub alu : AluFunc → ℕ → ℕ → ℕ
alu alu_add a b = u32 (a + b)
alu alu_sub a b = sub32 a b
alu alu_and a b = bit_and a b
alu alu_or a b = bit_or a b
alu alu_slt a b = if slt a b then 1 else 0
alu alu_shtl a b = u32 (a * 2 ^ (b % 32))
alu alu_nop a b = 0
