-- ===== src/Pipe/Multu.antt =====
-- The multiplication loop of `do_ex` computes the 64-bit product.
use computer_architecture.Base.{
  ℕ, zero, suc, ◌+◌, ◌-◌, ◌*◌, ◌/◌, ◌^◌, ◌<◌, ◌≡◌, ap, ◌∙◌, arith, ◌==◌, if◌then◌else◌,
}
use native.Mathlib.Decide.{ℕ_discrete}
use native.Mathlib.Nat.{pow-suc, div-div-eq-div-mul, mul-le-mul_left, mul-le-mul_right}
use computer_architecture.Base.Word.{bit}
use computer_architecture.Pipe.Alu.{HiLo, multu_round, multu_loop, multu}

-- The pair as one number.
abbrev pub pair : HiLo → ℕ
pair p = p.hi_word * 2 ^ 32 + p.lo_word

-- One round doubles the pair and adds `a` if the bit is set, while the result fits 64 bits.
round_lem :
    (a b k : ℕ) (p : HiLo)
    → a < 2 ^ 32
    → p.lo_word < 2 ^ 32
    → 2 * pair p + bit b k * a < 2 ^ 64
    → (pair (multu_round a b k p) ≡ 2 * pair p + bit b k * a)
      × ((multu_round a b k p).lo_word < 2 ^ 32)
unfolding multu_round
round_lem a b k p ha hl fits = ground arith

div_pow_suc : (b k : ℕ) → b / 2 ^ k ≡ 2 * (b / 2 ^ suc k) + bit b k
div_pow_suc b k = omega (arith, div-div-eq-div-mul b (2 ^ k) 2, ap (λ (x : ℕ). b / x) (pow-suc 2 k))

product_lt : (x y : ℕ) → x < 2 ^ 32 → y < 2 ^ 32 → x * y < 2 ^ 64
product_lt x y hx hy = omega (
  arith,
  mul-le-mul_left {m = y} {n = 2 ^ 32 - 1} x (omega arith),
  mul-le-mul_right {m = x} {n = 2 ^ 32 - 1} (2 ^ 32 - 1) (omega arith),
)

start :
    (a b : ℕ)
    → b < 2 ^ 32
    → pair (record { hi_word = 0; lo_word = if bit b 31 == 1 then a else 0 }) ≡ a * (b / 2 ^ 31)
start a b hb = elim (ℕ_discrete (b / 2 ^ 31) 0) [
  | yes e ↦ ground (arith, ap (λ (x : ℕ). a * x) e)
  | no ne ↦ let e : b / 2 ^ 31 ≡ 1 = omega arith in ground (arith, ap (λ (x : ℕ). a * x) e)
]

-- What the loop makes of the pair `a * (b / 2 ^ left)`: the product.
loop_lem :
    (a b left : ℕ) (p : HiLo)
    → a < 2 ^ 32
    → b < 2 ^ 32
    → p.lo_word < 2 ^ 32
    → pair p ≡ a * (b / 2 ^ left)
    → pair (multu_loop a b left p) ≡ a * b
unfolding multu_loop
loop_lem a b zero p ha hb hl e = e ∙ ap (λ (x : ℕ). a * x) (omega arith)
loop_lem a b (suc left) p ha hb hl e =
    let step : 2 * pair p + bit b left * a ≡ a * (b / 2 ^ left) =
      omega (arith, e, ap (λ (x : ℕ). 2 * x) e, ap (λ (x : ℕ). a * x) (div_pow_suc b left)) in
    let small : a * (b / 2 ^ left) < 2 ^ 64 = product_lt a (b / 2 ^ left) ha (omega arith) in
    let (next, low) = round_lem a b left p ha hl (omega (arith, step, small)) in
    loop_lem a b left (multu_round a b left p) ha hb low (next ∙ step)

-- For 32-bit operands, `hi` and `lo` after the loop are the two words of their product.
pub multu_lem :
    (a b : ℕ) → a < 2 ^ 32 → b < 2 ^ 32 → (multu a b).hi_word * 2 ^ 32 + (multu a b).lo_word ≡ a * b
unfolding multu
multu_lem a b ha hb =
    loop_lem a b 31 (record { hi_word = 0; lo_word = if bit b 31 == 1 then a else 0 }) ha hb
      (ground arith) (start a b hb)
