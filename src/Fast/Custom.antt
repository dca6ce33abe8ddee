-- ===== src/Fast/Custom.antt =====
-- The custom instructions ADDOK and BITCOUNT.
use computer_architecture.Base.{
  ℕ, zero, suc, ◌+◌, ◌/◌, ◌%◌, ◌^◌, ◌<◌, ◌≡◌, ◌≢◌, true, not, arith, ◌==◌, refl,
}
use computer_architecture.Base.Word.{u32}
use computer_architecture.Fast.Insts.{over}

-- A pattern as an `int`, moved up by 2 ^ 31.
abbrev pub biased : ℕ → ℕ
biased x = (x + 2 ^ 31) % 2 ^ 32

-- For two words as `int`s, unless the sum of the words is the pattern of the least `int`: `OVER`
-- is true exactly if the sum of the words is not the sum of the two numbers.
pub over_lem :
    (x y : ℕ)
    → x < 2 ^ 32
    → y < 2 ^ 32
    → u32 (x + y) ≢ 2 ^ 31
    → over x y ≡ not (biased (u32 (x + y)) + 2 ^ 31 == biased x + biased y)
unfolding over
over_lem x y hx hy ne = ground (arith, ne)

-- `OVER` is true for the sum of the two words that is the least `int`, which is in range.
over_least : over (2 ^ 31 + 2 ^ 30) (2 ^ 31 + 2 ^ 30) ≡ true
unfolding over
over_least = refl

-- The sum of the last `left` binary digits of a number, by halving.
abbrev pub digit_sum : ℕ → ℕ → ℕ
digit_sum n zero = 0
digit_sum n (suc left) = n % 2 + digit_sum (n / 2) left
