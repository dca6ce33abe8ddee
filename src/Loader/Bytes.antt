-- ===== src/Loader/Bytes.antt =====
-- The simulated memory as the loader uses it (`mem_bcopy`, `mem_bzero`, `mem_strcpy` and
-- `mem_access` of simplesim-3.0/memory.c), as an interface: bytes, and blocks of bytes written.
use computer_architecture.Base.{
  ℕ, zero, suc, ◌+◌, ◌-◌, ◌*◌, ◌/◌, ◌%◌, ◌^◌, ◌≤◌, ◌<◌, ◌≡◌, ap, List, [], ◌∷◌, length, get_or,
  ◌&&◌, leb, ltb, if◌then◌else◌, arith,
}

pub record ByteMemory (Space : Type 0) : Type 0 where
  pub read_byte : Space → ℕ → ℕ
  pub write_bytes : Space → ℕ → List ℕ → Space
  pub read_byte-lt : (s : Space) (a : ℕ) → read_byte s a < 2 ^ 8
  pub read-write_bytes :
      (s : Space) (a : ℕ) (bs : List ℕ) (b : ℕ)
      → a + length bs ≤ 2 ^ 32
      → b < 2 ^ 32
      → read_byte (write_bytes s a bs) b
        ≡ (if leb a b && ltb b (a + length bs) then get_or bs (b - a) 0 % 2 ^ 8 else read_byte s b)

-- A word as a little-endian host stores it.
abbrev pub word_bytes : ℕ → List ℕ
word_bytes w = w % 2 ^ 8 ∷ w / 2 ^ 8 % 2 ^ 8 ∷ w / 2 ^ 16 % 2 ^ 8 ∷ w / 2 ^ 24 % 2 ^ 8 ∷ []

-- `calloc`, and the argument of `mem_bzero`.
abbrev pub zeros : ℕ → List ℕ
zeros zero = []
zeros (suc n) = 0 ∷ zeros n

pub length-zeros : (n : ℕ) → length (zeros n) ≡ n
length-zeros zero = omega arith
length-zeros (suc n) = omega (arith, length-zeros n)

pub zeros-get : (n i : ℕ) → get_or (zeros n) i 0 ≡ 0
zeros-get zero i = omega arith
zeros-get (suc n) zero = omega arith
zeros-get (suc n) (suc i) = zeros-get n i

add-sub : (a i : ℕ) → a + i - a ≡ i
add-sub a i = omega arith

add-zero : (a : ℕ) → a + 0 ≡ a
add-zero a = omega arith

module _ {Space : Type 0} (B : ByteMemory Space) where
  -- A word read byte by byte.
  abbrev pub word_at : Space → ℕ → ℕ
  word_at s a =
      B.read_byte s a
      + B.read_byte s (a + 1) * 2 ^ 8
      + B.read_byte s (a + 2) * 2 ^ 16
      + B.read_byte s (a + 3) * 2 ^ 24

  -- The bytes of a written block, and those apart from it.
  pub byte-inside :
      (s : Space) (a : ℕ) (bs : List ℕ) (i : ℕ)
      → a + length bs ≤ 2 ^ 32
      → i < length bs
      → B.read_byte (B.write_bytes s a bs) (a + i) ≡ get_or bs i 0 % 2 ^ 8
  byte-inside s a bs i fits inside =
      ground
        (arith, B.read-write_bytes s a bs (a + i), ap (λ j. get_or bs j 0 % 2 ^ 8) (add-sub a i))

  pub byte-apart :
      (s : Space) (a : ℕ) (bs : List ℕ) (b : ℕ)
      → a + length bs ≤ 2 ^ 32
      → b < 2 ^ 32
      → (a ≤ b → a + length bs ≤ b)
      → B.read_byte (B.write_bytes s a bs) b ≡ B.read_byte s b
  byte-apart s a bs b fits small apart = ground (arith, apart, B.read-write_bytes s a bs b)

  pub word_at-write_self :
      (s : Space) (a w : ℕ)
      → a + 4 ≤ 2 ^ 32
      → w < 2 ^ 32
      → word_at (B.write_bytes s a (word_bytes w)) a ≡ w
  word_at-write_self s a w fits small = omega (
    arith,
    ap (B.read_byte (B.write_bytes s a (word_bytes w))) (add-zero a),
    byte-inside s a (word_bytes w) 0 fits (omega arith),
    byte-inside s a (word_bytes w) 1 fits (omega arith),
    byte-inside s a (word_bytes w) 2 fits (omega arith),
    byte-inside s a (word_bytes w) 3 fits (omega arith),
  )

  pub word_at-apart :
      (s : Space) (a : ℕ) (bs : List ℕ) (b : ℕ)
      → a + length bs ≤ 2 ^ 32
      → b + 4 ≤ 2 ^ 32
      → (a < b + 4 → a + length bs ≤ b)
      → word_at (B.write_bytes s a bs) b ≡ word_at s b
  word_at-apart s a bs b fits small apart = omega (
    arith,
    byte-apart s a bs b fits (omega arith) (λ h. apart (omega arith)),
    byte-apart s a bs (b + 1) fits (omega arith) (λ h. omega (arith, apart (omega arith))),
    byte-apart s a bs (b + 2) fits (omega arith) (λ h. omega (arith, apart (omega arith))),
    byte-apart s a bs (b + 3) fits (omega arith) (λ h. omega (arith, apart (omega arith))),
  )
