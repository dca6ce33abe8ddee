-- ===== src/Loader/Sections.antt =====
-- What loading a section leaves in memory.
use computer_architecture.Base.{
  ℕ, ◌+◌, ◌-◌, ◌%◌, ◌^◌, ◌≤◌, ◌<◌, ◌≡◌, refl, sym, subst, ap, ap₂, ◌∙◌, List, length, get_or,
  Option, none, some, Bool, true, false, arith,
}
use computer_architecture.Base.Word.{u32, sub32}
use computer_architecture.Loader.Bytes.{
  ByteMemory, zeros, length-zeros, zeros-get, byte-inside, byte-apart,
}
use computer_architecture.Loader.File.{
  SectionHeader, ObjectFile, Fatal, Load, ok, ◌>>=◌, ◌>>◌, require, expect, out_of_memory,
  cannot_seek, no_section_contents,
}
use computer_architecture.Loader.Program.{load_text, load_data, text_base, text_tail_padding}

-- What a successful step has passed.
pub require-ok :
    {A : Type 0} (c : Bool) (e : Fatal) (k : Load A) (a : A)
    → (require c e >> k) ≡ ok a
    → (c ≡ true) × (k ≡ ok a)
require-ok true e k a h = (refl, h)
require-ok false e k a h = cc

pub expect-ok :
    {A C : Type 0} (o : Option C) (e : Fatal) (k : C → Load A) (a : A)
    → (expect o e >>= k) ≡ ok a
    → (c : C) × (o ≡ some c) × (k c ≡ ok a)
expect-ok none e k a h = cc
expect-ok (some c) e k a h = (c, refl, h)

pub ok-injective : {A : Type 0} (d a b : A) → ok a ≡ ok b → a ≡ b
ok-injective d a b h = cc

module _ {Space : Type 0} (B : ByteMemory Space) where
  -- A data section that fits in memory and whose load succeeds is zero from end to end, whatever
  -- the file holds; every other byte of the memory is as it was.
  pub load_data-zero :
      (f : ObjectFile) (h : SectionHeader) (s s' : Space)
      → h.vaddr + h.size ≤ 2 ^ 32
      → load_data B f h s ≡ ok s'
      → ((b : ℕ) → h.vaddr ≤ b → b < h.vaddr + h.size → B.read_byte s' b ≡ 0)
        × ((b : ℕ)
            → b < 2 ^ 32
            → (h.vaddr ≤ b → h.vaddr + h.size ≤ b)
            → B.read_byte s' b ≡ B.read_byte s b)
  unfolding load_data
  load_data-zero f h s s' fits done =
      let one = require-ok (f.allocates h.size) out_of_memory _ s' done in
      let two = require-ok (f.seeks h.scnptr) cannot_seek _ s' one.1 in
      let e : B.write_bytes s h.vaddr (zeros h.size) ≡ s' = ok-injective s _ _ two.1 in
      let len = length-zeros h.size in
      (
        λ b p q.
            let at : h.vaddr + (b - h.vaddr) ≡ b = omega arith in
            let inside =
              byte-inside B s h.vaddr (zeros h.size) (b - h.vaddr) (omega (arith, len))
                (omega (arith, len)) in
            omega (
              arith,
              ap (λ x. B.read_byte x b) e,
              ap (B.read_byte (B.write_bytes s h.vaddr (zeros h.size))) at,
              inside,
              zeros-get h.size (b - h.vaddr),
            ),
        λ b p q.
            ap (λ x. B.read_byte x b) (sym e)
            ∙ byte-apart B s h.vaddr (zeros h.size) b (omega (arith, len)) p
                (λ r. omega (arith, len, q r)),
      )

  -- The text section of a file that delivers as many bytes as it is asked for, at or above the
  -- base of the text and with its padding below 2 ^ 32: once its load succeeds, the memory holds
  -- the bytes of the file from its address on and zeros for the padding behind it, the size of
  -- the segment is counted from the base of the text to the end of the padding, and every other
  -- byte is as it was.
  pub load_text_lem :
      (f : ObjectFile) (h : SectionHeader) (s : Space) (bytes : List ℕ) (r : ℕ × Space)
      → text_base ≤ h.vaddr
      → h.vaddr + h.size + text_tail_padding < 2 ^ 32
      → f.contents h.scnptr h.size ≡ some bytes
      → length bytes ≡ h.size
      → load_text B f h s ≡ ok r
      → (text_base + r.0 ≡ h.vaddr + h.size + text_tail_padding)
        × ((i : ℕ) → i < h.size → B.read_byte r.1 (h.vaddr + i) ≡ get_or bytes i 0 % 2 ^ 8)
        × ((i : ℕ) → i < text_tail_padding → B.read_byte r.1 (h.vaddr + h.size + i) ≡ 0)
        × ((b : ℕ)
            → b < 2 ^ 32
            → (h.vaddr ≤ b → h.vaddr + h.size + text_tail_padding ≤ b)
            → B.read_byte r.1 b ≡ B.read_byte s b)
  unfolding load_text
  load_text_lem f h s bytes r above fits held len done =
      let one = require-ok (f.allocates h.size) out_of_memory _ r done in
      let two = require-ok (f.seeks h.scnptr) cannot_seek _ r one.1 in
      let (read, e, three) = expect-ok (f.contents h.scnptr h.size) no_section_contents _ r two.1 in
      let same : read ≡ bytes = cc in
      let m1 = B.write_bytes s h.vaddr bytes in
      let m2 = B.write_bytes m1 (h.vaddr + h.size) (zeros text_tail_padding) in
      let pads = length-zeros text_tail_padding in
      let at : h.vaddr + h.size ≡ u32 (h.vaddr + h.size) = omega arith in
      let loaded : (u32 (sub32 (u32 (h.vaddr + h.size)) text_base + text_tail_padding), m2) ≡ r =
        ok-injective r _ _ (
          subst
            (λ (x : ℕ × List ℕ).
              ok (
                u32 (sub32 (u32 (h.vaddr + h.size)) text_base + text_tail_padding),
                B.write_bytes (B.write_bytes s h.vaddr x.1) x.0 (zeros text_tail_padding),
              )
              ≡ ok r)
            (ap₂ (λ a b. (a, b)) (sym at) same) three) in
      let kept : (b : ℕ)
          → b < 2 ^ 32
          → (h.vaddr + h.size ≤ b → h.vaddr + h.size + text_tail_padding ≤ b)
          → B.read_byte m2 b ≡ B.read_byte m1 b =
        λ b p q.
          byte-apart B m1 (h.vaddr + h.size) (zeros text_tail_padding) b (omega (arith, pads)) p
            (λ x. omega (arith, pads, q x)) in
      subst
        (λ (r : ℕ × Space).
          (text_base + r.0 ≡ h.vaddr + h.size + text_tail_padding)
          × ((i : ℕ) → i < h.size → B.read_byte r.1 (h.vaddr + i) ≡ get_or bytes i 0 % 2 ^ 8)
          × ((i : ℕ) → i < text_tail_padding → B.read_byte r.1 (h.vaddr + h.size + i) ≡ 0)
          × ((b : ℕ)
              → b < 2 ^ 32
              → (h.vaddr ≤ b → h.vaddr + h.size + text_tail_padding ≤ b)
              → B.read_byte r.1 b ≡ B.read_byte s b))
        loaded
        (
          omega arith,
          λ i p.
              kept (h.vaddr + i) (omega arith) (λ x. absurd (omega arith))
              ∙ byte-inside B s h.vaddr bytes i (omega arith) (omega arith),
          λ i p. omega (
            arith,
            byte-inside B m1 (h.vaddr + h.size) (zeros text_tail_padding) i (omega (arith, pads))
                (omega (arith, pads)),
            zeros-get text_tail_padding i,
          ),
          λ b p q.
              kept b p (λ x. q (omega arith))
              ∙ byte-apart B s h.vaddr bytes b (omega arith) p (λ x. omega (arith, q x)),
        )
