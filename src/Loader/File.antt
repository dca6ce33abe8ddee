-- ===== src/Loader/File.antt =====
-- What the loader reads: the headers of an ECOFF file (simplesim-3.0/target-pisa/ecoff.h), the calls
-- of the standard library as an interface, and the ways a load ends.
use computer_architecture.Base.{ℕ, Bool, true, false, List, Option, none, some}

-- The fields of the headers that the loader uses, as 32-bit patterns.
pub record FileHeader : Type 0 where
  pub magic : ℕ
  pub nscns : ℕ
  pub opthdr : ℕ

pub record AoutHeader : Type 0 where
  pub dsize : ℕ
  pub bsize : ℕ
  pub entry : ℕ

pub record SectionHeader : Type 0 where
  pub vaddr : ℕ
  pub size : ℕ
  pub scnptr : ℕ
  pub flags : ℕ

-- The answers of `fopen`, `fread`, `fseek`, `calloc` and `fclose` for one executable: a header or a
-- block of bytes by its position, `none` or `false` where the call fails.
pub record ObjectFile : Type 0 where
  pub opens : Bool
  pub file_header : Option FileHeader
  pub aout_header : Option AoutHeader
  pub seeks : ℕ → Bool
  pub section_header : ℕ → Option SectionHeader
  pub contents : ℕ → ℕ → Option (List ℕ)
  pub allocates : ℕ → Bool
  pub closes : Bool

-- The calls of `fatal` and `exit`, in the order of the source.
pub data Fatal : Type 0 where
  eio_arguments bad_initial_checkpoint not_a_checkpoint checkpoint_without_eio : Fatal
  cannot_open no_file_header wrong_endian alpha_binary bad_magic no_aout_header : Fatal
  cannot_reset no_section out_of_memory cannot_seek no_section_contents cannot_close : Fatal
  missing_text no_entry host_endian environment_overflow : Fatal

pub data Load (A : Type 0) : Type 0 where
  ok : A → Load A
  fatal : Fatal → Load A

infixl 5 ◌>>=◌ ◌>>◌
abbrev pub ◌>>=◌ : {A B : Type 0} → Load A → (A → Load B) → Load B
ok a >>= f = f a
fatal e >>= f = fatal e

abbrev pub ◌>>◌ : {B : Type 0} → Load (Unit {0}) → Load B → Load B
m >> k = m >>= λ _. k

-- `if (!c) fatal(e)`.
abbrev pub require : Bool → Fatal → Load (Unit {0})
require true e = ok tt
require false e = fatal e

abbrev pub expect : {A : Type 0} → Option A → Fatal → Load A
expect none e = fatal e
expect (some a) e = ok a
