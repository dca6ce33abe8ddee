-- ===== src/Loader/Program.antt =====
-- `ld_load_prog` of Project1/part2/loader.c.
use computer_architecture.Base.{
  ℕ, zero, suc, ◌+◌, ◌-◌, ◌/◌, ◌%◌, Bool, true, false, not, ◌||◌, List, length, leb, ◌==◌,
  if◌then◌else◌, update,
}
use computer_architecture.Base.Word.{u32, sub32}
use computer_architecture.Pipe.State.{Regs}
use computer_architecture.Loader.Bytes.{ByteMemory, zeros}
use computer_architecture.Loader.File.{
  SectionHeader, ObjectFile, eio_arguments, bad_initial_checkpoint, not_a_checkpoint,
  checkpoint_without_eio, cannot_open, no_file_header, wrong_endian, alpha_binary, bad_magic,
  no_aout_header, cannot_reset, no_section, out_of_memory, cannot_seek, no_section_contents,
  cannot_close, missing_text, no_entry, host_endian, environment_overflow, Load, ok, fatal, ◌>>=◌,
  ◌>>◌, require, expect,
}
use computer_architecture.Loader.Stack.{Text, build_stack}
use computer_architecture.Loader.Predecode.{predecode}

abbrev pub text_base : ℕ
text_base = 0x00400000

abbrev pub data_base : ℕ
data_base = 0x10000000

abbrev pub stack_base : ℕ
stack_base = 0x7fffc000

abbrev pub max_environ : ℕ
max_environ = 16384

abbrev pub page_size : ℕ
page_size = 4096

abbrev pub text_tail_padding : ℕ
text_tail_padding = 128

-- `ROUND_DOWN` and `ROUND_UP`, for an alignment that is a power of two.
abbrev pub round_down : ℕ → ℕ → ℕ
round_down n align = n - n % align

abbrev pub round_up : ℕ → ℕ → ℕ
round_up n align = round_down (u32 (n + (align - 1))) align

abbrev pub reg_sp : ℕ
reg_sp = 29

-- The variables of the file that a load sets.
pub record Segments : Type 0 where
  pub ld_text_base : ℕ
  pub ld_text_size : ℕ
  pub ld_data_base : ℕ
  pub ld_data_size : ℕ
  pub ld_brk_point : ℕ
  pub ld_stack_base : ℕ
  pub ld_stack_size : ℕ
  pub ld_stack_min : ℕ
  pub ld_prog_entry : ℕ
  pub ld_environ_base : ℕ
  pub ld_target_big_endian : Bool

pub record Program (Space : Type 0) : Type 0 where
  pub segments : Segments
  pub regs : Regs
  pub pc : ℕ
  pub mem : Space

-- The library of EIO traces (simplesim-3.0/eio.c): whether the file is one, what reading its
-- checkpoint does and whether it is the initial one, and the file of a later checkpoint.
pub record EioFile (Space : Type 0) : Type 0 where
  pub valid : Bool
  pub read_initial : Program Space → Bool × Program Space
  pub chkpt_named : Bool
  pub chkpt_valid : Bool
  pub read_chkpt : Program Space → Program Space

-- `endian_host_byte_order() != endian_target_byte_order()` and the same for words, by the order of
-- the target.
pub record Host : Type 0 where
  pub swap_bytes : Bool → Bool
  pub swap_words : Bool → Bool

-- The record of the endian of the target.
unfoldable pub target_endian : ℕ → Load Bool
target_endian magic =
    if magic == 0x0160
    then ok true
    else if magic == 0x0162
    then ok false
    else if magic == 0x6001 || magic == 0x6201
    then fatal wrong_endian
    else if magic == 0x183
    then fatal alpha_binary
    else fatal bad_magic

module _ {Space : Type 0} (B : ByteMemory Space) where
  open B use {write_bytes}

  -- The branch on an EIO file.
  unfoldable pub load_eio : EioFile Space → ℕ → Program Space → Load (Program Space)
  load_eio eio argc p = do
    require (argc == 1) eio_arguments
    let (initial, p') = eio.read_initial p
    require initial bad_initial_checkpoint
    p'' ←
        if eio.chkpt_named
        then (if eio.chkpt_valid then ok (eio.read_chkpt p') else fatal not_a_checkpoint)
        else ok p'
    ok (record p'' {
      segments = record (p''.segments) {
        ld_environ_base = p''.regs reg_sp;
        ld_prog_entry = p''.pc;
      };
    })

  -- The section `.text`: the text segment's size, and the memory.
  unfoldable pub load_text : ObjectFile → SectionHeader → Space → Load (ℕ × Space)
  load_text f h s = do
    require (f.allocates h.size) out_of_memory
    require (f.seeks h.scnptr) cannot_seek
    bytes ← expect (f.contents h.scnptr h.size) no_section_contents
    ok (
      u32 (sub32 (u32 (h.vaddr + h.size)) text_base + text_tail_padding),
      write_bytes (write_bytes s h.vaddr bytes) (u32 (h.vaddr + h.size)) (zeros text_tail_padding),
    )

  -- The sections `.rdata`, `.data` and `.sdata`. The call of `fread` is commented out, so that the
  -- buffer is as `calloc` made it.
  unfoldable pub load_data : ObjectFile → SectionHeader → Space → Load Space
  load_data f h s = do
    require (f.allocates h.size) out_of_memory
    require (f.seeks h.scnptr) cannot_seek
    ok (write_bytes s h.vaddr (zeros h.size))

  -- The `switch` on the kind of a section, with the text segment's size so far.
  unfoldable pub load_section : ObjectFile → SectionHeader → ℕ → Space → Load (ℕ × Space)
  unfolding load_text load_data
  load_section f h text_size s =
      if h.flags == 0x20
      then load_text f h s
      else if h.flags == 0x100 || h.flags == 0x40 || h.flags == 0x200
      then (load_data f h s >>= λ s'. ok (text_size, s'))
      else ok (text_size, s)

  -- The loop over the section headers, with `left` to go, the next at `floc`. A header has 40 bytes.
  unfoldable pub load_sections : ObjectFile → ℕ → ℕ → ℕ → Space → Load (ℕ × Space)
  unfolding load_section
  load_sections f zero floc text_size s = ok (text_size, s)
  load_sections f (suc left) floc text_size s =
      if f.seeks floc
      then (expect (f.section_header floc) no_section >>= λ h.
          load_section f h text_size s >>= λ (r : ℕ × Space).
          load_sections f left (floc + 40) r.0 r.1)
      else fatal cannot_reset

  -- The part on the executable: the segments but for the stack's end and the heap, and the memory.
  unfoldable pub load_object : ObjectFile → Segments → Space → Load (Segments × Space)
  unfolding target_endian load_sections
  load_object f segments s = do
    require f.opens cannot_open
    header ← expect f.file_header no_file_header
    big ← target_endian header.magic
    aout ← expect f.aout_header no_aout_header
    r ← load_sections f header.nscns (20 + header.opthdr) segments.ld_text_size s
    require f.closes cannot_close
    let sp = round_down (stack_base - max_environ) 8
    ok (
      record segments {
        ld_text_base = text_base;
        ld_text_size = r.0;
        ld_data_base = data_base;
        ld_data_size = sub32 (u32 (data_base + aout.dsize + aout.bsize)) data_base;
        ld_stack_base = stack_base;
        ld_stack_size = stack_base - sp;
        ld_prog_entry = aout.entry;
        ld_environ_base = sp;
        ld_target_big_endian = big;
      },
      r.1,
    )

  -- From the checks of the segments on.
  unfoldable pub finish_load :
      (ℕ → ℕ) → Host → List Text → List Text → Program Space → Load (Program Space)
  unfolding build_stack predecode
  finish_load md_mask2op host argv envp p = do
    let g = p.segments
    require (not (g.ld_text_base == 0 || g.ld_text_size == 0)) missing_text
    require (not (g.ld_prog_entry == 0)) no_entry
    require (not (host.swap_bytes g.ld_target_big_endian)) host_endian
    require (not (host.swap_words g.ld_target_big_endian)) host_endian
    let stack = build_stack B argv envp g.ld_environ_base p.mem
    require (leb stack.0 g.ld_stack_base) environment_overflow
    let end = u32 (g.ld_text_base + g.ld_text_size)
    ok (record {
      segments = record g {
        ld_brk_point = round_up (u32 (g.ld_data_base + g.ld_data_size)) page_size;
        ld_stack_min = p.regs reg_sp;
      };
      regs = update p.regs reg_sp g.ld_environ_base;
      pc = g.ld_prog_entry;
      mem = predecode B md_mask2op (g.ld_text_size / 8 + 1) g.ld_text_base end stack.1;
    })

  -- `argv` begins with the name of the executable, and `argc` is its length.
  unfoldable pub ld_load_prog :
      (ℕ → ℕ)
      → Host
      → EioFile Space
      → ObjectFile
      → List Text
      → List Text
      → Program Space
      → Load (Program Space)
  unfolding load_eio load_object finish_load
  ld_load_prog md_mask2op host eio f argv envp p =
      if eio.valid
      then load_eio eio (length argv) p
      else if eio.chkpt_named
      then fatal checkpoint_without_eio
      else load_object f p.segments p.mem >>= λ (r : Segments × Space).
          finish_load md_mask2op host argv envp (record p { segments = r.0; mem = r.1 })
