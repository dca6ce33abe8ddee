-- ===== src/Loader/Tests.antt =====
-- The loader on a small executable.
use computer_architecture.Base.{
  ℕ, ◌+◌, ◌-◌, ◌*◌, ◌%◌, ◌^◌, ◌≤◌, ◌<◌, ◌≡◌, ◌≢◌, refl, List, [], ◌∷◌, All, length, get_or, true,
  false, ◌&&◌, leb, ltb, ◌==◌, some, if◌then◌else◌, arith,
}
use computer_architecture.Loader.Bytes.{ByteMemory, word_at, zeros}
use computer_architecture.Loader.File.{
  AoutHeader, SectionHeader, ObjectFile, ok, fatal, environment_overflow,
}
use computer_architecture.Loader.Stack.{Text, build_stack}
use computer_architecture.Loader.Predecode.{decoded_word, predecode}
use computer_architecture.Loader.Args.{build_stack_lem}
use computer_architecture.Loader.Texts.{IsText, TextsAt, Same}
use computer_architecture.Loader.Decoded.{predecode_lem, predecode-add}
use computer_architecture.Loader.Sections.{load_data-zero, load_text_lem}
use computer_architecture.Loader.Finish.{size_frame, finished, finish_load-overflow}
use computer_architecture.Loader.Loaded.{ld_load_prog_lem}
use computer_architecture.Loader.Program.{
  Program, Host, EioFile, load_text, load_data, finish_load, ld_load_prog, max_environ, stack_base,
  page_size, reg_sp,
}

-- A memory as a function of the address.
abbrev read_at : (ℕ → ℕ) → ℕ → ℕ
read_at s a = s a % 2 ^ 8

abbrev write_at : (ℕ → ℕ) → ℕ → List ℕ → ℕ → ℕ
write_at s a bs b = if leb a b && ltb b (a + length bs) then get_or bs (b - a) 0 else s b

read_at-lt : (s : ℕ → ℕ) (a : ℕ) → read_at s a < 2 ^ 8
read_at-lt s a = omega arith

read-write_at :
    (s : ℕ → ℕ) (a : ℕ) (bs : List ℕ) (b : ℕ)
    → a + length bs ≤ 2 ^ 32
    → b < 2 ^ 32
    → read_at (write_at s a bs) b
      ≡ (if leb a b && ltb b (a + length bs) then get_or bs (b - a) 0 % 2 ^ 8 else read_at s b)
read-write_at s a bs b fits small = ground arith

abbrev bytes : ByteMemory (ℕ → ℕ)
bytes = record {
  read_byte = read_at;
  write_bytes = write_at;
  read_byte-lt = read_at-lt;
  read-write_bytes = read-write_at;
}

abbrev blank : ℕ → ℕ
blank a = 7

abbrev opcode : ℕ → ℕ
opcode n = n + 1

-- `ls -l`, in an environment of one variable.
abbrev args : List Text
args = (108 ∷ 115 ∷ []) ∷ (45 ∷ 108 ∷ []) ∷ []

abbrev environ : List Text
environ = (72 ∷ 61 ∷ 47 ∷ []) ∷ []

args-IsText : All IsText args
args-IsText = ((omega arith, (omega arith, tt)), ((omega arith, (omega arith, tt)), tt))

environ-IsText : All IsText environ
environ-IsText = ((omega arith, (omega arith, (omega arith, tt))), tt)

-- A little-endian file with one instruction of text at 0x400000 and four bytes of data.
abbrev text_header : SectionHeader
text_header = record { vaddr = 0x400000; size = 8; scnptr = 136; flags = 0x20 }

abbrev data_header : SectionHeader
data_header = record { vaddr = 0x10000000; size = 4; scnptr = 144; flags = 0x40 }

abbrev text_bytes : List ℕ
text_bytes = 66 ∷ 0 ∷ 0 ∷ 0 ∷ 5 ∷ 0 ∷ 1 ∷ 2 ∷ []

abbrev file : ObjectFile
file = record {
  opens = true;
  file_header = some (record { magic = 0x0162; nscns = 2; opthdr = 36 });
  aout_header = some (record { dsize = 4; bsize = 0; entry = 0x400000 });
  seeks = λ at. true;
  section_header = λ at. if at == 56 then some text_header else some data_header;
  contents = λ at n. if at == 136 then some text_bytes else some (1 ∷ 2 ∷ 3 ∷ 4 ∷ []);
  allocates = λ n. true;
  closes = true;
}

abbrev host : Host
host = record { swap_bytes = λ big. big; swap_words = λ big. big }

abbrev no_eio : EioFile (ℕ → ℕ)
no_eio = record {
  valid = false;
  read_initial = λ p. (false, p);
  chkpt_named = false;
  chkpt_valid = false;
  read_chkpt = λ p. p;
}

abbrev unloaded : Program (ℕ → ℕ)
unloaded = record {
  segments = record {
    ld_text_base = 0;
    ld_text_size = 0;
    ld_data_base = 0;
    ld_data_size = 0;
    ld_brk_point = 0;
    ld_stack_base = 0x7fffc000;
    ld_stack_size = 0;
    ld_stack_min = 2 ^ 32 - 1;
    ld_prog_entry = 0;
    ld_environ_base = 0;
    ld_target_big_endian = false;
  };
  regs = λ r. 0;
  pc = 0;
  mem = blank;
}

abbrev frame : (ℕ → ℕ) × ℕ
frame = let r = build_stack bytes args environ 0x1000 blank in (r.1, r.0)

frame_ends : frame.1 ≡ 0x1000 + 34
unfolding build_stack
frame_ends = refl

second_argument : word_at bytes frame.0 0x1008 ≡ 0x101b
unfolding build_stack
second_argument = refl

build_stack_lem_example :
    (word_at bytes frame.0 0x1000 ≡ 2)
    × TextsAt bytes frame.0 0x1004 0x1018 args
    × TextsAt bytes frame.0 0x1010 0x101e environ
    × (frame.1 ≡ 0x1022)
    × Same bytes blank frame.0 0 0x1000
    × Same bytes blank frame.0 frame.1 (2 ^ 32)
build_stack_lem_example =
    build_stack_lem bytes args environ 0x1000 blank args-IsText environ-IsText (omega arith)

abbrev decoded : ℕ → ℕ
decoded = predecode bytes opcode 2 0x1000 0x100c (write_at blank 0x1000 text_bytes)

predecode_lem_example :
    ((k : ℕ)
      → 0x1000 + k * 8 < 0x100c
      → (word_at bytes decoded (0x1000 + k * 8)
          ≡ decoded_word bytes opcode
              (word_at bytes (write_at blank 0x1000 text_bytes) (0x1000 + k * 8)))
        × (word_at bytes decoded (0x1000 + k * 8 + 4)
            ≡ word_at bytes (write_at blank 0x1000 text_bytes) (0x1000 + k * 8 + 4)))
    × ((b : ℕ)
        → b < 2 ^ 32
        → (0x1000 ≤ b → 0x100c + 7 ≤ b)
        → read_at decoded b ≡ read_at (write_at blank 0x1000 text_bytes) b)
predecode_lem_example =
    predecode_lem bytes opcode 2 0x1000 0x100c (write_at blank 0x1000 text_bytes) (omega arith)
      (omega arith)

predecode-add_example :
    predecode bytes opcode 9 0x1000 0x100c blank ≡ predecode bytes opcode 2 0x1000 0x100c blank
predecode-add_example =
    predecode-add bytes opcode 2 7 0x1000 0x100c blank (omega arith) (omega arith)

load_data-zero_example :
    ((b : ℕ)
      → 0x10000000 ≤ b
      → b < 0x10000004
      → read_at (write_at blank 0x10000000 (zeros 4)) b ≡ 0)
    × ((b : ℕ)
        → b < 2 ^ 32
        → (0x10000000 ≤ b → 0x10000004 ≤ b)
        → read_at (write_at blank 0x10000000 (zeros 4)) b ≡ 7)
load_data-zero_example =
    load_data-zero bytes file data_header blank (write_at blank 0x10000000 (zeros 4)) (omega arith)
      (unfold load_data in refl)

abbrev loaded_text : ℕ → ℕ
loaded_text = write_at (write_at blank 0x400000 text_bytes) 0x400008 (zeros 128)

load_text_lem_example :
    (0x400000 + 136 ≡ 0x400000 + 8 + 128)
    × ((i : ℕ) → i < 8 → read_at loaded_text (0x400000 + i) ≡ get_or text_bytes i 0 % 2 ^ 8)
    × ((i : ℕ) → i < 128 → read_at loaded_text (0x400008 + i) ≡ 0)
    × ((b : ℕ) → b < 2 ^ 32 → (0x400000 ≤ b → 0x400088 ≤ b) → read_at loaded_text b ≡ 7)
load_text_lem_example =
    load_text_lem bytes file text_header blank text_bytes (136, loaded_text) (omega arith)
      (omega arith) refl refl (unfold load_text in refl)

abbrev loaded : Program (ℕ → ℕ)
loaded = record {
  segments = record {
    ld_text_base = 0x400000;
    ld_text_size = 136;
    ld_data_base = 0x10000000;
    ld_data_size = 4;
    ld_brk_point = 0;
    ld_stack_base = 0x7fffc000;
    ld_stack_size = 16384;
    ld_stack_min = 2 ^ 32 - 1;
    ld_prog_entry = 0x400000;
    ld_environ_base = 0x7fff8000;
    ld_target_big_endian = false;
  };
  regs = λ r. 0;
  pc = 0;
  mem = write_at loaded_text 0x10000000 (zeros 4);
}

-- The same program in front of a stack of 33 bytes.
abbrev narrow : Program (ℕ → ℕ)
narrow = record loaded { segments = record (loaded.segments) { ld_stack_base = 0x7fff8000 + 33 } }

finish_load-overflow_example :
    (0x7fff8000 + 34 ≤ 0x7fff8000 + 33
      → (q : Program (ℕ → ℕ)) × (finish_load bytes opcode host args environ narrow ≡ ok q))
    × (0x7fff8000 + 33 < 0x7fff8000 + 34
        → finish_load bytes opcode host args environ narrow ≡ fatal environment_overflow)
finish_load-overflow_example =
    finish_load-overflow bytes opcode host args environ narrow args-IsText environ-IsText
      (omega arith) (omega arith) (omega arith) (omega arith) refl refl

abbrev started : Program (ℕ → ℕ)
started = finished bytes opcode host args environ loaded

ld_load_prog_lem_example :
    ((aout : AoutHeader) × (file.aout_header ≡ some aout) × (started.pc ≡ aout.entry))
    × (started.pc ≡ 0x400000)
    × (started.pc ≢ 0)
    × (started.regs reg_sp + max_environ ≡ stack_base)
    × (size_frame args environ ≤ max_environ)
    × (word_at bytes started.mem 0x7fff8000 ≡ 2)
    × TextsAt bytes started.mem 0x7fff8004 0x7fff8018 args
    × TextsAt bytes started.mem 0x7fff8010 0x7fff801e environ
    × (started.segments.ld_brk_point % page_size ≡ 0)
ld_load_prog_lem_example =
    ld_load_prog_lem bytes opcode host no_eio file args environ unloaded started refl args-IsText
      environ-IsText (omega arith) (omega arith) (unfold ld_load_prog in refl)
