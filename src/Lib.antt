-- ===== src/Lib.antt =====
-- The cycle-level simulators of this repository: a five-stage pipeline for the PISA instruction set
-- with forwarding, stalls and branch prediction by not-taken, and the data cache in front of its
-- memory.
--
-- Parts, and the files that model them:
-- * Project2/ucache.h and the cache part of Project2/sim-pipe.c: Cache. Line has the address
--   macros, `cache_line_t`, `cache_word_read`, `cache_word_write`, `malloc_cache_line` and
--   `cache_write_back`; Set has `cache_set_t`, `cache_t`, `en_cache_set`, `de_cache_set` and
--   `add_into_cache_set`; Access has `cache_access`, `cache_read`, `cache_write` and `cache_flush`.
--   The queue of a set, linked through `next`, is a list; `n` is kept beside it. A function that
--   changes a line through a pointer returns the changed line.
-- * Project1/part1/machine.def and the macros of simplesim-3.0/target-pisa/pisa.h: Isa, with the
--   lines of the instruction table in Isa/Table.
-- * Project1/part1/sim-fast.c and the instructions of machine.def that the pipelines know, with the
--   custom ADDOK and BITCOUNT: Fast. Insts has the `_IMPL` macros, Main the loop of `sim_main`;
--   Agree compares the execute stage of Project2 with them.
-- * Project2/sim-pipe.h and the pipeline of Project2/sim-pipe.c: Pipe. State has the latches and
--   the control latch, and Init `sim_init`; Decode has `do_id`; Alu the arithmetic of `do_ex`;
--   Stages the other stages, `forward` and `pipeline_control`; Main has `sim_load_prog` and
--   `sim_main`; Log what is printed, Clock is about the cycles, and Routed about the access that a
--   latch carries. The global variables are the record `Sim`, and every stage maps it to the next.
--   Straight sets the whole simulator, cache and memory included, against the loop of sim-fast.c:
--   View is the memory that the program sees through the cache, Retire and Drain what the
--   instructions in flight still do to it and to the registers, Ready and Going what holds between
--   rounds, Program what a straight-line program is, and Simulate and Boot the runs.
-- * The pipelines of Project1/part2: Basic has what the two share (sim-pipe.h, and the switch of
--   `do_id`), Forward the pipeline with forwarding (sim-pipe.c), and Stall the one that stalls on
--   every dependence (sim-pipe-withstall.c), each with its `sim_init`, stages and `sim_main`. They
--   use the latches and the instruction table of the other parts, and the memory directly. In
--   Forward, Retire says what the instructions in flight still do to registers and memory, Settled
--   what holds of the latches between rounds, Refine, Wait, Fetch and Straight set the rounds
--   against the instructions as the functional simulator executes them, and Repeat and Reload are
--   about a `nop` and about two loads into one register. In Stall, Bubbles is about the marks and
--   the bubble of a wait, and Branch about a `bne` until it is resolved.
-- * The loader, Project1/part2/loader.c: Loader. File has the headers and the answers of the calls
--   on the file, Bytes the memory as bytes, Stack the arguments and the environment on the stack,
--   Predecode the loop over the text segment, and Program the sections and `ld_load_prog`. Texts
--   and Args are about the stack, Decoded about the text segment, Sections, Finish and Loaded about
--   the load.
--
-- The pipeline of Project2 reads instructions and data through the cache, the cache reads and writes blocks of
-- the memory, and a system call flushes the cache first. The memory is the interface `Memory`: read
-- and write of words with their laws, and Memory/Table fills it. The system calls are a parameter
-- that maps registers and memory to registers and memory, or ends the run.
--
-- Numbers are the patterns of machine words: arithmetic on 32 bits is modulo 2 ^ 32 (Base/Word). The
-- loop of `sim_main` never ends by itself; the model runs it for a number of rounds, or as a relation
-- between the first state and the last (Rounds). The other
-- loops count down a number of rounds that the source fixes (4 words, 16 sets, 31 bits), or follow a
-- list.
--
-- The loader models the build without the BFD library. Its files, its memory and the EIO traces are
-- parameters: what `fopen`, `fread`, `fseek`, `calloc` and `fclose` answer, and bytes that are read and
-- written. A fatal error ends the load with its reason. The loop that decodes the text runs for the
-- size of the segment, in instructions, and one round more.
--
-- The pipelines take the state after the load as a parameter of `sim_load_prog`. Of the logs the
-- values are kept and the texts left out. Not modelled: statistics and options; the loader's branch
-- for BFD and the one for MD_CROSS_ENDIAN; the SimpleScalar tool set in simplesim-3.0, which the simulators are built into; floating
-- point, and the instructions that no pipeline knows.
pub mod Base
pub mod Memory
pub mod Cache
pub mod Isa
pub mod Pipe
pub mod Basic
pub mod Forward
pub mod Stall
pub mod Fast
pub mod Loader
