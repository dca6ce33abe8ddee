-- ===== src/Basic.antt =====
-- What the two pipelines of Project1/part2 share: Project1/part2/sim-pipe.h, and the parts of
-- sim-pipe.c and sim-pipe-withstall.c that are the same text.
pub mod State
pub mod Log
pub mod Decode
