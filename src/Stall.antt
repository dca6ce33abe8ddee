-- ===== src/Stall.antt =====
-- The pipeline that stalls on every dependence, Project1/part2/sim-pipe-withstall.c.
pub mod Stages
pub mod Main
pub mod Bubbles
pub mod Branch
mod Tests
