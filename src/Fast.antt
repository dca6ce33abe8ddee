-- ===== src/Fast.antt =====
-- The functional simulator, Project1/part1/sim-fast.c with the instructions of
-- Project1/part1/machine.def.
pub mod Insts
pub mod Main
pub mod Custom
pub mod Agree
mod Tests
