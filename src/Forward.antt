-- ===== src/Forward.antt =====
-- The pipeline with forwarding, Project1/part2/sim-pipe.c.
pub mod State
pub mod Stages
pub mod Main
pub mod Squash
pub mod Order
pub mod Retire
pub mod Latch
pub mod Settled
pub mod Issue
pub mod Runs
pub mod Operands
pub mod Refine
pub mod Wait
pub mod Wake
pub mod Fetch
pub mod Straight
pub mod Repeat
pub mod Reload
mod Program
mod Twice
mod Tests
