-- ===== src/Pipe/Straight.antt =====
-- Straight-line programs on the pipeline of Project2/sim-pipe.c, against the loop of
-- Project1/part1/sim-fast.c.
pub mod View
pub mod Access
pub mod Round
pub mod Retire
pub mod Drain
pub mod Ordered
pub mod Behind
pub mod Calm
pub mod Ready
pub mod Refine
pub mod Words
pub mod Step
pub mod Marks
pub mod Program
pub mod Going
pub mod Fetched
pub mod Issued
pub mod Simulate
pub mod Start
pub mod Boot
mod Runs
