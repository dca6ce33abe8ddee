-- ===== src/Pipe.antt =====
-- The five-stage pipeline of Project2 (Project2/sim-pipe.h and Project2/sim-pipe.c), with its
-- cache.
pub mod State
pub mod Init
pub mod Log
pub mod Decode
pub mod Alu
pub mod Multu
pub mod Stages
pub mod Main
pub mod Forwarding
pub mod Hazards
pub mod Bubble
pub mod Livelock
pub mod Clock
pub mod Routed
pub mod Straight
mod Tests
