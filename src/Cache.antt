-- ===== src/Cache.antt =====
-- The cache of Project2 (Project2/ucache.h and the cache part of Project2/sim-pipe.c).
pub mod Line
pub mod Set
pub mod Access
pub mod Coherent
pub mod Block
pub mod Search
pub mod Step
pub mod Change
pub mod Branches
pub mod Hit
pub mod Transparent
pub mod ReadWrite
pub mod Flush
pub mod FlushSet
pub mod FlushAll
pub mod Trace
pub mod Counters
pub mod Fifo
pub mod Statistics
mod Tests
