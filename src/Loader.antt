-- ===== src/Loader.antt =====
-- The program loader, Project1/part2/loader.c, as it is built without the BFD library.
pub mod Bytes
pub mod File
pub mod Stack
pub mod Predecode
pub mod Program
pub mod Texts
pub mod Args
pub mod Decoded
pub mod Sections
pub mod Finish
pub mod Loaded
mod Tests
