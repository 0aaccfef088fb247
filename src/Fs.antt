-- ===== src/Fs.antt =====
-- src/fs.c
pub mod Format
pub mod Disk
pub mod State
pub mod Log
pub mod Alloc
pub mod Mount
pub mod Read
pub mod Change
pub mod Inv
pub mod Restart
pub mod Crash
pub mod Files
pub mod Print
mod Tests
