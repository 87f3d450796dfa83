-- ===== src/Tests.antt =====
-- Concrete machines: a memory of two frames, a swap device of two frames,
-- a process with one area, and a scheduler of three levels.
pub mod Data
mod Devices
mod Process
pub mod Scheduling
mod Timing
pub mod Threads
mod Rounds
mod Printing
pub mod Killing
mod Running
mod Loading
