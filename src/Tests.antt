-- ===== src/Tests.antt =====
-- Examples at concrete inputs, one module for each part of the program.
pub mod Values
mod States
mod Configs
pub mod Daemons
mod Merged
pub mod Rests
mod Books
pub mod Sinks
mod CursorJson
mod Descriptors
mod Drivers
mod Registries
mod Drifts
mod Scrubs
mod Tables
