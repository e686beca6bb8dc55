-- ===== src/Tests.antt =====
-- Tests of the definitions at concrete inputs, and concrete instances of the theorems.
pub mod Texts
pub mod Trees
pub mod Tiles
pub mod Devices
pub mod Ends
pub mod Commands
pub mod Mirrored
pub mod Runs
pub mod Scripts
pub mod Whole
pub mod Stops
pub mod Wires
pub mod Returns
