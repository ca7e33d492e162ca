-- ===== src/Tests.antt =====
-- Runs of the model at concrete inputs, and the theorems at inputs that meet their hypotheses.
pub mod Strings
pub mod Numbers
pub mod Calls
pub mod Kernels
pub mod Options
pub mod Print
pub mod Scan
pub mod Sleep
pub mod Directory
pub mod System
pub mod Allocator
