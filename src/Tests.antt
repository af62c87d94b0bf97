-- ===== src/Tests.antt =====
-- The theorems at concrete inputs.
pub mod Pages
pub mod Rings
pub mod Stacks
pub mod States
pub mod Frees
pub mod Heaps
pub mod Whole
pub mod Calls
