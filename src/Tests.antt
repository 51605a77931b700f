-- ===== src/Tests.antt =====
-- Runs of the model on concrete values, and the theorems at concrete inputs.
pub mod Values
mod Marshal
mod Roots
mod Unmarshal
mod Ends
pub mod HashTree
mod Trees
mod Stale
