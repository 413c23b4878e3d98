-- ===== src/Tests.antt =====
-- The modules below hold concrete inputs and the theorems at these inputs.
pub mod Machine
pub mod Kernels
pub mod Images
pub mod Calls
pub mod Steps
pub mod Rest
pub mod Tables
pub mod Screen
