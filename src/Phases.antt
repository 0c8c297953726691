-- ===== src/Phases.antt =====
-- The phases of src/execution_state_machine/execution_phase that run the process.
pub mod Reverse
pub mod Resume
pub mod Reconstruction
