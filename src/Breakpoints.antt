-- ===== src/Breakpoints.antt =====
-- src/managers/breakpoint_manager.cpp and .h: breakpoints by address, with the byte that each one
-- hides. The child process is a parameter: what ReadProcessMemory and WriteProcessMemory do to one
-- byte. So are the plugin's `get_true_address` and the address that `CreateTrampoline` returns.
-- Texts are lists of character codes. What is only printed, logged or flushed from a cache is left
-- out. The unordered maps are association lists.
pub mod Memory
pub mod State
pub mod Manager
pub mod Query
