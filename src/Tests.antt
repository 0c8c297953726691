-- ===== src/Tests.antt =====
-- Concrete runs of the development's theorems.
mod Histories
mod Trees
mod Breakpoints
mod Events
mod Managers
mod Shells
mod Stubs
mod Steps
mod Replays
