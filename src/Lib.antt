-- ===== src/Lib.antt =====
-- Chronoporia is a time-travel debugger for Windows programs: it records a child process, takes
-- snapshots of its threads, modules and memory, goes back to any snapshot of any run, and replays
-- from there as a new run. This library models its data structures and managers, each after the
-- C++ of the file that it names.
--
-- A point in time is (run_id, run_seq): a restore starts a run with a larger run_id that branches
-- off at its target. The parts, and the files that model them:
--
-- Base: lists, maps, Boolean tests and the outcome of a search, on native numbers.
-- Persistent: src/utils/fully_persistent_array.h. Walk is the lookup along the branch lineage,
-- Array is FullyPersistentArray, CacheArray is FullyPersistentCacheArray with its mirror of the
-- latest page.
-- Tree: src/utils/execution_tree.h. ExecutionTree with a pointer as an address; Lookup has
-- FindNode, GetState, get_nearest_state, ExactNodeExists, GetExactNode and RevertToState, and Kept
-- what holds of every node through the operations.
-- Region: src/utils/fully_persistent_region.h. FatNodeHistory with its cursor, and
-- FullyPersistentRegion; an exception or an index out of range is the outcome `throws`.
-- Memory: src/utils/memory (RegionHistory, AllocationRegion, ProcessMemoryHistory) and the scan of
-- src/managers/memory_manager.cpp, with Tree and Region inside.
-- Tracking: src/managers/module_manager.cpp and thread_manager.cpp, a Tree for each module or thread.
-- Breakpoints: src/managers/breakpoint_manager.cpp, over an interface to the memory of the child
-- process (Breakpoints/Memory).
-- Events: src/event_log.cpp and src/Events/base_event.h, the log of non-deterministic calls.
-- Session: src/snapshot_log.cpp, the end of a restore (time_restore_phase.cpp), the snapshot command
-- (src/cli/debugger/commands/snapshot_command.cpp) and the transitions between the phases.
-- Restoring: the loop of TimeRestorePhase::RunDllRestore over a list of debug events.
-- Shellcode: the unload code of src/utils/shellcode.cpp.
-- Trampoline: src/utils/trampoline.cpp, the slots that hold copies of instructions.
-- Instrument: plugins/cpp/branch_instrumentation.cpp. Analysis has classify and analyze_module, Blocks
-- discover_blocks, Stub the code that is emitted, Block the staging of a stub and the maps of
-- addresses, and Driver add_branch_instrumentation of plugins/cpp/cpp_breakpoint_plugin.cpp.
-- Stepping: plugins/cpp/predecessor_analysis.cpp (Predecessors, Lines), get_breakpoints_for_step of
-- cpp_breakpoint_plugin.cpp (Stops), and the debug-event loops of
-- src/cli/debugger/commands/step_command.cpp (Loops, Modes).
-- Phases: over lists of debug events, reverse_replay_phase.cpp (Reverse), the resume command
-- (src/cli/debugger/commands/resume_command.cpp, Resume), and record_phase.cpp and
-- reconstruction_phase.cpp over an interface to what they call (Reconstruction).
-- Console: the argument splitting of debugger_phase.cpp.
-- Tests: concrete runs.
--
-- Fuel: a search of a tree takes one round for each node and one more, a lookup along a lineage
-- `run_id + 1` rounds, since each hop goes to a smaller run; a loop that runs out is an outcome of
-- its own. The scan of a function, the search for five bytes and the
-- moving of instructions take a round for each byte at most, since an instruction has at least one.
-- Counters of w bits wrap with `% 2 ^ w`. An unordered map is a list in the order that a loop visits it.
--
-- Parameters: reading and writing the child process, true addresses of remapped instructions,
-- thread contexts and counters, what Windows reports of its memory, comparing pages, isspace, the
-- decoder of instructions, the search for memory near a module, and the lines of the debug symbols.
-- Not modelled: printing, debug symbols and compiled conditions, get_original_bytes, the other commands,
-- the clock, and what a restore writes to the process.
pub mod Base
pub mod Persistent
pub mod Tree
pub mod Region
pub mod Breakpoints
pub mod Events
pub mod Tracking
pub mod Memory
pub mod Session
pub mod Restoring
pub mod Shellcode
pub mod Trampoline
pub mod Instrument
pub mod Stepping
pub mod Phases
pub mod Console
mod Tests
