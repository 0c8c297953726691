-- ===== src/Session.antt =====
-- src/snapshot_log.cpp, the end of a restore in time_restore_phase.cpp, the snapshot
-- command of the debugger, and the transitions between the phases. A session is the globals of
-- globals.cpp with the state of the managers.
pub mod Command
use chronoporia.Base.{
  Search, found, nullptr, out_of_fuel as not_ended, ℕ, ◌+◌, ◌%◌, ◌^◌, ◌≡◌, Bool, true, false, not,
  Option, none, some, List, [], ◌∷◌, if◌then◌else◌,
}
use chronoporia.Tree.{ExecutionTree, Node, create, add_child, info}
use chronoporia.Tree.Lookup.{exact_node_exists, get_exact_node, get_nearest_state, revert_to_state}
use chronoporia.Region.{Outcome, done, throws, out_of_fuel, ◌>>=◌}
use chronoporia.Tracking.Modules.{ModuleManager, create_module_history_branch}
use chronoporia.Tracking.Threads.{ThreadManager, snapshot_threads, create_thread_history_branch}
use chronoporia.Memory.{Mbi, RegionInfo, AllocationRegion}
use chronoporia.Memory.Process.{
  SharedData, History, snapshot_memory, branch_process, get_current_allocation_regions,
}

pub data SnapshotType : Type 0 where
  coarse_snapshot : SnapshotType
  micro_snapshot : SnapshotType
  line_snapshot : SnapshotType

pub record Snapshot : Type 0 where
  pub kind : SnapshotType
  pub run_id : ℕ
  pub run_sequence : ℕ
  pub global_sequence : ℕ

abbrev pub blank_snapshot : Snapshot
blank_snapshot = record {
  kind = coarse_snapshot;
  run_id = 0;
  run_sequence = 0;
  global_sequence = 0;
}

pub record Session (Context Page : Type 0) : Type 0 where
  pub run_id : ℕ
  pub run_sequence : ℕ
  pub global_sequence : ℕ
  pub threads : ThreadManager Context
  pub modules : ModuleManager
  pub memory : List (ℕ × AllocationRegion Page)
  pub snapshot_history : ExecutionTree Snapshot

-- The transitions; `process_suspended` comes first in each. A reverse replay carries what the plugin
-- found, which is not interpreted here.
pub data Transitions (Replay : Type 0) : Type 0 where
  transition : Bool → Transitions Replay
  to_recording : Bool → Transitions Replay
  to_error : Bool → ℕ → Transitions Replay
  to_time_restore : Bool → ℕ → ℕ → ℕ → Transitions Replay → Transitions Replay
  to_reconstruction : Bool → Transitions Replay
  to_debugger : Bool → Transitions Replay
  to_reverse_replay : Bool → Replay → Transitions Replay

pub data Phase : Type 0 where
  recording : Phase
  error : Phase
  time_restore : Phase
  reconstruction : Phase
  debugger : Phase
  reverse_replay : Phase

-- `TransitionVisitor`.
unfoldable pub visit : {Replay : Type 0} → Transitions Replay → Phase
visit (transition suspended) = error
visit (to_recording suspended) = recording
visit (to_error suspended last_error) = error
visit (to_time_restore suspended run_id run_seq global_seq next) = time_restore
visit (to_reconstruction suspended) = reconstruction
visit (to_debugger suspended) = debugger
visit (to_reverse_replay suspended replay) = reverse_replay

-- `ValidSnapshotIdSeq` and `GetGlobalSequence`, on the tree of snapshots.
abbrev pub ended : {A : Type 0} → Option A → Outcome A
ended none = out_of_fuel
ended (some a) = done a

unfoldable pub valid_snapshot_id_seq : ExecutionTree Snapshot → ℕ → ℕ → Outcome Bool
valid_snapshot_id_seq history run_id run_seq = ended (exact_node_exists history run_id run_seq)

unfoldable pub global_seq_of : Search (Node Snapshot) → Outcome (Option ℕ)
global_seq_of (found n) = done (some (info n).global_seq)
global_seq_of nullptr = done none
global_seq_of not_ended = out_of_fuel

unfoldable pub get_global_sequence : ExecutionTree Snapshot → ℕ → ℕ → Outcome (Option ℕ)
get_global_sequence history run_id run_seq = global_seq_of (get_exact_node history run_id run_seq)

-- `optional::value()`.
abbrev pub value : {A : Type 0} → Option A → Outcome A
value none = throws
value (some a) = done a

-- `SnapshotCommand::handle_run_id_seq`, from where both numbers are read.
unfoldable pub handle_run_id_seq :
    {Replay : Type 0} → ExecutionTree Snapshot → ℕ → ℕ → Outcome (Option (Transitions Replay))
handle_run_id_seq history run_id run_seq = valid_snapshot_id_seq history run_id run_seq >>= λ valid.
    if not valid
    then done none
    else (get_global_sequence history run_id run_seq >>= λ target_global_sequence.
        value target_global_sequence >>= λ target.
        done (some (to_time_restore true run_id run_seq target (to_debugger true))))

module _ {Context Page : Type 0} (zeroed : Page) (same : Page → Page → Bool) where
  abbrev pub snapshot_of : SnapshotType → Session Context Page → Snapshot
  snapshot_of kind s = record {
    kind = kind;
    run_id = s.run_id;
    run_sequence = s.run_sequence;
    global_sequence = s.global_sequence;
  }

  unfoldable pub start_snapshot_history : Session Context Page → Session Context Page
  start_snapshot_history s = record s {
    snapshot_history =
        create blank_snapshot (snapshot_of coarse_snapshot s) s.run_id s.run_sequence
          s.global_sequence;
  }

  -- The threads, then the memory, then the log; the next snapshot of the run has the next number.
  unfoldable pub snapshot_process :
      (ℕ → Context)
      → (ℕ → ℕ)
      → SharedData
      → List ℕ
      → List (Mbi × List Page)
      → SnapshotType
      → Session Context Page
      → Outcome (Session Context Page)
  snapshot_process context_of counter_of shared address_blacklist regions kind s =
      value
        (snapshot_threads context_of counter_of s.threads s.global_sequence s.run_id s.run_sequence)
      >>= λ threads.
          snapshot_memory zeroed same shared address_blacklist s.memory regions s.global_sequence
            s.run_id s.run_sequence
          >>= λ memory. done (record s {
            threads = threads;
            memory = memory;
            snapshot_history =
                add_child s.snapshot_history (snapshot_of kind s) s.run_id s.run_sequence
                  s.global_sequence;
            run_sequence = (s.run_sequence + 1) % 2 ^ 32;
          })

  unfoldable pub get_nearest_snapshot : Session Context Page → Search Snapshot
  get_nearest_snapshot s = get_nearest_state s.snapshot_history s.run_id s.run_sequence

  -- `TimeRestorePhase::Exit`: the histories of a new run branch off at the target. What
  -- `RestoreMemoryAtSequence` writes to the process is returned with the session.
  unfoldable pub exit_time_restore :
      ℕ
      → ℕ
      → Session Context Page
      → Outcome (Session Context Page × List (ℕ × List (RegionInfo Page)))
  exit_time_restore target_run_id target_run_sequence s =
      let new_run_id = (s.run_id + 1) % 2 ^ 32 in
      get_current_allocation_regions zeroed same s.memory target_run_id target_run_sequence
      >>= λ read.
          branch_process zeroed same read.0 target_run_id target_run_sequence new_run_id
          >>= λ memory. done (
            record s {
              run_id = new_run_id;
              run_sequence = 0;
              threads =
                  create_thread_history_branch s.threads target_run_id target_run_sequence
                    new_run_id;
              modules =
                  create_module_history_branch s.modules target_run_id target_run_sequence
                    new_run_id;
              memory = memory;
              snapshot_history =
                  revert_to_state s.snapshot_history target_run_id target_run_sequence new_run_id;
            },
            read.1,
          )
