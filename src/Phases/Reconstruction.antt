-- ===== src/Phases/Reconstruction.antt =====
-- reconstruction_phase.cpp and record_phase.cpp: the process runs under the debugger, which tracks modules and
-- threads and takes snapshots. What the handlers call in other components is an interface; time is in the
-- events, which say whether the wait ran out.
pub mod Snapshots
use chronoporia.Base.{
  ℕ, zero, suc, ◌+◌, ◌-◌, ◌/◌, ◌%◌, ◌^◌, Bool, true, false, Option, none, some, List, [], ◌∷◌, ◌++◌,
  if◌then◌else◌, ◌==◌,
}
use chronoporia.Breakpoints.State.{BreakpointType, permanent, return, spin_lock}

-- What the handlers do to the program `S`: the module and thread managers, the breakpoints, the event
-- log, the plugins and the snapshots. `start_point` is the global sequence of the first snapshot.
pub record Services (S : Type 0) : Type 0 where
  pub track_dll : S → ℕ → S
  pub untrack_dll : S → ℕ → S
  pub track_thread : S → ℕ → S
  pub untrack_thread : S → ℕ → S
  pub get_breakpoint_type : S → ℕ → ℕ → Option BreakpointType
  pub replay_event : S → ℕ → ℕ → S
  pub replay_event_end : S → ℕ → ℕ → S
  pub on_breakpoint_enter : S → ℕ → ℕ → S
  pub on_breakpoint_return : S → ℕ → ℕ → S
  pub add_branch_counting : S → S
  pub clear_branch_targets : S → S
  pub remove_breakpoint : S → ℕ → S
  pub track_all_threads : S → S
  pub load_trampoline : S → S
  pub start_snapshot_history : S → S
  pub coarse_snapshot : S → S
  pub micro_snapshot : S → S
  pub start_point : S → Option ℕ

pub data PhaseEvent : Type 0 where
  load_dll : ℕ → ℕ → PhaseEvent
  unload_dll : ℕ → ℕ → PhaseEvent
  create_thread : ℕ → PhaseEvent
  exit_thread : ℕ → PhaseEvent
  breakpoint : ℕ → ℕ → PhaseEvent
  other_exception : ℕ → PhaseEvent
  exit_process : ℕ → PhaseEvent
  other_event : ℕ → PhaseEvent
  timed_out : PhaseEvent
  wait_failed : PhaseEvent

pub data PhaseCall : Type 0 where
  resume_process : PhaseCall
  suspend_process : PhaseCall
  roll_back_instruction : ℕ → PhaseCall
  continue_event : ℕ → Bool → PhaseCall

-- The transition of the phase; `throws` where `value()` finds none.
pub data PhaseEnd : Type 0 where
  to_debugger : PhaseEnd
  to_time_restore : ℕ → PhaseEnd
  to_error : PhaseEnd
  throws : PhaseEnd
  waiting : PhaseEnd

pub record Phased (S : Type 0) : Type 0 where
  pub program : S
  pub calls : List PhaseCall
  pub ending : PhaseEnd

abbrev pub before : {S : Type 0} → List PhaseCall → Phased S → Phased S
before calls r = record r { calls = calls ++ r.calls }

abbrev pub ends : {S : Type 0} → S → List PhaseCall → PhaseEnd → Phased S
ends s calls ending = record { program = s; calls = calls; ending = ending }

module _ {S : Type 0} (services : Services S) where
  open services use {
    track_dll, untrack_dll, track_thread, untrack_thread, get_breakpoint_type, replay_event,
    replay_event_end, on_breakpoint_enter, on_breakpoint_return, add_branch_counting,
    clear_branch_targets, remove_breakpoint, track_all_threads, load_trampoline,
    start_snapshot_history, coarse_snapshot, micro_snapshot, start_point,
  }

  -- The switch of `ReconstructionPhase::HandleBreakpoint`.
  unfoldable pub replay_breakpoint : S → ℕ → ℕ → Option BreakpointType → Option S
  replay_breakpoint s rip t none = none
  replay_breakpoint s rip t (some permanent) = some (replay_event s rip t)
  replay_breakpoint s rip t (some return) = some (replay_event_end s rip t)
  replay_breakpoint s rip t (some _) = some s

  -- The loop of `ReconstructionPhase::Run`, with `snapshots_remaining`, a `uint32_t`.
  unfoldable pub reconstruct : S → ℕ → List PhaseEvent → Phased S
  reconstruct s remaining [] = ends s [] waiting
  reconstruct s remaining (load_dll t base ∷ events) =
      before (continue_event t true ∷ []) (reconstruct (track_dll s base) remaining events)
  reconstruct s remaining (unload_dll t base ∷ events) =
      before (continue_event t true ∷ []) (reconstruct (untrack_dll s base) remaining events)
  reconstruct s remaining (create_thread t ∷ events) =
      before (continue_event t true ∷ []) (reconstruct (track_thread s t) remaining events)
  reconstruct s remaining (exit_thread t ∷ events) =
      before (continue_event t true ∷ []) (reconstruct (untrack_thread s t) remaining events)
  reconstruct s remaining (breakpoint t rip ∷ events) =
      elim (replay_breakpoint s rip t (get_breakpoint_type s rip t)) [
        | none ↦ ends s (roll_back_instruction t ∷ []) throws
        | some next ↦
            before (roll_back_instruction t ∷ continue_event t true ∷ [])
              (reconstruct next remaining events)
      ]
  reconstruct s remaining (other_exception t ∷ events) =
      before (continue_event t false ∷ []) (reconstruct s remaining events)
  reconstruct s remaining (exit_process t ∷ events) = ends s (continue_event t false ∷ []) to_error
  reconstruct s remaining (other_event t ∷ events) =
      before (continue_event t true ∷ []) (reconstruct s remaining events)
  reconstruct s remaining (timed_out ∷ events) =
      let left = (remaining + (2 ^ 32 - 1)) % 2 ^ 32 in
      let taken = micro_snapshot s in
      elim (left == 0) [
        | true ↦ ends taken (suspend_process ∷ []) to_debugger
        | false ↦ before (suspend_process ∷ resume_process ∷ []) (reconstruct taken left events)
      ]
  reconstruct s remaining (wait_failed ∷ events) = ends s [] to_error

  -- `snapshot_interval` is in milliseconds, and a micro snapshot is taken each second.
  unfoldable pub run_reconstruction : S → ℕ → List PhaseEvent → Phased S
  run_reconstruction s snapshot_interval events =
      reconstruct s (snapshot_interval / 1000 % 2 ^ 32) events

  -- The switch of `RecordingPhase::HandleBreakpoint` away from the entry.
  unfoldable pub record_breakpoint : S → ℕ → ℕ → Option BreakpointType → Option S
  record_breakpoint s rip t none = none
  record_breakpoint s rip t (some return) = some (on_breakpoint_return s rip t)
  record_breakpoint s rip t (some permanent) = some (on_breakpoint_enter s rip t)
  record_breakpoint s rip t (some _) = some s

  -- `HandleBreakpoint` at the entry of the child, between a suspension and a resumption.
  unfoldable pub at_entry : ℕ → S → S
  at_entry child_entry s =
      let counted = clear_branch_targets (add_branch_counting s) in
      let tracked = track_all_threads (remove_breakpoint counted child_entry) in
      coarse_snapshot (start_snapshot_history (load_trampoline tracked))

  -- `RecordingPhase::DebugLoop`.
  unfoldable pub debug_loop : ℕ → S → List PhaseEvent → Phased S
  debug_loop child_entry s [] = ends s [] waiting
  debug_loop child_entry s (load_dll t base ∷ events) =
      before (continue_event t true ∷ []) (debug_loop child_entry (track_dll s base) events)
  debug_loop child_entry s (unload_dll t base ∷ events) =
      before (continue_event t true ∷ []) (debug_loop child_entry (untrack_dll s base) events)
  debug_loop child_entry s (breakpoint t rip ∷ events) = elim (rip == child_entry) [
    | true ↦
        before
          (roll_back_instruction t
            ∷ suspend_process
            ∷ continue_event t true
            ∷ resume_process
            ∷ continue_event t true
            ∷ [])
          (debug_loop child_entry (at_entry child_entry s) events)
    | false ↦ (elim (record_breakpoint s rip t (get_breakpoint_type s rip t)) [
      | none ↦ ends s (roll_back_instruction t ∷ []) throws
      | some next ↦
          before (roll_back_instruction t ∷ continue_event t true ∷ [])
            (debug_loop child_entry next events)
    ])
  ]
  debug_loop child_entry s (other_exception t ∷ events) =
      before (continue_event t false ∷ []) (debug_loop child_entry s events)
  debug_loop child_entry s (exit_process t ∷ events) = ends s (continue_event t false ∷ []) to_error
  debug_loop child_entry s (create_thread t ∷ events) =
      before (continue_event t true ∷ []) (debug_loop child_entry s events)
  debug_loop child_entry s (exit_thread t ∷ events) =
      before (continue_event t true ∷ []) (debug_loop child_entry s events)
  debug_loop child_entry s (other_event t ∷ events) =
      before (continue_event t true ∷ []) (debug_loop child_entry s events)
  debug_loop child_entry s (timed_out ∷ events) = elim (start_point s) [
    | none ↦ ends s (suspend_process ∷ []) throws
    | some sequence ↦ ends s (suspend_process ∷ []) (to_time_restore sequence)
  ]
  debug_loop child_entry s (wait_failed ∷ events) = ends s [] to_error
