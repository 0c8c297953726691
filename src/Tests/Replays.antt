-- ===== src/Tests/Replays.antt =====
-- Reverse replays on small inputs.
use chronoporia.Base.{◌≡◌, none, ◌+◌, arith}
use chronoporia.Base.{ℕ, ◌≢◌, refl, false, List, [], ◌∷◌, lookup, get_or, mem}
use chronoporia.Breakpoints.Memory.{flat}
use chronoporia.Breakpoints.State.{Manager}
use chronoporia.Instrument.Analysis.{drop}
use chronoporia.Instrument.Stub.{take}
use chronoporia.Instrument.Block.{get_true_instruction_address}
use chronoporia.Stepping.Predecessors.{
  is_instrumented_leader, get_instruction_predecessors_of_address, fallthrough_predecessor,
  function_analysis_containing_address, walk_function, last_instruction,
}
use chronoporia.Stepping.{PotentialPredecessor, StepAnalysis}
use chronoporia.Phases.Reverse.{
  ReversePhase, ReverseEvent, breakpoint, single_step, found, decide, get_potential_predecessor,
  reverse_loop, run_reverse,
}
use chronoporia.Phases.Reverse.Found.{FindsPredecessor, run_reverse-FindsPredecessor}
use chronoporia.Phases.Reverse.Missed.{not_leader-not_found}
use chronoporia.Phases.Reconstruction.{
  Services, PhaseEvent, load_dll, timed_out, reconstruct, run_reconstruction,
}
use chronoporia.Phases.Reconstruction.Snapshots.{suspensions, rounds, run_reconstruction-rounds}
use chronoporia.Tests.Stubs.{small_decode, no_staging, read_small, small_function}

abbrev no_manager : Manager (ℕ → ℕ)
no_manager = record {
  address_to_bp = [];
  permanent_bp_to_trampoline = [];
  user_breakpoints = [];
  process = λ a. 0x90;
}

-- A predecessor at 0x1002 when the counter is 4; the thread had stopped at the counter `stopped`.
abbrev phase_at : ℕ → List PotentialPredecessor → ReversePhase
phase_at stopped predecessors = record {
  predecessors = predecessors;
  replay_thread_id = 1;
  branch_target = 0;
  stopped_address = 0x1003;
  stopped_branch_counter = stopped;
  catch_address = 0;
  catch_branch_counter = 0;
  last_seen = [];
}

abbrev one_predecessor : List PotentialPredecessor
one_predecessor = record { true_address = 0x1002; branch_counter = 4; is_block_leader = false } ∷ []

-- The thread passes the address at the counter 3 and is stepped over it, and comes back at 4.
abbrev two_visits : List ReverseEvent
two_visits = breakpoint 1 0x1002 3 ∷ single_step 1 ∷ breakpoint 1 0x1002 4 ∷ []

run_reverse-FindsPredecessor_example :
    FindsPredecessor
      (phase_at 5 one_predecessor)
      two_visits
      (run_reverse flat (λ a. a) (phase_at 5 one_predecessor) no_manager two_visits).left
unfolding run_reverse reverse_loop decide get_potential_predecessor
run_reverse-FindsPredecessor_example =
    run_reverse-FindsPredecessor flat (λ a. a) (phase_at 5 one_predecessor) no_manager two_visits
      refl

-- The analysis has one function and no leader.
abbrev no_leaders : StepAnalysis
no_leaders = record {
  analysis = record { info = small_function; branches = []; loops = [] } ∷ [];
  instrumented_leaders = [];
}

not_leader-not_found_example :
    (run_reverse flat (λ a. a) (phase_at 4 one_predecessor) no_manager two_visits).ending ≢ found
unfolding is_instrumented_leader mem get_instruction_predecessors_of_address fallthrough_predecessor
    function_analysis_containing_address walk_function last_instruction get_true_instruction_address
    get_or lookup drop take
not_leader-not_found_example =
    not_leader-not_found small_decode read_small (λ a n. []) no_staging flat (λ a. a) no_leaders
      0x1003 4 (phase_at 4 one_predecessor) no_manager two_visits refl refl refl

-- Services that count the micro snapshots and do nothing else.
abbrev counting : Services ℕ
counting = record {
  track_dll = λ s a. s;
  untrack_dll = λ s a. s;
  track_thread = λ s t. s;
  untrack_thread = λ s t. s;
  get_breakpoint_type = λ s a t. none;
  replay_event = λ s a t. s;
  replay_event_end = λ s a t. s;
  on_breakpoint_enter = λ s a t. s;
  on_breakpoint_return = λ s a t. s;
  add_branch_counting = λ s. s;
  clear_branch_targets = λ s. s;
  remove_breakpoint = λ s a. s;
  track_all_threads = λ s. s;
  load_trampoline = λ s. s;
  start_snapshot_history = λ s. s;
  coarse_snapshot = λ s. s;
  micro_snapshot = λ s. s + 1;
  start_point = λ s. none;
}

abbrev two_seconds : List PhaseEvent
two_seconds = timed_out ∷ load_dll 1 0x5000 ∷ timed_out ∷ timed_out ∷ []

run_reconstruction-rounds_example :
    suspensions (run_reconstruction counting 0 2000 two_seconds).calls ≡ rounds 2
unfolding run_reconstruction reconstruct
run_reconstruction-rounds_example =
    run_reconstruction-rounds counting 0 2000 two_seconds (omega arith) refl
