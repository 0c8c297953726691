-- ===== src/Stepping/Loops.antt =====
-- The debug-event loops of step_command.cpp. The events that arrive are a list, with what the loop reads
-- of the thread when one arrives: for a breakpoint the address of the instruction pointer less one and the
-- stack pointer. The calls on threads and events are listed in their order.
pub mod Counts
pub mod Balance
use chronoporia.Base.{
  ℕ, zero, suc, ◌+◌, Bool, true, false, ◌&&◌, Option, none, some, List, [], ◌∷◌, ◌++◌, map,
  if◌then◌else◌, ◌==◌, leb,
}
use chronoporia.Breakpoints.Memory.{Memory}
use chronoporia.Breakpoints.State.{Manager}
use chronoporia.Breakpoints.Manager.{
  create_return_breakpoint, remove_breakpoint, disable_user_breakpoint, enable_user_breakpoint,
}

pub data StepEvent : Type 0 where
  single_step : ℕ → StepEvent
  breakpoint : ℕ → ℕ → ℕ → StepEvent
  exit_process : ℕ → StepEvent
  other_event : ℕ → StepEvent
  wait_failed : StepEvent

pub data StepCall : Type 0 where
  set_trap_flag : ℕ → StepCall
  resume_thread : ℕ → StepCall
  suspend_thread : ℕ → StepCall
  resume_process : StepCall
  suspend_process : StepCall
  roll_back_instruction : ℕ → StepCall
  continue_event : ℕ → StepCall

abbrev pub suspend : ℕ → Bool → StepCall
suspend thread_id this_thread_only =
    if this_thread_only then suspend_thread thread_id else suspend_process

abbrev pub resume : ℕ → Bool → StepCall
resume thread_id this_thread_only =
    if this_thread_only then resume_thread thread_id else resume_process

-- The calls of a loop, whether it ended or waits for an event, and the events that are left.
pub record Run (A : Type 0) : Type 0 where
  pub calls : List StepCall
  pub ended : Option A
  pub left : List StepEvent

abbrev pub then_calls : {A : Type 0} → List StepCall → Run A → Run A
then_calls calls run = record run { calls = calls ++ run.calls }

abbrev pub ends : {A : Type 0} → List StepCall → A → List StepEvent → Run A
ends calls value left = record { calls = calls; ended = some value; left = left }

abbrev pub waits : {A : Type 0} → Run A
waits = record { calls = []; ended = none; left = [] }

-- The loop of `step_instruction`.
unfoldable pub step_loop : ℕ → Bool → List StepEvent → Run Unit
step_loop thread_id only [] = waits
step_loop thread_id only (wait_failed ∷ events) = ends [] tt events
step_loop thread_id only (single_step t ∷ events) =
    let rest = step_loop thread_id only events in
    if t == thread_id
    then ends (suspend thread_id only ∷ continue_event t ∷ []) tt events
    else then_calls (continue_event t ∷ []) rest
step_loop thread_id only (breakpoint t rip rsp ∷ events) =
    let rest = step_loop thread_id only events in
    if t == thread_id
    then ends (suspend thread_id only ∷ roll_back_instruction thread_id ∷ continue_event t ∷ []) tt
        events
    else then_calls (continue_event t ∷ []) rest
step_loop thread_id only (exit_process t ∷ events) =
    then_calls (continue_event t ∷ []) (step_loop thread_id only events)
step_loop thread_id only (other_event t ∷ events) =
    then_calls (continue_event t ∷ []) (step_loop thread_id only events)

unfoldable pub step_instruction : ℕ → Bool → List StepEvent → Run Unit
step_instruction thread_id only events =
    then_calls (resume thread_id only ∷ []) (step_loop thread_id only events)

-- The loop of `single_step_user_breakpoint`: whether it got the single step.
unfoldable pub trap_loop : ℕ → List StepEvent → Run Bool
trap_loop thread_id [] = waits
trap_loop thread_id (wait_failed ∷ events) = ends [] false events
trap_loop thread_id (single_step t ∷ events) =
    let rest = trap_loop thread_id events in
    if t == thread_id then ends [] true events else then_calls (continue_event t ∷ []) rest
trap_loop thread_id (breakpoint t rip rsp ∷ events) =
    then_calls (continue_event t ∷ []) (trap_loop thread_id events)
trap_loop thread_id (exit_process t ∷ events) =
    then_calls (continue_event t ∷ []) (trap_loop thread_id events)
trap_loop thread_id (other_event t ∷ events) =
    then_calls (continue_event t ∷ []) (trap_loop thread_id events)

-- Behind the loop, the thread is suspended where it was stepped.
abbrev pub after_trap : ℕ → Run Bool → Run Unit
after_trap thread_id run = record {
  calls = run.calls ++ elim run.ended [
    | some true ↦ suspend_thread thread_id ∷ continue_event thread_id ∷ []
    | _ ↦ []
  ];
  ended = elim run.ended [ none ↦ none | some got ↦ some tt ];
  left = run.left;
}

-- The loop of `run_to_address`, with the threads that it suspends.
unfoldable pub run_loop : ℕ → ℕ → ℕ → Bool → List StepEvent → List ℕ → Run (Bool × List ℕ)
run_loop address thread_id sp only [] suspended = waits
run_loop address thread_id sp only (wait_failed ∷ events) suspended =
    ends [] (false, suspended) events
run_loop address thread_id sp only (single_step t ∷ events) suspended =
    then_calls (continue_event t ∷ []) (run_loop address thread_id sp only events suspended)
run_loop address thread_id sp only (exit_process t ∷ events) suspended =
    then_calls (continue_event t ∷ []) (run_loop address thread_id sp only events suspended)
run_loop address thread_id sp only (other_event t ∷ events) suspended =
    then_calls (continue_event t ∷ []) (run_loop address thread_id sp only events suspended)
run_loop address thread_id sp only (breakpoint t rip rsp ∷ events) suspended =
    let on = run_loop address thread_id sp only events suspended in
    let held = run_loop address thread_id sp only events (suspended ++ t ∷ []) in
    if rip == address
    then if t == thread_id
      then if leb rsp sp
        then then_calls (roll_back_instruction thread_id ∷ continue_event t ∷ []) on
        else ends (roll_back_instruction thread_id ∷ continue_event t ∷ suspend thread_id only ∷ [])
            (true, suspended) events
      else then_calls (roll_back_instruction t ∷ suspend_thread t ∷ continue_event t ∷ []) held
    else then_calls (continue_event t ∷ []) on

-- The threads that were suspended run again, behind the loop.
abbrev pub after_run : Run (Bool × List ℕ) → Run Bool
after_run run = record {
  calls =
      run.calls
      ++ elim run.ended [ none ↦ [] | some (complete, suspended) ↦ map resume_thread suspended ];
  ended = elim run.ended [ none ↦ none | some (complete, suspended) ↦ some complete ];
  left = run.left;
}

module _ {Process : Type 0} (memory : Memory Process) (get_true_address : ℕ → ℕ) where
  -- The manager behind the function, if the loop ended.
  abbrev pub when_ended : {A : Type 0} → Run A → Manager Process → Manager Process → Manager Process
  when_ended run at_wait at_end = elim run.ended [ none ↦ at_wait | some a ↦ at_end ]

  unfoldable pub single_step_user_breakpoint :
      Manager Process → ℕ → ℕ → List StepEvent → Manager Process × Run Unit
  single_step_user_breakpoint m address thread_id events =
      let disabled = (disable_user_breakpoint memory get_true_address m address).0 in
      let run = trap_loop thread_id events in
      (
        when_ended run disabled (enable_user_breakpoint memory get_true_address disabled address).0,
        then_calls (set_trap_flag thread_id ∷ resume_thread thread_id ∷ [])
            (after_trap thread_id run),
      )

  unfoldable pub run_to_address :
      Manager Process → ℕ → ℕ → ℕ → Bool → List StepEvent → Manager Process × Run Bool
  run_to_address m address thread_id sp only events =
      let created = create_return_breakpoint memory m address thread_id in
      let run = run_loop address thread_id sp only events [] in
      (
        when_ended run created
            (remove_breakpoint memory get_true_address created address thread_id).0,
        then_calls (resume thread_id only ∷ []) (after_run run),
      )

  -- `step_out_from`: the flag is given where the stack pointer is asked for, so the flag itself keeps its
  -- default.
  unfoldable pub step_out_from :
      (ℕ → ℕ) → Manager Process → ℕ → Bool → List StepEvent → Manager Process × Run Bool
  step_out_from get_frame_return_address m thread_id this_thread_only events =
      run_to_address m (get_frame_return_address thread_id) thread_id
        (if this_thread_only then 1 else 0) false events
