-- ===== src/Stepping/Modes.antt =====
-- `run_step_mode` and `step_source` of step_command.cpp: a thread goes on to one of the stops of its line.
use chronoporia.Base.{
  ℕ, Bool, true, false, not, ◌&&◌, Option, none, some, List, [], ◌∷◌, ◌++◌, if◌then◌else◌, ◌==◌,
}
use chronoporia.Breakpoints.Memory.{Memory}
use chronoporia.Breakpoints.State.{BreakpointType, user, step, Manager}
use chronoporia.Breakpoints.Manager.{
  create_step_breakpoint, remove_breakpoint, disable_user_breakpoint, enable_user_breakpoint,
  is_user_breakpoint_conditional,
}
use chronoporia.Breakpoints.Query.{get_breakpoint_type, is_breakpoint_type_step}
use chronoporia.Stepping.Stops.{at_line, StepBreakpoint}
use chronoporia.Stepping.Loops.{
  StepEvent, single_step, breakpoint, exit_process, other_event, wait_failed, StepCall,
  set_trap_flag, resume_thread, suspend_thread, roll_back_instruction, continue_event, Run,
  then_calls, ends, waits, step_instruction, single_step_user_breakpoint,
}

-- How the loop ends: with the stop that was reached, if one was; or where the code reads a kind or a stop
-- that is not there.
pub data StepEnd : Type 0 where
  stopped : Option StepBreakpoint → StepEnd
  undefined : StepEnd

-- `std::find_if` by the true address.
unfoldable pub find_stop : ℕ → List StepBreakpoint → Option StepBreakpoint
find_stop address [] = none
find_stop address (bp ∷ stops) =
    if bp.true_address == address then some bp else find_stop address stops

-- The loop waits as usual, or inside `single_step_user_breakpoint` for the trap of the thread at a user
-- breakpoint, which the thread that is named met.
pub data Waiting : Type 0 where
  as_usual : Waiting
  for_trap : ℕ → ℕ → Waiting

-- What the switch on the kind of the breakpoint does: go on with the loop, stop or step over.
pub data Switch : Type 0 where
  go_on : List StepCall → Switch
  stop : List StepCall → Option StepBreakpoint → Switch
  step_over : List StepCall → Switch
  no_value : Switch

module _ {Process : Type 0} (memory : Memory Process) (get_true_address : ℕ → ℕ)
    (reached_breakpoint : ℕ → ℕ → Bool) (thread_id : ℕ) (stops : List StepBreakpoint) where
  -- Where a stop of the line is reached by the thread.
  abbrev pub at_stop : ℕ → Option StepBreakpoint → Switch
  at_stop t none = no_value
  at_stop t (some bp) =
      stop (roll_back_instruction t ∷ suspend_thread t ∷ continue_event t ∷ []) (some bp)

  abbrev pub is_passed_over : Manager Process → ℕ → ℕ → Bool
  is_passed_over m t rip =
      not (is_breakpoint_type_step m rip t)
      && is_user_breakpoint_conditional memory get_true_address m rip
      && not (reached_breakpoint rip thread_id)

  unfoldable pub switch_on : Manager Process → ℕ → ℕ → Option BreakpointType → Switch
  switch_on m t rip none = no_value
  switch_on m t rip (some user) =
      let calls = roll_back_instruction thread_id ∷ suspend_thread t ∷ continue_event t ∷ [] in
      if is_passed_over m t rip then step_over calls else stop calls none
  switch_on m t rip (some step) =
      if t == thread_id
      then at_stop t (find_stop rip stops)
      else go_on (roll_back_instruction t ∷ suspend_thread t ∷ continue_event t ∷ [])
  switch_on m t rip (some _) = go_on (continue_event t ∷ [])

  abbrev pub with_calls :
      {A : Type 0} → List StepCall → Manager Process × Run A → Manager Process × Run A
  with_calls calls (m, run) = (m, then_calls calls run)

  unfoldable pub step_mode_loop :
      Manager Process → Waiting → List StepEvent → Manager Process × Run StepEnd
  step_mode_loop m waiting [] = (m, waits)
  step_mode_loop m as_usual (wait_failed ∷ events) = (m, ends [] (stopped none) events)
  step_mode_loop m as_usual (exit_process t ∷ events) = (m, ends [] (stopped none) events)
  step_mode_loop m as_usual (single_step t ∷ events) =
      (m, ends (continue_event t ∷ []) (stopped none) events)
  step_mode_loop m as_usual (other_event t ∷ events) =
      (m, ends (continue_event t ∷ []) (stopped none) events)
  step_mode_loop m as_usual (breakpoint t rip rsp ∷ events) =
      elim (switch_on m t rip (get_breakpoint_type m rip t)) [
        | go_on calls ↦ with_calls calls (step_mode_loop m as_usual events)
        | stop calls reached ↦ (m, ends calls (stopped reached) events)
        | step_over calls ↦
            with_calls (calls ++ set_trap_flag thread_id ∷ resume_thread thread_id ∷ []) (
              step_mode_loop (disable_user_breakpoint memory get_true_address m rip).0
                (for_trap rip t) events)
        | no_value ↦ (m, ends [] undefined events)
      ]
  step_mode_loop m (for_trap address current) (wait_failed ∷ events) =
      with_calls (resume_thread current ∷ []) (
        step_mode_loop (enable_user_breakpoint memory get_true_address m address).0 as_usual events)
  step_mode_loop m (for_trap address current) (single_step t ∷ events) = elim (t == thread_id) [
    | true ↦ with_calls (suspend_thread thread_id ∷ continue_event t ∷ resume_thread current ∷ []) (
        step_mode_loop (enable_user_breakpoint memory get_true_address m address).0 as_usual events)
    | false ↦
        with_calls (continue_event t ∷ []) (step_mode_loop m (for_trap address current) events)
  ]
  step_mode_loop m (for_trap address current) (breakpoint t rip rsp ∷ events) =
      with_calls (continue_event t ∷ []) (step_mode_loop m (for_trap address current) events)
  step_mode_loop m (for_trap address current) (exit_process t ∷ events) =
      with_calls (continue_event t ∷ []) (step_mode_loop m (for_trap address current) events)
  step_mode_loop m (for_trap address current) (other_event t ∷ events) =
      with_calls (continue_event t ∷ []) (step_mode_loop m (for_trap address current) events)

  unfoldable pub place_stops : List StepBreakpoint → Manager Process → Manager Process
  place_stops [] m = m
  place_stops (bp ∷ rest) m =
      place_stops rest (create_step_breakpoint memory m bp.true_address thread_id)

  unfoldable pub remove_stops : List StepBreakpoint → Manager Process → Manager Process
  remove_stops [] m = m
  remove_stops (bp ∷ rest) m =
      remove_stops rest (remove_breakpoint memory get_true_address m bp.true_address thread_id).0

  -- Where the loop ends with a value, the stops are removed again.
  abbrev pub after_step_mode : Manager Process × Run StepEnd → Manager Process × Run StepEnd
  after_step_mode (m, run) = (
    elim run.ended [ some (stopped reached) ↦ remove_stops stops m | _ ↦ m ],
    then_calls (resume_thread thread_id ∷ []) run,
  )

  unfoldable pub run_step_mode : Manager Process → List StepEvent → Manager Process × Run StepEnd
  run_step_mode m events = after_step_mode (step_mode_loop (place_stops stops m) as_usual events)

-- One function behind another, on the events that are left.
abbrev pub and_then :
    {Process A B : Type 0}
    → Manager Process × Run A
    → (Manager Process → A → List StepEvent → Manager Process × Run B)
    → Manager Process × Run B
and_then (m, run) next = elim run.ended [
  | none ↦ (m, record { calls = run.calls; ended = none; left = run.left })
  | some a ↦ let out = next m a run.left in (out.0, then_calls run.calls out.1)
]

module _ {Process : Type 0} (memory : Memory Process) (get_true_address : ℕ → ℕ)
    (reached_breakpoint : ℕ → ℕ → Bool) (main_thread_id : ℕ) where
  -- The switch at the end of `step_source`: but for a line, one instruction more.
  unfoldable pub after_stop : StepEnd → List StepEvent → Run Bool
  after_stop undefined events = ends [] false events
  after_stop (stopped none) events = ends [] true events
  after_stop (stopped (some bp)) events =
      let one_more =
        then_calls (set_trap_flag main_thread_id ∷ [])
          (step_instruction main_thread_id false events) in
      if bp.has_source_info
      then elim bp.step_kind [
        | at_line ↦ ends [] true events
        | _ ↦ record {
          calls = one_more.calls;
          ended = elim one_more.ended [ none ↦ none | some u ↦ some true ];
          left = one_more.left;
        }
      ]
      else ends [] true events

  -- A user breakpoint under the thread is stepped over first.
  abbrev pub leave_user_breakpoint :
      Manager Process → ℕ → ℕ → List StepEvent → Manager Process × Run Unit
  leave_user_breakpoint m address thread_id events =
      elim (get_breakpoint_type m address thread_id) [
        | some user ↦ single_step_user_breakpoint memory get_true_address m address thread_id events
        | _ ↦ (m, ends [] tt events)
      ]

  -- `has_line` tells whether the symbols know the line of the thread's address, and `stops` what
  -- `get_breakpoints_for_step` gives for it. The value is false where the behaviour is undefined.
  unfoldable pub step_source :
      Bool
      → List StepBreakpoint
      → Manager Process
      → ℕ
      → ℕ
      → List StepEvent
      → Manager Process × Run Bool
  step_source has_line stops m current_address thread_id events =
      if has_line
      then and_then (leave_user_breakpoint m current_address thread_id events) (λ left u events.
        and_then
          (run_step_mode memory get_true_address reached_breakpoint thread_id stops left events)
          (λ stepped reached events. (stepped, after_stop reached events)))
      else (m, ends [] true events)
