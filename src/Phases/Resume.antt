-- ===== src/Phases/Resume.antt =====
-- The resume command, src/cli/debugger/commands/resume_command.cpp: the process runs until a user
-- breakpoint stops it. Events and calls are those of the reverse replay.
use chronoporia.Base.{
  ℕ, Bool, true, false, not, ◌&&◌, Option, none, some, List, [], ◌∷◌, ◌++◌, if◌then◌else◌, ◌==◌,
}
use chronoporia.Breakpoints.Memory.{Memory}
use chronoporia.Breakpoints.State.{BreakpointType, permanent, user, Manager}
use chronoporia.Breakpoints.Manager.{
  disable_user_breakpoint, enable_user_breakpoint, is_user_breakpoint_conditional,
}
use chronoporia.Breakpoints.Query.{get_breakpoint_type}
use chronoporia.Phases.Reverse.{
  ReverseEvent, breakpoint, single_step, other_event, wait_failed, ReverseCall, resume_process,
  suspend_process, suspend_all_but, resume_all, set_trap_flag, roll_back_instruction,
  redirect_to_trampoline, continue_event, step_calls,
}

-- `pending_user_breakpoint_`: the address and the thread of the breakpoint that stopped the program.
abbrev pub Pending : Type 0
Pending = Option (ℕ × ℕ)

-- The program stops at a user breakpoint, waiting fails, or `value()` finds none and throws.
pub data ResumeEnd : Type 0 where
  stopped : ResumeEnd
  failed : ResumeEnd
  throws : ResumeEnd
  waiting : ResumeEnd

pub record Resumed (Process : Type 0) : Type 0 where
  pub manager : Manager Process
  pub pending : Pending
  pub calls : List ReverseCall
  pub ending : ResumeEnd
  pub left : List ReverseEvent

abbrev pub before : {Process : Type 0} → List ReverseCall → Resumed Process → Resumed Process
before calls r = record r { calls = calls ++ r.calls }

-- Waiting as usual, or in `single_step_and_restore` at an address, for a thread.
pub data ResumeMode : Type 0 where
  as_usual : ResumeMode
  stepping : ℕ → ℕ → ResumeMode

-- What the switch on the kind of the breakpoint does.
pub data Choice : Type 0 where
  redirects : Choice
  stops : Choice
  steps_over : Choice
  passes : Choice
  no_value : Choice

module _ {Process : Type 0} (memory : Memory Process) (get_true_address : ℕ → ℕ)
    (reached_breakpoint : ℕ → ℕ → Bool) where
  unfoldable pub choose : Manager Process → ℕ → ℕ → Option BreakpointType → Choice
  choose m address t none = no_value
  choose m address t (some permanent) = redirects
  choose m address t (some user) =
      if is_user_breakpoint_conditional memory get_true_address m address
        && not (reached_breakpoint address t)
      then steps_over
      else stops
  choose m address t (some _) = passes

  unfoldable pub resume_loop : Manager Process → ResumeMode → List ReverseEvent → Resumed Process
  resume_loop m mode [] = record {
    manager = m;
    pending = none;
    calls = [];
    ending = waiting;
    left = [];
  }
  resume_loop m as_usual (wait_failed ∷ events) = record {
    manager = m;
    pending = none;
    calls = [];
    ending = failed;
    left = events;
  }
  resume_loop m as_usual (single_step t ∷ events) =
      before (continue_event t ∷ []) (resume_loop m as_usual events)
  resume_loop m as_usual (other_event t ∷ events) =
      before (continue_event t ∷ []) (resume_loop m as_usual events)
  resume_loop m as_usual (breakpoint t address counter ∷ events) =
      elim (choose m address t (get_breakpoint_type m address t)) [
        | redirects ↦
            before (redirect_to_trampoline address t ∷ continue_event t ∷ [])
              (resume_loop m as_usual events)
        | stops ↦ record {
          manager = m;
          pending = some (address, t);
          calls = roll_back_instruction t ∷ suspend_process ∷ continue_event t ∷ [];
          ending = stopped;
          left = events;
        }
        | steps_over ↦ before (step_calls t) (
            resume_loop (disable_user_breakpoint memory get_true_address m address).0
              (stepping address t) events)
        | passes ↦ before (continue_event t ∷ []) (resume_loop m as_usual events)
        | no_value ↦ record {
          manager = m;
          pending = none;
          calls = [];
          ending = throws;
          left = events;
        }
      ]
  resume_loop m (stepping at thread) (wait_failed ∷ events) =
      before (resume_all ∷ [])
        (resume_loop (enable_user_breakpoint memory get_true_address m at).0 as_usual events)
  resume_loop m (stepping at thread) (single_step t ∷ events) = elim (t == thread) [
    | true ↦
        before (continue_event t ∷ resume_all ∷ [])
          (resume_loop (enable_user_breakpoint memory get_true_address m at).0 as_usual events)
    | false ↦ before (continue_event t ∷ []) (resume_loop m (stepping at thread) events)
  ]
  resume_loop m (stepping at thread) (breakpoint t address counter ∷ events) =
      before (continue_event t ∷ []) (resume_loop m (stepping at thread) events)
  resume_loop m (stepping at thread) (other_event t ∷ events) =
      before (continue_event t ∷ []) (resume_loop m (stepping at thread) events)

  -- From the breakpoint that stopped the program last, if one did.
  unfoldable pub resume_process_execution :
      Manager Process → Pending → List ReverseEvent → Resumed Process
  resume_process_execution m none events =
      before (resume_process ∷ []) (resume_loop m as_usual events)
  resume_process_execution m (some (address, t)) events =
      before (suspend_all_but t ∷ set_trap_flag t ∷ resume_process ∷ []) (
        resume_loop (disable_user_breakpoint memory get_true_address m address).0
          (stepping address t) events)
