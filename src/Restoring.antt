-- ===== src/Restoring.antt =====
-- `RunDllRestore` of time_restore_phase.cpp: the process runs its unload code while
-- the debugger answers its debug events, until the breakpoint at the end of the code. The events that
-- arrive are a list; each has the thread and, for a breakpoint, its address.
pub mod Modules
use chronoporia.Base.{
  ℕ, ◌+◌, ◌-◌, ◌%◌, ◌^◌, Bool, true, false, Option, none, some, List, [], ◌∷◌, if◌then◌else◌, ◌==◌,
}
use chronoporia.Breakpoints.State.{BreakpointType, permanent, shell_code, Manager}
use chronoporia.Breakpoints.Query.{get_breakpoint_type}

pub data DebugEvent : Type 0 where
  load_dll : DebugEvent
  unload_dll : DebugEvent
  breakpoint : ℕ → ℕ → DebugEvent
  other_exception : DebugEvent
  other_event : DebugEvent
  wait_failed : DebugEvent

-- What the loop does to the process and to the program.
pub data Call : Type 0 where
  redirect : ℕ → ℕ → Call
  suspend_main : Call
  continue_event : Call
  stop_running : Call

-- The loop returns, throws where `value()` finds none, or waits for another event.
pub data Ending : Type 0 where
  returned : Bool → Ending
  throws : Ending
  waiting : Ending

-- The address of the breakpoint at the end of the code.
abbrev pub code_end : ℕ → ℕ → ℕ
code_end code_address code_size = (code_address + code_size + 2 ^ 64 - 1) % 2 ^ 64

abbrev pub then_calls : List Call → List Call × Ending → List Call × Ending
then_calls [] out = out
then_calls (c ∷ calls) out = let rest = then_calls calls out in (c ∷ rest.0, rest.1)

-- The switch on the kind of the breakpoint; `on` is the rest of the loop.
unfoldable pub at_breakpoint :
    ℕ → ℕ → ℕ → Option BreakpointType → List Call × Ending → List Call × Ending
at_breakpoint stop thread_id rip_address none on = ([], throws)
at_breakpoint stop thread_id rip_address (some permanent) on =
    then_calls (redirect rip_address thread_id ∷ continue_event ∷ []) on
at_breakpoint stop thread_id rip_address (some shell_code) on =
    if stop == rip_address
    then (suspend_main ∷ continue_event ∷ [], returned true)
    else ([], returned false)
at_breakpoint stop thread_id rip_address (some _) on = ([], returned false)

module _ {Process : Type 0} (m : Manager Process) (stop : ℕ) where
  unfoldable pub run_dll_restore : List DebugEvent → List Call × Ending
  run_dll_restore [] = ([], waiting)
  run_dll_restore (load_dll ∷ events) = then_calls (continue_event ∷ []) (run_dll_restore events)
  run_dll_restore (unload_dll ∷ events) = then_calls (continue_event ∷ []) (run_dll_restore events)
  run_dll_restore (breakpoint thread_id rip_address ∷ events) =
      at_breakpoint stop thread_id rip_address (get_breakpoint_type m rip_address thread_id)
        (run_dll_restore events)
  run_dll_restore (other_exception ∷ events) =
      then_calls (continue_event ∷ []) (run_dll_restore events)
  run_dll_restore (other_event ∷ events) = then_calls (continue_event ∷ []) (run_dll_restore events)
  run_dll_restore (wait_failed ∷ events) = (stop_running ∷ [], returned false)
