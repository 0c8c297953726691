-- ===== src/Tests/Steps.antt =====
-- Steps on small inputs.
use chronoporia.Base.{ℕ, ◌≡◌, ◌⊎◌, refl, true, false, some, List, [], ◌∷◌, All}
use chronoporia.Breakpoints.Memory.{flat}
use chronoporia.Breakpoints.State.{Manager}
use chronoporia.Instrument.{conditional, BranchSite, FunctionAnalysis}
use chronoporia.Stepping.{LineRange}
use chronoporia.Stepping.Predecessors.{fallthrough_predecessor}
use chronoporia.Stepping.Predecessors.Fallthrough.{FallsInto, fallthrough_predecessor-some}
use chronoporia.Stepping.Stops.{by_line, has_stop, stops_of, StepBreakpoint, StepBreakpointKind}
use chronoporia.Stepping.Stops.Exits.{AreStops}
use chronoporia.Stepping.Stops.Ways.{IsExit}
use chronoporia.Stepping.Stops.Kinds.{stops_of-IsExit}
use chronoporia.Stepping.Loops.{StepEvent, breakpoint, other_event, run_loop, run_to_address}
use chronoporia.Stepping.Loops.Balance.{IsEnded, run_to_address-IsEnded}
use chronoporia.Tests.Stubs.{
  small_decode, small_decode-IsDecoder, small_function, no_staging, read_small,
}

-- A line with a conditional branch out of it and a return.
abbrev branch_of_line : BranchSite
branch_of_line = record {
  address = 0x1002;
  next_address = 0x1004;
  target = 0x1008;
  byte_length = 2;
  kind = conditional;
  is_back_edge = false;
}

abbrev line_function : FunctionAnalysis
line_function = record { info = small_function; branches = branch_of_line ∷ []; loops = [] }

abbrev one_line : List LineRange
one_line = record { start = 0x1000; end = 0x1006 } ∷ []

abbrev line_stops : List StepBreakpoint
line_stops = stops_of no_staging (λ a. true) by_line one_line line_function

stops_of-IsExit_example :
    AreStops no_staging (λ a. true) line_stops
    × All
        (λ bp.
          IsExit by_line one_line line_function bp.original_address bp.step_kind
          × (bp.has_source_info ≡ true))
        line_stops
    × ((a : ℕ) (k : StepBreakpointKind)
        → IsExit by_line one_line line_function a k
        → has_stop a line_stops ≡ true)
stops_of-IsExit_example = stops_of-IsExit no_staging (λ a. true) by_line one_line line_function

abbrev no_displaced : ℕ → ℕ → List ℕ
no_displaced address size = []

fallthrough_predecessor-some_example :
    (address : ℕ) × (fallthrough_predecessor small_decode read_small no_displaced no_staging
        (line_function ∷ [])
        0x1003
      ≡ some address)
    × ((address ≡ 0)
        ⊎ FallsInto small_decode small_decode-IsDecoder read_small no_displaced no_staging
            (line_function ∷ [])
            0x1003
            address)
    × ((other : ℕ)
        → FallsInto small_decode small_decode-IsDecoder read_small no_displaced no_staging
            (line_function ∷ [])
            0x1003
            other
        → other ≡ address)
fallthrough_predecessor-some_example =
    fallthrough_predecessor-some small_decode small_decode-IsDecoder read_small no_displaced
      no_staging (line_function ∷ []) 0x1003

-- Thread 2 comes to the address first, then thread 1 with its stack above.
abbrev two_threads : List StepEvent
two_threads = breakpoint 2 0x1003 50 ∷ other_event 1 ∷ breakpoint 1 0x1003 120 ∷ []

abbrev no_breakpoints : Manager (ℕ → ℕ)
no_breakpoints = record {
  address_to_bp = [];
  permanent_bp_to_trampoline = [];
  user_breakpoints = [];
  process = λ a. 0x90;
}

run_to_address-IsEnded_example :
    IsEnded 0x1003 1 100 false two_threads true
      (run_to_address flat (λ a. a) no_breakpoints 0x1003 1 100 false two_threads).1
unfolding run_to_address run_loop
run_to_address-IsEnded_example =
    run_to_address-IsEnded flat (λ a. a) no_breakpoints 0x1003 1 100 false two_threads true refl
