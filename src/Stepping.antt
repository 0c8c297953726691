-- ===== src/Stepping.antt =====
-- Where a thread stops when it steps, forward or back: predecessor_analysis.cpp and
-- get_breakpoints_for_step of cpp_breakpoint_plugin.cpp (src/plugins/cpp), and the loops of
-- src/cli/debugger/commands/step_command.cpp. The lines of the source come from the debug symbols; they
-- are a parameter.
pub mod Predecessors
pub mod Lines
pub mod Stops
pub mod Loops
pub mod Modes
use chronoporia.Base.{ℕ, Bool, true, false, ◌&&◌, List, [], ◌∷◌, leb, ltb, if◌then◌else◌}
use chronoporia.Instrument.{FunctionAnalysis}

-- `[start, end)`.
pub record LineRange : Type 0 where
  pub start : ℕ
  pub end : ℕ

pub data ReverseStepMode : Type 0 where
  by_instruction by_line by_into : ReverseStepMode

pub record PotentialPredecessor : Type 0 where
  pub true_address : ℕ
  pub branch_counter : ℕ
  pub is_block_leader : Bool

-- `g_analysis` and `g_instrumented_leaders`, the leaders in order.
pub record StepAnalysis : Type 0 where
  pub analysis : List FunctionAnalysis
  pub instrumented_leaders : List ℕ

abbrev pub in_range : LineRange → ℕ → Bool
in_range range address = leb range.start address && ltb address range.end

unfoldable pub address_in_line_ranges : List LineRange → ℕ → Bool
address_in_line_ranges [] address = false
address_in_line_ranges (range ∷ ranges) address =
    if in_range range address then true else address_in_line_ranges ranges address
