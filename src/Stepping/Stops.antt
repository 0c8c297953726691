-- ===== src/Stepping/Stops.antt =====
-- `get_breakpoints_for_step` of cpp_breakpoint_plugin.cpp: where a thread has to stop that goes on to the
-- next line of the source.
pub mod Ways
pub mod Exits
pub mod Kinds
use chronoporia.Base.{
  ℕ, Bool, true, false, ◌&&◌, not, Option, none, some, List, [], ◌∷◌, ◌++◌, if◌then◌else◌, ◌==◌,
  leb, ltb, length,
}
use chronoporia.Instrument.{
  BranchKind, conditional, unconditional_jmp, call_branch, return_branch, indirect_jump,
  indirect_call, BranchSite, FunctionAnalysis, wrap_sub,
}
use chronoporia.Instrument.Block.{
  Staging, get_true_instruction_address, get_original_instruction_address,
}
use chronoporia.Stepping.{LineRange, StepAnalysis, address_in_line_ranges}
use chronoporia.Stepping.Predecessors.{function_analysis_containing_address, is_instrumented_leader}

pub data StepMode : Type 0 where
  by_line into : StepMode

pub data StepBreakpointKind : Type 0 where
  at_line at_call at_indirect_jump at_return : StepBreakpointKind

pub record StepBreakpoint : Type 0 where
  pub original_address : ℕ
  pub true_address : ℕ
  pub step_kind : StepBreakpointKind
  pub has_source_info : Bool

-- The counter at which an address was reached last, as `get_branch_target` gives it.
unfoldable pub get_branch_target : Staging → StepAnalysis → ℕ → ℕ → ℕ
get_branch_target s a true_address counter =
    if is_instrumented_leader a (get_original_instruction_address s true_address)
    then wrap_sub counter 1
    else counter

-- A stop at the address is there.
unfoldable pub has_stop : ℕ → List StepBreakpoint → Bool
has_stop address [] = false
has_stop address (bp ∷ stops) =
    if bp.original_address == address then true else has_stop address stops

unfoldable pub kind_falls_through : BranchKind → Bool
kind_falls_through unconditional_jmp = false
kind_falls_through indirect_jump = false
kind_falls_through return_branch = false
kind_falls_through _ = true

-- The first branch that ends where the range ends decides.
unfoldable pub falls_through : List BranchSite → ℕ → Bool
falls_through [] end = true
falls_through (b ∷ branches) end =
    if b.next_address == end then kind_falls_through b.kind else falls_through branches end

-- Where a branch of the line needs a stop, and of what kind.
unfoldable pub stop_of : StepMode → List LineRange → BranchSite → Option (ℕ × StepBreakpointKind)
stop_of mode ranges b = elim b.kind [
  | conditional ↦ if address_in_line_ranges ranges b.target then none else some (b.target, at_line)
  | unconditional_jmp ↦
      if address_in_line_ranges ranges b.target then none else some (b.target, at_line)
  | call_branch ↦ (elim mode [ by_line ↦ none | into ↦ some (b.address, at_call) ])
  | indirect_call ↦ (elim mode [ by_line ↦ none | into ↦ some (b.address, at_call) ])
  | indirect_jump ↦ some (b.address, at_indirect_jump)
  | return_branch ↦ some (b.address, at_return)
]

-- `has_source` tells whether the symbols know a line at an address.
module _ (s : Staging) (has_source : ℕ → Bool) where
  unfoldable pub add_breakpoint : ℕ → StepBreakpointKind → List StepBreakpoint → List StepBreakpoint
  add_breakpoint address kind stops =
      if has_stop address stops
      then stops
      else stops
        ++ record {
          original_address = address;
          true_address = (get_true_instruction_address s address).0;
          step_kind = kind;
          has_source_info = has_source address;
        }
          ∷ []

  abbrev pub add_stop : Option (ℕ × StepBreakpointKind) → List StepBreakpoint → List StepBreakpoint
  add_stop none stops = stops
  add_stop (some (address, kind)) stops = add_breakpoint address kind stops

  -- Step 1, the ends of the ranges.
  unfoldable pub add_range_ends :
      List BranchSite → List LineRange → List StepBreakpoint → List StepBreakpoint
  add_range_ends branches [] stops = stops
  add_range_ends branches (range ∷ ranges) stops = add_range_ends branches ranges (
      add_stop (if falls_through branches range.end then some (range.end, at_line) else none) stops)

  -- Step 2, the branches of the line.
  unfoldable pub add_branch_stops :
      StepMode → List LineRange → List BranchSite → List StepBreakpoint → List StepBreakpoint
  add_branch_stops mode ranges [] stops = stops
  add_branch_stops mode ranges (b ∷ branches) stops = add_branch_stops mode ranges branches (
      add_stop (if address_in_line_ranges ranges b.address then stop_of mode ranges b else none)
        stops)

  unfoldable pub stops_of : StepMode → List LineRange → FunctionAnalysis → List StepBreakpoint
  stops_of mode ranges fn =
      add_branch_stops mode ranges fn.branches (add_range_ends fn.branches ranges [])

  -- What is written to the caller's buffer, which holds `bp_size`, and the number that is returned.
  abbrev pub fill : ℕ → List StepBreakpoint → List StepBreakpoint × ℕ
  fill bp_size stops = (if ltb bp_size (length stops) then [] else stops, length stops)

  unfoldable pub get_breakpoints_for_step :
      (ℕ → List LineRange) → StepAnalysis → ℕ → StepMode → ℕ → List StepBreakpoint × ℕ
  get_breakpoints_for_step line_ranges a true_address mode bp_size =
      let address = get_original_instruction_address s true_address in
      elim (line_ranges address) [
        | [] ↦ ([], 0)
        | range ∷ ranges ↦ (elim (function_analysis_containing_address a.analysis address) [
          | none ↦ ([], 0)
          | some fn ↦ fill bp_size (stops_of mode (range ∷ ranges) fn)
        ])
      ]
