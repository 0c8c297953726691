-- ===== src/Stepping/Lines.antt =====
-- Going back by lines and into calls: the second half of predecessor_analysis.cpp.
use chronoporia.Base.{
  ℕ, Bool, true, false, ◌&&◌, ◌||◌, Option, none, some, List, [], ◌∷◌, ◌++◌, map, if◌then◌else◌,
  ◌==◌, leb, ltb, ◌>>=◌,
}
use chronoporia.Instrument.{
  Instruction, BranchKind, call_branch, return_branch, BranchSite, FunctionAnalysis,
}
use chronoporia.Instrument.Block.{
  Staging, get_true_instruction_address, get_original_instruction_address,
}
use chronoporia.Stepping.{
  LineRange, ReverseStepMode, by_instruction, by_line, by_into, PotentialPredecessor, StepAnalysis,
  in_range, address_in_line_ranges,
}
use chronoporia.Stepping.Predecessors.{
  function_analysis_containing_address, branch_sources_targeting, fallthrough_predecessor,
  predecessor, counter_before, get_instruction_predecessors_of_address,
}

-- Whether some leader lies in the range.
unfoldable pub has_leader : LineRange → List ℕ → Bool
has_leader range [] = false
has_leader range (leader ∷ leaders) =
    if in_range range leader then true else has_leader range leaders

-- The loop over the ranges of the line. The start of the range replaces a leader that was found as the
-- start of the line.
unfoldable pub line_start_of : List LineRange → ℕ → List ℕ → Bool × ℕ → Bool × ℕ
line_start_of [] address leaders found = found
line_start_of (range ∷ ranges) address leaders (is_leader, start) =
    line_start_of ranges address leaders (
      if in_range range address
      then (is_leader || has_leader range leaders, range.start)
      else (is_leader, start))

abbrev pub is_call : BranchKind → Bool
is_call call_branch = true
is_call _ = false

abbrev pub is_return : BranchKind → Bool
is_return return_branch = true
is_return _ = false

-- `predecessor_branches`: the calls of the line.
unfoldable pub calls_of : List LineRange → List BranchSite → List BranchSite
calls_of ranges [] = []
calls_of ranges (b ∷ branches) =
    let rest = calls_of ranges branches in
    if address_in_line_ranges ranges b.address && is_call b.kind then b ∷ rest else rest

-- Sorted by address, the last first.
unfoldable pub insert_branch : BranchSite → List BranchSite → List BranchSite
insert_branch b [] = b ∷ []
insert_branch b (c ∷ branches) =
    let rest = insert_branch b branches in
    if ltb c.address b.address then b ∷ c ∷ branches else c ∷ rest

unfoldable pub sort_branches : List BranchSite → List BranchSite
sort_branches [] = []
sort_branches (b ∷ branches) = insert_branch b (sort_branches branches)

abbrev pub or_next : ℕ → Option ℕ → Option ℕ
or_next address next = if address == 0 then next else some address

abbrev pub into_call : PotentialPredecessor → Option ℕ → PotentialPredecessor
into_call p none = p
into_call p (some address) = record {
  true_address = address;
  branch_counter = p.branch_counter;
  is_block_leader = false;
}

module _ (s : Staging) (line_ranges : ℕ → List LineRange) where
  -- The true addresses of the starts of the ranges of a line.
  unfoldable pub line_starts : ℕ → List ℕ
  line_starts address =
      map (λ range. (get_true_instruction_address s range.start).0) (line_ranges address)

  unfoldable pub lines_of_branches : List ℕ → List ℕ
  lines_of_branches [] = []
  lines_of_branches (br ∷ branches) = line_starts br ++ lines_of_branches branches

  -- The inner loop: the start of the last range that holds the return.
  unfoldable pub return_line : List LineRange → ℕ → ℕ → ℕ
  return_line [] address found = found
  return_line (range ∷ ranges) address found =
      return_line ranges address
        (if in_range range address then (get_true_instruction_address s range.start).0 else found)

  -- The loop over the branches of the called function.
  unfoldable pub last_return : List BranchSite → ℕ → ℕ
  last_return [] found = found
  last_return (b ∷ branches) found =
      last_return branches
        (if is_return b.kind then return_line (line_ranges b.address) b.address found else found)

  -- The loop over the calls: where the first call that can be stepped into returns from.
  unfoldable pub call_site : List FunctionAnalysis → ℕ → List BranchSite → Option ℕ
  call_site functions original_address [] = none
  call_site functions original_address (b ∷ branches) =
      let next = call_site functions original_address branches in
      if leb original_address b.address
      then next
      else elim (function_analysis_containing_address functions b.target) [
        | none ↦ next
        | some fn ↦ or_next (last_return fn.branches 0) next
      ]

  -- One predecessor by lines: the call that it makes last, if there is one that can be stepped into.
  unfoldable pub into_predecessor :
      List FunctionAnalysis → FunctionAnalysis → ℕ → PotentialPredecessor → PotentialPredecessor
  into_predecessor functions fn original_address p =
      let ranges = line_ranges (get_original_instruction_address s p.true_address) in
      into_call p
        (call_site functions original_address (sort_branches (calls_of ranges fn.branches)))

  module _ (decode : List ℕ → Option Instruction) (read : ℕ → ℕ → Option (List ℕ))
      (read_displaced : ℕ → ℕ → List ℕ) (a : StepAnalysis) where
    unfoldable pub get_line_predecessors_of_address : ℕ → ℕ → Option (List PotentialPredecessor)
    get_line_predecessors_of_address original_address counter = do
      let (is_leader, start) =
          line_start_of (line_ranges original_address) original_address a.instrumented_leaders
            (false, 0)
      let at = predecessor (counter_before is_leader counter) is_leader
      let branches = lines_of_branches (branch_sources_targeting a.analysis start)
      address ← fallthrough_predecessor decode read read_displaced s a.analysis start
      some (
          (if is_leader then map at branches else [])
          ++ (if address == 0 then [] else map at (line_starts address)))

    unfoldable pub get_into_predecessors_of_address : ℕ → ℕ → Option (List PotentialPredecessor)
    get_into_predecessors_of_address original_address counter = do
      lines ← get_line_predecessors_of_address original_address counter
      elim (function_analysis_containing_address a.analysis original_address) [
        | none ↦ some lines
        | some fn ↦ some (map (into_predecessor a.analysis fn original_address) lines)
      ]

    unfoldable pub get_predecessors_of_address :
        ℕ → ℕ → ReverseStepMode → Option (List PotentialPredecessor)
    get_predecessors_of_address current_address counter by_instruction =
        get_instruction_predecessors_of_address decode read read_displaced s a
          (get_original_instruction_address s current_address) counter
    get_predecessors_of_address current_address counter by_line =
        get_line_predecessors_of_address (get_original_instruction_address s current_address)
          counter
    get_predecessors_of_address current_address counter by_into =
        get_into_predecessors_of_address (get_original_instruction_address s current_address)
          counter
