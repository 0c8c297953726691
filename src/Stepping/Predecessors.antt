-- ===== src/Stepping/Predecessors.antt =====
-- The instructions from which a thread can have come to an address: the first half of
-- predecessor_analysis.cpp.
pub mod Sweep
pub mod Fallthrough
use chronoporia.Base.{
  ℕ, zero, suc, ◌+◌, Bool, true, false, ◌&&◌, not, Option, none, some, List, [], ◌∷◌, ◌++◌, map,
  if◌then◌else◌, ◌==◌, leb, ltb, length, mem, ◌>>=◌,
}
use chronoporia.Shellcode.{write_at}
use chronoporia.Instrument.{
  wrap, wrap_sub, Category, cond_br, uncond_br, call, ret, other_category, Instruction, BranchSite,
  FunctionRange, FunctionAnalysis,
}
use chronoporia.Instrument.Analysis.{drop}
use chronoporia.Instrument.Block.{Staging, get_true_instruction_address}
use chronoporia.Stepping.{PotentialPredecessor, StepAnalysis}

unfoldable pub function_analysis_containing_address :
    List FunctionAnalysis → ℕ → Option FunctionAnalysis
function_analysis_containing_address [] address = none
function_analysis_containing_address (fn ∷ functions) address =
    if leb fn.info.start address && ltb address fn.info.end
    then some fn
    else function_analysis_containing_address functions address

unfoldable pub is_instrumented_leader : StepAnalysis → ℕ → Bool
is_instrumented_leader a rip = mem rip a.instrumented_leaders

unfoldable pub branches_targeting : List BranchSite → ℕ → List ℕ
branches_targeting [] rip = []
branches_targeting (b ∷ branches) rip =
    let rest = branches_targeting branches rip in if b.target == rip then b.address ∷ rest else rest

unfoldable pub branch_sources_targeting : List FunctionAnalysis → ℕ → List ℕ
branch_sources_targeting [] rip = []
branch_sources_targeting (fn ∷ functions) rip =
    branches_targeting fn.branches rip ++ branch_sources_targeting functions rip

-- How the loop ends: at the anchor or the function's end, with the instruction before; at bytes that do
-- not decode; or not within its fuel.
pub data Walked : Type 0 where
  reached : Option (ℕ × Instruction) → Walked
  desync : Walked
  not_ended : Walked

abbrev pub continues : Category → Bool
continues uncond_br = false
continues ret = false
continues call = false
continues _ = true

-- The instruction before the anchor, if it ends there and goes on into it; address 0 otherwise.
unfoldable pub last_instruction : ℕ → Walked → Option ℕ
last_instruction rip not_ended = none
last_instruction rip desync = some 0
last_instruction rip (reached none) = some 0
last_instruction rip (reached (some (addr, instr))) =
    some (if wrap (addr + instr.length_of) == rip && continues instr.category then addr else 0)

abbrev pub predecessor : ℕ → Bool → ℕ → PotentialPredecessor
predecessor counter is_leader address = record {
  true_address = address;
  branch_counter = counter;
  is_block_leader = is_leader;
}

-- One less at a leader, as a `uint64_t`.
abbrev pub counter_before : Bool → ℕ → ℕ
counter_before is_leader counter = if is_leader then wrap_sub counter 1 else counter

module _ (decode : List ℕ → Option Instruction) (read : ℕ → ℕ → Option (List ℕ))
    (read_displaced : ℕ → ℕ → List ℕ) (s : Staging) where
  -- The bytes from an address on; where the instruction was displaced, its own bytes are put back.
  abbrev pub original_bytes : ℕ → List ℕ → List ℕ
  original_bytes addr bytes =
      let (true_address, size) = get_true_instruction_address s addr in
      if true_address == addr then bytes else write_at 0 (read_displaced true_address size) bytes

  unfoldable pub walk_function :
      ℕ → FunctionRange → ℕ → ℕ → List ℕ → Option (ℕ × Instruction) → Walked
  walk_function fuel fn rip off [] prev = reached prev
  walk_function zero fn rip off (b ∷ bytes) prev = not_ended
  walk_function (suc fuel) fn rip off (b ∷ bytes) prev =
      let addr = wrap (fn.start + off) in
      let fixed = original_bytes addr (b ∷ bytes) in
      elim (addr == rip) [
        | true ↦ reached prev
        | false ↦ (elim (decode fixed) [
          | none ↦ desync
          | some instr ↦
              walk_function fuel fn rip (off + instr.length_of) (drop instr.length_of fixed)
                (some (addr, instr))
        ])
      ]

  -- `none` where the loop has not ended.
  unfoldable pub fallthrough_predecessor : List FunctionAnalysis → ℕ → Option ℕ
  fallthrough_predecessor functions rip =
      elim (function_analysis_containing_address functions rip) [
        | none ↦ some 0
        | some fn ↦
            if rip == fn.info.start
            then some 0
            else elim (read fn.info.start (wrap_sub fn.info.end fn.info.start)) [
              | none ↦ some 0
              | some bytes ↦
                  last_instruction rip (walk_function (length bytes) fn.info rip 0 bytes none)
            ]
      ]

  abbrev pub fallthrough_at : ℕ → Bool → ℕ → List PotentialPredecessor
  fallthrough_at counter is_leader address =
      if address == 0
      then []
      else predecessor counter is_leader (get_true_instruction_address s address).0 ∷ []

  unfoldable pub get_instruction_predecessors_of_address :
      StepAnalysis → ℕ → ℕ → Option (List PotentialPredecessor)
  get_instruction_predecessors_of_address a original_address counter = do
    let is_leader = is_instrumented_leader a original_address
    let before = counter_before is_leader counter
    let branches = branch_sources_targeting a.analysis original_address
    address ← fallthrough_predecessor a.analysis original_address
    some (
        (if is_leader then map (predecessor before is_leader) branches else [])
        ++ fallthrough_at before is_leader address)
