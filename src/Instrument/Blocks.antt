-- ===== src/Instrument/Blocks.antt =====
-- `discover_blocks` of branch_instrumentation.cpp.
pub mod Cover
use chronoporia.Base.{ℕ, Bool, true, false, ◌&&◌, List, [], ◌∷◌, if◌then◌else◌, ltb, leb, ◌==◌}
use chronoporia.Instrument.{
  BranchKind, call_branch, return_branch, indirect_call, BranchSite, FunctionRange,
  FunctionAnalysis, BasicBlock,
}

-- `std::set::insert`, on the elements in order.
unfoldable pub insert_leader : ℕ → List ℕ → List ℕ
insert_leader a [] = a ∷ []
insert_leader a (x ∷ xs) =
    let rest = insert_leader a xs in
    if ltb a x then a ∷ x ∷ xs else if a == x then x ∷ xs else x ∷ rest

unfoldable pub splits : BranchKind → Bool
splits call_branch = false
splits indirect_call = false
splits return_branch = false
splits _ = true

-- The condition of the first insertion of the loop, and that of the second.
unfoldable pub next_leads : FunctionRange → BranchSite → Bool
next_leads info b = splits b.kind && ltb b.next_address info.end

unfoldable pub target_leads : FunctionRange → BranchSite → Bool
target_leads info b = leb info.start b.target && ltb b.target info.end

abbrev pub insert_if : Bool → ℕ → List ℕ → List ℕ
insert_if true a leaders = insert_leader a leaders
insert_if false a leaders = leaders

-- The loop over the branches.
unfoldable pub add_leaders : FunctionRange → List BranchSite → List ℕ → List ℕ
add_leaders info [] leaders = leaders
add_leaders info (b ∷ branches) leaders = add_leaders info branches (
    insert_if (target_leads info b) b.target (insert_if (next_leads info b) b.next_address leaders))

-- Each block ends where the next one starts, the last where the function ends.
unfoldable pub blocks_of : List ℕ → ℕ → List BasicBlock
blocks_of [] end = []
blocks_of (a ∷ []) end = record { start = a; end = end } ∷ []
blocks_of (a ∷ b ∷ sorted) end = record { start = a; end = b } ∷ blocks_of (b ∷ sorted) end

unfoldable pub discover_blocks : FunctionAnalysis → List BasicBlock
discover_blocks fn =
    blocks_of (add_leaders fn.info fn.branches (insert_leader fn.info.start [])) fn.info.end
