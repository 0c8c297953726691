-- ===== src/Instrument/Analysis.antt =====
-- `classify` and `analyze_module` of branch_instrumentation.cpp. `decode` is the decoder on the bytes
-- that are left, `calc_absolute` the library's address of a relative operand.
pub mod Sites
use chronoporia.Base.{
  ℕ, zero, suc, ◌+◌, Bool, true, false, ◌&&◌, ◌||◌, not, Option, none, some, List, [], ◌∷◌, map,
  if◌then◌else◌, ◌==◌, ltb, leb, length, ◌>>=◌, ◌++◌,
}
use chronoporia.Instrument.{
  wrap, wrap_sub, Category, cond_br, uncond_br, call, ret, other_category, Operand, immediate,
  Instruction, BranchKind, conditional, unconditional_jmp, call_branch, return_branch,
  indirect_jump, indirect_call, BranchSite, LoopInfo, FunctionRange, FunctionAnalysis,
}

-- The bytes from an offset on.
unfoldable pub drop : ℕ → List ℕ → List ℕ
drop zero bytes = bytes
drop (suc n) [] = []
drop (suc n) (b ∷ bytes) = drop n bytes

abbrev pub is_conditional : BranchKind → Bool
is_conditional conditional = true
is_conditional _ = false

abbrev pub is_unconditional_jmp : BranchKind → Bool
is_unconditional_jmp unconditional_jmp = true
is_unconditional_jmp _ = false

unfoldable pub is_back_edge_of : FunctionRange → ℕ → ℕ → BranchKind → Bool
is_back_edge_of fn addr target kind =
    not (target == 0)
    && leb fn.start target
    && ltb target addr
    && (is_conditional kind || is_unconditional_jmp kind)

abbrev pub branch_site : FunctionRange → ℕ → Instruction → ℕ × BranchKind → BranchSite
branch_site fn addr instr (target, kind) = record {
  address = addr;
  next_address = wrap (addr + instr.length_of);
  target = target;
  byte_length = instr.length_of;
  kind = kind;
  is_back_edge = is_back_edge_of fn addr target kind;
}

abbrev pub loops_of : List BranchSite → List LoopInfo
loops_of [] = []
loops_of (b ∷ branches) =
    let rest = loops_of branches in
    if b.is_back_edge then record { header = b.target; back_edge = b.address } ∷ rest else rest

-- The target, if there is one, and otherwise address 0 with the indirect kind.
abbrev pub resolved : BranchKind → BranchKind → Option ℕ → Option (ℕ × BranchKind)
resolved direct indirect none = some (0, indirect)
resolved direct indirect (some target) = some (target, direct)

module _ (calc_absolute : Instruction → Operand → ℕ → Option ℕ) where
  -- `resolve_rel`: the first relative operand whose address is known.
  unfoldable pub resolve_rel : Instruction → List Operand → ℕ → Option ℕ
  resolve_rel instr [] addr = none
  resolve_rel instr (immediate true ∷ ops) addr = elim (calc_absolute instr (immediate true) addr) [
    | none ↦ resolve_rel instr ops addr
    | some abs ↦ some abs
  ]
  resolve_rel instr (_ ∷ ops) addr = resolve_rel instr ops addr

  -- The target and kind that are written where the result is true. A conditional branch without a
  -- target gives false.
  unfoldable pub classify : Instruction → ℕ → Option (ℕ × BranchKind)
  classify instr addr =
      let rel = resolve_rel instr instr.operands addr in
      elim instr.category [
        | cond_br ↦ (elim rel [ none ↦ none | some target ↦ some (target, conditional) ])
        | uncond_br ↦ resolved unconditional_jmp indirect_jump rel
        | call ↦ resolved call_branch indirect_call rel
        | ret ↦ some (0, return_branch)
        | other_category ↦ none
      ]

  -- The branches of an instruction: itself, if it is one.
  unfoldable pub branch_of : FunctionRange → ℕ → Instruction → List BranchSite
  branch_of fn addr instr = elim (classify instr addr) [
    | none ↦ []
    | some found ↦ branch_site fn addr instr found ∷ []
  ]

  module _ (decode : List ℕ → Option Instruction) where
    -- The loop at an offset, on the bytes that are left; `none` when it has not ended.
    unfoldable pub scan_branches : ℕ → FunctionRange → ℕ → List ℕ → Option (List BranchSite)
    scan_branches fuel fn offset [] = some []
    scan_branches zero fn offset (b ∷ bytes) = none
    scan_branches (suc fuel) fn offset (b ∷ bytes) = elim (decode (b ∷ bytes)) [
      | none ↦ some []
      | some instr ↦ do
        rest ← scan_branches fuel fn (offset + instr.length_of) (drop instr.length_of (b ∷ bytes))
        some (branch_of fn (wrap (fn.start + offset)) instr ++ rest)
    ]

    -- One function, whose bytes were read; the loops are those of the branches that go back.
    unfoldable pub analyze_function : FunctionRange → List ℕ → Option FunctionAnalysis
    analyze_function fn bytes = do
      branches ← scan_branches (length bytes) fn 0 bytes
      some (record { info = fn; branches = branches; loops = loops_of branches })

    -- `read` gives as many bytes as asked for, or none. A function that is not read is passed over.
    unfoldable pub analyze_module :
        (ℕ → ℕ → Option (List ℕ)) → List FunctionRange → Option (List FunctionAnalysis)
    analyze_module read [] = some []
    analyze_module read (fn ∷ functions) = elim (read fn.start (wrap_sub fn.end fn.start)) [
      | none ↦ analyze_module read functions
      | some bytes ↦ do
        analysis ← analyze_function fn bytes
        rest ← analyze_module read functions
        some (analysis ∷ rest)
    ]
