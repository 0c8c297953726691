-- ===== src/Instrument/Analysis/Sites.antt =====
-- The scan of a function's instructions ends, and what it finds lies inside the function.
use chronoporia.Base.{
  ℕ, zero, suc, ◌+◌, ◌^◌, ◌≤◌, ◌<◌, ◌≡◌, refl, ap, true, Option, none, some, Option-cases, List, [],
  ◌∷◌, ◌++◌, arith, length, All, All-append, ◌>>=◌, inl, inr, mem,
}
use chronoporia.Instrument.{
  wrap, Instruction, Operand, BranchKind, BranchSite, FunctionRange, FunctionAnalysis,
}
use chronoporia.Instrument.Analysis.{
  drop, classify, is_back_edge_of, branch_site, branch_of, loops_of, scan_branches,
  analyze_function,
}
use chronoporia.Instrument.Blocks.{discover_blocks}
use chronoporia.Instrument.Blocks.Cover.{
  Chain, IsAfterStart, starts, is_leader, discover_blocks-Chain,
}

-- The decoder reads at least one byte, and no more than there are.
abbrev pub IsDecoder : (List ℕ → Option Instruction) → Type 0
IsDecoder decode =
    (bytes : List ℕ) (instr : Instruction)
    → decode bytes ≡ some instr
    → (0 < instr.length_of) × (instr.length_of ≤ length bytes)

-- A branch and the instruction behind it lie inside the function, and a branch that closes a loop has
-- its target before it, in the function.
abbrev pub IsSite : FunctionRange → BranchSite → Type 0
IsSite fn b =
    (fn.start ≤ b.address)
    × (b.address < b.next_address)
    × (b.next_address ≤ fn.end)
    × (b.is_back_edge ≡ true → (fn.start ≤ b.target) × (b.target < b.address))

pub length-drop :
    (n : ℕ) (bytes : List ℕ) → n ≤ length bytes → length (drop n bytes) + n ≡ length bytes
unfolding drop
length-drop zero bytes h = omega arith
length-drop (suc n) [] h = absurd (omega arith)
length-drop (suc n) (b ∷ bytes) h = omega (arith, length-drop n bytes (omega arith))

back_edge-inside :
    (fn : FunctionRange) (addr target : ℕ) (kind : BranchKind)
    → is_back_edge_of fn addr target kind ≡ true
    → (fn.start ≤ target) × (target < addr)
unfolding is_back_edge_of
back_edge-inside fn addr target kind e = ground arith

after_start :
    (fn : FunctionRange) (branches : List BranchSite)
    → All (IsSite fn) branches
    → All (IsAfterStart fn) branches
after_start fn [] h = tt
after_start fn (b ∷ branches) h = (omega (arith, h.0), after_start fn branches h.1)

module _ (calc_absolute : Instruction → Operand → ℕ → Option ℕ) where
  branch_of-IsSite :
      (fn : FunctionRange) (addr : ℕ) (instr : Instruction)
      → fn.start ≤ addr
      → 0 < instr.length_of
      → addr + instr.length_of ≤ fn.end
      → fn.end < 2 ^ 64
      → All (IsSite fn) (branch_of calc_absolute fn addr instr)
  unfolding branch_of
  branch_of-IsSite fn addr instr h positive fits bound =
      elim (classify calc_absolute instr addr)
        as (λ o.
          All (IsSite fn)
            (elim o [ none ↦ [] | some found ↦ branch_site fn addr instr found ∷ [] ])) [
              | none ↦ tt
              | some found ↦
                  ((h, omega arith, omega arith, back_edge-inside fn addr found.0 found.1), tt)
            ]

  module _ (decode : List ℕ → Option Instruction) (decoder : IsDecoder decode) where
    scan_branches-some :
        (fuel : ℕ) (fn : FunctionRange) (offset : ℕ) (bytes : List ℕ)
        → length bytes ≤ fuel
        → fn.start + offset + length bytes ≡ fn.end
        → fn.end < 2 ^ 64
        → (branches : List BranchSite) × (scan_branches calc_absolute decode fuel fn offset bytes
            ≡ some branches)
          × All (IsSite fn) branches
    unfolding scan_branches
    scan_branches-some fuel fn offset [] h e bound = ([], refl, tt)
    scan_branches-some zero fn offset (b ∷ bytes) h e bound = absurd (omega arith)
    scan_branches-some (suc fuel) fn offset (b ∷ bytes) h e bound =
        elim (Option-cases (decode (b ∷ bytes))) [
          | inl undecoded ↦ ([], rw (undecoded, scan_branches) refl, tt)
          | inr (instr, decoded) ↦
              let (positive, fits) = decoder (b ∷ bytes) instr decoded in
              let left = length-drop instr.length_of (b ∷ bytes) fits in
              let at = wrap (fn.start + offset) in
              let (rest, scanned, sites) =
                scan_branches-some fuel fn (offset + instr.length_of)
                  (drop instr.length_of (b ∷ bytes)) (omega arith) (omega arith) bound in
              (
                branch_of calc_absolute fn at instr ++ rest,
                rw (decoded, scanned, scan_branches) refl,
                All-append (IsSite fn) (branch_of calc_absolute fn at instr) rest
                    (branch_of-IsSite fn at instr (omega arith) positive (omega arith) bound) sites,
              )
        ]

    -- With a decoder that reads at least one byte and no more than there are, and the bytes of a
    -- function that is not empty, the scan ends; every branch it finds lies inside the function, and
    -- a branch that closes a loop has its target before it. The blocks of the result follow one
    -- another without gap or overlap from the start to the end of the function, none is empty, and an
    -- address starts a block exactly when it is a leader.
    pub analyze_function-Chain :
        (fn : FunctionRange) (bytes : List ℕ)
        → fn.start < fn.end
        → fn.start + length bytes ≡ fn.end
        → fn.end < 2 ^ 64
        → (analysis : FunctionAnalysis) × (analyze_function calc_absolute decode fn bytes
            ≡ some analysis)
          × All (IsSite fn) analysis.branches
          × Chain fn.start (discover_blocks analysis) fn.end
          × ((a : ℕ) → mem a (starts (discover_blocks analysis)) ≡ is_leader analysis a)
    unfolding analyze_function
    analyze_function-Chain fn bytes nonempty read bound =
        let (branches, scanned, sites) =
          scan_branches-some (length bytes) fn 0 bytes (omega arith) (omega (arith, read)) bound in
        let analysis = analysis_of branches in
        let (chain, led) =
          discover_blocks-Chain analysis nonempty (after_start fn branches sites) in
        (analysis, ap (λ o. o >>= λ found. some (analysis_of found)) scanned, sites, chain, led)
      where
        analysis_of : List BranchSite → FunctionAnalysis
        analysis_of branches = record { info = fn; branches = branches; loops = loops_of branches }
