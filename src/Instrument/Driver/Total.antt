-- ===== src/Instrument/Driver/Total.antt =====
-- The instrumentation of a module comes to an end.
use chronoporia.Base.{
  ℕ, zero, suc, ◌+◌, ◌≤◌, ◌≡◌, Bool, true, false, Option, none, some, List, [], ◌∷◌, ◌++◌, arith,
  length, inl, inr, Option-cases, ◌>>=◌,
}
use chronoporia.Instrument.{
  wrap, wrap_sub, Instruction, Operand, FunctionRange, FunctionAnalysis, BasicBlock,
}
use chronoporia.Instrument.Analysis.{
  drop, branch_of, loops_of, scan_branches, analyze_function, analyze_module,
}
use chronoporia.Instrument.Analysis.Sites.{IsDecoder, length-drop}
use chronoporia.Instrument.Blocks.{discover_blocks}
use chronoporia.Instrument.Block.{Staging, create_instrumentation_region, instrument_block}
use chronoporia.Instrument.Block.Scan.{IsLocal}
use chronoporia.Instrument.Block.Total.{IsSome, IsSome-some, instrument_block-IsSome}
use chronoporia.Instrument.Driver.{
  with_leader, instrument_blocks, instrument_functions, Instrumented, commit_instrumentation_region,
  instrument_module, with_region, with_slots, tls_offset, add_branch_instrumentation,
}

bind-IsSome :
    {A B : Type 0} (o : Option A) (f : A → Option B)
    → IsSome o
    → ((a : A) → IsSome (f a))
    → IsSome (o >>= f)
bind-IsSome none f h k = h
bind-IsSome (some a) f h k = k a

module _ (calc_absolute : Instruction → Operand → ℕ → Option ℕ)
    (decode : List ℕ → Option Instruction) (decoder : IsDecoder decode) where
  scan_branches-IsSome :
      (fuel : ℕ) (fn : FunctionRange) (offset : ℕ) (bytes : List ℕ)
      → length bytes ≤ fuel
      → IsSome (scan_branches calc_absolute decode fuel fn offset bytes)
  unfolding scan_branches
  scan_branches-IsSome fuel fn offset [] h = tt
  scan_branches-IsSome zero fn offset (b ∷ bytes) h = absurd (omega arith)
  scan_branches-IsSome (suc fuel) fn offset (b ∷ bytes) h =
      elim (Option-cases (decode (b ∷ bytes))) [
        | inl undecoded ↦ rw (undecoded, scan_branches) tt
        | inr (instr, decoded) ↦
            let (positive, fits) = decoder (b ∷ bytes) instr decoded in
            let left = length-drop instr.length_of (b ∷ bytes) fits in
            rw (decoded, scan_branches)
              (bind-IsSome
                (scan_branches calc_absolute decode fuel fn (offset + instr.length_of)
                  (drop instr.length_of (b ∷ bytes)))
                (λ rest. some (branch_of calc_absolute fn (wrap (fn.start + offset)) instr ++ rest))
                (scan_branches-IsSome fuel fn (offset + instr.length_of)
                  (drop instr.length_of (b ∷ bytes)) (omega (arith, h, left, positive)))
                (λ rest. tt))
      ]

  analyze_module-IsSome :
      (read : ℕ → ℕ → Option (List ℕ)) (functions : List FunctionRange)
      → IsSome (analyze_module calc_absolute decode read functions)
  unfolding analyze_module analyze_function
  analyze_module-IsSome read [] = tt
  analyze_module-IsSome read (fn ∷ functions) =
      elim (Option-cases (read fn.start (wrap_sub fn.end fn.start))) [
        | inl unread ↦ rw (unread, analyze_module) (analyze_module-IsSome read functions)
        | inr (bytes, was_read) ↦
            rw (was_read, analyze_module)
              (bind-IsSome (analyze_function calc_absolute decode fn bytes)
                (λ analysis. analyze_module calc_absolute decode read functions >>= λ rest.
                  some (analysis ∷ rest))
                (bind-IsSome (scan_branches calc_absolute decode (length bytes) fn 0 bytes)
                  (λ branches.
                    some (record { info = fn; branches = branches; loops = loops_of branches }))
                  (scan_branches-IsSome (length bytes) fn 0 bytes (omega arith)) (λ branches. tt))
                (λ analysis.
                  bind-IsSome (analyze_module calc_absolute decode read functions)
                    (λ rest. some (analysis ∷ rest)) (analyze_module-IsSome read functions)
                    (λ rest. tt)))
      ]

module _ (decode : List ℕ → Option Instruction) (decoder : IsDecoder decode)
    (local : IsLocal decode) (read : ℕ → ℕ → Option (List ℕ)) where
  instrument_blocks-IsSome :
      (blocks : List BasicBlock) (state : Staging × List ℕ)
      → IsSome (instrument_blocks decode read blocks state)
  unfolding instrument_blocks
  instrument_blocks-IsSome [] (s, leaders) = tt
  instrument_blocks-IsSome (b ∷ blocks) (s, leaders) =
      bind-IsSome (instrument_block decode read s b.start b.end)
        (λ out. instrument_blocks decode read blocks (out.0, with_leader out.1 b.start leaders))
        (instrument_block-IsSome decode decoder local read s b.start b.end)
        (λ out. instrument_blocks-IsSome blocks (out.0, with_leader out.1 b.start leaders))

  instrument_functions-IsSome :
      (functions : List FunctionAnalysis) (state : Staging × List ℕ)
      → IsSome (instrument_functions decode read functions state)
  unfolding instrument_functions
  instrument_functions-IsSome [] state = tt
  instrument_functions-IsSome (fn ∷ functions) state =
      bind-IsSome (instrument_blocks decode read (discover_blocks fn) state)
        (instrument_functions decode read functions)
        (instrument_blocks-IsSome (discover_blocks fn) state)
        (instrument_functions-IsSome functions)

module _ (calc_absolute : Instruction → Operand → ℕ → Option ℕ)
    (decode : List ℕ → Option Instruction) (decoder : IsDecoder decode) (local : IsLocal decode)
    (read : ℕ → ℕ → Option (List ℕ)) (get_all_functions : ℕ → List FunctionRange)
    (written : Bool) where
  with_region-IsSome :
      (image_base : ℕ) (s : Staging) (there : Bool)
      → IsSome
          (with_region calc_absolute decode read get_all_functions written image_base (s, there))
  with_region-IsSome image_base s false = tt
  with_region-IsSome image_base s true =
      bind-IsSome
        (instrument_module calc_absolute decode read get_all_functions written s image_base)
        (λ done. some (done.0, some (done.1, (commit_instrumentation_region written done.0).0)))
        (bind-IsSome (analyze_module calc_absolute decode read (get_all_functions image_base))
          (λ functions. instrument_functions decode read functions (s, []) >>= λ done.
            some (done.0, (functions, done.1)))
          (analyze_module-IsSome calc_absolute decode decoder read (get_all_functions image_base))
          (λ functions.
            bind-IsSome (instrument_functions decode read functions (s, []))
              (λ done. some (done.0, (functions, done.1)))
              (instrument_functions-IsSome decode decoder local read functions (s, []))
              (λ done. tt)))
        (λ done. tt)

  with_slots-IsSome :
      (alloc_near : ℕ → ℕ → ℕ) (s : Staging) (image_base : ℕ) (counter target : Option ℕ)
      → IsSome (
          with_slots calc_absolute decode read get_all_functions written alloc_near s image_base
            counter target)
  with_slots-IsSome alloc_near s image_base (some counter) (some target) =
      let (created, there) =
        create_instrumentation_region alloc_near s counter target image_base 0x10000 in
      with_region-IsSome image_base created there
  with_slots-IsSome alloc_near s image_base none target = tt
  with_slots-IsSome alloc_near s image_base (some counter) none = tt

  -- With a decoder that reads at least one byte, no more than there are, and looks at no byte behind
  -- the instruction, the instrumentation of a module returns: all loops end, and the assertion on the
  -- moved instructions holds for every block.
  pub add_branch_instrumentation-some :
      (tls_slots : ℕ) (alloc_near : ℕ → ℕ → ℕ) (s : Staging)
      (image_base counter_index target_index : ℕ)
      → (out : Staging × Option Instrumented) × (add_branch_instrumentation calc_absolute decode
            read get_all_functions written tls_slots alloc_near s image_base counter_index
            target_index
          ≡ some out)
  unfolding add_branch_instrumentation
  add_branch_instrumentation-some tls_slots alloc_near s image_base counter_index target_index =
      IsSome-some
        (with_slots calc_absolute decode read get_all_functions written alloc_near s image_base
          (tls_offset tls_slots counter_index) (tls_offset tls_slots target_index))
        (with_slots-IsSome alloc_near s image_base (tls_offset tls_slots counter_index)
          (tls_offset tls_slots target_index))
