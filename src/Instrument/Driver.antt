-- ===== src/Instrument/Driver.antt =====
-- `add_branch_instrumentation` of src/plugins/cpp/cpp_breakpoint_plugin.cpp, and the end of
-- branch_instrumentation.cpp, where the staged code is written.
pub mod RoundTrip
pub mod Total
use chronoporia.Base.{
  ℕ, zero, suc, ◌+◌, ◌*◌, ◌%◌, ◌^◌, Bool, true, false, Option, none, some, List, [], ◌∷◌, ◌++◌,
  if◌then◌else◌, ltb, ◌==◌, length, ◌>>=◌,
}
use chronoporia.Instrument.{Instruction, Operand, FunctionRange, FunctionAnalysis, BasicBlock}
use chronoporia.Instrument.Analysis.{analyze_module}
use chronoporia.Instrument.Blocks.{insert_leader, discover_blocks}
use chronoporia.Instrument.Block.{Staging, create_instrumentation_region, instrument_block}

-- The slot of the thread block that an index stands for; `tls_slots` is where the slots start.
unfoldable pub tls_offset : ℕ → ℕ → Option ℕ
tls_offset tls_slots index = if ltb index 64 then some ((tls_slots + 8 * index) % 2 ^ 32) else none

abbrev pub with_leader : ℕ → ℕ → List ℕ → List ℕ
with_leader stub start leaders = if stub == 0 then leaders else insert_leader start leaders

module _ (decode : List ℕ → Option Instruction) (read : ℕ → ℕ → Option (List ℕ)) where
  -- The loop over the blocks of a function; `none` as in `instrument_block`.
  unfoldable pub instrument_blocks : List BasicBlock → Staging × List ℕ → Option (Staging × List ℕ)
  instrument_blocks [] (s, leaders) = some (s, leaders)
  instrument_blocks (b ∷ blocks) (s, leaders) =
      instrument_block decode read s b.start b.end >>= λ out.
      instrument_blocks blocks (out.0, with_leader out.1 b.start leaders)

  -- The loop over the functions.
  unfoldable pub instrument_functions :
      List FunctionAnalysis → Staging × List ℕ → Option (Staging × List ℕ)
  instrument_functions [] state = some state
  instrument_functions (fn ∷ functions) state =
      instrument_blocks (discover_blocks fn) state >>= instrument_functions functions

-- What `commit_instrumentation_region` does to the process.
pub data RegionCall : Type 0 where
  write_memory : ℕ → List ℕ → RegionCall
  flush_cache : ℕ → ℕ → RegionCall
  make_writable : ℕ → ℕ → RegionCall
  restore_protection : ℕ → ℕ → RegionCall

unfoldable pub commit_patches : List (ℕ × List ℕ) → List RegionCall
commit_patches [] = []
commit_patches ((addr, bytes) ∷ patches) =
    make_writable addr (length bytes)
    ∷ write_memory addr bytes
    ∷ restore_protection addr (length bytes)
    ∷ flush_cache addr (length bytes)
    ∷ commit_patches patches

-- `written` tells whether the first write succeeds; the patches are written only behind it.
unfoldable pub commit_instrumentation_region : Bool → Staging → List RegionCall × ℕ
commit_instrumentation_region written s =
    if s.region_base == 0
    then ([], 0)
    else if written
    then (
      write_memory s.region_base s.code
          ∷ flush_cache s.region_base (length s.code)
          ∷ commit_patches s.patches,
      s.region_base,
    )
    else (write_memory s.region_base s.code ∷ [], 0)

-- What the analysis of steps is given: the functions and the leaders that have a stub.
abbrev pub Analyzed : Type 0
Analyzed = List FunctionAnalysis × List ℕ

-- With that, what is done to the process at last.
abbrev pub Instrumented : Type 0
Instrumented = Analyzed × List RegionCall

module _ (calc_absolute : Instruction → Operand → ℕ → Option ℕ)
    (decode : List ℕ → Option Instruction) (read : ℕ → ℕ → Option (List ℕ))
    (get_all_functions : ℕ → List FunctionRange) (written : Bool) where
  abbrev pub instrument_module : Staging → ℕ → Option (Staging × Analyzed)
  instrument_module s image_base =
      analyze_module calc_absolute decode read (get_all_functions image_base) >>= λ functions.
      (instrument_functions decode read functions (s, []) >>= λ done.
      some (done.0, (functions, done.1)))

  -- With a region, all functions are instrumented, and what is staged is written; `written` tells
  -- whether the first write succeeds.
  abbrev pub with_region : ℕ → Staging × Bool → Option (Staging × Option Instrumented)
  with_region image_base (s, false) = some (s, none)
  with_region image_base (s, true) = instrument_module s image_base >>= λ done.
      some (done.0, some (done.1, (commit_instrumentation_region written done.0).0))

  abbrev pub with_slots :
      (ℕ → ℕ → ℕ) → Staging → ℕ → Option ℕ → Option ℕ → Option (Staging × Option Instrumented)
  with_slots alloc_near s image_base (some counter_offset) (some target_offset) =
      with_region image_base
        (create_instrumentation_region alloc_near s counter_offset target_offset image_base 0x10000)
  with_slots alloc_near s image_base _ _ = some (s, none)

  -- The staging and, where the result is true, the analysis with the calls; `none` where a loop has not ended or an
  -- assertion fails. The region has the size that is the default.
  unfoldable pub add_branch_instrumentation :
      ℕ → (ℕ → ℕ → ℕ) → Staging → ℕ → ℕ → ℕ → Option (Staging × Option Instrumented)
  add_branch_instrumentation tls_slots alloc_near s image_base counter_index target_index =
      with_slots alloc_near s image_base (tls_offset tls_slots counter_index)
        (tls_offset tls_slots target_index)
