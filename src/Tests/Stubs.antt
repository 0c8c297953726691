-- ===== src/Tests/Stubs.antt =====
-- Blocks and stubs at a small decoder: `74` with the next byte is a conditional branch, any other byte
-- is a plain instruction.
use chronoporia.Base.{
  ℕ, zero, suc, ◌+◌, ◌^◌, ◌<◌, ◌≡◌, ◌≢◌, ◌⊎◌, refl, true, Option, none, some, List, [], ◌∷◌, ◌++◌,
  arith, if◌then◌else◌, ◌==◌, inl, All, mem, insert, lookup, contains,
}
use chronoporia.Shellcode.{bytes_of, write_at}
use chronoporia.Instrument.{
  wrap, cond_br, other_category, Operand, immediate, memory, Instruction, FunctionRange,
  FunctionAnalysis,
}
use chronoporia.Instrument.Analysis.{
  drop, analyze_function, analyze_module, scan_branches, branch_of, classify, resolve_rel,
  is_back_edge_of,
}
use chronoporia.Instrument.Analysis.Sites.{IsDecoder, IsSite, analyze_function-Chain}
use chronoporia.Instrument.Blocks.{
  discover_blocks, insert_leader, splits, next_leads, target_leads, add_leaders, blocks_of,
}
use chronoporia.Instrument.Blocks.Cover.{Chain, starts, is_leader}
use chronoporia.Instrument.Stub.{
  take, sign_extend, emit_rel_jmp, move_instruction, needs_fix, is_rip_relative, fix_displacement,
  new_displacement, fits_int32, number_of, emit_tls_increment, relocate_leader, emit_abs_jmp,
}
use chronoporia.Instrument.Stub.Jumps.{
  lands_at, number_at, emit_rel_jmp-lands_at, move_instruction-same_target,
}
use chronoporia.Instrument.Block.{
  Staging, create_instrumentation_region, scan_leader, emit_stub, finish_stub, with_patch, resize,
  note_stub, note_prologue, note_displaced, instrument_block, get_true_instruction_address,
  get_original_instruction_address,
}
use chronoporia.Instrument.Block.Finish.{IsUnchanged, IsStubbed}
use chronoporia.Instrument.Block.Outcome.{instrument_block-outcome}
use chronoporia.Instrument.Block.Scan.{IsLocal}
use chronoporia.Instrument.Driver.{
  Instrumented, tls_offset, instrument_blocks, instrument_functions, add_branch_instrumentation,
}
use chronoporia.Instrument.Driver.RoundTrip.{add_branch_instrumentation-round_trip}
use chronoporia.Instrument.Driver.Total.{add_branch_instrumentation-some}

abbrev plain : Instruction
plain = record {
  length_of = 1;
  category = other_category;
  operands = [];
  disp_size = 0;
  disp_offset = 0;
}

abbrev jcc : Instruction
jcc = record {
  length_of = 2;
  category = cond_br;
  operands = immediate true ∷ [];
  disp_size = 0;
  disp_offset = 0;
}

abbrev pub small_decode : List ℕ → Option Instruction
small_decode [] = none
small_decode (b ∷ []) = if b == 0x74 then none else some plain
small_decode (b ∷ d ∷ bytes) = if b == 0x74 then some jcc else some plain

pub small_decode-IsDecoder : IsDecoder small_decode
small_decode-IsDecoder [] instr e = ground (arith, e)
small_decode-IsDecoder (b ∷ []) instr e = ground (arith, e)
small_decode-IsDecoder (b ∷ d ∷ bytes) instr e = ground (arith, e)

small_decode-IsLocal : IsLocal small_decode
unfolding take
small_decode-IsLocal n [] instr e h = ground (arith, e)
small_decode-IsLocal zero bytes instr e h =
    absurd (omega (arith, h, small_decode-IsDecoder bytes instr e))
small_decode-IsLocal (suc zero) (b ∷ []) instr e h = e
small_decode-IsLocal (suc (suc n)) (b ∷ []) instr e h = e
small_decode-IsLocal (suc zero) (b ∷ d ∷ bytes) instr e h = ground (arith, e, h)
small_decode-IsLocal (suc (suc n)) (b ∷ d ∷ bytes) instr e h = e

-- Each branch of the example leads back to the function's start.
abbrev to_start : Instruction → Operand → ℕ → Option ℕ
to_start instr operand address = some 0x1000

abbrev pub small_function : FunctionRange
small_function = record { start = 0x1000; end = 0x100A }

abbrev small_bytes : List ℕ
small_bytes = 0x90 ∷ 0x90 ∷ 0x90 ∷ 0x90 ∷ 0x90 ∷ 0x90 ∷ 0x74 ∷ 0xF8 ∷ 0x90 ∷ 0x90 ∷ []

analyze_function-Chain_example :
    (analysis : FunctionAnalysis) × (analyze_function to_start small_decode small_function
        small_bytes
      ≡ some analysis)
    × All (IsSite small_function) analysis.branches
    × Chain 0x1000 (discover_blocks analysis) 0x100A
    × ((a : ℕ) → mem a (starts (discover_blocks analysis)) ≡ is_leader analysis a)
analyze_function-Chain_example =
    analyze_function-Chain to_start small_decode small_decode-IsDecoder small_function small_bytes
      (omega arith) refl (omega arith)

emit_rel_jmp-lands_at_example :
    ((emit_rel_jmp [] 0x1000 0x40000000 ≡ none)
      × ((r : ℕ) → r < 2 ^ 32 → lands_at 0x1000 r ≢ wrap 0x40000000))
    ⊎ ((r : ℕ) × (emit_rel_jmp [] 0x1000 0x40000000 ≡ some ([] ++ (0xE9 ∷ bytes_of 4 r)))
        × (r < 2 ^ 32)
        × (lands_at 0x1000 r ≡ wrap 0x40000000))
emit_rel_jmp-lands_at_example = emit_rel_jmp-lands_at [] 0x1000 0x40000000

-- `mov rax, [rip + 0x100]`.
abbrev rip_mov : Instruction
rip_mov = record {
  length_of = 7;
  category = other_category;
  operands = memory true ∷ [];
  disp_size = 32;
  disp_offset = 3;
}

abbrev rip_mov_bytes : List ℕ
rip_mov_bytes = 0x48 ∷ 0x8B ∷ 0x05 ∷ 0x00 ∷ 0x01 ∷ 0x00 ∷ 0x00 ∷ []

abbrev moved_bytes : List ℕ
moved_bytes = 0x50 ∷ 0x48 ∷ 0x8B ∷ 0x05 ∷ 0xFF ∷ 0xF0 ∷ 0xFF ∷ 0xFF ∷ []

move_instruction-same_target_example :
    wrap (wrap (0x2000 + 1) + sign_extend (number_at (1 + 3) moved_bytes))
    ≡ wrap (0x1000 + sign_extend (number_at 3 rip_mov_bytes))
unfolding needs_fix move_instruction is_rip_relative fix_displacement new_displacement fits_int32
    sign_extend number_of take drop write_at bytes_of
move_instruction-same_target_example =
    move_instruction-same_target rip_mov rip_mov_bytes (0x50 ∷ []) moved_bytes 0x1000 0x2000 refl
      (omega arith) (omega arith) refl

abbrev pub no_staging : Staging
no_staging = record {
  tls_counter_offset = 0x1480;
  tls_target_offset = 0x1488;
  region_base = 0x3000;
  code = [];
  patches = [];
  instruction_remap = [];
  instruction_address_to_original = [];
  prologue_rsp_fix_instructions = [];
  skipped_address_relocation = [];
}

abbrev pub read_small : ℕ → ℕ → Option (List ℕ)
read_small address size = some (take size small_bytes)

abbrev with_default : {A : Type 0} → A → Option A → A
with_default d none = d
with_default d (some a) = a

-- The example's first block.
abbrev one_block : Option (Staging × ℕ)
one_block = instrument_block small_decode read_small no_staging 0x1000 0x1006

abbrev one_stub : Staging × ℕ
one_stub = with_default (no_staging, 0) one_block

instrument_block-outcome_example :
    IsUnchanged no_staging 0x1000 one_stub ⊎ IsStubbed no_staging 0x1000 one_stub
unfolding instrument_block scan_leader emit_stub emit_tls_increment relocate_leader move_instruction
    needs_fix is_rip_relative finish_stub emit_abs_jmp emit_rel_jmp fits_int32 with_patch resize
    note_stub note_prologue note_displaced take drop bytes_of insert lookup contains
instrument_block-outcome_example =
    instrument_block-outcome small_decode small_decode-IsDecoder read_small no_staging 0x1000 0x1006
      one_stub refl

-- The whole example, with a region at 0x3000.
abbrev all_stubs : Option (Staging × Option Instrumented)
all_stubs =
    add_branch_instrumentation to_start small_decode read_small (λ base. small_function ∷ []) true
      0x1480 (λ base size. 0x3000) no_staging 0x1000 0 1

abbrev staged : Staging × Option Instrumented
staged = with_default (no_staging, none) all_stubs

add_branch_instrumentation-some_example :
    (out : Staging × Option Instrumented) × (all_stubs ≡ some out)
add_branch_instrumentation-some_example =
    add_branch_instrumentation-some to_start small_decode small_decode-IsDecoder
      small_decode-IsLocal read_small (λ base. small_function ∷ []) true 0x1480
      (λ base size. 0x3000) no_staging 0x1000 0 1

add_branch_instrumentation-round_trip_example :
    get_original_instruction_address staged.0 (get_true_instruction_address staged.0 0x1003).0
    ≡ 0x1003
unfolding add_branch_instrumentation tls_offset create_instrumentation_region analyze_module
    analyze_function scan_branches branch_of classify resolve_rel is_back_edge_of
    instrument_functions instrument_blocks discover_blocks insert_leader splits next_leads
    target_leads add_leaders blocks_of instrument_block scan_leader emit_stub emit_tls_increment
    relocate_leader move_instruction needs_fix is_rip_relative finish_stub emit_abs_jmp emit_rel_jmp
    fits_int32 with_patch resize note_stub note_prologue note_displaced take drop bytes_of insert
    lookup contains
add_branch_instrumentation-round_trip_example =
    add_branch_instrumentation-round_trip to_start small_decode small_decode-IsDecoder read_small
      (λ base. small_function ∷ []) true 0x1480 (λ base size. 0x3000) no_staging 0x1000 0 1 0x1003
      staged.0 staged.1 refl refl refl (omega arith) (inl (omega arith))
