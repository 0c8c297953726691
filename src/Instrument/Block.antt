-- ===== src/Instrument/Block.antt =====
-- The state of branch_instrumentation.cpp, and its operations: stubs are staged block by block, and
-- addresses are translated between the original code and the stubs.
pub mod Staged
pub mod Notes
pub mod Finish
pub mod Outcome
pub mod Scan
pub mod Total
use chronoporia.Base.{
  ℕ, zero, suc, ◌+◌, ◌-◌, ◌%◌, ◌^◌, Bool, true, false, ◌||◌, Option, none, some, List, [], ◌∷◌,
  ◌++◌, if◌then◌else◌, ltb, leb, ◌==◌, length, min, lookup, insert, contains, get_or, Search, found,
  nullptr, out_of_fuel,
}
use chronoporia.Instrument.{
  wrap, wrap_sub, Category, cond_br, uncond_br, call, ret, other_category, Instruction, BasicBlock,
}
use chronoporia.Instrument.Analysis.{drop}
use chronoporia.Instrument.Stub.{
  take, tls_instruction_offsets, emit_tls_increment, emit_abs_jmp, emit_rel_jmp, relocate_leader,
}

pub record Staging : Type 0 where
  pub tls_counter_offset : ℕ
  pub tls_target_offset : ℕ
  pub region_base : ℕ
  pub code : List ℕ
  pub patches : List (ℕ × List ℕ)
  pub instruction_remap : List (ℕ × (ℕ × ℕ))
  pub instruction_address_to_original : List (ℕ × ℕ)
  pub prologue_rsp_fix_instructions : List (ℕ × ℕ)
  pub skipped_address_relocation : List ℕ

-- With the region that was reserved near the module, or 0; and whether there is one.
unfoldable pub create_instrumentation_region :
    (ℕ → ℕ → ℕ) → Staging → ℕ → ℕ → ℕ → ℕ → Staging × Bool
create_instrumentation_region alloc_near s counter_offset target_offset image_base region_size =
    let base = alloc_near image_base region_size in
    (
      record s {
        tls_counter_offset = counter_offset;
        tls_target_offset = target_offset;
        region_base = base;
      },
      if base == 0 then false else true,
    )

-- How the search for five bytes to replace ends: `return 0` without a note, with the block noted as
-- skipped, or with the instructions to move and their length.
pub data Leader : Type 0 where
  too_small : Leader
  skipped : Leader
  displaced : List (ℕ × ℕ) → ℕ → Leader
  not_ended : Leader

abbrev pub is_transfer : Category → Bool
is_transfer other_category = false
is_transfer _ = true

abbrev pub with_instruction : ℕ × ℕ → Leader → Leader
with_instruction instr (displaced instrs patch_len) = displaced (instr ∷ instrs) patch_len
with_instruction instr other = other

-- The loop over `patch_len`; `bytes` are those of the buffer from there on.
unfoldable pub scan_leader : (List ℕ → Option Instruction) → ℕ → ℕ → ℕ → ℕ → List ℕ → Leader
scan_leader decode zero block_start block_end patch_len bytes =
    if leb 5 patch_len then displaced [] patch_len else not_ended
scan_leader decode (suc fuel) block_start block_end patch_len bytes = elim (leb 5 patch_len) [
  | true ↦ displaced [] patch_len
  | false ↦ (elim (leb block_end (wrap (block_start + patch_len))) [
    | true ↦ too_small
    | false ↦ (elim (decode bytes) [
      | none ↦ skipped
      | some instr ↦ (elim (is_transfer instr.category) [
        | true ↦ skipped
        | false ↦
            with_instruction (wrap (block_start + patch_len), instr.length_of)
              (scan_leader decode fuel block_start block_end (patch_len + instr.length_of)
                (drop instr.length_of bytes))
      ])
    ])
  ])
]

-- `resize(n, v)`.
unfoldable pub resize : ℕ → ℕ → List ℕ → List ℕ
resize zero v bytes = []
resize (suc n) v [] = v ∷ resize n v []
resize (suc n) v (b ∷ bytes) = b ∷ resize n v bytes

unfoldable pub skip : ℕ → Staging → Staging
skip block_start s = record s {
  skipped_address_relocation = s.skipped_address_relocation ++ block_start ∷ [];
}

-- `code_.resize(code_mark)`, and the block is noted as skipped.
unfoldable pub roll_back : ℕ → ℕ → Staging → Staging
roll_back code_mark block_start s = skip block_start (record s { code = take code_mark s.code })

abbrev pub note_original : ℕ → ℕ → Staging → Staging
note_original new_addr original s = record s {
  instruction_address_to_original = insert new_addr original s.instruction_address_to_original;
}

-- `insert` of a map, which keeps an entry that is there.
abbrev pub emplace : ℕ → ℕ → List (ℕ × ℕ) → List (ℕ × ℕ)
emplace k v m = if contains k m then m else insert k v m

abbrev pub note_rsp_fix : ℕ → ℕ → ℕ → Staging → Staging
note_rsp_fix offset new_addr bytes s = record s {
  prologue_rsp_fix_instructions =
      if leb 1 offset
      then emplace new_addr bytes s.prologue_rsp_fix_instructions
      else s.prologue_rsp_fix_instructions;
}

-- The loop over `tls_instruction_offsets_`.
unfoldable pub note_prologue : List (ℕ × ℕ) → ℕ → ℕ → Staging → Staging
note_prologue [] code_mark first s = s
note_prologue ((offset, bytes) ∷ offsets) code_mark first s =
    let new_addr = wrap (s.region_base + offset + code_mark) in
    note_prologue offsets code_mark first
      (note_rsp_fix offset new_addr bytes (note_original new_addr first s))

abbrev pub note_moved : ℕ → ℕ → ℕ → Staging → Staging
note_moved original instr_size new_addr s =
    note_original new_addr original
      (record s { instruction_remap = insert original (new_addr, instr_size) s.instruction_remap })

-- The loop over the moved instructions and the offsets they got; `none` where the assertion that
-- there are as many fails.
unfoldable pub note_displaced : List (ℕ × ℕ) → List ℕ → Staging → Option Staging
note_displaced [] [] s = some s
note_displaced ((original, instr_size) ∷ instrs) (offset ∷ offsets) s =
    note_displaced instrs offsets (note_moved original instr_size (wrap (s.region_base + offset)) s)
note_displaced _ _ s = none

-- The last note, at the jump back, and the stub's address.
abbrev pub with_jump : ℕ → ℕ → ℕ → Option Staging → Option (Staging × ℕ)
with_jump stub_addr new_addr back none = none
with_jump stub_addr new_addr back (some noted) = some (note_original new_addr back noted, stub_addr)

-- The notes of a stub that is complete. There is a first instruction, since five bytes are replaced.
unfoldable pub note_stub : ℕ → ℕ → ℕ → ℕ → List (ℕ × ℕ) → List ℕ → Staging → Option (Staging × ℕ)
note_stub block_start patch_len code_mark jmp_offset [] offsets s = none
note_stub block_start patch_len code_mark jmp_offset ((first, size) ∷ instrs) offsets s =
    with_jump (wrap (s.region_base + code_mark)) (wrap (s.region_base + jmp_offset))
      (wrap (block_start + patch_len))
      (note_displaced ((first, size) ∷ instrs) offsets
        (note_prologue tls_instruction_offsets code_mark first s))

-- The patch of the block is the jump to the stub, if it reaches.
unfoldable pub with_patch :
    ℕ → ℕ → ℕ → ℕ → List (ℕ × ℕ) → List ℕ → Staging → Option (List ℕ) → Option (Staging × ℕ)
with_patch block_start patch_len code_mark jmp_offset instrs offsets s none =
    some (roll_back code_mark block_start s, 0)
with_patch block_start patch_len code_mark jmp_offset instrs offsets s (some patch) =
    note_stub block_start patch_len code_mark jmp_offset instrs offsets
      (record s { patches = s.patches ++ (block_start, resize patch_len 0x90 patch) ∷ [] })

-- From the moved instructions on: the jump back, the patch of the block and the notes.
unfoldable pub finish_stub :
    ℕ → ℕ → ℕ → List (ℕ × ℕ) → Search (List ℕ) → Staging → Option (Staging × ℕ)
finish_stub block_start patch_len code_mark instrs out_of_fuel s = none
finish_stub block_start patch_len code_mark instrs nullptr s =
    some (roll_back code_mark block_start s, 0)
finish_stub block_start patch_len code_mark instrs (found offsets) s =
    with_patch block_start patch_len code_mark (length s.code) instrs offsets
      (record s { code = emit_abs_jmp s.code (wrap (block_start + patch_len)) })
      (emit_rel_jmp [] block_start (wrap (s.region_base + code_mark)))

-- The stub's code: the increment, then the moved instructions.
unfoldable pub emit_stub :
    (List ℕ → Option Instruction) → ℕ → List ℕ → Leader → Staging → Option (Staging × ℕ)
emit_stub decode block_start buf too_small s = some (s, 0)
emit_stub decode block_start buf skipped s = some (skip block_start s, 0)
emit_stub decode block_start buf not_ended s = none
emit_stub decode block_start buf (displaced instrs patch_len) s =
    let counted = emit_tls_increment s.code s.tls_counter_offset s.tls_target_offset in
    let (code, offsets) =
      relocate_leader decode patch_len counted (take patch_len buf) block_start s.region_base in
    finish_stub block_start patch_len (length s.code) instrs offsets (record s { code = code })

-- `none` where a loop has not ended or the assertion fails.
unfoldable pub instrument_block :
    (List ℕ → Option Instruction)
    → (ℕ → ℕ → Option (List ℕ))
    → Staging
    → ℕ
    → ℕ
    → Option (Staging × ℕ)
instrument_block decode read s block_start block_end =
    if s.region_base == 0
    then some (s, 0)
    else elim (read block_start (min 32 (wrap_sub block_end block_start))) [
      | none ↦ some (skip block_start s, 0)
      | some buf ↦
          emit_stub decode block_start buf (scan_leader decode 5 block_start block_end 0 buf) s
    ]

unfoldable pub get_true_instruction_address : Staging → ℕ → ℕ × ℕ
get_true_instruction_address s original_address =
    get_or original_address (original_address, 0) s.instruction_remap

unfoldable pub get_original_instruction_address : Staging → ℕ → ℕ
get_original_instruction_address s true_address =
    get_or true_address true_address s.instruction_address_to_original

unfoldable pub address_rsp_fix_bytes : Staging → ℕ → ℕ
address_rsp_fix_bytes s true_address = get_or true_address 0 s.prologue_rsp_fix_instructions
