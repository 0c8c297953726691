-- ===== src/Instrument/Stub.antt =====
-- The code that branch_instrumentation.cpp emits, as lists of bytes: the increment of the counter, the
-- two jumps, and the instructions that are moved. An `int64_t` is its two's complement in 64 bits.
pub mod Jumps
pub mod Moves
use chronoporia.Base.{
  ℕ, zero, suc, ◌+◌, ◌*◌, ◌-◌, ◌%◌, ◌^◌, Bool, true, false, ◌&&◌, ◌||◌, Option, none, some, List,
  [], ◌∷◌, ◌++◌, if◌then◌else◌, ltb, leb, ◌==◌, length, Search, found, nullptr, out_of_fuel,
}
use chronoporia.Shellcode.{write_at, bytes_of}
use chronoporia.Instrument.{wrap, wrap_sub, Instruction, Operand, memory}
use chronoporia.Instrument.Analysis.{drop}

unfoldable pub take : ℕ → List ℕ → List ℕ
take zero bytes = []
take (suc n) [] = []
take (suc n) (b ∷ bytes) = b ∷ take n bytes

-- The number whose bytes are stored, least first.
unfoldable pub number_of : List ℕ → ℕ
number_of [] = 0
number_of (b ∷ bytes) = b + 256 * number_of bytes

-- `tls_instruction_offsets_`: where the instructions of the increment start, and by how much the
-- stack pointer is off there.
abbrev pub tls_instruction_offsets : List (ℕ × ℕ)
tls_instruction_offsets =
    (0x0, 0)
    ∷ (0x1, 8)
    ∷ (0x4, 8)
    ∷ (0x5, 8)
    ∷ (0xF, 8)
    ∷ (0x10, 16)
    ∷ (0x19, 16)
    ∷ (0x22, 16)
    ∷ (0x24, 16)
    ∷ (0x25, 16)
    ∷ (0x26, 8)
    ∷ (0x28, 8)
    ∷ (0x29, 8)
    ∷ []

-- The instructions, from `push rax` to `pop rax`, one in a line or two.
abbrev pub tls_increment : ℕ → ℕ → List ℕ
tls_increment branch_tls_offset target_tls_offset =
    (0x50 ∷ 0x0F ∷ 0x90 ∷ 0xC0 ∷ 0x9F ∷ [])
    ++ (0x65 ∷ 0x48 ∷ 0x83 ∷ 0x04 ∷ 0x25 ∷ bytes_of 4 branch_tls_offset ++ 0x01 ∷ [])
    ++ (0x51 ∷ 0x65 ∷ 0x48 ∷ 0x8B ∷ 0x0C ∷ 0x25 ∷ bytes_of 4 target_tls_offset)
    ++ (0x65 ∷ 0x48 ∷ 0x39 ∷ 0x0C ∷ 0x25 ∷ bytes_of 4 branch_tls_offset)
    ++ (0x72 ∷ 0x01 ∷ 0xCC ∷ 0x59 ∷ 0x04 ∷ 0x7F ∷ 0x9E ∷ 0x58 ∷ [])

unfoldable pub emit_tls_increment : List ℕ → ℕ → ℕ → List ℕ
emit_tls_increment out branch_tls_offset target_tls_offset =
    out ++ tls_increment branch_tls_offset target_tls_offset

unfoldable pub emit_abs_jmp : List ℕ → ℕ → List ℕ
emit_abs_jmp out dest = out ++ (0xFF ∷ 0x25 ∷ 0 ∷ 0 ∷ 0 ∷ 0 ∷ []) ++ bytes_of 8 dest

-- An `int64_t` that is between `INT32_MIN` and `INT32_MAX`.
unfoldable pub fits_int32 : ℕ → Bool
fits_int32 v = ltb v (2 ^ 31) || leb (2 ^ 64 - 2 ^ 31) v

-- `int32_t` to `int64_t`.
unfoldable pub sign_extend : ℕ → ℕ
sign_extend v = if ltb v (2 ^ 31) then v else v + (2 ^ 64 - 2 ^ 32)

-- `none` where the result is false; nothing is appended then.
unfoldable pub emit_rel_jmp : List ℕ → ℕ → ℕ → Option (List ℕ)
emit_rel_jmp out at dest =
    let rel = wrap_sub dest (wrap (at + 5)) in
    if fits_int32 rel then some (out ++ (0xE9 ∷ bytes_of 4 (rel % 2 ^ 32))) else none

unfoldable pub is_rip_relative : List Operand → Bool
is_rip_relative [] = false
is_rip_relative (memory true ∷ ops) = true
is_rip_relative (_ ∷ ops) = is_rip_relative ops

-- The displacement that keeps the target, as an `int64_t`.
unfoldable pub new_displacement : ℕ → ℕ → ℕ → ℕ
new_displacement old_disp old_address new_address =
    wrap (sign_extend old_disp + wrap_sub old_address new_address)

-- The condition of the fix-up, and its result: `none` where the displacement does not fit.
unfoldable pub needs_fix : Instruction → Bool
needs_fix instr = is_rip_relative instr.operands && instr.disp_size == 32

unfoldable pub fix_displacement : Instruction → List ℕ → List ℕ → ℕ → ℕ → ℕ → Option (List ℕ)
fix_displacement instr bytes out insn_start old_address new_address =
    let old_disp = number_of (take 4 (drop instr.disp_offset bytes)) in
    let nd = new_displacement old_disp old_address new_address in
    if fits_int32 nd
    then some (write_at (insn_start + instr.disp_offset) (bytes_of 4 (nd % 2 ^ 32)) out)
    else none

-- One instruction, appended and fixed; `bytes` are the bytes from it on.
unfoldable pub move_instruction : Instruction → List ℕ → List ℕ → ℕ → ℕ → Option (List ℕ)
move_instruction instr bytes out old_address region_base =
    let copied = out ++ take instr.length_of bytes in
    if needs_fix instr
    then fix_displacement instr bytes copied (length out) old_address
        (wrap (region_base + length out))
    else some copied

-- The offset of the first instruction goes in front.
abbrev pub with_offset : ℕ → Search (List ℕ) → Search (List ℕ)
with_offset offset (found offsets) = found (offset ∷ offsets)
with_offset offset nullptr = nullptr
with_offset offset out_of_fuel = out_of_fuel

-- The loop of `relocate_leader`, with the code as it leaves it and the offsets of the instructions.
-- Where a displacement does not fit, the code has the copied instruction.
unfoldable pub relocate_leader :
    (List ℕ → Option Instruction) → ℕ → List ℕ → List ℕ → ℕ → ℕ → List ℕ × Search (List ℕ)
relocate_leader decode fuel out [] old_address region_base = (out, found [])
relocate_leader decode zero out (b ∷ bytes) old_address region_base = (out, out_of_fuel)
relocate_leader decode (suc fuel) out (b ∷ bytes) old_address region_base =
    elim (decode (b ∷ bytes)) [
      | none ↦ (out, nullptr)
      | some instr ↦ (elim (move_instruction instr (b ∷ bytes) out old_address region_base) [
        | none ↦ (out ++ take instr.length_of (b ∷ bytes), nullptr)
        | some moved ↦
            let rest =
              relocate_leader decode fuel moved (drop instr.length_of (b ∷ bytes))
                (wrap (old_address + instr.length_of)) region_base in
            (rest.0, with_offset (length out) rest.1)
      ])
    ]
