-- ===== src/Instrument/Block/Total.antt =====
-- `instrument_block` ends, and its assertion holds.
use chronoporia.Base.{
  ℕ, ◌+◌, ◌≤◌, ◌≡◌, refl, subst, Option, none, some, List, [], ◌∷◌, ◌++◌, arith, ◌==◌, length, inl,
  inr, Option-cases, Bool-cases, Search, found, nullptr, out_of_fuel, min,
}
use chronoporia.Instrument.{wrap, wrap_sub, Instruction}
use chronoporia.Instrument.Analysis.Sites.{IsDecoder}
use chronoporia.Instrument.Stub.{
  take, tls_instruction_offsets, emit_tls_increment, emit_abs_jmp, emit_rel_jmp, relocate_leader,
}
use chronoporia.Instrument.Block.Outcome.{IsEnough, scan_leader-IsEnough}
use chronoporia.Instrument.Block.{
  Staging, Leader, too_small, skipped, displaced, not_ended, scan_leader, resize, note_moved,
  note_prologue, note_displaced, with_jump, note_stub, with_patch, finish_stub, emit_stub,
  instrument_block,
}
use chronoporia.Instrument.Block.Scan.{
  IsLocal, SameLength, IsComplete, Decodes, IsScan, scan_leader-IsScan, relocate_leader-IsComplete,
}

-- A result that is there.
abbrev pub IsSome : {A : Type 0} → Option A → Type 0
IsSome none = 1 ≤ 0
IsSome (some a) = Unit

pub IsSome-some : {A : Type 0} (o : Option A) → IsSome o → (a : A) × (o ≡ some a)
IsSome-some none h = absurd (omega (arith, h))
IsSome-some (some a) h = (a, refl)

note_displaced-IsSome :
    (instrs : List (ℕ × ℕ)) (offsets : List ℕ) (s : Staging)
    → SameLength instrs offsets
    → IsSome (note_displaced instrs offsets s)
unfolding note_displaced
note_displaced-IsSome [] [] s h = tt
note_displaced-IsSome [] (offset ∷ offsets) s h = h
note_displaced-IsSome (instr ∷ instrs) [] s h = h
note_displaced-IsSome ((original, size) ∷ instrs) (offset ∷ offsets) s h =
    note_displaced-IsSome instrs offsets
      (note_moved original size (wrap (s.region_base + offset)) s) h

with_jump-IsSome :
    (stub_addr new_addr back : ℕ) (noted : Option Staging)
    → IsSome noted
    → IsSome (with_jump stub_addr new_addr back noted)
with_jump-IsSome stub_addr new_addr back none h = h
with_jump-IsSome stub_addr new_addr back (some noted) h = tt

module _ (block_start patch_len mark : ℕ) (first : ℕ × ℕ) (instrs : List (ℕ × ℕ)) where
  with_patch-IsSome :
      (jmp_offset : ℕ) (offsets : List ℕ) (s : Staging) (patch : Option (List ℕ))
      → SameLength (first ∷ instrs) offsets
      → IsSome (with_patch block_start patch_len mark jmp_offset (first ∷ instrs) offsets s patch)
  unfolding with_patch note_stub
  with_patch-IsSome jmp_offset offsets s none h = tt
  with_patch-IsSome jmp_offset offsets s (some patch) h =
      let patched = record s {
        patches = s.patches ++ (block_start, resize patch_len 0x90 patch) ∷ [];
      } in
      with_jump-IsSome (wrap (s.region_base + mark)) (wrap (s.region_base + jmp_offset))
        (wrap (block_start + patch_len))
        (note_displaced (first ∷ instrs) offsets
          (note_prologue tls_instruction_offsets mark first.0 patched))
        (note_displaced-IsSome (first ∷ instrs) offsets
          (note_prologue tls_instruction_offsets mark first.0 patched) h)

  finish_stub-IsSome :
      (result : Search (List ℕ)) (s : Staging)
      → IsComplete (first ∷ instrs) result
      → IsSome (finish_stub block_start patch_len mark (first ∷ instrs) result s)
  unfolding finish_stub
  finish_stub-IsSome out_of_fuel s h = h
  finish_stub-IsSome nullptr s h = tt
  finish_stub-IsSome (found offsets) s h =
      with_patch-IsSome (length s.code) offsets
        (record s { code = emit_abs_jmp s.code (wrap (block_start + patch_len)) })
        (emit_rel_jmp [] block_start (wrap (s.region_base + mark))) h

module _ (decode : List ℕ → Option Instruction) (decoder : IsDecoder decode)
    (local : IsLocal decode) where
  emit_stub-IsSome :
      (block_start : ℕ) (buf : List ℕ) (leader : Leader) (s : Staging)
      → IsScan decode decoder local 0 buf leader
      → IsEnough leader
      → IsSome (emit_stub decode block_start buf leader s)
  unfolding emit_stub
  emit_stub-IsSome block_start buf too_small s h five = tt
  emit_stub-IsSome block_start buf skipped s h five = tt
  emit_stub-IsSome block_start buf not_ended s h five = h
  emit_stub-IsSome block_start buf (displaced [] patch_len) s (n, e, empty) five =
      absurd (omega (arith, e, empty, five))
  emit_stub-IsSome block_start buf (displaced (first ∷ instrs) patch_len) s (n, e, decodes) five =
      let counted = emit_tls_increment s.code s.tls_counter_offset s.tls_target_offset in
      let moved =
        relocate_leader decode patch_len counted (take patch_len buf) block_start s.region_base in
      finish_stub-IsSome block_start patch_len (length s.code) first instrs moved.1
        (record s { code = moved.0 })
        (relocate_leader-IsComplete decode decoder local (first ∷ instrs) patch_len patch_len
          counted buf block_start s.region_base
          (subst (λ k. Decodes decode decoder local (first ∷ instrs) k buf) (omega (arith, e))
            decodes)
          (omega arith))

  -- With a decoder that reads at least one byte, no more than there are, and looks at no byte behind
  -- the instruction, the instrumentation of any block comes to an end: the loops end, and there are as
  -- many moved instructions as displaced ones, as the code asserts.
  pub instrument_block-IsSome :
      (read : ℕ → ℕ → Option (List ℕ)) (s : Staging) (block_start block_end : ℕ)
      → IsSome (instrument_block decode read s block_start block_end)
  unfolding instrument_block
  instrument_block-IsSome read s block_start block_end = elim (Bool-cases (s.region_base == 0)) [
    | inl no_region ↦ rw (no_region, instrument_block) tt
    | inr region ↦
        (elim (Option-cases (read block_start (min 32 (wrap_sub block_end block_start)))) [
          | inl unread ↦ rw (region, unread, instrument_block) tt
          | inr (buf, was_read) ↦
              rw (region, was_read, instrument_block)
                (emit_stub-IsSome block_start buf (scan_leader decode 5 block_start block_end 0 buf)
                  s
                  (scan_leader-IsScan decode decoder local 5 block_start block_end 0 buf
                    (omega arith))
                  (scan_leader-IsEnough decode 5 block_start block_end 0 buf))
        ])
  ]
