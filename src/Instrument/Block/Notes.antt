-- ===== src/Instrument/Block/Notes.antt =====
-- How `note_stub` ends, the part of `instrument_block` that records the addresses of a stub.
use chronoporia.Base.{
  ℕ, suc, ◌+◌, ◌^◌, ◌≤◌, ◌<◌, ◌≡◌, refl, ap, sym, subst, ◌∙◌, Option, some, List, ◌∷◌, arith,
  length, inl, inr, Option-cases,
}
use mathlib.Core.Option.{some-injective}
use chronoporia.Instrument.{wrap}
use chronoporia.Instrument.Blocks.Cover.{Ascending, Ascending-le}
use chronoporia.Instrument.Stub.{tls_instruction_offsets}
use chronoporia.Instrument.Block.{
  Staging, note_original, note_prologue, note_displaced, note_stub, with_jump,
}
use chronoporia.Instrument.Block.Staged.{
  IsNoted, IsNoted-le, SameCode, note_original-IsNoted, note_prologue-IsNoted,
  note_displaced-IsNoted, note_prologue-SameCode, note_displaced-SameCode, offsets_of,
}

module _ (block_start patch_len mark jmp_offset first size : ℕ) (instrs : List (ℕ × ℕ))
    (offsets : List ℕ) (s : Staging) (out : Staging × ℕ)
    (e : note_stub block_start patch_len mark jmp_offset ((first, size) ∷ instrs) offsets s
      ≡ some out) where
  abbrev noted_prologue : Staging
  noted_prologue = note_prologue tls_instruction_offsets mark first s

  abbrev result_of : Staging → Staging × ℕ
  result_of t = (
    note_original (wrap (s.region_base + jmp_offset)) (wrap (block_start + patch_len)) t,
    wrap (s.region_base + mark),
  )

  -- All notes were made.
  note_stub_inv :
      (t : Staging) × (note_displaced ((first, size) ∷ instrs) offsets noted_prologue ≡ some t)
      × (result_of t ≡ out)
  unfolding note_stub
  note_stub_inv =
      elim (Option-cases (note_displaced ((first, size) ∷ instrs) offsets noted_prologue)) [
        | inl failed ↦ ground (arith, sym (ap jump failed) ∙ e)
        | inr (t, moved) ↦ (t, moved, some-injective (result_of t) out (sym (ap jump moved) ∙ e))
      ]
    where
      jump : Option Staging → Option (Staging × ℕ)
      jump =
          with_jump (wrap (s.region_base + mark)) (wrap (s.region_base + jmp_offset))
            (wrap (block_start + patch_len))

  pub note_stub-SameCode : SameCode s out.0 × (out.1 ≡ wrap (s.region_base + mark))
  note_stub-SameCode =
      let (t, moved, same) = note_stub_inv in
      let p = note_prologue-SameCode tls_instruction_offsets mark first s in
      let d = note_displaced-SameCode ((first, size) ∷ instrs) offsets noted_prologue t moved in
      subst (λ (o : Staging × ℕ). SameCode s o.0 × (o.1 ≡ wrap (s.region_base + mark))) same
        ((d.0 ∙ p.0, d.1 ∙ p.1, d.2 ∙ p.2), refl)

  -- The notes of a stub stay within the code.
  pub note_stub-IsNoted :
      Ascending (mark + 0x2A) offsets jmp_offset
      → jmp_offset < length s.code
      → s.region_base + length s.code ≤ 2 ^ 64
      → IsNoted s mark
      → IsNoted out.0 (length s.code)
  note_stub-IsNoted asc lt fits noted =
      let (t, moved, same) = note_stub_inv in
      let back = wrap (block_start + patch_len) in
      let p = note_prologue-SameCode tls_instruction_offsets mark first s in
      let d = note_displaced-SameCode ((first, size) ∷ instrs) offsets noted_prologue t moved in
      let prologue =
        note_prologue-IsNoted tls_instruction_offsets 0 0x2A mark first s table_order
          (IsNoted-le s mark (mark + 0) (omega arith) noted)
          (omega (arith, Ascending-le (mark + 0x2A) offsets jmp_offset asc)) in
      let all =
        note_displaced-IsNoted ((first, size) ∷ instrs) offsets (mark + 0x2A) jmp_offset
          noted_prologue t asc prologue (omega (arith, p.0)) moved in
      subst (λ (o : Staging × ℕ). IsNoted o.0 (length s.code)) same
        (IsNoted-le (result_of t).0 (suc jmp_offset) (length s.code) lt (
          subst (λ b. IsNoted (note_original (wrap (b + jmp_offset)) back t) (suc jmp_offset))
            (d.0 ∙ p.0)
            (note_original-IsNoted t jmp_offset jmp_offset back all (omega arith)
              (omega (arith, p.0, d.0)))))
    where
      table_order : Ascending 0 (offsets_of tls_instruction_offsets) 0x2A
      table_order = ground arith
