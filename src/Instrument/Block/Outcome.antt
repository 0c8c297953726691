-- ===== src/Instrument/Block/Outcome.antt =====
-- How `instrument_block` ends.
use chronoporia.Base.{
  ℕ, zero, suc, ◌+◌, ◌≤◌, ◌≡◌, ◌⊎◌, refl, ap, sym, subst, ◌∙◌, Bool, Option, none, some, List,
  arith, if◌then◌else◌, ◌==◌, leb, length, length-append, inl, inr, Option-cases, Bool-cases, min,
}
use mathlib.Core.Option.{some-injective}
use chronoporia.Shellcode.{bytes_of}
use chronoporia.Instrument.{wrap, wrap_sub, Instruction}
use chronoporia.Instrument.Analysis.{drop}
use chronoporia.Instrument.Analysis.Sites.{IsDecoder}
use chronoporia.Instrument.Blocks.Cover.{Ascending}
use chronoporia.Instrument.Stub.{take, tls_increment, emit_tls_increment, relocate_leader}
use chronoporia.Instrument.Stub.Moves.{
  Extends, Extends-append, Extends-trans, relocate_leader-IsMoved,
}
use chronoporia.Instrument.Block.{
  Staging, Leader, too_small, skipped, displaced, not_ended, scan_leader, with_instruction,
  is_transfer, skip, emit_stub, instrument_block,
}
use chronoporia.Instrument.Block.Finish.{IsUnchanged, IsStubbed, finish_stub-outcome}

length-tls_increment :
    (out : List ℕ) (counter target : ℕ)
    → length (emit_tls_increment out counter target) ≡ length out + 0x2A
unfolding emit_tls_increment bytes_of
length-tls_increment out counter target = length-append out (tls_increment counter target)

emit_tls_increment-Extends :
    (out : List ℕ) (counter target : ℕ) → Extends out (emit_tls_increment out counter target)
unfolding emit_tls_increment
emit_tls_increment-Extends out counter target = Extends-append out (tls_increment counter target)

-- At least five bytes are replaced.
abbrev pub IsEnough : Leader → Type 0
IsEnough (displaced instrs patch_len) = 5 ≤ patch_len
IsEnough _ = Unit

with_instruction-IsEnough :
    (instr : ℕ × ℕ) (leader : Leader) → IsEnough leader → IsEnough (with_instruction instr leader)
with_instruction-IsEnough instr too_small h = tt
with_instruction-IsEnough instr skipped h = tt
with_instruction-IsEnough instr (displaced instrs patch_len) h = h
with_instruction-IsEnough instr not_ended h = tt

pub scan_leader-IsEnough :
    (decode : List ℕ → Option Instruction) (fuel block_start block_end patch_len : ℕ)
    (bytes : List ℕ)
    → IsEnough (scan_leader decode fuel block_start block_end patch_len bytes)
unfolding scan_leader
scan_leader-IsEnough decode zero block_start block_end patch_len bytes =
    elim (Bool-cases (leb 5 patch_len)) [
      | inl e ↦ rw (e, scan_leader) (ground (arith, e))
      | inr e ↦ rw (e, scan_leader) tt
    ]
scan_leader-IsEnough decode (suc fuel) block_start block_end patch_len bytes =
    elim (Bool-cases (leb 5 patch_len)) [
      | inl e ↦ rw (e, scan_leader) (ground (arith, e))
      | inr e ↦ (elim (Bool-cases (leb block_end (wrap (block_start + patch_len)))) [
        | inl small ↦ rw (e, small, scan_leader) tt
        | inr large ↦ (elim (Option-cases (decode bytes)) [
          | inl undecoded ↦ rw (e, large, undecoded, scan_leader) tt
          | inr (instr, decoded) ↦ (elim (Bool-cases (is_transfer instr.category)) [
            | inl transfer ↦ rw (e, large, decoded, transfer, scan_leader) tt
            | inr plain ↦
                rw (e, large, decoded, plain, scan_leader)
                  (with_instruction-IsEnough (wrap (block_start + patch_len), instr.length_of)
                    (scan_leader decode fuel block_start block_end (patch_len + instr.length_of)
                      (drop instr.length_of bytes))
                    (scan_leader-IsEnough decode fuel block_start block_end
                      (patch_len + instr.length_of) (drop instr.length_of bytes)))
          ])
        ])
      ])
    ]

module _ (decode : List ℕ → Option Instruction) (decoder : IsDecoder decode) where
  emit_stub-outcome :
      (block_start : ℕ) (buf : List ℕ) (leader : Leader) (s : Staging) (out : Staging × ℕ)
      → IsEnough leader
      → emit_stub decode block_start buf leader s ≡ some out
      → IsUnchanged s block_start out ⊎ IsStubbed s block_start out
  unfolding emit_stub
  emit_stub-outcome block_start buf too_small s out five e =
      inl (subst (IsUnchanged s block_start) (some-injective (s, 0) out e) (refl, inl refl))
  emit_stub-outcome block_start buf skipped s out five e = inl (
      subst (IsUnchanged s block_start) (some-injective (skip block_start s, 0) out e)
        (refl, inr refl))
  emit_stub-outcome block_start buf not_ended s out five e = ground (arith, e)
  emit_stub-outcome block_start buf (displaced instrs patch_len) s out five e =
      let counted = emit_tls_increment s.code s.tls_counter_offset s.tls_target_offset in
      let moved =
        relocate_leader decode patch_len counted (take patch_len buf) block_start s.region_base in
      let (extends, ascending) =
        relocate_leader-IsMoved decode decoder patch_len counted (take patch_len buf) block_start
          s.region_base in
      finish_stub-outcome block_start patch_len five instrs s moved.0 out moved.1
        (Extends-trans s.code counted moved.0
          (emit_tls_increment-Extends s.code s.tls_counter_offset s.tls_target_offset) extends)
        (λ offsets found_them.
          subst (λ n. Ascending n offsets (length moved.0))
            (length-tls_increment s.code s.tls_counter_offset s.tls_target_offset)
            (ascending offsets found_them))
        e

  -- With a decoder that reads at least one byte and no more than there are, a block that is
  -- instrumented to an end is either left alone, with at most a note that it was skipped and no byte of
  -- code kept; or it has a stub behind the code so far, its patch starts with a jump whose displacement
  -- leads to the stub, and if the region holds the code, the two maps of addresses stay within it and
  -- lead back to each other.
  pub instrument_block-outcome :
      (read : ℕ → ℕ → Option (List ℕ)) (s : Staging) (block_start block_end : ℕ) (out : Staging × ℕ)
      → instrument_block decode read s block_start block_end ≡ some out
      → IsUnchanged s block_start out ⊎ IsStubbed s block_start out
  unfolding instrument_block
  instrument_block-outcome read s block_start block_end out e =
      elim (Bool-cases (s.region_base == 0)) [
        | inl no_region ↦ inl (
            subst (IsUnchanged s block_start)
              (some-injective (s, 0) out (sym (ap with_region no_region) ∙ e)) (refl, inl refl))
        | inr region ↦
            (elim (Option-cases (read block_start (min 32 (wrap_sub block_end block_start)))) [
              | inl unread ↦ inl (
                  subst (IsUnchanged s block_start)
                    (some-injective (skip block_start s, 0) out
                      (sym (ap with_region region ∙ ap with_bytes unread) ∙ e))
                    (refl, inr refl))
              | inr (buf, was_read) ↦
                  emit_stub-outcome block_start buf
                    (scan_leader decode 5 block_start block_end 0 buf) s out
                    (scan_leader-IsEnough decode 5 block_start block_end 0 buf)
                    (sym (ap with_region region ∙ ap with_bytes was_read) ∙ e)
            ])
      ]
    where
      with_bytes : Option (List ℕ) → Option (Staging × ℕ)
      with_bytes o = elim o [
        | none ↦ some (skip block_start s, 0)
        | some buf ↦
            emit_stub decode block_start buf (scan_leader decode 5 block_start block_end 0 buf) s
      ]

      with_region : Bool → Option (Staging × ℕ)
      with_region b =
          if b
          then some (s, 0)
          else with_bytes (read block_start (min 32 (wrap_sub block_end block_start)))
