-- ===== src/Instrument/Block/Finish.antt =====
-- How `finish_stub` ends, the part of `instrument_block` behind the relocated instructions.
use chronoporia.Base.{
  ℕ, zero, suc, ◌+◌, ◌^◌, ◌≤◌, ◌≡◌, ◌⊎◌, refl, ap, sym, subst, ◌∙◌, Option, some, List, [], ◌∷◌,
  ◌++◌, arith, length, length-append, inl, inr, Search, found, nullptr, out_of_fuel,
}
use mathlib.Core.Option.{some-injective}
use chronoporia.Shellcode.{bytes_of}
use chronoporia.Instrument.{wrap}
use chronoporia.Instrument.Blocks.Cover.{Ascending}
use chronoporia.Instrument.Stub.{take, emit_abs_jmp, emit_rel_jmp}
use chronoporia.Instrument.Stub.Jumps.{lands_at, emit_rel_jmp-lands_at}
use chronoporia.Instrument.Stub.Moves.{Extends, Extends-append, Extends-trans, take-all}
use chronoporia.Instrument.Block.{
  Staging, resize, skip, roll_back, note_stub, with_patch, finish_stub,
}
use chronoporia.Instrument.Block.Staged.{IsNoted}
use chronoporia.Instrument.Block.Notes.{note_stub-SameCode, note_stub-IsNoted}

-- The block is left alone: there is no stub, and at most the block is noted as skipped.
abbrev pub IsUnchanged : Staging → ℕ → Staging × ℕ → Type 0
IsUnchanged s block_start (t, stub) = (stub ≡ 0) × ((t ≡ s) ⊎ (t ≡ skip block_start s))

-- The block has a stub behind the code so far, with a patch that jumps there.
abbrev pub IsStubbed : Staging → ℕ → Staging × ℕ → Type 0
IsStubbed s block_start (t, stub) =
    (stub ≡ wrap (s.region_base + length s.code))
    × (t.region_base ≡ s.region_base)
    × Extends s.code t.code
    × ((patch : List ℕ) × (rel : ℕ) × (t.patches ≡ s.patches ++ (block_start, patch) ∷ [])
        × (take 5 patch ≡ 0xE9 ∷ bytes_of 4 rel)
        × (lands_at block_start rel ≡ stub))
    × (t.region_base + length t.code ≤ 2 ^ 64
        → IsNoted s (length s.code)
        → IsNoted t (length t.code))

take-resize :
    (n v : ℕ) (bytes : List ℕ) → length bytes ≤ n → take (length bytes) (resize n v bytes) ≡ bytes
unfolding take resize
take-resize n v [] h = refl
take-resize zero v (b ∷ bytes) h = absurd (omega arith)
take-resize (suc n) v (b ∷ bytes) h = ap (λ r. b ∷ r) (take-resize n v bytes (omega arith))

-- Code that extends the code so far is rolled back to it.
roll_back-skip :
    (block_start : ℕ) (s : Staging) (code : List ℕ)
    → Extends s.code code
    → roll_back (length s.code) block_start (record s { code = code }) ≡ skip block_start s
unfolding roll_back
roll_back-skip block_start s code extends =
    ap (λ c. skip block_start (record s { code = c }))
      (extends.1 (length s.code) (omega arith) ∙ take-all s.code)

length-abs_jmp : (out : List ℕ) (dest : ℕ) → length (emit_abs_jmp out dest) ≡ length out + 14
unfolding emit_abs_jmp bytes_of
length-abs_jmp out dest = omega (
  arith,
  length-append (out ++ (0xFF ∷ 0x25 ∷ 0 ∷ 0 ∷ 0 ∷ 0 ∷ [])) (bytes_of 8 dest),
  length-append out (0xFF ∷ 0x25 ∷ 0 ∷ 0 ∷ 0 ∷ 0 ∷ []),
)

emit_abs_jmp-Extends : (out : List ℕ) (dest : ℕ) → Extends out (emit_abs_jmp out dest)
unfolding emit_abs_jmp
emit_abs_jmp-Extends out dest =
    Extends-trans out (out ++ (0xFF ∷ 0x25 ∷ 0 ∷ 0 ∷ 0 ∷ 0 ∷ [])) (emit_abs_jmp out dest)
      (Extends-append out (0xFF ∷ 0x25 ∷ 0 ∷ 0 ∷ 0 ∷ 0 ∷ []))
      (Extends-append (out ++ (0xFF ∷ 0x25 ∷ 0 ∷ 0 ∷ 0 ∷ 0 ∷ [])) (bytes_of 8 dest))

module _ (block_start patch_len : ℕ) (enough : 5 ≤ patch_len) (instrs : List (ℕ × ℕ)) (s : Staging)
    (code : List ℕ) (out : Staging × ℕ) where
  abbrev jumped : Staging
  jumped = record s { code = emit_abs_jmp code (wrap (block_start + patch_len)) }

  abbrev patched : ℕ → Staging
  patched rel = record jumped {
    patches = s.patches ++ (block_start, resize patch_len 0x90 (0xE9 ∷ bytes_of 4 rel)) ∷ [];
  }

  jumped-Extends : Extends s.code code → Extends s.code jumped.code
  jumped-Extends extends =
      Extends-trans s.code code jumped.code extends
        (emit_abs_jmp-Extends code (wrap (block_start + patch_len)))

  note_stub-IsStubbed :
      (moved : List (ℕ × ℕ)) (offsets : List ℕ) (rel : ℕ)
      → Extends s.code code
      → Ascending (length s.code + 0x2A) offsets (length code)
      → lands_at block_start rel ≡ wrap (wrap (s.region_base + length s.code))
      → note_stub block_start patch_len (length s.code) (length code) moved offsets (patched rel)
        ≡ some out
      → IsStubbed s block_start out
  unfolding note_stub bytes_of
  note_stub-IsStubbed [] offsets rel extends asc lands e = ground (arith, e)
  note_stub-IsStubbed ((first, size) ∷ rest) offsets rel extends asc lands e =
      let ((base, same_code, same_patches), at) =
        note_stub-SameCode block_start patch_len (length s.code) (length code) first size rest
          offsets (patched rel) out e in
      (
        at,
        base,
        subst (Extends s.code) (sym same_code) (jumped-Extends extends),
        (
          resize patch_len 0x90 (0xE9 ∷ bytes_of 4 rel),
          rel,
          same_patches,
          take-resize patch_len 0x90 (0xE9 ∷ bytes_of 4 rel) enough,
          lands ∙ wrap_twice (s.region_base + length s.code) ∙ sym at,
        ),
        λ fits noted.
            subst (λ c. IsNoted out.0 (length c)) (sym same_code)
              (note_stub-IsNoted block_start patch_len (length s.code) (length code) first size rest
                offsets (patched rel) out e asc
                (omega (arith, length-abs_jmp code (wrap (block_start + patch_len))))
                (subst (λ n. n ≤ 2 ^ 64) (sum_of base (ap length same_code)) fits) noted),
      )
    where
      wrap_twice : (n : ℕ) → wrap (wrap n) ≡ wrap n
      wrap_twice n = omega arith

      sum_of : {a b c d : ℕ} → a ≡ b → c ≡ d → a + c ≡ b + d
      sum_of p q = omega (arith, p, q)

  with_patch-outcome :
      (offsets : List ℕ)
      → Extends s.code code
      → Ascending (length s.code + 0x2A) offsets (length code)
      → with_patch block_start patch_len
          (length s.code)
          (length code)
          instrs
          offsets
          jumped
          (emit_rel_jmp [] block_start (wrap (s.region_base + length s.code)))
        ≡ some out
      → IsUnchanged s block_start out ⊎ IsStubbed s block_start out
  unfolding with_patch
  with_patch-outcome offsets extends asc e =
      let dest = wrap (s.region_base + length s.code) in
      elim (emit_rel_jmp-lands_at [] block_start dest) [
        | inl (unreachable, never) ↦ inl (
            subst (IsUnchanged s block_start)
              (some-injective (roll_back (length s.code) block_start jumped, 0) out
                (sym (ap (patch_with offsets) unreachable) ∙ e))
              (refl, inr (roll_back-skip block_start s jumped.code (jumped-Extends extends))))
        | inr (rel, emitted, small, lands) ↦ inr (
            note_stub-IsStubbed instrs offsets rel extends asc lands
              (sym (ap (patch_with offsets) emitted) ∙ e))
      ]
    where
      patch_with : List ℕ → Option (List ℕ) → Option (Staging × ℕ)
      patch_with offsets =
          with_patch block_start patch_len (length s.code) (length code) instrs offsets jumped

  pub finish_stub-outcome :
      (result : Search (List ℕ))
      → Extends s.code code
      → ((offsets : List ℕ)
          → result ≡ found offsets
          → Ascending (length s.code + 0x2A) offsets (length code))
      → finish_stub block_start patch_len (length s.code) instrs result (record s { code = code })
        ≡ some out
      → IsUnchanged s block_start out ⊎ IsStubbed s block_start out
  unfolding finish_stub
  finish_stub-outcome out_of_fuel extends asc e = ground (arith, e)
  finish_stub-outcome nullptr extends asc e = inl (
      subst (IsUnchanged s block_start)
        (some-injective (roll_back (length s.code) block_start (record s { code = code }), 0) out e)
        (refl, inr (roll_back-skip block_start s code extends)))
  finish_stub-outcome (found offsets) extends asc e =
      with_patch-outcome offsets extends (asc offsets refl) e
