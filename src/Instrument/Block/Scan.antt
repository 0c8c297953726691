-- ===== src/Instrument/Block/Scan.antt =====
-- How the loops of `instrument_block` go over the first instructions of a block.
use chronoporia.Base.{
  ℕ, zero, suc, ◌+◌, ◌≤◌, ◌≡◌, refl, ap, sym, subst, ◌∙◌, Option, some, List, [], ◌∷◌, arith, leb,
  length, inl, inr, Option-cases, Bool-cases, Search, found, nullptr, out_of_fuel,
}
use chronoporia.Instrument.{wrap, Instruction}
use chronoporia.Instrument.Analysis.{drop}
use chronoporia.Instrument.Analysis.Sites.{IsDecoder}
use chronoporia.Instrument.Stub.{take, move_instruction, relocate_leader, with_offset}
use chronoporia.Instrument.Block.{
  Leader, too_small, skipped, displaced, not_ended, is_transfer, with_instruction, scan_leader,
}

-- The decoder looks at no byte behind the instruction.
abbrev pub IsLocal : (List ℕ → Option Instruction) → Type 0
IsLocal decode =
    (n : ℕ) (bytes : List ℕ) (instr : Instruction)
    → decode bytes ≡ some instr
    → instr.length_of ≤ n
    → decode (take n bytes) ≡ some instr

drop-take : (l m : ℕ) (bytes : List ℕ) → drop l (take (l + m) bytes) ≡ take m (drop l bytes)
unfolding drop take
drop-take zero m bytes = ap (λ n. take n bytes) (omega arith)
drop-take (suc l) m [] = ap (λ n. drop (suc l) (take n [])) one_more ∙ empty m
  where
    one_more : suc l + m ≡ suc (l + m)
    one_more = omega arith

    empty : (m : ℕ) → [] ≡ take m []
    empty zero = refl
    empty (suc m) = refl
drop-take (suc l) m (b ∷ bytes) =
    ap (λ n. drop (suc l) (take n (b ∷ bytes))) one_more ∙ drop-take l m bytes
  where
    one_more : suc l + m ≡ suc (l + m)
    one_more = omega arith

-- As many offsets as instructions, or a displacement that does not fit.
abbrev pub SameLength : List (ℕ × ℕ) → List ℕ → Type 0
SameLength [] [] = Unit
SameLength (instr ∷ instrs) (offset ∷ offsets) = SameLength instrs offsets
SameLength _ _ = 1 ≤ 0

abbrev pub IsComplete : List (ℕ × ℕ) → Search (List ℕ) → Type 0
IsComplete instrs (found offsets) = SameLength instrs offsets
IsComplete instrs nullptr = Unit
IsComplete instrs out_of_fuel = 1 ≤ 0

with_offset-IsComplete :
    (offset : ℕ) (instr : ℕ × ℕ) (instrs : List (ℕ × ℕ)) (result : Search (List ℕ))
    → IsComplete instrs result
    → IsComplete (instr ∷ instrs) (with_offset offset result)
with_offset-IsComplete offset instr instrs (found offsets) h = h
with_offset-IsComplete offset instr instrs nullptr h = tt
with_offset-IsComplete offset instr instrs out_of_fuel h = h

module _ (decode : List ℕ → Option Instruction) (decoder : IsDecoder decode)
    (local : IsLocal decode) where
  -- The bytes start with these instructions, which take this many bytes.
  abbrev pub Decodes : List (ℕ × ℕ) → ℕ → List ℕ → Type 0
  Decodes [] n bytes = n ≡ 0
  Decodes ((address, size) ∷ instrs) n bytes =
      (instr : Instruction) × (m : ℕ) × (decode bytes ≡ some instr)
      × (n ≡ instr.length_of + m)
      × Decodes instrs m (drop instr.length_of bytes)

  -- What the search for five bytes finds, from `patch_len` on.
  abbrev pub IsScan : ℕ → List ℕ → Leader → Type 0
  IsScan patch_len bytes (displaced instrs total) =
      (n : ℕ) × (total ≡ patch_len + n) × Decodes instrs n bytes
  IsScan patch_len bytes not_ended = 1 ≤ 0
  IsScan patch_len bytes _ = Unit

  with_instruction-IsScan :
      (patch_len : ℕ) (bytes : List ℕ) (instr : Instruction) (address : ℕ) (leader : Leader)
      → decode bytes ≡ some instr
      → IsScan (patch_len + instr.length_of) (drop instr.length_of bytes) leader
      → IsScan patch_len bytes (with_instruction (address, instr.length_of) leader)
  with_instruction-IsScan patch_len bytes instr address (displaced instrs total) decoded
        (n, e, rest) =
      (instr.length_of + n, omega (arith, e), (instr, n, decoded, refl, rest))
  with_instruction-IsScan patch_len bytes instr address not_ended decoded h = h
  with_instruction-IsScan patch_len bytes instr address too_small decoded h = tt
  with_instruction-IsScan patch_len bytes instr address skipped decoded h = tt

  pub scan_leader-IsScan :
      (fuel block_start block_end patch_len : ℕ) (bytes : List ℕ)
      → 5 ≤ patch_len + fuel
      → IsScan patch_len bytes (scan_leader decode fuel block_start block_end patch_len bytes)
  unfolding scan_leader
  scan_leader-IsScan zero block_start block_end patch_len bytes h =
      elim (Bool-cases (leb 5 patch_len)) [
        | inl e ↦ rw (e, scan_leader) (0, omega arith, refl)
        | inr e ↦ ground (arith, e, h)
      ]
  scan_leader-IsScan (suc fuel) block_start block_end patch_len bytes h =
      elim (Bool-cases (leb 5 patch_len)) [
        | inl e ↦ rw (e, scan_leader) (0, omega arith, refl)
        | inr e ↦ (elim (Bool-cases (leb block_end (wrap (block_start + patch_len)))) [
          | inl small ↦ rw (e, small, scan_leader) tt
          | inr large ↦ (elim (Option-cases (decode bytes)) [
            | inl undecoded ↦ rw (e, large, undecoded, scan_leader) tt
            | inr (instr, decoded) ↦ (elim (Bool-cases (is_transfer instr.category)) [
              | inl transfer ↦ rw (e, large, decoded, transfer, scan_leader) tt
              | inr plain ↦
                  rw (e, large, decoded, plain, scan_leader)
                    (with_instruction-IsScan patch_len bytes instr (wrap (block_start + patch_len))
                      (scan_leader decode fuel block_start block_end (patch_len + instr.length_of)
                        (drop instr.length_of bytes))
                      decoded
                      (scan_leader-IsScan fuel block_start block_end (patch_len + instr.length_of)
                        (drop instr.length_of bytes)
                        (omega (arith, h, decoder bytes instr decoded))))
            ])
          ])
        ])
      ]

  relocate_step :
      (i : ℕ × ℕ) (instrs : List (ℕ × ℕ)) (instr : Instruction) (fuel : ℕ) (out front : List ℕ)
      (old_address region_base : ℕ)
      → decode front ≡ some instr
      → ((moved : List ℕ)
          → IsComplete instrs
              (relocate_leader decode fuel moved
                (drop instr.length_of front)
                (wrap (old_address + instr.length_of))
                region_base).1)
      → IsComplete
          (i ∷ instrs)
          (relocate_leader decode (suc fuel) out front old_address region_base).1
  unfolding relocate_leader
  relocate_step i instrs instr fuel out [] old_address region_base decoded rest =
      absurd (omega (arith, decoder [] instr decoded))
  relocate_step i instrs instr fuel out (b ∷ bytes) old_address region_base decoded rest =
      elim (Option-cases (move_instruction instr (b ∷ bytes) out old_address region_base)) [
        | inl far ↦ rw (decoded, far, relocate_leader) tt
        | inr (moved, fits) ↦
            rw (decoded, fits, relocate_leader)
              (with_offset-IsComplete (length out) i instrs
                (relocate_leader decode fuel moved (drop instr.length_of (b ∷ bytes))
                  (wrap (old_address + instr.length_of)) region_base).1
                (rest moved))
      ]

  pub relocate_leader-IsComplete :
      (instrs : List (ℕ × ℕ)) (fuel n : ℕ) (out bytes : List ℕ) (old_address region_base : ℕ)
      → Decodes instrs n bytes
      → n ≤ fuel
      → IsComplete instrs (relocate_leader decode fuel out (take n bytes) old_address region_base).1
  unfolding relocate_leader take
  relocate_leader-IsComplete [] fuel n out bytes old_address region_base e h =
      subst
        (λ k.
          IsComplete [] (relocate_leader decode fuel out (take k bytes) old_address region_base).1)
        (sym e) tt
  relocate_leader-IsComplete (i ∷ instrs) zero n out bytes old_address region_base
        (instr, m, decoded, e, rest) h =
      absurd (omega (arith, e, h, decoder bytes instr decoded))
  relocate_leader-IsComplete (i ∷ instrs) (suc fuel) n out bytes old_address region_base
        (instr, m, decoded, e, rest) h =
      relocate_step i instrs instr fuel out (take n bytes) old_address region_base
        (local n bytes instr decoded (omega arith))
        (λ moved.
          subst
            (λ bs.
              IsComplete instrs
                (relocate_leader decode fuel moved bs (wrap (old_address + instr.length_of))
                  region_base).1)
            (sym
              (ap (λ k. drop instr.length_of (take k bytes)) e ∙ drop-take instr.length_of m bytes))
            (relocate_leader-IsComplete instrs fuel m moved (drop instr.length_of bytes)
              (wrap (old_address + instr.length_of)) region_base rest
              (omega (arith, e, h, decoder bytes instr decoded))))
