-- ===== src/Stepping/Predecessors/Sweep.antt =====
-- The linear sweep of a function, and the walk that follows it.
use chronoporia.Base.{
  ℕ, zero, suc, ◌+◌, ◌≤◌, ◌≡◌, refl, ◌∙◌, Bool, true, false, Option, none, some, List, [], ◌∷◌,
  arith, if◌then◌else◌, ◌==◌, length, Option-cases, Bool-cases, inl, inr,
}
use chronoporia.Shellcode.{write_at}
use chronoporia.Instrument.{wrap, Instruction, FunctionRange}
use chronoporia.Instrument.Analysis.{drop}
use chronoporia.Instrument.Analysis.Sites.{IsDecoder, length-drop}
use chronoporia.Instrument.Stub.Moves.{length-write_at}
use chronoporia.Instrument.Block.{Staging, get_true_instruction_address}
use chronoporia.Stepping.Predecessors.{
  Walked, reached, desync, not_ended, original_bytes, walk_function,
}

module _ (decode : List ℕ → Option Instruction) (decoder : IsDecoder decode)
    (read : ℕ → ℕ → Option (List ℕ)) (read_displaced : ℕ → ℕ → List ℕ) (s : Staging) where
  length-original_bytes :
      (addr : ℕ) (bytes : List ℕ)
      → length (original_bytes decode read read_displaced s addr bytes) ≡ length bytes
  length-original_bytes addr bytes =
      let (true_address, size) = get_true_instruction_address s addr in
      if_length (write_at 0 (read_displaced true_address size) bytes) (true_address == addr)
        (length-write_at 0 (read_displaced true_address size) bytes)
    where
      if_length :
          (xs : List ℕ) (b : Bool)
          → length xs ≡ length bytes
          → length (if b then bytes else xs) ≡ length bytes
      if_length xs true e = refl
      if_length xs false e = e

  -- The linear sweep of a function from its start, over the bytes that were read of it with displaced
  -- instructions put back: the offset that it reaches without a step behind the anchor, the bytes that
  -- are left, and the instruction that it decoded last.
  pub data Swept (fn : FunctionRange) (rip : ℕ) (code : List ℕ)
      : ℕ → List ℕ → Option (ℕ × Instruction) → Type 0 where
    at_start : Swept fn rip code 0 code none
    decoded :
        {off b : ℕ} {bytes : List ℕ} {prev : Option (ℕ × Instruction)} (instr : Instruction)
        → Swept fn rip code off (b ∷ bytes) prev
        → (wrap (fn.start + off) == rip) ≡ false
        → decode (original_bytes decode read read_displaced s (wrap (fn.start + off)) (b ∷ bytes))
          ≡ some instr
        → Swept fn rip code
            (off + instr.length_of)
            (drop instr.length_of
              (original_bytes decode read read_displaced s (wrap (fn.start + off)) (b ∷ bytes)))
            (some (wrap (fn.start + off), instr))

  abbrev pub walk : FunctionRange → ℕ → ℕ → ℕ → List ℕ → Option (ℕ × Instruction) → Walked
  walk fn rip fuel off bytes prev =
      walk_function decode read read_displaced s fuel fn rip off bytes prev

  walk-one_step :
      (fn : FunctionRange) (rip : ℕ) (code : List ℕ) (off b : ℕ) (bytes : List ℕ)
      (prev : Option (ℕ × Instruction)) (instr : Instruction)
      → (wrap (fn.start + off) == rip) ≡ false
      → decode (original_bytes decode read read_displaced s (wrap (fn.start + off)) (b ∷ bytes))
        ≡ some instr
      → (fuel : ℕ) → length (b ∷ bytes) ≤ fuel
      → walk fn rip (length code) 0 code none ≡ walk fn rip fuel off (b ∷ bytes) prev
      → (rest : ℕ) × (length (
            drop instr.length_of
              (original_bytes decode read read_displaced s (wrap (fn.start + off)) (b ∷ bytes)))
          ≤ rest)
        × (walk fn rip (length code) 0 code none
            ≡ walk fn rip rest
                (off + instr.length_of)
                (drop instr.length_of
                  (original_bytes decode read read_displaced s (wrap (fn.start + off)) (b ∷ bytes)))
                (some (wrap (fn.start + off), instr)))
  unfolding walk_function
  walk-one_step fn rip code off b bytes prev instr before e zero enough same = absurd (omega arith)
  walk-one_step fn rip code off b bytes prev instr before e (suc fuel) enough same =
      let addr = wrap (fn.start + off) in
      let fixed = original_bytes decode read read_displaced s addr (b ∷ bytes) in
      let (positive, fits) = decoder fixed instr e in
      (
        fuel,
        omega (
          arith,
          enough,
          length-drop instr.length_of fixed fits,
          positive,
          length-original_bytes addr (b ∷ bytes),
        ),
        same ∙ rw (before, e, walk_function) refl,
      )

  -- The walk goes on, with enough fuel, from wherever the sweep comes.
  pub walk-Swept :
      (fn : FunctionRange) (rip : ℕ) (code : List ℕ) {off : ℕ} {bytes : List ℕ}
      {prev : Option (ℕ × Instruction)}
      → Swept fn rip code off bytes prev
      → (fuel : ℕ) × (length bytes ≤ fuel)
        × (walk fn rip (length code) 0 code none ≡ walk fn rip fuel off bytes prev)
  walk-Swept fn rip code at_start = (length code, omega arith, refl)
  walk-Swept fn rip code (decoded {off} {b} {bytes} {prev} instr swept before e) =
      let (fuel, enough, same) = walk-Swept fn rip code swept in
      walk-one_step fn rip code off b bytes prev instr before e fuel enough same

  -- The last instruction of the sweep ends where the sweep is.
  unfoldable pub EndOf : ℕ → Option (ℕ × Instruction) → ℕ → Type 0
  EndOf start none off = Unit
  EndOf start (some (address, instr)) off = wrap (address + instr.length_of) ≡ wrap (start + off)

  pub Swept-EndOf :
      (fn : FunctionRange) (rip : ℕ) (code : List ℕ) {off : ℕ} {bytes : List ℕ}
      {prev : Option (ℕ × Instruction)}
      → Swept fn rip code off bytes prev
      → EndOf fn.start prev off
  unfolding EndOf
  Swept-EndOf fn rip code at_start = tt
  Swept-EndOf fn rip code (decoded {off} instr swept before e) = omega arith

  abbrev pub IsWalk : FunctionRange → ℕ → List ℕ → Walked → Type 0
  IsWalk fn rip code (reached prev) =
      (off : ℕ) × (bytes : List ℕ) × Swept fn rip code off bytes prev
  IsWalk fn rip code desync = Unit
  IsWalk fn rip code not_ended = 1 ≤ 0

  -- The walk ends, at a point of the sweep.
  pub walk_function-IsWalk :
      (fn : FunctionRange) (rip : ℕ) (code : List ℕ) (fuel off : ℕ) (bytes : List ℕ)
      (prev : Option (ℕ × Instruction))
      → length bytes ≤ fuel
      → Swept fn rip code off bytes prev
      → IsWalk fn rip code (walk fn rip fuel off bytes prev)
  unfolding walk_function
  walk_function-IsWalk fn rip code fuel off [] prev h k = (off, [], k)
  walk_function-IsWalk fn rip code zero off (b ∷ bytes) prev h k = absurd (omega arith)
  walk_function-IsWalk fn rip code (suc fuel) off (b ∷ bytes) prev h k =
      let addr = wrap (fn.start + off) in
      let fixed = original_bytes decode read read_displaced s addr (b ∷ bytes) in
      elim (Bool-cases (addr == rip)) [
        | inl at_anchor ↦ rw (at_anchor, walk_function) (off, b ∷ bytes, k)
        | inr before ↦ (elim (Option-cases (decode fixed)) [
          | inl undecoded ↦ rw (before, undecoded, walk_function) tt
          | inr (instr, e) ↦
              let (positive, fits) = decoder fixed instr e in
              let left = length-drop instr.length_of fixed fits in
              rw (before, e, walk_function)
                (walk_function-IsWalk fn rip code fuel (off + instr.length_of)
                  (drop instr.length_of fixed) (some (addr, instr))
                  (omega (arith, h, left, positive, length-original_bytes addr (b ∷ bytes)))
                  (decoded instr k before e))
        ])
      ]

  -- Where the last instruction of the sweep ends at the anchor, the walk ends with it.
  pub walk-reached :
      (fn : FunctionRange) (rip : ℕ) (code : List ℕ) (off fuel : ℕ) (bytes : List ℕ)
      (prev : Option (ℕ × Instruction))
      → length bytes ≤ fuel
      → (wrap (fn.start + off) == rip) ≡ true
      → walk fn rip fuel off bytes prev ≡ reached prev
  unfolding walk_function
  walk-reached fn rip code off fuel [] prev enough at = refl
  walk-reached fn rip code off zero (b ∷ bytes) prev enough at = absurd (omega arith)
  walk-reached fn rip code off (suc fuel) (b ∷ bytes) prev enough at = rw (at, walk_function) refl
