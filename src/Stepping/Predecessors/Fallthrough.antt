-- ===== src/Stepping/Predecessors/Fallthrough.antt =====
-- The instruction that falls through to an address.
use chronoporia.Base.{
  ℕ, ◌+◌, ◌≡◌, ◌⊎◌, refl, ap, sym, ◌∙◌, true, false, Option, none, some, List, arith, ◌==◌, ==_iff,
  length, Option-cases, Bool-cases, inl, inr,
}
use mathlib.Core.Option.{some-injective}
use chronoporia.Instrument.{wrap, wrap_sub, Instruction, FunctionAnalysis}
use chronoporia.Instrument.Analysis.Sites.{IsDecoder}
use chronoporia.Instrument.Block.{Staging}
use chronoporia.Stepping.Predecessors.{
  function_analysis_containing_address, Walked, reached, desync, not_ended, continues,
  last_instruction, fallthrough_predecessor,
}
use chronoporia.Stepping.Predecessors.Sweep.{
  Swept, walk, walk-Swept, EndOf, Swept-EndOf, IsWalk, walk_function-IsWalk, walk-reached, at_start,
}

module _ (decode : List ℕ → Option Instruction) (decoder : IsDecoder decode)
    (read : ℕ → ℕ → Option (List ℕ)) (read_displaced : ℕ → ℕ → List ℕ) (s : Staging) where
  -- In the function that holds the anchor, and not at its start, the sweep decodes an instruction at the
  -- address that ends at the anchor and is not an unconditional jump, a return or a call.
  abbrev pub FallsInto : List FunctionAnalysis → ℕ → ℕ → Type 0
  FallsInto functions rip address =
      (fn : FunctionAnalysis) × (function_analysis_containing_address functions rip ≡ some fn)
      × ((rip == fn.info.start) ≡ false)
      × ((code : List ℕ) × (read fn.info.start (wrap_sub fn.info.end fn.info.start) ≡ some code)
          × ((off : ℕ) × (rest : List ℕ) × (instr : Instruction) × Swept decode decoder read
                read_displaced s fn.info rip code off rest (some (address, instr))
              × (wrap (address + instr.length_of) ≡ rip)
              × (continues instr.category ≡ true)))

  last_instruction-some :
      (functions : List FunctionAnalysis) (rip : ℕ) (fn : FunctionAnalysis)
      → function_analysis_containing_address functions rip ≡ some fn
      → (rip == fn.info.start) ≡ false
      → (code : List ℕ) → read fn.info.start (wrap_sub fn.info.end fn.info.start) ≡ some code
      → (walked : Walked) → IsWalk decode decoder read read_displaced s fn.info rip code walked
      → (address : ℕ) × (last_instruction rip walked ≡ some address)
        × ((address ≡ 0) ⊎ FallsInto functions rip address)
  unfolding last_instruction
  last_instruction-some functions rip fn inside later code was_read not_ended h =
      absurd (omega (arith, h))
  last_instruction-some functions rip fn inside later code was_read desync h = (0, refl, inl refl)
  last_instruction-some functions rip fn inside later code was_read (reached none) h =
      (0, refl, inl refl)
  last_instruction-some functions rip fn inside later code was_read (reached (some (addr, instr)))
        (off, rest, swept) =
      elim (Bool-cases (wrap (addr + instr.length_of) == rip)) [
        | inr elsewhere ↦ (0, rw elsewhere refl, inl refl)
        | inl ends ↦ (elim (Bool-cases (continues instr.category)) [
          | inr stops ↦ (0, rw (ends, stops) refl, inl refl)
          | inl goes_on ↦ (
            addr,
            rw (ends, goes_on) refl,
            inr (
              fn,
              inside,
              later,
              (
                code,
                was_read,
                (
                  off,
                  rest,
                  instr,
                  swept,
                  (==_iff (wrap (addr + instr.length_of)) rip).0 ends,
                  goes_on,
                ),
              ),
            ),
          )
        ])
      ]

  fallthrough_sound :
      (functions : List FunctionAnalysis) (rip : ℕ)
      → (address : ℕ) × (fallthrough_predecessor decode read read_displaced s functions rip
          ≡ some address)
        × ((address ≡ 0) ⊎ FallsInto functions rip address)
  unfolding fallthrough_predecessor
  fallthrough_sound functions rip =
      elim (Option-cases (function_analysis_containing_address functions rip)) [
        | inl outside ↦ (0, rw (outside, fallthrough_predecessor) refl, inl refl)
        | inr (fn, inside) ↦ (elim (Bool-cases (rip == fn.info.start)) [
          | inl first ↦ (0, rw (inside, first, fallthrough_predecessor) refl, inl refl)
          | inr later ↦
              (elim (Option-cases (read fn.info.start (wrap_sub fn.info.end fn.info.start))) [
                | inl unread ↦
                    (0, rw (inside, later, unread, fallthrough_predecessor) refl, inl refl)
                | inr (code, was_read) ↦
                    let (address, e, k) =
                      last_instruction-some functions rip fn inside later code was_read
                        (walk decode decoder read read_displaced s fn.info rip (length code) 0 code
                          none)
                        (walk_function-IsWalk decode decoder read read_displaced s fn.info rip code
                          (length code) 0 code none (omega arith) at_start) in
                    (address, rw (inside, later, was_read, fallthrough_predecessor) e, k)
              ])
        ])
      ]

  FallsInto-fallthrough :
      (functions : List FunctionAnalysis) (rip address : ℕ)
      → FallsInto functions rip address
      → fallthrough_predecessor decode read read_displaced s functions rip ≡ some address
  unfolding fallthrough_predecessor last_instruction EndOf
  FallsInto-fallthrough functions rip address
        (fn, inside, later, (code, was_read, (off, rest, instr, swept, ends, goes_on))) =
      let (fuel, enough, same) =
        walk-Swept decode decoder read read_displaced s fn.info rip code swept in
      let at : (wrap (fn.info.start + off) == rip) ≡ true =
        (==_iff (wrap (fn.info.start + off)) rip).1
          (sym (Swept-EndOf decode decoder read read_displaced s fn.info rip code swept) ∙ ends) in
      let walked =
        same
        ∙ walk-reached decode decoder read read_displaced s fn.info rip code off fuel rest
            (some (address, instr)) enough at in
      let e = (==_iff (wrap (address + instr.length_of)) rip).1 ends in
      rw (inside, later, was_read, fallthrough_predecessor)
        (ap (last_instruction rip) walked ∙ rw (e, goes_on) refl)

  -- With a decoder that reads at least one byte and no more than there are, the search for the
  -- instruction before an address ends. It gives the one address at which the linear sweep of the
  -- function decodes an instruction that falls through to the address that was asked for, if there is
  -- one, and 0 if there is none.
  pub fallthrough_predecessor-some :
      (functions : List FunctionAnalysis) (rip : ℕ)
      → (address : ℕ) × (fallthrough_predecessor decode read read_displaced s functions rip
          ≡ some address)
        × ((address ≡ 0) ⊎ FallsInto functions rip address)
        × ((other : ℕ) → FallsInto functions rip other → other ≡ address)
  fallthrough_predecessor-some functions rip =
      let (address, e, k) = fallthrough_sound functions rip in
      (
        address,
        e,
        k,
        λ other falls.
            some-injective other address
              (sym (FallsInto-fallthrough functions rip other falls) ∙ e),
      )
