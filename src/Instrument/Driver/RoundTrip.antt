-- ===== src/Instrument/Driver/RoundTrip.antt =====
-- Addresses go to the stubs and back.
use chronoporia.Base.{
  ℕ, ◌+◌, ◌^◌, ◌≤◌, ◌<◌, ◌≡◌, ◌⊎◌, refl, ap, sym, subst, ◌∙◌, Option, none, some, List, [], ◌∷◌,
  arith, length, lookup, get_or-some, get_or-none, Bool, true, false, inl, inr, Option-cases, ◌>>=◌,
}
use mathlib.Core.Option.{some-injective}
use chronoporia.Instrument.{Instruction, Operand, FunctionRange, FunctionAnalysis, BasicBlock}
use chronoporia.Instrument.Analysis.Sites.{IsDecoder}
use chronoporia.Instrument.Blocks.{discover_blocks}
use chronoporia.Instrument.Stub.Moves.{Extends, Extends-trans}
use chronoporia.Instrument.Block.{
  Staging, skip, instrument_block, get_true_instruction_address, get_original_instruction_address,
  create_instrumentation_region,
}
use chronoporia.Instrument.Block.Staged.{IsNoted}
use chronoporia.Instrument.Block.Outcome.{instrument_block-outcome}
use chronoporia.Instrument.Driver.{
  with_leader, instrument_blocks, instrument_functions, Analyzed, Instrumented,
  commit_instrumentation_region, instrument_module, with_region, with_slots, tls_offset,
  add_branch_instrumentation,
}
use chronoporia.Instrument.Analysis.{analyze_module}

-- A staging that another has become: the region is the same, the code has grown, and as long as the
-- region holds the code the notes stay right.
abbrev pub Grows : Staging → Staging → Type 0
Grows s t =
    (t.region_base ≡ s.region_base)
    × Extends s.code t.code
    × (t.region_base + length t.code ≤ 2 ^ 64
        → IsNoted s (length s.code)
        → IsNoted t (length t.code))

Grows-refl : (s : Staging) → Grows s s
Grows-refl s = (refl, (omega arith, λ n h. refl), λ fits noted. noted)

skip-Grows : (s : Staging) (block_start : ℕ) → Grows s (skip block_start s)
unfolding skip
skip-Grows s block_start = Grows-refl s

Grows-trans : (s t u : Staging) → Grows s t → Grows t u → Grows s u
Grows-trans s t u h k = (
  k.0 ∙ h.0,
  Extends-trans s.code t.code u.code h.1 k.1,
  λ fits noted. k.2 fits (h.2 (omega (arith, fits, k.0, k.1.0)) noted),
)

-- The result of a chain whose first part is there.
bind_some :
    {A B : Type 0} (o : Option A) (f : A → Option B) (b : B)
    → (o >>= f) ≡ some b
    → (a : A) × (o ≡ some a) × (f a ≡ some b)
bind_some none f b e = ground (arith, e)
bind_some (some a) f b e = (a, refl, e)

module _ (decode : List ℕ → Option Instruction) (decoder : IsDecoder decode)
    (read : ℕ → ℕ → Option (List ℕ)) where
  instrument_block-Grows :
      (s : Staging) (block_start block_end : ℕ) (out : Staging × ℕ)
      → instrument_block decode read s block_start block_end ≡ some out
      → Grows s out.0
  instrument_block-Grows s block_start block_end out e =
      elim (instrument_block-outcome decode decoder read s block_start block_end out e) [
        | inl (zero_stub, inl same) ↦ subst (Grows s) (sym same) (Grows-refl s)
        | inl (zero_stub, inr skipped) ↦ subst (Grows s) (sym skipped) (skip-Grows s block_start)
        | inr stubbed ↦ (stubbed.1, stubbed.2, stubbed.4)
      ]

  instrument_blocks-Grows :
      (blocks : List BasicBlock) (s : Staging) (leaders : List ℕ) (out : Staging × List ℕ)
      → instrument_blocks decode read blocks (s, leaders) ≡ some out
      → Grows s out.0
  unfolding instrument_blocks
  instrument_blocks-Grows [] s leaders out e =
      subst (λ (o : Staging × List ℕ). Grows s o.0) (some-injective (s, leaders) out e)
        (Grows-refl s)
  instrument_blocks-Grows (b ∷ blocks) s leaders out e =
      let (one, first, rest) =
        bind_some (instrument_block decode read s b.start b.end)
          (λ o. instrument_blocks decode read blocks (o.0, with_leader o.1 b.start leaders)) out
          e in
      Grows-trans s one.0 out.0 (instrument_block-Grows s b.start b.end one first)
        (instrument_blocks-Grows blocks one.0 (with_leader one.1 b.start leaders) out rest)

  instrument_functions-Grows :
      (functions : List FunctionAnalysis) (s : Staging) (leaders : List ℕ) (out : Staging × List ℕ)
      → instrument_functions decode read functions (s, leaders) ≡ some out
      → Grows s out.0
  unfolding instrument_functions
  instrument_functions-Grows [] s leaders out e =
      subst (λ (o : Staging × List ℕ). Grows s o.0) (some-injective (s, leaders) out e)
        (Grows-refl s)
  instrument_functions-Grows (fn ∷ functions) s leaders out e =
      let (one, first, rest) =
        bind_some (instrument_blocks decode read (discover_blocks fn) (s, leaders))
          (instrument_functions decode read functions) out e in
      Grows-trans s one.0 out.0 (instrument_blocks-Grows (discover_blocks fn) s leaders one first)
        (instrument_functions-Grows functions one.0 one.1 out rest)

-- Where the notes are right, an address outside the region comes back from its true address.
round_trip :
    (s : Staging) (address : ℕ)
    → IsNoted s (length s.code)
    → (address < s.region_base) ⊎ (s.region_base + length s.code ≤ address)
    → get_original_instruction_address s (get_true_instruction_address s address).0 ≡ address
unfolding get_true_instruction_address get_original_instruction_address
round_trip s address noted outside = elim (Option-cases (lookup address s.instruction_remap)) [
  | inr ((t, size), moved) ↦
      ap (get_original_instruction_address s) (
        ap (λ (p : ℕ × ℕ). p.0)
          (get_or-some address (address, 0) (t, size) s.instruction_remap moved))
      ∙ get_or-some t t address s.instruction_address_to_original (noted.1 address t size moved)
  | inl stays ↦
      ap (get_original_instruction_address s)
        (ap (λ (p : ℕ × ℕ). p.0) (get_or-none address (address, 0) s.instruction_remap stays))
      ∙ (elim (Option-cases (lookup address s.instruction_address_to_original)) [
        | inl unknown ↦ get_or-none address address s.instruction_address_to_original unknown
        | inr (original, known) ↦
            get_or-some address address original s.instruction_address_to_original known
            ∙ apart (noted.0 address original known) outside
      ])
]
  where
    apart :
        {original : ℕ}
        → (s.region_base ≤ address) × (address < s.region_base + length s.code)
        → (address < s.region_base) ⊎ (s.region_base + length s.code ≤ address)
        → original ≡ address
    apart h (inl low) = omega (arith, h, low)
    apart h (inr high) = omega (arith, h, high)

-- Without notes, they are right.
no_notes-IsNoted :
    (s : Staging) (limit : ℕ)
    → s.instruction_remap ≡ []
    → s.instruction_address_to_original ≡ []
    → IsNoted s limit
unfolding lookup
no_notes-IsNoted s limit no_moved no_notes = (
  λ t o e. ground (arith, sym (ap (lookup t) no_notes) ∙ e),
  λ o t n e. ground (arith, sym (ap (lookup o) no_moved) ∙ e),
)

-- An instrumentation that succeeds, in parts: a region, then all functions.
module _ (calc_absolute : Instruction → Operand → ℕ → Option ℕ)
    (decode : List ℕ → Option Instruction) (decoder : IsDecoder decode)
    (read : ℕ → ℕ → Option (List ℕ)) (get_all_functions : ℕ → List FunctionRange)
    (written : Bool) where
  instrument_module-Grows :
      (s : Staging) (image_base : ℕ) (out : Staging × Analyzed)
      → instrument_module calc_absolute decode read get_all_functions written s image_base
        ≡ some out
      → Grows s out.0
  instrument_module-Grows s image_base out e =
      let (functions, analyzed, instrumented) =
        bind_some (analyze_module calc_absolute decode read (get_all_functions image_base))
          (λ fns.
            instrument_functions decode read fns (s, []) >>= λ done. some (done.0, (fns, done.1)))
          out e in
      let (done, first, same) =
        bind_some (instrument_functions decode read functions (s, []))
          (λ d. some (d.0, (functions, d.1))) out instrumented in
      subst (λ (o : Staging × Analyzed). Grows s o.0)
        (some-injective (done.0, (functions, done.1)) out same)
        (instrument_functions-Grows decode decoder read functions s [] done first)

  with_region-Grows :
      (s : Staging) (there : Bool) (image_base : ℕ) (t : Staging) (analyzed : Option Instrumented)
      → with_region calc_absolute decode read get_all_functions written image_base (s, there)
        ≡ some (t, analyzed)
      → Grows s t
  with_region-Grows s false image_base t analyzed e =
      subst (λ (o : Staging × Option Instrumented). Grows s o.0)
        (some-injective (s, none) (t, analyzed) e) (Grows-refl s)
  with_region-Grows s true image_base t analyzed e =
      let (done, instrumented, same) =
        bind_some
          (instrument_module calc_absolute decode read get_all_functions written s image_base)
          (λ d. some (d.0, some (d.1, (commit_instrumentation_region written d.0).0))) (t, analyzed)
          e in
      subst (λ (o : Staging × Option Instrumented). Grows s o.0)
        (some-injective (done.0, some (done.1, (commit_instrumentation_region written done.0).0))
          (t, analyzed) same)
        (instrument_module-Grows s image_base done instrumented)

  with_slots-IsNoted :
      (alloc_near : ℕ → ℕ → ℕ) (s : Staging) (image_base : ℕ) (counter target : Option ℕ)
      (t : Staging) (analyzed : Option Instrumented)
      → s.instruction_remap ≡ []
      → s.instruction_address_to_original ≡ []
      → with_slots calc_absolute decode read get_all_functions written alloc_near s image_base
          counter target
        ≡ some (t, analyzed)
      → t.region_base + length t.code ≤ 2 ^ 64
      → IsNoted t (length t.code)
  unfolding create_instrumentation_region
  with_slots-IsNoted alloc_near s image_base (some counter) (some target) t analyzed no_moved
        no_notes e fits =
      let (created, there) =
        create_instrumentation_region alloc_near s counter target image_base 0x10000 in
      (with_region-Grows created there image_base t analyzed e).2 fits
        (no_notes-IsNoted created (length created.code) no_moved no_notes)
  with_slots-IsNoted alloc_near s image_base none target t analyzed no_moved no_notes e fits =
      subst (λ (o : Staging × Option Instrumented). IsNoted o.0 (length o.0.code))
        (some-injective (s, none) (t, analyzed) e)
        (no_notes-IsNoted s (length s.code) no_moved no_notes)
  with_slots-IsNoted alloc_near s image_base (some counter) none t analyzed no_moved no_notes e
        fits =
      subst (λ (o : Staging × Option Instrumented). IsNoted o.0 (length o.0.code))
        (some-injective (s, none) (t, analyzed) e)
        (no_notes-IsNoted s (length s.code) no_moved no_notes)

  -- With a decoder that reads at least one byte and no more than there are: when the instrumentation of
  -- a module, from a state without notes of addresses, returns, and the region holds the code, then each
  -- address outside the region comes back from the address that it was moved to, if it was moved.
  pub add_branch_instrumentation-round_trip :
      (tls_slots : ℕ) (alloc_near : ℕ → ℕ → ℕ) (s : Staging)
      (image_base counter_index target_index address : ℕ) (t : Staging)
      (analyzed : Option Instrumented)
      → s.instruction_remap ≡ []
      → s.instruction_address_to_original ≡ []
      → add_branch_instrumentation calc_absolute decode read get_all_functions written tls_slots
          alloc_near s image_base counter_index target_index
        ≡ some (t, analyzed)
      → t.region_base + length t.code ≤ 2 ^ 64
      → (address < t.region_base) ⊎ (t.region_base + length t.code ≤ address)
      → get_original_instruction_address t (get_true_instruction_address t address).0 ≡ address
  unfolding add_branch_instrumentation
  add_branch_instrumentation-round_trip tls_slots alloc_near s image_base counter_index target_index
        address t analyzed no_moved no_notes e fits outside =
      round_trip t address
        (with_slots-IsNoted alloc_near s image_base (tls_offset tls_slots counter_index)
          (tls_offset tls_slots target_index) t analyzed no_moved no_notes e fits)
        outside
