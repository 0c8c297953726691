-- ===== src/Instrument/Stub/Jumps.antt =====
-- Where the emitted jumps and the moved instructions lead.
use chronoporia.Base.{
  ℕ, zero, suc, ◌+◌, ◌%◌, ◌/◌, ◌^◌, ◌≤◌, ◌<◌, ◌≡◌, ◌≢◌, ◌⊎◌, refl, ap, sym, ◌∙◌, Bool, true, false,
  none, some, List, [], ◌∷◌, ◌++◌, arith, if◌then◌else◌, length, Bool-cases, inl, inr,
  length-append,
}
use chronoporia.Shellcode.{write_at, bytes_of}
use chronoporia.Instrument.{wrap, wrap_sub, Instruction}
use chronoporia.Instrument.Analysis.{drop}
use chronoporia.Instrument.Stub.{
  take, number_of, fits_int32, sign_extend, emit_rel_jmp, new_displacement, needs_fix,
  fix_displacement, move_instruction,
}

-- The number that is stored in four bytes.
abbrev pub number_at : ℕ → List ℕ → ℕ
number_at offset bytes = number_of (take 4 (drop offset bytes))

number_of-bytes_of :
    (v : ℕ) (rest : List ℕ) → number_of (take 4 (bytes_of 4 v ++ rest)) ≡ v % 2 ^ 32
unfolding number_of take bytes_of
number_of-bytes_of v rest = omega arith

sign_extend-fits : (v : ℕ) → v < 2 ^ 64 → fits_int32 v ≡ true → sign_extend (v % 2 ^ 32) ≡ v
unfolding fits_int32 sign_extend
sign_extend-fits v bound fits = ground arith

-- No number of 32 bits stands for a distance that does not fit.
sign_extend-not_fits :
    (v r : ℕ) → r < 2 ^ 32 → fits_int32 v ≡ false → v < 2 ^ 64 → sign_extend r ≢ v
unfolding fits_int32 sign_extend
sign_extend-not_fits v r small far bound e = ground arith

-- Where a processor goes from an `E9` jump with this displacement at an address.
abbrev pub lands_at : ℕ → ℕ → ℕ
lands_at at rel32 = wrap (at + 5 + sign_extend rel32)

wrap_sub-add : (at dest s : ℕ) → s ≡ wrap_sub dest (wrap (at + 5)) → wrap (at + 5 + s) ≡ wrap dest
wrap_sub-add at dest s e = omega (arith, e)

wrap_sub_unique :
    (at dest s : ℕ) → s < 2 ^ 64 → wrap (at + 5 + s) ≡ wrap dest → s ≡ wrap_sub dest (wrap (at + 5))
wrap_sub_unique at dest s bound e = omega (arith, e)

sign_extend_bound : (r : ℕ) → r < 2 ^ 32 → sign_extend r < 2 ^ 64
unfolding sign_extend
sign_extend_bound r h = ground arith

-- A relative jump is emitted exactly when some displacement of 32 bits leads from the address to the
-- destination. It is then five bytes: `E9` and a displacement that leads there.
pub emit_rel_jmp-lands_at :
    (out : List ℕ) (at dest : ℕ)
    → ((emit_rel_jmp out at dest ≡ none) × ((r : ℕ) → r < 2 ^ 32 → lands_at at r ≢ wrap dest))
      ⊎ ((r : ℕ) × (emit_rel_jmp out at dest ≡ some (out ++ (0xE9 ∷ bytes_of 4 r)))
          × (r < 2 ^ 32)
          × (lands_at at r ≡ wrap dest))
unfolding emit_rel_jmp
emit_rel_jmp-lands_at out at dest =
    let rel = wrap_sub dest (wrap (at + 5)) in
    elim (Bool-cases (fits_int32 rel)) [
      | inl fits ↦ inr (
        rel % 2 ^ 32,
        rw fits refl,
        omega arith,
        wrap_sub-add at dest (sign_extend (rel % 2 ^ 32)) (sign_extend-fits rel (omega arith) fits),
      )
      | inr far ↦ inl (
        rw far refl,
        λ r small e.
            sign_extend-not_fits rel r small far (omega arith)
              (wrap_sub_unique at dest (sign_extend r) (sign_extend_bound r small) e),
      )
    ]

length-bytes_of : (n v : ℕ) → length (bytes_of n v) ≡ n
unfolding bytes_of
length-bytes_of zero v = refl
length-bytes_of (suc n) v = ap suc (length-bytes_of n (v / 256))

drop-append : (n : ℕ) (pre rest : List ℕ) → drop (length pre + n) (pre ++ rest) ≡ drop n rest
unfolding drop
drop-append n [] rest = ap (λ k. drop k rest) (omega arith)
drop-append n (x ∷ pre) rest = ap (λ k. drop k (x ∷ pre ++ rest)) one_more ∙ drop-append n pre rest
  where
    one_more : suc (length pre) + n ≡ suc (length pre + n)
    one_more = omega arith

-- Bytes that were written, and fit, are found where they were written.
take-drop-write_at :
    (offset : ℕ) (bytes xs : List ℕ)
    → offset + length bytes ≤ length xs
    → take (length bytes) (drop offset (write_at offset bytes xs)) ≡ bytes
unfolding take drop write_at
take-drop-write_at zero [] xs h = refl
take-drop-write_at zero (b ∷ bytes) [] h = absurd (omega arith)
take-drop-write_at zero (b ∷ bytes) (x ∷ xs) h =
    ap (λ r. b ∷ r) (take-drop-write_at zero bytes xs (omega arith))
take-drop-write_at (suc n) bytes [] h = absurd (omega arith)
take-drop-write_at (suc n) bytes (x ∷ xs) h = take-drop-write_at n bytes xs (omega arith)

number_at-write_at :
    (offset v : ℕ) (xs : List ℕ)
    → offset + 4 ≤ length xs
    → number_at offset (write_at offset (bytes_of 4 v) xs) ≡ v % 2 ^ 32
unfolding bytes_of number_of
number_at-write_at offset v xs h =
    ap number_of (take-drop-write_at offset (bytes_of 4 v) xs h) ∙ number_of-four v
  where
    number_of-four : (v : ℕ) → number_of (bytes_of 4 v) ≡ v % 2 ^ 32
    number_of-four v = omega arith

pub length-take : (n : ℕ) (bytes : List ℕ) → n ≤ length bytes → length (take n bytes) ≡ n
unfolding take
length-take zero bytes h = refl
length-take (suc n) [] h = absurd (omega arith)
length-take (suc n) (b ∷ bytes) h = ap suc (length-take n bytes (omega arith))

same_target :
    (s old new nd : ℕ) → nd ≡ wrap (s + wrap_sub old new) → wrap (new + nd) ≡ wrap (old + s)
same_target s old new nd e = omega (arith, e)

-- A conditional result that is there: the condition held.
pub when_some :
    {A : Type 0} (b : Bool) (w moved : A)
    → (if b then some w else none) ≡ some moved
    → (b ≡ true) × (w ≡ moved)
when_some true w moved e = (refl, ground (arith, e))
when_some false w moved e = ground (arith, e)

fix_displacement-same_target :
    (instr : Instruction) (bytes copied moved : List ℕ) (at old_address new_address : ℕ)
    → at + instr.disp_offset + 4 ≤ length copied
    → fix_displacement instr bytes copied at old_address new_address ≡ some moved
    → wrap (new_address + sign_extend (number_at (at + instr.disp_offset) moved))
      ≡ wrap (old_address + sign_extend (number_at instr.disp_offset bytes))
unfolding fix_displacement new_displacement
fix_displacement-same_target instr bytes copied moved at old_address new_address inside e =
    let s = sign_extend (number_at instr.disp_offset bytes) in
    let nd = wrap (s + wrap_sub old_address new_address) in
    let written = write_at (at + instr.disp_offset) (bytes_of 4 (nd % 2 ^ 32)) copied in
    let (fits, same) = when_some (fits_int32 nd) written moved e in
    let stored =
      ap (number_at (at + instr.disp_offset)) (sym same)
      ∙ number_at-write_at (at + instr.disp_offset) (nd % 2 ^ 32) copied inside
      ∙ mod_twice nd in
    ap (λ d. wrap (new_address + sign_extend d)) stored
    ∙ same_target s old_address new_address (sign_extend (nd % 2 ^ 32))
        (sign_extend-fits nd (omega arith) fits)
  where
    mod_twice : (v : ℕ) → v % 2 ^ 32 % 2 ^ 32 ≡ v % 2 ^ 32
    mod_twice v = omega arith

-- An instruction with a displacement of 32 bits from the instruction pointer, which lies within the
-- instruction: when it is moved to the end of the code, the stored displacement leads from its new
-- address where the old one led from its old address.
pub move_instruction-same_target :
    (instr : Instruction) (bytes out moved : List ℕ) (old_address region_base : ℕ)
    → needs_fix instr ≡ true
    → instr.length_of ≤ length bytes
    → instr.disp_offset + 4 ≤ instr.length_of
    → move_instruction instr bytes out old_address region_base ≡ some moved
    → wrap (
        wrap (region_base + length out)
        + sign_extend (number_at (length out + instr.disp_offset) moved))
      ≡ wrap (old_address + sign_extend (number_at instr.disp_offset bytes))
unfolding move_instruction
move_instruction-same_target instr bytes out moved old_address region_base fix whole inside e =
    let copied = out ++ take instr.length_of bytes in
    let new_address = wrap (region_base + length out) in
    fix_displacement-same_target instr bytes copied moved (length out) old_address new_address
      (omega (
        arith,
        length-append out (take instr.length_of bytes),
        length-take instr.length_of bytes whole,
      ))
      (sym (
          ap
            (λ b.
              if b
              then fix_displacement instr bytes copied (length out) old_address new_address
              else some copied)
            fix)
        ∙ e)
