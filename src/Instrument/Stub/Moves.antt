-- ===== src/Instrument/Stub/Moves.antt =====
-- The instructions that are moved stand behind one another at the end of the code.
use chronoporia.Base.{
  ℕ, zero, suc, ◌+◌, ◌%◌, ◌^◌, ◌≤◌, ◌<◌, ◌≡◌, refl, ap, sym, subst, ◌∙◌, Option, none, some, List,
  [], ◌∷◌, ◌++◌, arith, if◌then◌else◌, length, length-append, Bool-cases, inl, inr, Option-cases,
  Search, found, nullptr, out_of_fuel,
}
use mathlib.Core.Option.{some-injective}
use chronoporia.Shellcode.{write_at, bytes_of}
use chronoporia.Instrument.{wrap, Instruction}
use chronoporia.Instrument.Analysis.{drop}
use chronoporia.Instrument.Analysis.Sites.{IsDecoder}
use chronoporia.Instrument.Blocks.Cover.{Ascending, Ascending-from}
use chronoporia.Instrument.Stub.{
  take, number_of, fits_int32, new_displacement, needs_fix, fix_displacement, move_instruction,
  relocate_leader, with_offset,
}
use chronoporia.Instrument.Stub.Jumps.{length-take, when_some}

pub length-write_at : (i : ℕ) (bytes xs : List ℕ) → length (write_at i bytes xs) ≡ length xs
unfolding write_at
length-write_at zero [] xs = refl
length-write_at zero (b ∷ bytes) [] = refl
length-write_at zero (b ∷ bytes) (x ∷ xs) = ap suc (length-write_at zero bytes xs)
length-write_at (suc i) bytes [] = refl
length-write_at (suc i) bytes (x ∷ xs) = ap suc (length-write_at i bytes xs)

take-write_at : (n i : ℕ) (bytes xs : List ℕ) → n ≤ i → take n (write_at i bytes xs) ≡ take n xs
unfolding take write_at
take-write_at zero i bytes xs h = refl
take-write_at (suc n) zero bytes xs h = absurd (omega arith)
take-write_at (suc n) (suc i) bytes [] h = refl
take-write_at (suc n) (suc i) bytes (x ∷ xs) h =
    ap (λ r. x ∷ r) (take-write_at n i bytes xs (omega arith))

pub take-append : (n : ℕ) (xs ys : List ℕ) → n ≤ length xs → take n (xs ++ ys) ≡ take n xs
unfolding take
take-append zero xs ys h = refl
take-append (suc n) [] ys h = absurd (omega arith)
take-append (suc n) (x ∷ xs) ys h = ap (λ r. x ∷ r) (take-append n xs ys (omega arith))

pub take-all : (xs : List ℕ) → take (length xs) xs ≡ xs
unfolding take
take-all [] = refl
take-all (x ∷ xs) = ap (λ r. x ∷ r) (take-all xs)

-- Code that is another code with bytes behind it, for the code's first bytes.
abbrev pub Extends : List ℕ → List ℕ → Type 0
Extends out longer =
    (length out ≤ length longer) × ((n : ℕ) → n ≤ length out → take n longer ≡ take n out)

pub Extends-append : (out bytes : List ℕ) → Extends out (out ++ bytes)
Extends-append out bytes =
    (omega (arith, length-append out bytes), λ n h. take-append n out bytes h)

pub Extends-trans : (a b c : List ℕ) → Extends a b → Extends b c → Extends a c
Extends-trans a b c h k =
    (omega (arith, h.0, k.0), λ n le. k.1 n (omega (arith, h.0, le)) ∙ h.1 n le)

move_instruction-Extends :
    (instr : Instruction) (bytes out moved : List ℕ) (old_address region_base : ℕ)
    → instr.length_of ≤ length bytes
    → move_instruction instr bytes out old_address region_base ≡ some moved
    → Extends out moved × (length moved ≡ length out + instr.length_of)
unfolding move_instruction fix_displacement
move_instruction-Extends instr bytes out moved old_address region_base whole e =
    let copied = out ++ take instr.length_of bytes in
    let extends = Extends-append out (take instr.length_of bytes) in
    let at = length out + instr.disp_offset in
    let nd =
      new_displacement (number_of (take 4 (drop instr.disp_offset bytes))) old_address
        (wrap (region_base + length out)) in
    let written = write_at at (bytes_of 4 (nd % 2 ^ 32)) copied in
    let measured : length (out ++ take instr.length_of bytes) ≡ length out + instr.length_of =
      omega (
        arith,
        length-append out (take instr.length_of bytes),
        length-take instr.length_of bytes whole,
      ) in
    elim (Bool-cases (needs_fix instr)) [
      | inl fix ↦
          let (fits, same) = when_some (fits_int32 nd) written moved (
            sym (
              ap (λ b. if b then (if fits_int32 nd then some written else none) else some copied)
                fix)
            ∙ e) in
          subst (λ m. Extends out m × (length m ≡ length out + instr.length_of)) same
            (
              (
                subst (λ l. length out ≤ l)
                    (sym (length-write_at at (bytes_of 4 (nd % 2 ^ 32)) copied)) extends.0,
                λ n le.
                    take-write_at n at (bytes_of 4 (nd % 2 ^ 32)) copied (omega arith)
                    ∙ extends.1 n le,
              ),
              length-write_at at (bytes_of 4 (nd % 2 ^ 32)) copied ∙ measured,
            )
      | inr plain ↦
          subst (λ m. Extends out m × (length m ≡ length out + instr.length_of))
            (some-injective copied moved (
              sym (
                ap (λ b. if b then (if fits_int32 nd then some written else none) else some copied)
                  plain)
              ∙ e))
            (extends, measured)
    ]

-- A result of `relocate_leader`: the code in front is as before; the offsets ascend from the old end of
-- the code and lie in the new code.
abbrev pub IsMoved : List ℕ → List ℕ × Search (List ℕ) → Type 0
IsMoved out (code, result) =
    Extends out code
    × ((offsets : List ℕ) → result ≡ found offsets → Ascending (length out) offsets (length code))

abbrev offsets_in : Search (List ℕ) → List ℕ
offsets_in (found offsets) = offsets
offsets_in _ = []

nullptr-IsMoved : (out code : List ℕ) → Extends out code → IsMoved out (code, nullptr)
nullptr-IsMoved out code h = (h, λ offsets e. ground (arith, e))

with_offset-IsMoved :
    (out moved code : List ℕ) (result : Search (List ℕ))
    → Extends out moved
    → length out < length moved
    → IsMoved moved (code, result)
    → IsMoved out (code, with_offset (length out) result)
with_offset-IsMoved out moved code (found offsets) h lt k = (
  Extends-trans out moved code h k.0,
  λ all e.
      subst (λ o. Ascending (length out) o (length code)) (ap offsets_in e)
        (
          omega arith,
          Ascending-from (suc (length out)) (length moved) offsets (length code) (omega arith)
              (k.1 offsets refl),
        ),
)
with_offset-IsMoved out moved code nullptr h lt k =
    nullptr-IsMoved out code (Extends-trans out moved code h k.0)
with_offset-IsMoved out moved code out_of_fuel h lt k =
    (Extends-trans out moved code h k.0, λ offsets e. ground (arith, e))

pub relocate_leader-IsMoved :
    (decode : List ℕ → Option Instruction) (decoder : IsDecoder decode) (fuel : ℕ)
    (out bytes : List ℕ) (old_address region_base : ℕ)
    → IsMoved out (relocate_leader decode fuel out bytes old_address region_base)
unfolding relocate_leader
relocate_leader-IsMoved decode decoder fuel out [] old_address region_base = (
  (omega arith, λ n h. refl),
  λ offsets e. subst (λ o. Ascending (length out) o (length out)) (ap offsets_in e) (omega arith),
)
relocate_leader-IsMoved decode decoder zero out (b ∷ bytes) old_address region_base =
    ((omega arith, λ n h. refl), λ offsets e. ground (arith, e))
relocate_leader-IsMoved decode decoder (suc fuel) out (b ∷ bytes) old_address region_base =
    elim (Option-cases (decode (b ∷ bytes))) [
      | inl undecoded ↦
          rw (undecoded, relocate_leader) (nullptr-IsMoved out out (omega arith, λ n h. refl))
      | inr (instr, decoded) ↦
          (elim (Option-cases (move_instruction instr (b ∷ bytes) out old_address region_base)) [
            | inl far ↦
                rw (decoded, far, relocate_leader)
                  (nullptr-IsMoved out (out ++ take instr.length_of (b ∷ bytes))
                    (Extends-append out (take instr.length_of (b ∷ bytes))))
            | inr (moved, fits) ↦
                let (positive, whole) = decoder (b ∷ bytes) instr decoded in
                let (extends, measured) =
                  move_instruction-Extends instr (b ∷ bytes) out moved old_address region_base whole
                    fits in
                let rest =
                  relocate_leader decode fuel moved (drop instr.length_of (b ∷ bytes))
                    (wrap (old_address + instr.length_of)) region_base in
                rw (decoded, fits, relocate_leader)
                  (with_offset-IsMoved out moved rest.0 rest.1 extends (omega arith) (
                    relocate_leader-IsMoved decode decoder fuel moved
                      (drop instr.length_of (b ∷ bytes)) (wrap (old_address + instr.length_of))
                      region_base))
          ])
    ]
