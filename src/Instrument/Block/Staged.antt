-- ===== src/Instrument/Block/Staged.antt =====
-- The two maps of the staged stubs lead back to each other.
use chronoporia.Base.{
  ℕ, suc, ◌+◌, ◌^◌, ◌≤◌, ◌<◌, ◌≡◌, refl, ap, sym, subst, ◌∙◌, some, List, [], ◌∷◌, arith,
  if◌then◌else◌, ◌==◌, ==_iff, lookup, insert, lookup-insert, Bool-cases, inl, inr,
}
use mathlib.Core.Option.{some-injective}
use chronoporia.Instrument.{wrap}
use chronoporia.Instrument.Blocks.Cover.{Ascending, Ascending-le}
use chronoporia.Instrument.Block.{
  Staging, note_original, note_rsp_fix, note_prologue, note_moved, note_displaced,
}

-- Every key of the map is an address of the region's first bytes.
abbrev pub IsWithin : List (ℕ × ℕ) → ℕ → ℕ → Type 0
IsWithin m base limit = (t o : ℕ) → lookup t m ≡ some o → (base ≤ t) × (t < base + limit)

-- An instruction that was moved is found again from where it was moved to.
abbrev pub IsKept : List (ℕ × (ℕ × ℕ)) → List (ℕ × ℕ) → Type 0
IsKept remap m = (o t n : ℕ) → lookup o remap ≡ some (t, n) → lookup t m ≡ some o

IsWithin-insert :
    (m : List (ℕ × ℕ)) (base limit x o : ℕ)
    → IsWithin m base limit
    → limit ≤ x
    → base + x < 2 ^ 64
    → IsWithin (insert (wrap (base + x)) o m) base (suc x)
IsWithin-insert m base limit x o within h fits t p e = elim (Bool-cases (wrap (base + x) == t)) [
  | inl same ↦ omega (arith, (==_iff (wrap (base + x)) t).0 same)
  | inr other ↦
      let old = within t p (
        sym
          (lookup-insert (wrap (base + x)) t o m ∙ ap (λ b. if b then some o else lookup t m) other)
        ∙ e) in
      omega (arith, old)
]

IsKept-insert :
    (remap : List (ℕ × (ℕ × ℕ))) (m : List (ℕ × ℕ)) (base limit x o : ℕ)
    → IsWithin m base limit
    → limit ≤ x
    → base + x < 2 ^ 64
    → IsKept remap m
    → IsKept remap (insert (wrap (base + x)) o m)
IsKept-insert remap m base limit x o within h fits kept p t n e =
    elim (Bool-cases (wrap (base + x) == t)) [
      | inl same ↦
          absurd (omega (arith, within t p (kept p t n e), (==_iff (wrap (base + x)) t).0 same))
      | inr other ↦
          lookup-insert (wrap (base + x)) t o m
          ∙ ap (λ b. if b then some o else lookup t m) other
          ∙ kept p t n e
    ]

IsKept-insert_moved :
    (remap : List (ℕ × (ℕ × ℕ))) (m : List (ℕ × ℕ)) (t o size : ℕ)
    → IsKept remap (insert t o m)
    → IsKept (insert o (t, size) remap) (insert t o m)
IsKept-insert_moved remap m t o size kept p u n e =
    ground (arith, lookup-insert o p (t, size) remap, lookup-insert t u o m, kept p u n)

abbrev pub IsNoted : Staging → ℕ → Type 0
IsNoted s limit =
    IsWithin s.instruction_address_to_original s.region_base limit
    × IsKept s.instruction_remap s.instruction_address_to_original

pub IsNoted-le : (s : Staging) (low high : ℕ) → low ≤ high → IsNoted s low → IsNoted s high
IsNoted-le s low high h noted = (λ t o e. within (noted.0 t o e), noted.1)
  where
    within :
        {t : ℕ}
        → (s.region_base ≤ t) × (t < s.region_base + low)
        → (s.region_base ≤ t) × (t < s.region_base + high)
    within k = omega (arith, h, k)

pub note_original-IsNoted :
    (s : Staging) (limit x original : ℕ)
    → IsNoted s limit
    → limit ≤ x
    → s.region_base + x < 2 ^ 64
    → IsNoted (note_original (wrap (s.region_base + x)) original s) (suc x)
note_original-IsNoted s limit x original noted h fits = (
  IsWithin-insert s.instruction_address_to_original s.region_base limit x original noted.0 h fits,
  IsKept-insert s.instruction_remap s.instruction_address_to_original s.region_base limit x original
      noted.0 h fits noted.1,
)

note_moved-IsNoted :
    (s : Staging) (limit x original size : ℕ)
    → IsNoted s limit
    → limit ≤ x
    → s.region_base + x < 2 ^ 64
    → IsNoted (note_moved original size (wrap (s.region_base + x)) s) (suc x)
note_moved-IsNoted s limit x original size noted h fits =
    let (within, kept) = note_original-IsNoted s limit x original noted h fits in
    (
      within,
      IsKept-insert_moved s.instruction_remap s.instruction_address_to_original
          (wrap (s.region_base + x)) original size kept,
    )

-- What the notes leave alone.
abbrev pub SameCode : Staging → Staging → Type 0
SameCode s t = (t.region_base ≡ s.region_base) × (t.code ≡ s.code) × (t.patches ≡ s.patches)

pub note_prologue-SameCode :
    (table : List (ℕ × ℕ)) (mark first : ℕ) (s : Staging)
    → SameCode s (note_prologue table mark first s)
unfolding note_prologue
note_prologue-SameCode [] mark first s = (refl, refl, refl)
note_prologue-SameCode ((offset, bytes) ∷ table) mark first s =
    let new_addr = wrap (s.region_base + offset + mark) in
    note_prologue-SameCode table mark first
      (note_rsp_fix offset new_addr bytes (note_original new_addr first s))

pub note_displaced-SameCode :
    (instrs : List (ℕ × ℕ)) (offsets : List ℕ) (s t : Staging)
    → note_displaced instrs offsets s ≡ some t
    → SameCode s t
unfolding note_displaced
note_displaced-SameCode [] [] s t e = subst (SameCode s) (some-injective s t e) (refl, refl, refl)
note_displaced-SameCode [] (offset ∷ offsets) s t e = ground (arith, e)
note_displaced-SameCode (instr ∷ instrs) [] s t e = ground (arith, e)
note_displaced-SameCode ((original, size) ∷ instrs) (offset ∷ offsets) s t e =
    note_displaced-SameCode instrs offsets
      (note_moved original size (wrap (s.region_base + offset)) s) t e

-- The offsets of the table, in order.
abbrev pub offsets_of : List (ℕ × ℕ) → List ℕ
offsets_of [] = []
offsets_of ((offset, bytes) ∷ table) = offset ∷ offsets_of table

pub note_prologue-IsNoted :
    (table : List (ℕ × ℕ)) (low end mark first : ℕ) (s : Staging)
    → Ascending low (offsets_of table) end
    → IsNoted s (mark + low)
    → s.region_base + (mark + end) ≤ 2 ^ 64
    → IsNoted (note_prologue table mark first s) (mark + end)
unfolding note_prologue
note_prologue-IsNoted [] low end mark first s asc noted fits =
    IsNoted-le s (mark + low) (mark + end) (omega arith) noted
note_prologue-IsNoted ((offset, bytes) ∷ table) low end mark first s asc noted fits =
    let new_addr = wrap (s.region_base + offset + mark) in
    let one = note_rsp_fix offset new_addr bytes (note_original new_addr first s) in
    note_prologue-IsNoted table (suc offset) end mark first one asc.1
      (subst (λ a. IsNoted (note_original a first s) (mark + suc offset)) (same_address offset)
        (IsNoted-le (note_original (wrap (s.region_base + (mark + offset))) first s)
          (suc (mark + offset)) (mark + suc offset) (omega arith)
          (note_original-IsNoted s (mark + low) (mark + offset) first noted (omega (arith, asc.0))
            (omega (arith, Ascending-le (suc offset) (offsets_of table) end asc.1)))))
      fits
  where
    same_address :
        (offset : ℕ) → wrap (s.region_base + (mark + offset)) ≡ wrap (s.region_base + offset + mark)
    same_address offset = omega arith

pub note_displaced-IsNoted :
    (instrs : List (ℕ × ℕ)) (offsets : List ℕ) (low end : ℕ) (s t : Staging)
    → Ascending low offsets end
    → IsNoted s low
    → s.region_base + end ≤ 2 ^ 64
    → note_displaced instrs offsets s ≡ some t
    → IsNoted t end
unfolding note_displaced
note_displaced-IsNoted [] [] low end s t asc noted fits e =
    subst (λ u. IsNoted u end) (some-injective s t e) (IsNoted-le s low end asc noted)
note_displaced-IsNoted [] (offset ∷ offsets) low end s t asc noted fits e = ground (arith, e)
note_displaced-IsNoted (instr ∷ instrs) [] low end s t asc noted fits e = ground (arith, e)
note_displaced-IsNoted ((original, size) ∷ instrs) (offset ∷ offsets) low end s t asc noted fits e =
    note_displaced-IsNoted instrs offsets (suc offset) end
      (note_moved original size (wrap (s.region_base + offset)) s) t asc.1
      (note_moved-IsNoted s low offset original size noted asc.0
        (omega (arith, Ascending-le (suc offset) offsets end asc.1)))
      fits e
