-- ===== src/Breakpoints/Manager/Counts.antt =====
-- The count of a breakpoint and the threads that hold it, in the map of breakpoints.
use chronoporia.Base.{
  ℕ, suc, ◌+◌, ◌-◌, ◌<◌, ◌≡◌, inl, inr, some, List, [], ◌∷◌, arith, ◌==◌, lookup, insert, erase,
  length, length-append, ==-refl, All, Bool-cases,
}
use chronoporia.Breakpoints.State.{BreakpointType, permanent, Breakpoint, size_mod, Manager, hold}

-- A permanent breakpoint counts once more than it has holders: for the trampoline.
abbrev pub extra : BreakpointType → ℕ
extra permanent = 1
extra _ = 0

abbrev pub HasCount : Breakpoint → Type 0
HasCount bp = bp.count ≡ extra bp.kind + length bp.holding_threads

-- Each breakpoint counts the threads that hold it.
abbrev pub IsCounted : {Process : Type 0} → Manager Process → Type 0
IsCounted m = All (λ e. HasCount e.1) m.address_to_bp

pub counted_insert :
    (k : ℕ) (bp : Breakpoint) (l : List (ℕ × Breakpoint))
    → All (λ e. HasCount e.1) l
    → HasCount bp
    → All (λ e. HasCount e.1) (insert k bp l)
unfolding insert
counted_insert k bp [] h e = (e, tt)
counted_insert k bp ((j, b) ∷ l) h e = elim (Bool-cases (j == k)) [
  | inl i ↦ rw i (e, h.1)
  | inr i ↦ rw i (h.0, counted_insert k bp l h.1 e)
]

-- A write at the key hides what a former write at it put there.
pub insert-insert :
    (k : ℕ) (b c : Breakpoint) (l : List (ℕ × Breakpoint))
    → insert k c (insert k b l) ≡ insert k c l
unfolding insert
insert-insert k b c [] = ground (arith, ==-refl k)
insert-insert k b c ((j, d) ∷ l) = ground (arith, ==-refl k, insert-insert k b c l)

pub counted_erase :
    (k : ℕ) (l : List (ℕ × Breakpoint))
    → All (λ e. HasCount e.1) l
    → All (λ e. HasCount e.1) (erase k l)
unfolding erase
counted_erase k [] h = tt
counted_erase k ((j, b) ∷ l) h = elim (Bool-cases (j == k)) [
  | inl i ↦ rw i (counted_erase k l h.1)
  | inr i ↦ rw i (h.0, counted_erase k l h.1)
]

pub counted_lookup :
    (k : ℕ) (bp : Breakpoint) (l : List (ℕ × Breakpoint))
    → All (λ e. HasCount e.1) l
    → lookup k l ≡ some bp
    → HasCount bp
unfolding lookup
counted_lookup k bp [] h e = ground arith
counted_lookup k bp ((j, b) ∷ l) h e = ground (arith, counted_lookup k bp l h.1)

pub length-hold :
    (t : ℕ) (bp : Breakpoint) → length (hold t bp).holding_threads ≡ suc (length bp.holding_threads)
length-hold t bp = omega (arith, length-append bp.holding_threads (t ∷ []))

-- No count is at its largest value.
abbrev pub HasRoom : {Process : Type 0} → Manager Process → ℕ → Type 0
HasRoom m a = (bp : Breakpoint) → lookup a m.address_to_bp ≡ some bp → bp.count < size_mod - 1
