-- ===== src/Stepping/Stops/Ways.antt =====
-- The ways out of a line of the source, said without the functions that look for them.
use chronoporia.Base.{
  ℕ, ◌≤◌, ◌<◌, ◌≡◌, ◌≢◌, ◌⊎◌, refl, ap, true, false, Option, some, List, [], ◌∷◌, arith, ==_iff,
  ◌==◌, Bool-cases, inl, inr, Any,
}
use mathlib.Core.Option.{some-injective}
use chronoporia.Instrument.{
  BranchKind, conditional, unconditional_jmp, call_branch, return_branch, indirect_jump,
  indirect_call, BranchSite, FunctionAnalysis,
}
use chronoporia.Stepping.{LineRange, in_range, address_in_line_ranges}
use chronoporia.Stepping.Stops.{
  StepMode, by_line, into, StepBreakpointKind, at_line, at_call, at_indirect_jump, at_return,
  kind_falls_through, falls_through, stop_of,
}

-- The line has code at the address.
abbrev pub InLine : List LineRange → ℕ → Type 0
InLine ranges address = Any (λ r. (r.start ≤ address) × (address < r.end)) ranges

-- A branch of the line leads out of it, or into a callee that is to be stopped in: where the stop goes,
-- and of what kind it is.
pub data Leaves (mode : StepMode) (ranges : List LineRange) (b : BranchSite) (a : ℕ)
    (k : StepBreakpointKind) : Type 0 where
  taken :
      b.kind ≡ conditional
      → ¬ InLine ranges b.target
      → b.target ≡ a
      → at_line ≡ k
      → Leaves mode ranges b a k
  jumps :
      b.kind ≡ unconditional_jmp
      → ¬ InLine ranges b.target
      → b.target ≡ a
      → at_line ≡ k
      → Leaves mode ranges b a k
  calls :
      mode ≡ into
      → (b.kind ≡ call_branch) ⊎ (b.kind ≡ indirect_call)
      → b.address ≡ a
      → at_call ≡ k
      → Leaves mode ranges b a k
  jumps_indirect :
      b.kind ≡ indirect_jump → b.address ≡ a → at_indirect_jump ≡ k → Leaves mode ranges b a k
  returns : b.kind ≡ return_branch → b.address ≡ a → at_return ≡ k → Leaves mode ranges b a k

-- Control goes on behind the branch, when it is not taken or when the callee returns.
abbrev pub GoesOn : BranchKind → Type 0
GoesOn kind = (kind ≡ conditional) ⊎ (kind ≡ call_branch) ⊎ (kind ≡ indirect_call)

-- Control walks over the end of a range: no branch ends there, or the first one that does goes on.
abbrev pub WalksOff : List BranchSite → ℕ → Type 0
WalksOff [] end = Unit
WalksOff (b ∷ branches) end =
    ((b.next_address ≡ end) × GoesOn b.kind) ⊎ ((b.next_address ≢ end) × WalksOff branches end)

abbrev pub BranchLeaves : StepMode → List LineRange → ℕ → StepBreakpointKind → BranchSite → Type 0
BranchLeaves mode ranges a k b = InLine ranges b.address × Leaves mode ranges b a k

abbrev pub EndLeaves : List BranchSite → ℕ → StepBreakpointKind → LineRange → Type 0
EndLeaves branches a k range = WalksOff branches range.end × (range.end ≡ a) × (at_line ≡ k)

-- A way out of the line, at an address and of a kind.
abbrev pub IsExit : StepMode → List LineRange → FunctionAnalysis → ℕ → StepBreakpointKind → Type 0
IsExit mode ranges fn a k =
    Any (BranchLeaves mode ranges a k) fn.branches ⊎ Any (EndLeaves fn.branches a k) ranges

pub address_in_line_ranges-InLine :
    (ranges : List LineRange) (a : ℕ) → address_in_line_ranges ranges a ≡ true → InLine ranges a
unfolding address_in_line_ranges
address_in_line_ranges-InLine [] a e = ground (arith, e)
address_in_line_ranges-InLine (r ∷ ranges) a e = elim (Bool-cases (in_range r a)) [
  | inl inside ↦ inl (ground (arith, inside), ground (arith, inside))
  | inr outside ↦ inr (address_in_line_ranges-InLine ranges a (ground (arith, outside, e)))
]

pub InLine-address_in_line_ranges :
    (ranges : List LineRange) (a : ℕ) → InLine ranges a → address_in_line_ranges ranges a ≡ true
unfolding address_in_line_ranges
InLine-address_in_line_ranges [] a h = absurd (omega (arith, h))
InLine-address_in_line_ranges (r ∷ ranges) a (inl (low, high)) = ground (arith, low, high)
InLine-address_in_line_ranges (r ∷ ranges) a (inr later) =
    ground (arith, InLine-address_in_line_ranges ranges a later)

out_of_line :
    (ranges : List LineRange) (a : ℕ) → address_in_line_ranges ranges a ≡ false → ¬ InLine ranges a
out_of_line ranges a e h = ground (arith, e, InLine-address_in_line_ranges ranges a h)

outside_ranges :
    (ranges : List LineRange) (a : ℕ) → ¬ InLine ranges a → address_in_line_ranges ranges a ≡ false
outside_ranges ranges a h = elim (Bool-cases (address_in_line_ranges ranges a)) [
  | inl e ↦ absurd (h (address_in_line_ranges-InLine ranges a e))
  | inr e ↦ e
]

kind_falls_through-GoesOn : (kind : BranchKind) → kind_falls_through kind ≡ true → GoesOn kind
unfolding kind_falls_through
kind_falls_through-GoesOn conditional e = inl refl
kind_falls_through-GoesOn unconditional_jmp e = ground (arith, e)
kind_falls_through-GoesOn call_branch e = inr (inl refl)
kind_falls_through-GoesOn return_branch e = ground (arith, e)
kind_falls_through-GoesOn indirect_jump e = ground (arith, e)
kind_falls_through-GoesOn indirect_call e = inr (inr refl)

GoesOn-kind_falls_through : (kind : BranchKind) → GoesOn kind → kind_falls_through kind ≡ true
unfolding kind_falls_through
GoesOn-kind_falls_through kind (inl e) = rw e refl
GoesOn-kind_falls_through kind (inr (inl e)) = rw e refl
GoesOn-kind_falls_through kind (inr (inr e)) = rw e refl

pub falls_through-WalksOff :
    (branches : List BranchSite) (end : ℕ)
    → falls_through branches end ≡ true
    → WalksOff branches end
unfolding falls_through
falls_through-WalksOff [] end e = tt
falls_through-WalksOff (b ∷ branches) end e = elim (Bool-cases (b.next_address == end)) [
  | inl here ↦ inl (
    (==_iff b.next_address end).0 here,
    kind_falls_through-GoesOn b.kind (ground (arith, here, e)),
  )
  | inr later ↦ inr (
    ground (arith, later, ==_iff b.next_address end),
    falls_through-WalksOff branches end (ground (arith, later, e)),
  )
]

pub WalksOff-falls_through :
    (branches : List BranchSite) (end : ℕ)
    → WalksOff branches end
    → falls_through branches end ≡ true
unfolding falls_through
WalksOff-falls_through [] end h = refl
WalksOff-falls_through (b ∷ branches) end (inl (here, on)) =
    ground (arith, (==_iff b.next_address end).1 here, GoesOn-kind_falls_through b.kind on)
WalksOff-falls_through (b ∷ branches) end (inr (other, later)) =
    ground (arith, ==_iff b.next_address end, other, WalksOff-falls_through branches end later)

module _ (mode : StepMode) (ranges : List LineRange) (b : BranchSite) (a : ℕ)
    (k : StepBreakpointKind) where
  address_of :
      {c : ℕ} {j : StepBreakpointKind}
      → ◌≡◌ {A = Option (ℕ × StepBreakpointKind)} (some (c, j)) (some (a, k))
      → (c ≡ a) × (j ≡ k)
  address_of {c} {j} e =
      let same = some-injective (c, j) (a, k) e in
      (ap (λ (p : ℕ × StepBreakpointKind). p.0) same, ap (λ (p : ℕ × StepBreakpointKind). p.1) same)

  stop_of-kind :
      (kind : BranchKind)
      → b.kind ≡ kind
      → (m : StepMode) → mode ≡ m
      → stop_of mode ranges b ≡ some (a, k)
      → Leaves mode ranges b a k
  unfolding stop_of
  stop_of-kind conditional e m f = elim (Bool-cases (address_in_line_ranges ranges b.target)) [
    | inl inside ↦ rw (e, stop_of, inside) (λ h. ground (arith, h))
    | inr outside ↦
        rw (e, stop_of, outside)
          (λ h. taken refl (out_of_line ranges b.target outside) (address_of h).0 (address_of h).1)
  ]
  stop_of-kind unconditional_jmp e m f =
      elim (Bool-cases (address_in_line_ranges ranges b.target)) [
        | inl inside ↦ rw (e, stop_of, inside) (λ h. ground (arith, h))
        | inr outside ↦
            rw (e, stop_of, outside)
              (λ h.
                jumps refl (out_of_line ranges b.target outside) (address_of h).0 (address_of h).1)
      ]
  stop_of-kind call_branch e by_line f = rw (e, stop_of, f) (λ h. ground (arith, h))
  stop_of-kind call_branch e into f =
      rw (e, stop_of, f) (λ h. calls refl (inl refl) (address_of h).0 (address_of h).1)
  stop_of-kind indirect_call e by_line f = rw (e, stop_of, f) (λ h. ground (arith, h))
  stop_of-kind indirect_call e into f =
      rw (e, stop_of, f) (λ h. calls refl (inr refl) (address_of h).0 (address_of h).1)
  stop_of-kind indirect_jump e m f =
      rw (e, stop_of) (λ h. jumps_indirect refl (address_of h).0 (address_of h).1)
  stop_of-kind return_branch e m f =
      rw (e, stop_of) (λ h. returns refl (address_of h).0 (address_of h).1)

  pub stop_of-Leaves : stop_of mode ranges b ≡ some (a, k) → Leaves mode ranges b a k
  stop_of-Leaves = stop_of-kind b.kind refl mode refl

  -- A branch that leaves has its stop.
  pub Leaves-stop_of : Leaves mode ranges b a k → stop_of mode ranges b ≡ some (a, k)
  unfolding stop_of
  Leaves-stop_of (taken e out p q) = rw (e, outside_ranges ranges b.target out, p, q) refl
  Leaves-stop_of (jumps e out p q) = rw (e, outside_ranges ranges b.target out, p, q) refl
  Leaves-stop_of (calls m (inl e) p q) = rw (e, m, p, q) refl
  Leaves-stop_of (calls m (inr e) p q) = rw (e, m, p, q) refl
  Leaves-stop_of (jumps_indirect e p q) = rw (e, p, q) refl
  Leaves-stop_of (returns e p q) = rw (e, p, q) refl
