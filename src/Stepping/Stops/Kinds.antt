-- ===== src/Stepping/Stops/Kinds.antt =====
-- The stops of a line are its ways out.
use chronoporia.Base.{
  ℕ, ◌≡◌, refl, ap, ◌∙◌, Bool, true, false, ◌||◌, Option, none, some, List, [], ◌∷◌, arith,
  if◌then◌else◌, ==-refl, ==_iff, Bool-cases, inl, inr, All, All-append, Any,
}
use mathlib.Core.Option.{some-injective}
use chronoporia.Instrument.{BranchSite, FunctionAnalysis}
use chronoporia.Instrument.Block.{Staging}
use chronoporia.Stepping.{LineRange, address_in_line_ranges}
use chronoporia.Stepping.Stops.{
  StepMode, StepBreakpointKind, at_line, StepBreakpoint, has_stop, falls_through, stop_of,
  add_breakpoint, add_stop, add_range_ends, add_branch_stops, stops_of,
}
use chronoporia.Stepping.Stops.Ways.{
  IsExit, BranchLeaves, EndLeaves, address_in_line_ranges-InLine, InLine-address_in_line_ranges,
  falls_through-WalksOff, WalksOff-falls_through, stop_of-Leaves, Leaves-stop_of,
}
use chronoporia.Stepping.Stops.Exits.{AreStops, ends_at, exits_at, stops_of-AreStops}

if_some :
    {A : Type 0} (b : Bool) (o : Option A) (a : A)
    → (if b then o else none) ≡ some a
    → (b ≡ true) × (o ≡ some a)
if_some true o a e = (refl, e)
if_some false o a e = ground (arith, e)

module _ (s : Staging) (has_source : ℕ → Bool) (P : ℕ → StepBreakpointKind → Type 0) where
  -- Each stop has an address and a kind as they should be, and what the symbols know.
  abbrev AllStops : List StepBreakpoint → Type 0
  AllStops stops =
      All
        (λ bp.
          P bp.original_address bp.step_kind
          × (bp.has_source_info ≡ has_source bp.original_address))
        stops

  add_stop-AllStops :
      (stop : Option (ℕ × StepBreakpointKind)) (stops : List StepBreakpoint)
      → ((a : ℕ) (k : StepBreakpointKind) → stop ≡ some (a, k) → P a k)
      → AllStops stops
      → AllStops (add_stop s has_source stop stops)
  unfolding add_breakpoint
  add_stop-AllStops none stops h all = all
  add_stop-AllStops (some (address, kind)) stops h all =
      elim (Bool-cases (has_stop address stops)) [
        | inl there ↦ rw (there, add_breakpoint) all
        | inr new ↦
            rw (new, add_breakpoint)
              (All-append
                (λ bp.
                  P bp.original_address bp.step_kind
                  × (bp.has_source_info ≡ has_source bp.original_address))
                stops _ all ((h address kind refl, refl), tt))
      ]

  add_range_ends-AllStops :
      (branches : List BranchSite) (ranges : List LineRange) (stops : List StepBreakpoint)
      → ((a : ℕ) (k : StepBreakpointKind) → Any (EndLeaves branches a k) ranges → P a k)
      → AllStops stops
      → AllStops (add_range_ends s has_source branches ranges stops)
  unfolding add_range_ends
  add_range_ends-AllStops branches [] stops h all = all
  add_range_ends-AllStops branches (range ∷ ranges) stops h all =
      add_range_ends-AllStops branches ranges _ (λ a k way. h a k (inr way))
        (add_stop-AllStops
          (if falls_through branches range.end then some (range.end, at_line) else none) stops
          (λ a k e.
            let (falls, same) =
              if_some (falls_through branches range.end) (some (range.end, at_line)) (a, k) e in
            let both = some-injective (range.end, at_line) (a, k) same in
            h a k (
              inl (
                falls_through-WalksOff branches range.end falls,
                ap (λ (p : ℕ × StepBreakpointKind). p.0) both,
                ap (λ (p : ℕ × StepBreakpointKind). p.1) both,
              )))
          all)

  add_branch_stops-AllStops :
      (mode : StepMode) (ranges : List LineRange) (branches : List BranchSite)
      (stops : List StepBreakpoint)
      → ((a : ℕ) (k : StepBreakpointKind) → Any (BranchLeaves mode ranges a k) branches → P a k)
      → AllStops stops
      → AllStops (add_branch_stops s has_source mode ranges branches stops)
  unfolding add_branch_stops
  add_branch_stops-AllStops mode ranges [] stops h all = all
  add_branch_stops-AllStops mode ranges (b ∷ branches) stops h all =
      add_branch_stops-AllStops mode ranges branches _ (λ a k way. h a k (inr way))
        (add_stop-AllStops
          (if address_in_line_ranges ranges b.address then stop_of mode ranges b else none) stops
          (λ a k e.
            let (inside, same) =
              if_some (address_in_line_ranges ranges b.address) (stop_of mode ranges b) (a, k) e in
            h a k (
              inl (
                address_in_line_ranges-InLine ranges b.address inside,
                stop_of-Leaves mode ranges b a k same,
              )))
          all)

module _ (mode : StepMode) (ranges : List LineRange) (a : ℕ) (k : StepBreakpointKind) where
  leaves-exits_at :
      (branches : List BranchSite)
      → Any (BranchLeaves mode ranges a k) branches
      → exits_at mode ranges branches a ≡ true
  unfolding exits_at
  leaves-exits_at [] h = absurd (omega (arith, h))
  leaves-exits_at (b ∷ branches) (inl (inside, leaves)) =
      rw
        (
          InLine-address_in_line_ranges ranges b.address inside,
          Leaves-stop_of mode ranges b a k leaves,
        )
        (ground (arith, ==-refl a))
  leaves-exits_at (b ∷ branches) (inr later) = ground (arith, leaves-exits_at branches later)

  leaves-ends_at :
      (branches : List BranchSite) (rs : List LineRange)
      → Any (EndLeaves branches a k) rs
      → ends_at branches rs a ≡ true
  unfolding ends_at
  leaves-ends_at branches [] h = absurd (omega (arith, h))
  leaves-ends_at branches (range ∷ rs) (inl (walks, at, same)) =
      ground (arith, WalksOff-falls_through branches range.end walks, (==_iff range.end a).1 at)
  leaves-ends_at branches (range ∷ rs) (inr later) =
      ground (arith, leaves-ends_at branches rs later)

  IsExit-has_stop :
      (fn : FunctionAnalysis)
      → IsExit mode ranges fn a k
      → (exits_at mode ranges fn.branches a || ends_at fn.branches ranges a) ≡ true
  IsExit-has_stop fn (inl branch) = ground (arith, leaves-exits_at fn.branches branch)
  IsExit-has_stop fn (inr end) = ground (arith, leaves-ends_at fn.branches ranges end)

-- The stops for a step are at different addresses, each with the true address of its original one and
-- with what the symbols know of it. Each is at a way out of the line and of its kind: at the target,
-- outside of the line, of a conditional branch or a jump in the line; when stepping into calls, at a
-- call in the line; at an indirect jump or a return in the line; or at the end of a range of the line
-- that control walks over. And each such way out has a stop at its address.
pub stops_of-IsExit :
    (s : Staging) (has_source : ℕ → Bool) (mode : StepMode) (ranges : List LineRange)
    (fn : FunctionAnalysis)
    → AreStops s has_source (stops_of s has_source mode ranges fn)
      × All
          (λ bp.
            IsExit mode ranges fn bp.original_address bp.step_kind
            × (bp.has_source_info ≡ has_source bp.original_address))
          (stops_of s has_source mode ranges fn)
      × ((a : ℕ) (k : StepBreakpointKind)
          → IsExit mode ranges fn a k
          → has_stop a (stops_of s has_source mode ranges fn) ≡ true)
unfolding stops_of
stops_of-IsExit s has_source mode ranges fn =
    let (are_stops, there) = stops_of-AreStops s has_source mode ranges fn in
    (
      are_stops,
      add_branch_stops-AllStops s has_source (IsExit mode ranges fn) mode ranges fn.branches
          (add_range_ends s has_source fn.branches ranges []) (λ a k way. inl way)
          (add_range_ends-AllStops s has_source (IsExit mode ranges fn) fn.branches ranges []
            (λ a k way. inr way) tt),
      λ a k way. there a ∙ IsExit-has_stop mode ranges a k fn way,
    )
