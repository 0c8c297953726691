-- ===== src/Stepping/Stops/Exits.antt =====
-- Every way out of a line has one stop.
use chronoporia.Base.{
  ℕ, ◌≡◌, ◌⊎◌, refl, ap, sym, subst, ◌∙◌, Bool, true, false, ◌&&◌, ◌||◌, Option, none, some, List,
  [], ◌∷◌, ◌++◌, arith, if◌then◌else◌, ◌==◌, ==_iff, Bool-cases, inl, inr, All, All-append,
}
use chronoporia.Instrument.{BranchSite, FunctionAnalysis}
use chronoporia.Instrument.Block.{Staging, get_true_instruction_address}
use chronoporia.Stepping.{LineRange, address_in_line_ranges}
use chronoporia.Stepping.Stops.{
  StepMode, StepBreakpointKind, at_line, StepBreakpoint, has_stop, falls_through, stop_of,
  add_breakpoint, add_stop, add_range_ends, add_branch_stops, stops_of,
}

has_stop-append :
    (address : ℕ) (xs : List StepBreakpoint) (bp : StepBreakpoint)
    → has_stop address (xs ++ bp ∷ []) ≡ (bp.original_address == address || has_stop address xs)
unfolding has_stop
has_stop-append address [] bp = ground arith
has_stop-append address (x ∷ xs) bp = ground (arith, has_stop-append address xs bp)

-- No two stops at one address.
abbrev pub IsDistinct : List StepBreakpoint → Type 0
IsDistinct [] = Unit
IsDistinct (bp ∷ stops) = (has_stop bp.original_address stops ≡ false) × IsDistinct stops

IsDistinct-append :
    (xs : List StepBreakpoint) (bp : StepBreakpoint)
    → has_stop bp.original_address xs ≡ false
    → IsDistinct xs
    → IsDistinct (xs ++ bp ∷ [])
unfolding has_stop
IsDistinct-append [] bp h k = (refl, tt)
IsDistinct-append (x ∷ xs) bp h k = (
  ground (arith, h, k.0, has_stop-append x.original_address xs bp),
  IsDistinct-append xs bp (ground (arith, h)) k.1,
)

-- The stop that was asked for, if any, is at the address.
abbrev pub goes_to : Option (ℕ × StepBreakpointKind) → ℕ → Bool
goes_to none address = false
goes_to (some (at, kind)) address = at == address

goes_to_if :
    (b : Bool) (o : Option (ℕ × StepBreakpointKind)) (a : ℕ)
    → goes_to (if b then o else none) a ≡ (b && goes_to o a)
goes_to_if true o a = refl
goes_to_if false o a = refl

or_rotate : (x y z : Bool) → (y || (x || z)) ≡ ((x || y) || z)
or_rotate true true z = refl
or_rotate true false z = refl
or_rotate false true z = refl
or_rotate false false z = refl

-- Control walks off the end of a range at the address.
unfoldable pub ends_at : List BranchSite → List LineRange → ℕ → Bool
ends_at branches [] address = false
ends_at branches (range ∷ ranges) address =
    falls_through branches range.end && range.end == address || ends_at branches ranges address

-- A branch of the line needs a stop at the address.
unfoldable pub exits_at : StepMode → List LineRange → List BranchSite → ℕ → Bool
exits_at mode ranges [] address = false
exits_at mode ranges (b ∷ branches) address =
    address_in_line_ranges ranges b.address && goes_to (stop_of mode ranges b) address
    || exits_at mode ranges branches address

module _ (s : Staging) (has_source : ℕ → Bool) where
  -- The stops are different, and each has the true address of its original one.
  abbrev pub AreStops : List StepBreakpoint → Type 0
  AreStops stops =
      IsDistinct stops
      × All (λ bp. bp.true_address ≡ (get_true_instruction_address s bp.original_address).0) stops

  add_stop-AreStops :
      (stop : Option (ℕ × StepBreakpointKind)) (stops : List StepBreakpoint)
      → AreStops stops
      → AreStops (add_stop s has_source stop stops)
  unfolding add_breakpoint
  add_stop-AreStops none stops h = h
  add_stop-AreStops (some (address, kind)) stops h = elim (Bool-cases (has_stop address stops)) [
    | inl there ↦ rw (there, add_breakpoint) h
    | inr new ↦
        rw (new, add_breakpoint)
          (
            IsDistinct-append stops (stop_at address kind) new h.0,
            All-append
                (λ bp. bp.true_address ≡ (get_true_instruction_address s bp.original_address).0)
                stops (stop_at address kind ∷ []) h.1 (refl, tt),
          )
  ]
    where
      stop_at : ℕ → StepBreakpointKind → StepBreakpoint
      stop_at address kind = record {
        original_address = address;
        true_address = (get_true_instruction_address s address).0;
        step_kind = kind;
        has_source_info = has_source address;
      }

  has_stop-add_stop :
      (stop : Option (ℕ × StepBreakpointKind)) (stops : List StepBreakpoint) (a : ℕ)
      → has_stop a (add_stop s has_source stop stops) ≡ (goes_to stop a || has_stop a stops)
  unfolding add_breakpoint
  has_stop-add_stop none stops a = refl
  has_stop-add_stop (some (address, kind)) stops a = elim (Bool-cases (has_stop address stops)) [
    | inl there ↦ rw (there, add_breakpoint) (already address (Bool-cases (address == a)) there)
    | inr new ↦ rw (new, add_breakpoint) (has_stop-append a stops (stop_at address kind))
  ]
    where
      stop_at : ℕ → StepBreakpointKind → StepBreakpoint
      stop_at address kind = record {
        original_address = address;
        true_address = (get_true_instruction_address s address).0;
        step_kind = kind;
        has_source_info = has_source address;
      }

      already :
          (address : ℕ)
          → ((address == a) ≡ true) ⊎ ((address == a) ≡ false)
          → has_stop address stops ≡ true
          → has_stop a stops ≡ (address == a || has_stop a stops)
      already address (inl same) there =
          subst (λ b. has_stop b stops ≡ true) ((==_iff address a).0 same) there
          ∙ sym (ap (λ b. b || has_stop a stops) same)
      already address (inr other) there = sym (ap (λ b. b || has_stop a stops) other)

  add_range_ends-AreStops :
      (branches : List BranchSite) (ranges : List LineRange) (stops : List StepBreakpoint)
      → AreStops stops
      → AreStops (add_range_ends s has_source branches ranges stops)
        × ((a : ℕ)
            → has_stop a (add_range_ends s has_source branches ranges stops)
              ≡ (ends_at branches ranges a || has_stop a stops))
  unfolding add_range_ends ends_at
  add_range_ends-AreStops branches [] stops h = (h, λ a. refl)
  add_range_ends-AreStops branches (range ∷ ranges) stops h =
      let end = if falls_through branches range.end then some (range.end, at_line) else none in
      let one = add_stop s has_source end stops in
      let (rest, there) =
        add_range_ends-AreStops branches ranges one (add_stop-AreStops end stops h) in
      (
        rest,
        λ a.
            there a
            ∙ ap (λ q. ends_at branches ranges a || q)
                (has_stop-add_stop end stops a
                  ∙ ap (λ q. q || has_stop a stops)
                      (goes_to_if (falls_through branches range.end) (some (range.end, at_line)) a))
            ∙ or_rotate (falls_through branches range.end && range.end == a)
                (ends_at branches ranges a) (has_stop a stops),
      )

  add_branch_stops-AreStops :
      (mode : StepMode) (ranges : List LineRange) (branches : List BranchSite)
      (stops : List StepBreakpoint)
      → AreStops stops
      → AreStops (add_branch_stops s has_source mode ranges branches stops)
        × ((a : ℕ)
            → has_stop a (add_branch_stops s has_source mode ranges branches stops)
              ≡ (exits_at mode ranges branches a || has_stop a stops))
  unfolding add_branch_stops exits_at
  add_branch_stops-AreStops mode ranges [] stops h = (h, λ a. refl)
  add_branch_stops-AreStops mode ranges (b ∷ branches) stops h =
      let exit = if address_in_line_ranges ranges b.address then stop_of mode ranges b else none in
      let one = add_stop s has_source exit stops in
      let (rest, there) =
        add_branch_stops-AreStops mode ranges branches one (add_stop-AreStops exit stops h) in
      (
        rest,
        λ a.
            there a
            ∙ ap (λ q. exits_at mode ranges branches a || q)
                (has_stop-add_stop exit stops a
                  ∙ ap (λ q. q || has_stop a stops)
                      (goes_to_if (address_in_line_ranges ranges b.address) (stop_of mode ranges b)
                        a))
            ∙ or_rotate
                (address_in_line_ranges ranges b.address && goes_to (stop_of mode ranges b) a)
                (exits_at mode ranges branches a) (has_stop a stops),
      )

  -- The stops for a step are at different addresses, each with the true address of its original one, and
  -- there is a stop at an address exactly when control walks off the end of a range of the line there, or
  -- some branch of the line needs a stop there.
  pub stops_of-AreStops :
      (mode : StepMode) (ranges : List LineRange) (fn : FunctionAnalysis)
      → AreStops (stops_of s has_source mode ranges fn)
        × ((a : ℕ)
            → has_stop a (stops_of s has_source mode ranges fn)
              ≡ (exits_at mode ranges fn.branches a || ends_at fn.branches ranges a))
  unfolding stops_of has_stop
  stops_of-AreStops mode ranges fn =
      let (ends, ends_there) = add_range_ends-AreStops fn.branches ranges [] (tt, tt) in
      let (all, there) =
        add_branch_stops-AreStops mode ranges fn.branches
          (add_range_ends s has_source fn.branches ranges []) ends in
      (
        all,
        λ a.
            there a
            ∙ ap (λ b. exits_at mode ranges fn.branches a || b)
                (ends_there a ∙ or_false (ends_at fn.branches ranges a)),
      )
    where
      or_false : (b : Bool) → (b || false) ≡ b
      or_false true = refl
      or_false false = refl
