-- ===== src/Phases/Reverse/Found.antt =====
-- What a reverse replay finds, and what it tries again.
use chronoporia.Base.{
  ℕ, ◌<◌, ◌≡◌, refl, ap, sym, Bool, true, false, ◌&&◌, ◌||◌, Option, none, some, List, [], ◌∷◌,
  ◌++◌, arith, if◌then◌else◌, ◌==◌, ==_iff, leb, Bool-cases, inl, inr,
}
use chronoporia.Breakpoints.Memory.{Memory}
use chronoporia.Breakpoints.State.{Manager}
use chronoporia.Breakpoints.Manager.{disable_breakpoint, enable_breakpoint}
use chronoporia.Stepping.{PotentialPredecessor}
use chronoporia.Phases.Reverse.{
  ReversePhase, ReverseEvent, breakpoint, single_step, other_event, wait_failed, ReverseCall,
  continue_event, resume_all, found, Replayed, with_calls, get_potential_predecessor, ReverseStep,
  try_again, step_over, step_over_seen, stop_here, pass, at_predecessor, decide, Mode, as_usual,
  stepping, see, reverse_loop, run_reverse,
}

-- The first predecessor at the address asks for the counter, which is below the one that was stopped at.
abbrev pub IsPredecessor : ReversePhase → ℕ → ℕ → Type 0
IsPredecessor phase address counter =
    ((p : PotentialPredecessor) × (get_potential_predecessor phase.predecessors address ≡ some p)
      × (p.branch_counter ≡ counter))
    × (counter < phase.stopped_branch_counter)

at_predecessor-stop :
    (counter : ℕ) (o : Option PotentialPredecessor)
    → at_predecessor counter o ≡ stop_here
    → (p : PotentialPredecessor) × (o ≡ some p) × (p.branch_counter ≡ counter)
at_predecessor-stop counter none e = ground (arith, e)
at_predecessor-stop counter (some p) e = elim (Bool-cases (counter == p.branch_counter)) [
  | inl same ↦ (p, refl, sym ((==_iff counter p.branch_counter).0 same))
  | inr other ↦ ground (arith, e, other)
]

when_stop :
    (b c : Bool) (rest : ReverseStep)
    → (if b then try_again else if c then step_over else rest) ≡ stop_here
    → (b ≡ false) × (rest ≡ stop_here)
when_stop true c rest e = ground (arith, e)
when_stop false true rest e = ground (arith, e)
when_stop false false rest e = (refl, e)

or_right : (b c : Bool) → (b || c) ≡ false → c ≡ false
or_right true c e = ground (arith, e)
or_right false c e = e

decide-stop :
    (phase : ReversePhase) (address counter : ℕ)
    → decide phase address counter ≡ stop_here
    → IsPredecessor phase address counter
unfolding decide
decide-stop phase address counter e =
    let caught = address == phase.catch_address && counter == phase.catch_branch_counter in
    let late = leb phase.stopped_branch_counter counter in
    let o = get_potential_predecessor phase.predecessors address in
    let (before, stops) =
      when_stop (caught || late) (address == phase.catch_address) (at_predecessor counter o) e in
    (at_predecessor-stop counter o stops, below (or_right caught late before))
  where
    below :
        leb phase.stopped_branch_counter counter ≡ false → counter < phase.stopped_branch_counter
    below h = ground (arith, h)

-- The last event that was taken is the thread's breakpoint at a predecessor that asks for its counter.
abbrev pub FindsPredecessor : ReversePhase → List ReverseEvent → List ReverseEvent → Type 0
FindsPredecessor phase events left =
    (passed : List ReverseEvent) × (address : ℕ) × (counter : ℕ) × (events
      ≡ passed ++ breakpoint phase.replay_thread_id address counter ∷ left)
    × IsPredecessor phase address counter

FindsPredecessor-cons :
    (phase : ReversePhase) (e : ReverseEvent) (events left : List ReverseEvent)
    → FindsPredecessor phase events left
    → FindsPredecessor phase (e ∷ events) left
FindsPredecessor-cons phase e events left (passed, address, counter, split, is) =
    (e ∷ passed, address, counter, ap (λ es. e ∷ es) split, is)

module _ {Process : Type 0} (memory : Memory Process) (get_true_address : ℕ → ℕ) where
  -- What is true of the loop where it finds a predecessor.
  abbrev IsFound : ReversePhase → List ReverseEvent → Replayed Process → Type 0
  IsFound phase events r = r.ending ≡ found → FindsPredecessor phase events r.left

  later :
      (phase : ReversePhase) (e : ReverseEvent) (events : List ReverseEvent)
      (calls : List ReverseCall) (r : Replayed Process)
      → IsFound phase events r
      → IsFound phase (e ∷ events) (with_calls calls r)
  later phase e events calls r h ended = FindsPredecessor-cons phase e events r.left (h ended)

  at_breakpoint-IsFound :
      (phase : ReversePhase) (m : Manager Process) (t address counter : ℕ)
      (events : List ReverseEvent) (chosen : ReverseStep)
      → decide phase address counter ≡ chosen
      → (t == phase.replay_thread_id) ≡ true
      → ((p : ReversePhase) (n : Manager Process) (mode : Mode)
          → IsFound p events (reverse_loop memory get_true_address p n mode events))
      → IsFound phase (breakpoint t address counter ∷ events) (
          reverse_loop memory get_true_address phase m as_usual
            (breakpoint t address counter ∷ events))
  unfolding reverse_loop
  at_breakpoint-IsFound phase m t address counter events try_again d same on =
      rw (same, d, reverse_loop) (λ ended. ground (arith, ended))
  at_breakpoint-IsFound phase m t address counter events stop_here d same on =
      rw (same, d, reverse_loop)
        (λ ended. (
          [],
          address,
          counter,
          ap (λ u. breakpoint u address counter ∷ events)
              ((==_iff t phase.replay_thread_id).0 same),
          decide-stop phase address counter d,
        ))
  at_breakpoint-IsFound phase m t address counter events step_over d same on =
      rw (same, d, reverse_loop)
        (λ ended.
          FindsPredecessor-cons phase (breakpoint t address counter) events
            (reverse_loop memory get_true_address phase
              (disable_breakpoint memory get_true_address m address).0 (stepping address)
              events).left
            (on phase (disable_breakpoint memory get_true_address m address).0 (stepping address)
              ended))
  at_breakpoint-IsFound phase m t address counter events step_over_seen d same on =
      rw (same, d, reverse_loop)
        (λ ended.
          FindsPredecessor-cons phase (breakpoint t address counter) events
            (reverse_loop memory get_true_address (see address counter phase)
              (disable_breakpoint memory get_true_address m address).0 (stepping address)
              events).left
            (on (see address counter phase) (disable_breakpoint memory get_true_address m address).0
              (stepping address) ended))
  at_breakpoint-IsFound phase m t address counter events pass d same on =
      rw (same, d, reverse_loop)
        (λ ended.
          FindsPredecessor-cons phase (breakpoint t address counter) events
            (reverse_loop memory get_true_address phase m as_usual events).left
            (on phase m as_usual ended))

  reverse_loop-IsFound :
      (events : List ReverseEvent) (phase : ReversePhase) (m : Manager Process) (mode : Mode)
      → IsFound phase events (reverse_loop memory get_true_address phase m mode events)
  unfolding reverse_loop
  reverse_loop-IsFound [] phase m mode = λ ended. ground (arith, ended)
  reverse_loop-IsFound (wait_failed ∷ events) phase m as_usual = λ ended. ground (arith, ended)
  reverse_loop-IsFound (single_step t ∷ events) phase m as_usual =
      later phase (single_step t) events (continue_event t ∷ [])
        (reverse_loop memory get_true_address phase m as_usual events)
        (reverse_loop-IsFound events phase m as_usual)
  reverse_loop-IsFound (other_event t ∷ events) phase m as_usual =
      later phase (other_event t) events (continue_event t ∷ [])
        (reverse_loop memory get_true_address phase m as_usual events)
        (reverse_loop-IsFound events phase m as_usual)
  reverse_loop-IsFound (breakpoint t address counter ∷ events) phase m as_usual =
      elim (Bool-cases (t == phase.replay_thread_id)) [
        | inl same ↦
            at_breakpoint-IsFound phase m t address counter events (decide phase address counter)
              refl same (reverse_loop-IsFound events)
        | inr other ↦
            rw (other, reverse_loop)
              (later phase (breakpoint t address counter) events (continue_event t ∷ [])
                (reverse_loop memory get_true_address phase m as_usual events)
                (reverse_loop-IsFound events phase m as_usual))
      ]
  reverse_loop-IsFound (wait_failed ∷ events) phase m (stepping at) =
      let n = (enable_breakpoint memory get_true_address m at).0 in
      later phase wait_failed events (resume_all ∷ [])
        (reverse_loop memory get_true_address phase n as_usual events)
        (reverse_loop-IsFound events phase n as_usual)
  reverse_loop-IsFound (single_step t ∷ events) phase m (stepping at) =
      let n = (enable_breakpoint memory get_true_address m at).0 in
      elim (Bool-cases (t == phase.replay_thread_id)) [
        | inl same ↦
            rw (same, reverse_loop)
              (later phase (single_step t) events (continue_event t ∷ resume_all ∷ [])
                (reverse_loop memory get_true_address phase n as_usual events)
                (reverse_loop-IsFound events phase n as_usual))
        | inr other ↦
            rw (other, reverse_loop)
              (later phase (single_step t) events (continue_event t ∷ [])
                (reverse_loop memory get_true_address phase m (stepping at) events)
                (reverse_loop-IsFound events phase m (stepping at)))
      ]
  reverse_loop-IsFound (breakpoint t address counter ∷ events) phase m (stepping at) =
      later phase (breakpoint t address counter) events (continue_event t ∷ [])
        (reverse_loop memory get_true_address phase m (stepping at) events)
        (reverse_loop-IsFound events phase m (stepping at))
  reverse_loop-IsFound (other_event t ∷ events) phase m (stepping at) =
      later phase (other_event t) events (continue_event t ∷ [])
        (reverse_loop memory get_true_address phase m (stepping at) events)
        (reverse_loop-IsFound events phase m (stepping at))

  -- Where a reverse replay finds a predecessor, the last event was the thread's breakpoint at the address of
  -- a predecessor that asks for the thread's branch counter there; and that counter is below the one at which
  -- the thread had stopped.
  pub run_reverse-FindsPredecessor :
      (phase : ReversePhase) (m : Manager Process) (events : List ReverseEvent)
      → (run_reverse memory get_true_address phase m events).ending ≡ found
      → FindsPredecessor phase events (run_reverse memory get_true_address phase m events).left
  unfolding run_reverse
  run_reverse-FindsPredecessor phase m events ended =
      reverse_loop-IsFound events phase m as_usual ended
