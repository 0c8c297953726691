-- ===== src/Phases/Reverse/Missed.antt =====
-- A step back by one instruction inside a block, from the predecessors to the replay.
use chronoporia.Base.{
  ℕ, ◌≡◌, ◌≢◌, refl, ap, sym, subst, ◌∙◌, Bool, true, false, Option, some, Option-cases, Bool-cases,
  inl, inr, List, [], ◌∷◌, ◌++◌, arith, map, if◌then◌else◌, ◌==◌, All, ◌>>=◌,
}
use mathlib.Core.Option.{some-injective}
use chronoporia.Breakpoints.Memory.{Memory}
use chronoporia.Breakpoints.State.{Manager}
use chronoporia.Instrument.{Instruction}
use chronoporia.Instrument.Block.{Staging, get_true_instruction_address}
use chronoporia.Stepping.{PotentialPredecessor, StepAnalysis}
use chronoporia.Stepping.Predecessors.{
  is_instrumented_leader, branch_sources_targeting, fallthrough_predecessor, fallthrough_at,
  predecessor, counter_before, get_instruction_predecessors_of_address,
}
use chronoporia.Phases.Reverse.{
  ReversePhase, ReverseEvent, found, get_potential_predecessor, run_reverse,
}
use chronoporia.Phases.Reverse.Found.{run_reverse-FindsPredecessor}

-- All predecessors ask for this counter.
abbrev AskFor : ℕ → List PotentialPredecessor → Type 0
AskFor counter predecessors = All (λ p. p.branch_counter ≡ counter) predecessors

get_potential_predecessor-AskFor :
    (counter address : ℕ) (predecessors : List PotentialPredecessor) (p : PotentialPredecessor)
    → AskFor counter predecessors
    → get_potential_predecessor predecessors address ≡ some p
    → p.branch_counter ≡ counter
unfolding get_potential_predecessor
get_potential_predecessor-AskFor counter address [] p h e = ground (arith, e)
get_potential_predecessor-AskFor counter address (q ∷ predecessors) p h e =
    elim (Bool-cases (q.true_address == address)) [
      | inl here ↦
          sym (
            ap (λ r. r.branch_counter)
              (some-injective q p (sym (ap (λ b. if b then some q else rest_of) here) ∙ e)))
          ∙ h.0
      | inr there ↦
          get_potential_predecessor-AskFor counter address predecessors p h.1
            (sym (ap (λ b. if b then some q else rest_of) there) ∙ e)
    ]
  where
    rest_of : Option PotentialPredecessor
    rest_of = get_potential_predecessor predecessors address

module _ (decode : List ℕ → Option Instruction) (read : ℕ → ℕ → Option (List ℕ))
    (read_displaced : ℕ → ℕ → List ℕ) (s : Staging) where
  fallthrough_at-AskFor :
      (counter : ℕ) (b : Bool) (address : ℕ)
      → AskFor counter (fallthrough_at decode read read_displaced s counter b address)
  fallthrough_at-AskFor counter b address =
      if_AskFor (predecessor counter b (get_true_instruction_address s address).0 ∷ [])
        (address == 0) (refl, tt)
    where
      if_AskFor :
          (ps : List PotentialPredecessor) (c : Bool)
          → AskFor counter ps
          → AskFor counter (if c then [] else ps)
      if_AskFor ps true h = tt
      if_AskFor ps false h = h

  not_leader-AskFor :
      (a : StepAnalysis) (address counter : ℕ) (predecessors : List PotentialPredecessor)
      → is_instrumented_leader a address ≡ false
      → get_instruction_predecessors_of_address decode read read_displaced s a address counter
        ≡ some predecessors
      → AskFor counter predecessors
  unfolding get_instruction_predecessors_of_address
  not_leader-AskFor a address counter predecessors inner e =
      elim (Option-cases
        (fallthrough_predecessor decode read read_displaced s a.analysis address)) [
          | inl unended ↦ ground (arith, sym (ap (predecessors_at false) unended) ∙ chosen)
          | inr (from, ended) ↦
              subst (AskFor counter)
                (some-injective (fallthrough_at decode read read_displaced s counter false from)
                  predecessors (sym (ap (predecessors_at false) ended) ∙ chosen))
                (fallthrough_at-AskFor counter false from)
        ]
    where
      predecessors_at : Bool → Option ℕ → Option (List PotentialPredecessor)
      predecessors_at b o = o >>= λ from. some (
          (if b
            then map (predecessor (counter_before b counter) b)
                (branch_sources_targeting a.analysis address)
            else [])
          ++ fallthrough_at decode read read_displaced s (counter_before b counter) b from)

      chosen :
          predecessors_at false
            (fallthrough_predecessor decode read read_displaced s a.analysis address)
          ≡ some predecessors
      chosen =
          sym (
            ap
              (λ b.
                predecessors_at b
                  (fallthrough_predecessor decode read read_displaced s a.analysis address))
              inner)
          ∙ e

  -- A step back by one instruction from an address that is not an instrumented leader is never found: with
  -- the predecessors of the address at the thread's counter, and that counter as the one at which the thread
  -- stopped, no sequence of events lets the replay end at a predecessor.
  pub not_leader-not_found :
      {Process : Type 0} (memory : Memory Process) (get_true_address : ℕ → ℕ) (a : StepAnalysis)
      (address counter : ℕ) (phase : ReversePhase) (m : Manager Process)
      (events : List ReverseEvent)
      → is_instrumented_leader a address ≡ false
      → get_instruction_predecessors_of_address decode read read_displaced s a address counter
        ≡ some phase.predecessors
      → phase.stopped_branch_counter ≡ counter
      → (run_reverse memory get_true_address phase m events).ending ≢ found
  not_leader-not_found memory get_true_address a address counter phase m events inner e stopped
        ended =
      let (passed, at, seen, split, ((p, potential, asked), below)) =
        run_reverse-FindsPredecessor memory get_true_address phase m events ended in
      absurd (
        omega (
          arith,
          asked,
          below,
          stopped,
          get_potential_predecessor-AskFor counter at phase.predecessors p
              (not_leader-AskFor a address counter phase.predecessors inner e) potential,
        ))
