-- ===== src/Stepping/Loops/Balance.antt =====
-- `run_to_address` stops where it should, and suspends each thread as often as it resumes it.
use chronoporia.Base.{
  ℕ, ◌+◌, ◌<◌, ◌≡◌, refl, ap, sym, subst, ◌∙◌, Bool, true, false, Option, none, some, List, [], ◌∷◌,
  ◌++◌, map, arith, if◌then◌else◌, ◌==◌, ==_iff, leb, Bool-cases, inl, inr,
}
use mathlib.Core.Option.{some-injective}
use chronoporia.Breakpoints.Memory.{Memory}
use chronoporia.Breakpoints.State.{Manager}
use chronoporia.Stepping.Loops.{
  StepEvent, single_step, breakpoint, exit_process, other_event, wait_failed, StepCall,
  resume_thread, suspend_thread, roll_back_instruction, continue_event, suspend, resume, Run,
  then_calls, ends, run_loop, after_run, run_to_address,
}
use chronoporia.Stepping.Loops.Counts.{
  suspends, resumes, started, occurrences, occurrences-append, suspends-append, resumes-append,
  resumes-map,
}

module _ (address thread_id sp : ℕ) (only : Bool) where
  -- The thread's breakpoint at the address, with the stack above the pointer, is the last event taken.
  abbrev pub StopsAt : List StepEvent → List StepEvent → Type 0
  StopsAt events left =
      (passed : List StepEvent) × (rsp : ℕ) × (events
        ≡ passed ++ breakpoint thread_id address rsp ∷ left)
      × (sp < rsp)

  -- What is true of the loop where it ends.
  abbrev IsBalanced : List ℕ → List StepEvent → Run (Bool × List ℕ) → Type 0
  IsBalanced suspended events run =
      (complete : Bool) (held : List ℕ)
      → run.ended ≡ some (complete, held)
      → (complete ≡ true → StopsAt events run.left)
        × ((t : ℕ)
            → (suspends t run.calls + occurrences t suspended
                ≡ occurrences t held + (if complete then started thread_id only t else 0))
              × (resumes t run.calls ≡ 0))

  StopsAt-cons :
      (e : StepEvent) (events left : List StepEvent)
      → StopsAt events left
      → StopsAt (e ∷ events) left
  StopsAt-cons e events left (passed, rsp, split, above) =
      (e ∷ passed, rsp, ap (λ es. e ∷ es) split, above)

  -- An event that is only answered.
  passes :
      (calls : List StepCall) (e : StepEvent) (events : List StepEvent) (suspended : List ℕ)
      (run : Run (Bool × List ℕ))
      → ((t : ℕ) → (suspends t calls ≡ 0) × (resumes t calls ≡ 0))
      → IsBalanced suspended events run
      → IsBalanced suspended (e ∷ events) (then_calls calls run)
  passes calls e events suspended run quiet balanced complete held ended =
      let (stops, counts) = balanced complete held ended in
      (
        λ c. StopsAt-cons e events run.left (stops c),
        λ t.
            let (s, r) = counts t in
            (
              omega (arith, s, suspends-append t calls run.calls, quiet t),
              omega (arith, r, resumes-append t calls run.calls, quiet t),
            ),
      )

  -- Another thread at the address is held.
  holds :
      (u : ℕ) (e : StepEvent) (events : List StepEvent) (suspended : List ℕ)
      (run : Run (Bool × List ℕ))
      → IsBalanced (suspended ++ u ∷ []) events run
      → IsBalanced suspended
          (e ∷ events)
          (then_calls (roll_back_instruction u ∷ suspend_thread u ∷ continue_event u ∷ []) run)
  unfolding suspends resumes
  holds u e events suspended run balanced complete held ended =
      let (stops, counts) = balanced complete held ended in
      (
        λ c. StopsAt-cons e events run.left (stops c),
        λ t. let (s, r) = counts t in (omega (arith, s, occurrences-append t u suspended), r),
      )

  suspends-suspend :
      (t : ℕ) (b : Bool)
      → (suspends t (suspend thread_id b ∷ []) ≡ started thread_id b t)
        × (resumes t (suspend thread_id b ∷ []) ≡ 0)
  unfolding suspends resumes
  suspends-suspend t true = (omega arith, refl)
  suspends-suspend t false = (refl, refl)

  stops_here :
      (t rsp : ℕ) (events : List StepEvent) (suspended : List ℕ)
      → t ≡ thread_id
      → sp < rsp
      → IsBalanced suspended (breakpoint t address rsp ∷ events) (
          ends
            (roll_back_instruction thread_id ∷ continue_event t ∷ suspend thread_id only ∷ [])
            (true, suspended)
            events)
  unfolding suspends resumes
  stops_here t rsp events suspended same above complete held ended = (
    λ c. ([], rsp, ap (λ u. breakpoint u address rsp ∷ events) same, above),
    λ u.
        let (s, r) = suspends-suspend u only in
        let same_end = some-injective (true, suspended) (complete, held) ended in
        (
          omega (
            arith,
            s,
            ap
                (λ (p : Bool × List ℕ).
                  occurrences u p.1 + (if p.0 then started thread_id only u else 0))
                same_end,
          ),
          r,
        ),
  )

  run_loop-IsBalanced :
      (events : List StepEvent) (suspended : List ℕ)
      → IsBalanced suspended events (run_loop address thread_id sp only events suspended)
  unfolding run_loop suspends resumes
  run_loop-IsBalanced [] suspended = λ complete held ended. ground (arith, ended)
  run_loop-IsBalanced (wait_failed ∷ events) suspended = λ complete held ended.
      let same = some-injective (false, suspended) (complete, held) ended in
      (
        λ c. ground (arith, ap (λ (p : Bool × List ℕ). p.0) same ∙ c),
        λ t. (
          omega (
            arith,
            ap
                (λ (p : Bool × List ℕ).
                  occurrences t p.1 + (if p.0 then started thread_id only t else 0))
                same,
          ),
          refl,
        ),
      )
  run_loop-IsBalanced (single_step t ∷ events) suspended =
      passes (continue_event t ∷ []) (single_step t) events suspended
        (run_loop address thread_id sp only events suspended) (λ u. (refl, refl))
        (run_loop-IsBalanced events suspended)
  run_loop-IsBalanced (exit_process t ∷ events) suspended =
      passes (continue_event t ∷ []) (exit_process t) events suspended
        (run_loop address thread_id sp only events suspended) (λ u. (refl, refl))
        (run_loop-IsBalanced events suspended)
  run_loop-IsBalanced (other_event t ∷ events) suspended =
      passes (continue_event t ∷ []) (other_event t) events suspended
        (run_loop address thread_id sp only events suspended) (λ u. (refl, refl))
        (run_loop-IsBalanced events suspended)
  run_loop-IsBalanced (breakpoint t rip rsp ∷ events) suspended =
      let on = run_loop address thread_id sp only events suspended in
      let e = breakpoint t rip rsp in
      elim (Bool-cases (rip == address)) [
        | inr elsewhere ↦
            rw (elsewhere, run_loop)
              (passes (continue_event t ∷ []) e events suspended on (λ u. (refl, refl))
                (run_loop-IsBalanced events suspended))
        | inl at ↦ (elim (Bool-cases (t == thread_id)) [
          | inr other ↦
              rw (at, other, run_loop)
                (holds t e events suspended
                  (run_loop address thread_id sp only events (suspended ++ t ∷ []))
                  (run_loop-IsBalanced events (suspended ++ t ∷ [])))
          | inl same ↦ (elim (Bool-cases (leb rsp sp)) [
            | inl below ↦
                rw (at, same, below, run_loop)
                  (passes (roll_back_instruction thread_id ∷ continue_event t ∷ []) e events
                    suspended on (λ u. (refl, refl)) (run_loop-IsBalanced events suspended))
            | inr above ↦
                rw (at, same, above, run_loop)
                  (subst
                    (λ a. IsBalanced suspended (breakpoint t a rsp ∷ events) (
                      ends
                        (roll_back_instruction thread_id
                          ∷ continue_event t
                          ∷ suspend thread_id only
                          ∷ [])
                        (true, suspended) events))
                    (sym ((==_iff rip address).0 at))
                    (stops_here t rsp events suspended ((==_iff t thread_id).0 same)
                      (ground (arith, above))))
          ])
        ])
      ]

module _ (address thread_id sp : ℕ) (only : Bool) (events : List StepEvent) where
  -- What is true of the function where it ends.
  abbrev pub IsEnded : Bool → Run Bool → Type 0
  IsEnded complete run =
      (complete ≡ true → StopsAt address thread_id sp only events run.left)
      × ((t : ℕ)
          → suspends t run.calls + (if complete then 0 else started thread_id only t)
            ≡ resumes t run.calls)

  -- Behind the first call, which lets threads run.
  abbrev IsLeft : Bool → Run Bool → Type 0
  IsLeft complete run =
      (complete ≡ true → StopsAt address thread_id sp only events run.left)
      × ((t : ℕ)
          → suspends t run.calls
            ≡ resumes t run.calls + (if complete then started thread_id only t else 0))

  after_run-IsLeft :
      (calls : List StepCall) (ended : Option (Bool × List ℕ)) (left : List StepEvent)
      (complete : Bool)
      → IsBalanced address thread_id sp only [] events
          (record { calls = calls; ended = ended; left = left })
      → (after_run (record { calls = calls; ended = ended; left = left })).ended ≡ some complete
      → IsLeft complete (after_run (record { calls = calls; ended = ended; left = left }))
  unfolding occurrences
  after_run-IsLeft calls none left complete balanced e = ground (arith, e)
  after_run-IsLeft calls (some (c, held)) left complete balanced e =
      let (stops, counts) = balanced c held refl in
      let same = some-injective c complete e in
      (
        λ done. stops (same ∙ done),
        λ t. omega (
          arith,
          counts t,
          ap (λ b. if b then started thread_id only t else 0) same,
          suspends-append t calls (map resume_thread held),
          resumes-append t calls (map resume_thread held),
          resumes-map t held,
        ),
      )

  resumes-resume :
      (t : ℕ) (b : Bool) (calls : List StepCall)
      → (resumes t (resume thread_id b ∷ calls) ≡ started thread_id b t + resumes t calls)
        × (suspends t (resume thread_id b ∷ calls) ≡ suspends t calls)
  unfolding suspends resumes
  resumes-resume t true calls = (refl, refl)
  resumes-resume t false calls = (refl, refl)

  resumed-IsEnded :
      (complete : Bool) (run : Run Bool)
      → IsLeft complete run
      → IsEnded complete (then_calls (resume thread_id only ∷ []) run)
  resumed-IsEnded true run (stops, counts) =
      (stops, λ t. omega (arith, counts t, resumes-resume t only run.calls))
  resumed-IsEnded false run (stops, counts) =
      (stops, λ t. omega (arith, counts t, resumes-resume t only run.calls))

module _ {Process : Type 0} (memory : Memory Process) (get_true_address : ℕ → ℕ) where
  -- Where running to an address ends and is complete, the last event was the thread's breakpoint at the
  -- address with its stack pointer above the one that was given, and every thread was suspended as often
  -- as it was resumed, by itself or with the process. Where it ends because waiting failed, each thread
  -- that the first call let run, which is the thread or all of them, was resumed once more than it was
  -- suspended, and each other as often.
  pub run_to_address-IsEnded :
      (m : Manager Process) (address thread_id sp : ℕ) (only : Bool) (events : List StepEvent)
      (complete : Bool)
      → (run_to_address memory get_true_address m address thread_id sp only events).1.ended
        ≡ some complete
      → IsEnded address thread_id sp only events complete
          (run_to_address memory get_true_address m address thread_id sp only events).1
  unfolding run_to_address
  run_to_address-IsEnded m address thread_id sp only events complete e =
      let run = run_loop address thread_id sp only events [] in
      resumed-IsEnded address thread_id sp only events complete (after_run run) (
        after_run-IsLeft address thread_id sp only events run.calls run.ended run.left complete
          (run_loop-IsBalanced address thread_id sp only events []) e)
