-- ===== src/Phases/Reconstruction/Snapshots.antt =====
-- How many micro snapshots a reconstruction takes.
use chronoporia.Base.{
  ℕ, suc, ◌+◌, ◌-◌, ◌/◌, ◌%◌, ◌^◌, ◌<◌, ◌≡◌, ap, ◌∙◌, true, false, Option-cases, Bool-cases, inl,
  inr, List, [], ◌∷◌, arith, if◌then◌else◌, ◌==◌, ==_iff,
}
use chronoporia.Phases.Reconstruction.{
  Services, PhaseEvent, load_dll, unload_dll, create_thread, exit_thread, breakpoint,
  other_exception, exit_process, other_event, timed_out, wait_failed, PhaseCall, suspend_process,
  to_debugger, Phased, replay_breakpoint, reconstruct, run_reconstruction,
}

-- How often the process is suspended, which it is for each micro snapshot.
unfoldable pub suspensions : List PhaseCall → ℕ
suspensions [] = 0
suspensions (suspend_process ∷ calls) = suc (suspensions calls)
suspensions (_ ∷ calls) = suspensions calls

-- The snapshots that a counter of 32 bits stands for, which is decreased before it is compared with 0.
abbrev pub rounds : ℕ → ℕ
rounds remaining = if remaining == 0 then 2 ^ 32 else remaining

rounds_last :
    (remaining : ℕ)
    → remaining < 2 ^ 32
    → ((remaining + (2 ^ 32 - 1)) % 2 ^ 32 == 0) ≡ true
    → 1 ≡ rounds remaining
rounds_last remaining h e = ground (arith, (==_iff ((remaining + (2 ^ 32 - 1)) % 2 ^ 32) 0).0 e)

rounds_more :
    (remaining : ℕ)
    → remaining < 2 ^ 32
    → ((remaining + (2 ^ 32 - 1)) % 2 ^ 32 == 0) ≡ false
    → suc (rounds ((remaining + (2 ^ 32 - 1)) % 2 ^ 32)) ≡ rounds remaining
rounds_more remaining h e = ground (arith, e)

module _ {S : Type 0} (services : Services S) where
  -- A loop that ends in the debugger has suspended the process so often.
  abbrev Suspends : ℕ → Phased S → Type 0
  Suspends n r = r.ending ≡ to_debugger → suspensions r.calls ≡ n

  reconstruct-rounds :
      (events : List PhaseEvent) (s : S) (remaining : ℕ)
      → remaining < 2 ^ 32
      → Suspends (rounds remaining) (reconstruct services s remaining events)
  unfolding reconstruct suspensions
  reconstruct-rounds [] s remaining h = λ e. ground (arith, e)
  reconstruct-rounds (load_dll t base ∷ events) s remaining h =
      reconstruct-rounds events (services.track_dll s base) remaining h
  reconstruct-rounds (unload_dll t base ∷ events) s remaining h =
      reconstruct-rounds events (services.untrack_dll s base) remaining h
  reconstruct-rounds (create_thread t ∷ events) s remaining h =
      reconstruct-rounds events (services.track_thread s t) remaining h
  reconstruct-rounds (exit_thread t ∷ events) s remaining h =
      reconstruct-rounds events (services.untrack_thread s t) remaining h
  reconstruct-rounds (other_exception t ∷ events) s remaining h =
      reconstruct-rounds events s remaining h
  reconstruct-rounds (other_event t ∷ events) s remaining h =
      reconstruct-rounds events s remaining h
  reconstruct-rounds (exit_process t ∷ events) s remaining h = λ e. ground (arith, e)
  reconstruct-rounds (wait_failed ∷ events) s remaining h = λ e. ground (arith, e)
  reconstruct-rounds (breakpoint t rip ∷ events) s remaining h =
      elim (Option-cases
        (replay_breakpoint services s rip t (services.get_breakpoint_type s rip t))) [
          | inl no_kind ↦ rw (no_kind, reconstruct) (λ e. ground (arith, e))
          | inr (next, replayed) ↦
              rw (replayed, reconstruct) (reconstruct-rounds events next remaining h)
        ]
  reconstruct-rounds (timed_out ∷ events) s remaining h =
      let left = (remaining + (2 ^ 32 - 1)) % 2 ^ 32 in
      elim (Bool-cases (left == 0)) [
        | inl last ↦ rw (last, reconstruct) (λ e. rounds_last remaining h last)
        | inr more ↦
            rw (more, reconstruct)
              (λ e.
                ap suc (reconstruct-rounds events (services.micro_snapshot s) left (omega arith) e)
                ∙ rounds_more remaining h more)
      ]

  -- A reconstruction that ends in the debugger has suspended the process for a micro snapshot once for
  -- each second of the interval between snapshots. Where that is less than a second, it has done so
  -- 2 ^ 32 times.
  pub run_reconstruction-rounds :
      (s : S) (snapshot_interval : ℕ) (events : List PhaseEvent)
      → snapshot_interval / 1000 < 2 ^ 32
      → (run_reconstruction services s snapshot_interval events).ending ≡ to_debugger
      → suspensions (run_reconstruction services s snapshot_interval events).calls
        ≡ rounds (snapshot_interval / 1000)
  unfolding run_reconstruction
  run_reconstruction-rounds s snapshot_interval events h e =
      reconstruct-rounds events s (snapshot_interval / 1000 % 2 ^ 32) (omega arith) e
      ∙ ap rounds (small (snapshot_interval / 1000) h)
    where
      small : (n : ℕ) → n < 2 ^ 32 → n % 2 ^ 32 ≡ n
      small n lt = omega arith
