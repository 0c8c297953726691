-- ===== src/Restoring/Modules.antt =====
-- When the unloading of modules succeeds.
use chronoporia.Base.{
  ℕ, ◌≡◌, refl, ap, sym, ◌∙◌, inl, inr, true, Option, none, some, List, [], ◌∷◌, ◌++◌, arith, ◌==◌,
  All, Bool-cases, ==-refl, ◌↔◌,
}
use chronoporia.Breakpoints.State.{
  BreakpointType, permanent, return, entry, shell_code, spin_lock, user, reverse, step, Manager,
}
use chronoporia.Breakpoints.Query.{get_breakpoint_type}
use chronoporia.Restoring.{
  DebugEvent, load_dll, unload_dll, breakpoint, other_exception, other_event, wait_failed, returned,
  at_breakpoint, run_dll_restore,
}

module _ {Process : Type 0} (m : Manager Process) (stop : ℕ) where
  -- An event that the loop answers and goes on from.
  abbrev pub IsPassed : DebugEvent → Type 0
  IsPassed (breakpoint thread_id rip_address) =
      get_breakpoint_type m rip_address thread_id ≡ some permanent
  IsPassed wait_failed = ⊥
  IsPassed _ = Unit

  -- The first event that the loop does not go on from is the breakpoint of the unload code.
  pub record Reaches (events : List DebugEvent) : Type 0 where
    pub passed : List DebugEvent
    pub later : List DebugEvent
    pub thread_id : ℕ
    pub split : events ≡ passed ++ breakpoint thread_id stop ∷ later
    pub all_passed : All IsPassed passed
    pub at_code : get_breakpoint_type m stop thread_id ≡ some shell_code

  passing :
      (e : DebugEvent) (events : List DebugEvent)
      → IsPassed e
      → Reaches events
      → Reaches (e ∷ events)
  passing e events p r = record {
    passed = e ∷ r.passed;
    later = r.later;
    thread_id = r.thread_id;
    split = ap (λ rest. e ∷ rest) r.split;
    all_passed = (p, r.all_passed);
    at_code = r.at_code;
  }

  at_breakpoint-Reaches :
      (t a : ℕ) (kind : Option BreakpointType) (events : List DebugEvent)
      → get_breakpoint_type m a t ≡ kind
      → ((run_dll_restore m stop events).1 ≡ returned true → Reaches events)
      → (at_breakpoint stop t a kind (run_dll_restore m stop events)).1 ≡ returned true
      → Reaches (breakpoint t a ∷ events)
  unfolding at_breakpoint
  at_breakpoint-Reaches t a none events k on e = ground arith
  at_breakpoint-Reaches t a (some permanent) events k on e =
      passing (breakpoint t a) events k (on e)
  at_breakpoint-Reaches t a (some shell_code) events k on e = elim (Bool-cases (stop == a)) [
    | inl b ↦
        let same : stop ≡ a = ground arith in
        record {
          passed = [];
          later = events;
          thread_id = t;
          split = ap (λ x. breakpoint t x ∷ events) (sym same);
          all_passed = tt;
          at_code = rw same k;
        }
    | inr b ↦ ground (arith, e, b)
  ]
  at_breakpoint-Reaches t a (some return) events k on e = ground arith
  at_breakpoint-Reaches t a (some entry) events k on e = ground arith
  at_breakpoint-Reaches t a (some spin_lock) events k on e = ground arith
  at_breakpoint-Reaches t a (some user) events k on e = ground arith
  at_breakpoint-Reaches t a (some reverse) events k on e = ground arith
  at_breakpoint-Reaches t a (some step) events k on e = ground arith

  -- The unloading succeeds only where the events reach the breakpoint of the unload code.
  pub run_dll_restore-Reaches :
      (events : List DebugEvent)
      → (run_dll_restore m stop events).1 ≡ returned true
      → Reaches events
  unfolding run_dll_restore
  run_dll_restore-Reaches [] e = ground arith
  run_dll_restore-Reaches (load_dll ∷ events) e =
      passing load_dll events tt (run_dll_restore-Reaches events e)
  run_dll_restore-Reaches (unload_dll ∷ events) e =
      passing unload_dll events tt (run_dll_restore-Reaches events e)
  run_dll_restore-Reaches (other_exception ∷ events) e =
      passing other_exception events tt (run_dll_restore-Reaches events e)
  run_dll_restore-Reaches (other_event ∷ events) e =
      passing other_event events tt (run_dll_restore-Reaches events e)
  run_dll_restore-Reaches (breakpoint t a ∷ events) e =
      at_breakpoint-Reaches t a (get_breakpoint_type m a t) events refl
        (run_dll_restore-Reaches events) e
  run_dll_restore-Reaches (wait_failed ∷ events) e = ground arith

  reached :
      (t : ℕ) (later : List DebugEvent)
      → get_breakpoint_type m stop t ≡ some shell_code
      → (run_dll_restore m stop (breakpoint t stop ∷ later)).1 ≡ returned true
  unfolding run_dll_restore at_breakpoint
  reached t later k =
      ap (λ kind. (at_breakpoint stop t stop kind (run_dll_restore m stop later)).1) k
      ∙ ground (arith, ==-refl stop)

  passed-true :
      (passed : List DebugEvent) (t : ℕ) (later : List DebugEvent)
      → All IsPassed passed
      → get_breakpoint_type m stop t ≡ some shell_code
      → (run_dll_restore m stop (passed ++ breakpoint t stop ∷ later)).1 ≡ returned true
  unfolding run_dll_restore at_breakpoint
  passed-true [] t later h k = reached t later k
  passed-true (load_dll ∷ passed) t later h k = passed-true passed t later h.1 k
  passed-true (unload_dll ∷ passed) t later h k = passed-true passed t later h.1 k
  passed-true (other_exception ∷ passed) t later h k = passed-true passed t later h.1 k
  passed-true (other_event ∷ passed) t later h k = passed-true passed t later h.1 k
  passed-true (breakpoint u a ∷ passed) t later h k =
      ap
        (λ kind.
          (at_breakpoint stop u a kind
            (run_dll_restore m stop (passed ++ breakpoint t stop ∷ later))).1)
        h.0
      ∙ passed-true passed t later h.1 k
  passed-true (wait_failed ∷ passed) t later h k = absurd h.0

  -- The unloading succeeds exactly where the first event that is not passed over, which permanent
  -- breakpoints and other events are, is the breakpoint at the end of the unload code.
  pub run_dll_restore-true :
      (events : List DebugEvent)
      → ((run_dll_restore m stop events).1 ≡ returned true) ↔ Reaches events
  run_dll_restore-true events = (
    run_dll_restore-Reaches events,
    λ r.
        ap (λ es. (run_dll_restore m stop es).1) r.split
        ∙ passed-true r.passed r.thread_id r.later r.all_passed r.at_code,
  )
