-- ===== src/Events/Log.antt =====
-- The order of the log.
use chronoporia.Base.{ℕ, ◌≤◌, ◌≡◌, refl, inl, inr, List, [], ◌∷◌, ◌++◌, arith, ltb, All, Bool-cases}
use chronoporia.Events.{BaseEvent, add_event}

module _ {Details : Type 0} where
  -- No event is before one that stands ahead of it.
  abbrev pub IsOrdered : List (BaseEvent Details) → Type 0
  IsOrdered [] = Unit
  IsOrdered (e ∷ log) = All (λ f. e.global_seq ≤ f.global_seq) log × IsOrdered log

  All-add_event :
      (b : ℕ) (n : BaseEvent Details) (log : List (BaseEvent Details))
      → b ≤ n.global_seq
      → All (λ f. b ≤ f.global_seq) log
      → All (λ f. b ≤ f.global_seq) (add_event n log)
  unfolding add_event
  All-add_event b n [] h k = (h, tt)
  All-add_event b n (e ∷ log) h k = elim (Bool-cases (ltb n.global_seq e.global_seq)) [
    | inl c ↦ rw c (h, k)
    | inr c ↦ rw c (k.0, All-add_event b n log h k.1)
  ]

  All-le :
      (a b : ℕ) (log : List (BaseEvent Details))
      → a ≤ b
      → All (λ f. b ≤ f.global_seq) log
      → All (λ f. a ≤ f.global_seq) log
  All-le a b [] h k = tt
  All-le a b (e ∷ log) h k = (omega arith, All-le a b log h k.1)

  -- Inserting an event keeps the log in the order of global_seq, whatever order calls return in.
  pub add_event-IsOrdered :
      (n : BaseEvent Details) (log : List (BaseEvent Details))
      → IsOrdered log
      → IsOrdered (add_event n log)
  unfolding add_event
  add_event-IsOrdered n [] o = (tt, tt)
  add_event-IsOrdered n (e ∷ log) o = elim (Bool-cases (ltb n.global_seq e.global_seq)) [
    | inl c ↦
        let before : n.global_seq ≤ e.global_seq = ground arith in
        rw c ((before, All-le n.global_seq e.global_seq log before o.0), o)
    | inr c ↦
        rw c (All-add_event e.global_seq n log (ground arith) o.0, add_event-IsOrdered n log o.1)
  ]

  -- The log is split where the event goes: all ahead are at most its global_seq.
  pub add_event-split :
      (n : BaseEvent Details) (log : List (BaseEvent Details))
      → (ahead : List (BaseEvent Details)) × (behind : List (BaseEvent Details)) × (log
          ≡ ahead ++ behind)
        × (add_event n log ≡ ahead ++ n ∷ behind)
        × All (λ f. f.global_seq ≤ n.global_seq) ahead
  unfolding add_event
  add_event-split n [] = ([], [], refl, refl, tt)
  add_event-split n (e ∷ log) = elim (Bool-cases (ltb n.global_seq e.global_seq)) [
    | inl c ↦ ([], e ∷ log, refl, rw c refl, tt)
    | inr c ↦
        let (ahead, behind, p, q, all) = add_event-split n log in
        (e ∷ ahead, behind, rw (← p) refl, rw (c, q) refl, (ground arith, all))
  ]
