-- ===== src/Events/Replay.antt =====
-- Replaying events from the log, and resetting them.
use chronoporia.Base.{
  ℕ, suc, ◌+◌, ◌≤◌, ◌<◌, ◌≡◌, refl, inl, inr, ◌⊎◌, true, false, Option, none, some, List, [], ◌∷◌,
  ◌++◌, map, arith, if◌then◌else◌, ltb, All, length, Bool-cases, ap,
}
use chronoporia.Events.{
  BaseEvent, EventLog, awaits, find_event, mark_replayed, replay_event, unmark_all, reset_from,
  reset_event_replay,
}
use chronoporia.Events.Log.{IsOrdered}

module _ {Details : Type 0} where
  abbrev pub marked : BaseEvent Details → BaseEvent Details
  marked e = record e { replayed = true }

  abbrev pub unmarked : BaseEvent Details → BaseEvent Details
  unmarked e = record e { replayed = false }

  -- The log around the first event that waits for this call.
  pub record Splits (rip_address thread_id : ℕ) (log : List (BaseEvent Details)) (idx : ℕ)
      (e : BaseEvent Details) : Type 0 where
    pub ahead : List (BaseEvent Details)
    pub behind : List (BaseEvent Details)
    pub whole : log ≡ ahead ++ e ∷ behind
    pub at : length ahead ≡ idx
    pub waits : awaits rip_address thread_id e ≡ true
    pub first : All (λ f. awaits rip_address thread_id f ≡ false) ahead
    pub after : mark_replayed idx log ≡ ahead ++ marked e ∷ behind

  -- What the search returns, from index `start` on.
  abbrev Found : ℕ → ℕ → ℕ → List (BaseEvent Details) → Option (ℕ × BaseEvent Details) → Type 0
  Found rip_address thread_id start log none = All (λ f. awaits rip_address thread_id f ≡ false) log
  Found rip_address thread_id start log (some (i, e)) =
      (k : ℕ) × (i ≡ start + k) × Splits rip_address thread_id log k e

  Found-cons :
      (r t start : ℕ) (e : BaseEvent Details) (log : List (BaseEvent Details))
      (o : Option (ℕ × BaseEvent Details))
      → awaits r t e ≡ false
      → Found r t (suc start) log o
      → Found r t start (e ∷ log) o
  unfolding mark_replayed
  Found-cons r t start e log none w h = (w, h)
  Found-cons r t start e log (some (i, f)) w (k, p, s) = (
    suc k,
    omega arith,
    record {
      ahead = e ∷ s.ahead;
      behind = s.behind;
      whole = ap (◌∷◌ e) s.whole;
      at = ap suc s.at;
      waits = s.waits;
      first = (w, s.first);
      after = ap (◌∷◌ e) s.after;
    },
  )

  find_event-Found :
      (r t start : ℕ) (log : List (BaseEvent Details))
      → Found r t start log (find_event r t start log)
  unfolding find_event mark_replayed
  find_event-Found r t start [] = tt
  find_event-Found r t start (e ∷ log) = elim (Bool-cases (awaits r t e)) [
    | inl w ↦ rw w (
      0,
      omega arith,
      record {
        ahead = [];
        behind = log;
        whole = refl;
        at = refl;
        waits = w;
        first = tt;
        after = refl;
      },
    )
    | inr w ↦ rw w (
        Found-cons r t start e log (find_event r t (suc start) log) w
          (find_event-Found r t (suc start) log))
  ]

  -- A replay at an address by a thread: if some event of that address and thread waits, the first of
  -- them in the log is marked and nothing else of the log changes; if none does, the log and the
  -- pending ends stay as they are, and the caller is told.
  pub replay_event-first :
      (l : EventLog Details) (rip_address thread_id : ℕ)
      → (((replay_event l rip_address thread_id).1 ≡ true)
          × (idx : ℕ) × (e : BaseEvent Details) × (s : Splits rip_address thread_id l.event_log idx
              e)
          × ((replay_event l rip_address thread_id).0.event_log ≡ s.ahead ++ marked e ∷ s.behind))
        ⊎ ((replay_event l rip_address thread_id ≡ (l, false))
            × All (λ f. awaits rip_address thread_id f ≡ false) l.event_log)
  unfolding replay_event
  replay_event-first l r t =
      go (find_event r t 0 l.event_log) refl (find_event-Found r t 0 l.event_log)
    where
      go :
          (o : Option (ℕ × BaseEvent Details))
          → find_event r t 0 l.event_log ≡ o
          → Found r t 0 l.event_log o
          → (((replay_event l r t).1 ≡ true)
              × (idx : ℕ) × (e : BaseEvent Details) × (s : Splits r t l.event_log idx e)
              × ((replay_event l r t).0.event_log ≡ s.ahead ++ marked e ∷ s.behind))
            ⊎ ((replay_event l r t ≡ (l, false)) × All (λ f. awaits r t f ≡ false) l.event_log)
      go none e h = inr (rw (e, replay_event) refl, h)
      go (some (i, f)) e (k, p, s) =
          let same : i ≡ k = omega arith in
          inl (rw (e, replay_event) refl, k, f, s, rw (e, replay_event, same) s.after)

  unmark_all-map :
      (b g : ℕ) (log : List (BaseEvent Details))
      → g < b
      → All (λ f. b ≤ f.global_seq) log
      → unmark_all log ≡ map (λ f. if ltb g f.global_seq then unmarked f else f) log
  unfolding unmark_all
  unmark_all-map b g [] h k = refl
  unmark_all-map b g (e ∷ log) h k = ground (arith, unmark_all-map b g log h k.1)

  reset_from-map :
      (g : ℕ) (log : List (BaseEvent Details))
      → IsOrdered log
      → reset_from g log ≡ map (λ f. if ltb g f.global_seq then unmarked f else f) log
  unfolding reset_from unmark_all
  reset_from-map g [] o = refl
  reset_from-map g (e ∷ log) o =
      ground (arith, reset_from-map g log o.1, unmark_all-map e.global_seq g log)

  -- On a log in order a reset makes exactly the events after global_seq wait for replay again, and
  -- changes no other event and no other part of the log.
  pub reset_event_replay-map :
      (l : EventLog Details) (global_seq : ℕ)
      → IsOrdered l.event_log
      → reset_event_replay l global_seq ≡ record l {
        event_log = map (λ f. if ltb global_seq f.global_seq then unmarked f else f) l.event_log;
      }
  unfolding reset_event_replay
  reset_event_replay-map l g o =
      ap (λ x. record l { event_log = x }) (reset_from-map g l.event_log o)
