-- ===== src/Session/Command.antt =====
-- The snapshot command, beside the exact search of the tree.
use chronoporia.Base.{
  Search, found, nullptr, out_of_fuel as not_ended, ℕ, ◌≡◌, ◌≢◌, refl, sym, ap, ◌∙◌, Bool, true,
  not, Option, none, some, arith, if◌then◌else◌,
}
use chronoporia.Tree.{ExecutionTree, Node, info}
use chronoporia.Tree.Lookup.{exact_node_exists, get_exact_node}
use chronoporia.Tree.Lookup.Total.{searches-total, exact_node_exists-get_exact_node, is_found}
use chronoporia.Region.{Outcome, done, throws, out_of_fuel, ◌>>=◌}
use chronoporia.Session.{
  Snapshot, Transitions, to_time_restore, to_debugger, valid_snapshot_id_seq, global_seq_of,
  get_global_sequence, value, ended, handle_run_id_seq,
}

module _ {Replay : Type 0} (history : ExecutionTree Snapshot) (run_id run_seq : ℕ) where
  -- The answer for what the exact search returns.
  abbrev pub answer : Search (Node Snapshot) → Outcome (Option (Transitions Replay))
  answer (found n) =
      done (some (to_time_restore true run_id run_seq (info n).global_seq (to_debugger true)))
  answer nullptr = done none
  answer not_ended = out_of_fuel

  abbrev decided : Option Bool → Search (Node Snapshot) → Outcome (Option (Transitions Replay))
  decided none o = out_of_fuel
  decided (some b) o =
      if not b
      then done none
      else (global_seq_of o >>= λ target_global_sequence. value target_global_sequence >>= λ target.
          done (some (to_time_restore true run_id run_seq target (to_debugger true))))

  decided-answer : (o : Search (Node Snapshot)) → decided (is_found o) o ≡ answer o
  unfolding global_seq_of
  decided-answer (found n) = refl
  decided-answer nullptr = refl
  decided-answer not_ended = refl

  handle-decided :
      (b : Option Bool)
      → exact_node_exists history run_id run_seq ≡ b
      → handle_run_id_seq history run_id run_seq ≡ decided b (get_exact_node history run_id run_seq)
  unfolding handle_run_id_seq valid_snapshot_id_seq get_global_sequence
  handle-decided b e = ap from e ∙ same b
    where
      from : Option Bool → Outcome (Option (Transitions Replay))
      from v = ended v >>= λ valid.
          if not valid
          then done none
          else (global_seq_of (get_exact_node history run_id run_seq) >>= λ target_global_sequence.
              value target_global_sequence >>= λ target.
              done (some (to_time_restore true run_id run_seq target (to_debugger true))))

      same : (v : Option Bool) → from v ≡ decided v (get_exact_node history run_id run_seq)
      same none = refl
      same (some v) = refl

  answer_ends :
      (o : Search (Node Snapshot)) → o ≢ not_ended → (answer o ≢ throws) × (answer o ≢ out_of_fuel)
  answer_ends (found n) h = (ground arith, ground arith)
  answer_ends nullptr h = (ground arith, ground arith)
  answer_ends not_ended h = absurd (h refl)

  -- The snapshot command restores the snapshot with exactly the run_id and run_seq that were given,
  -- at its own global sequence and with the debugger as the next phase, and does nothing where there
  -- is none. It ends, and reading the optional sequence does not throw.
  pub handle_run_id_seq-answer :
      (handle_run_id_seq history run_id run_seq ≡ answer (get_exact_node history run_id run_seq))
      × (handle_run_id_seq {Replay = Replay} history run_id run_seq ≢ throws)
      × (handle_run_id_seq {Replay = Replay} history run_id run_seq ≢ out_of_fuel)
  handle_run_id_seq-answer =
      let o = get_exact_node history run_id run_seq in
      let agree = exact_node_exists-get_exact_node history run_id run_seq in
      let same = handle-decided (is_found o) agree ∙ decided-answer o in
      let ends = answer_ends o (searches-total history run_id run_seq).1 in
      (same, λ e. ends.0 (sym same ∙ e), λ e. ends.1 (sym same ∙ e))
