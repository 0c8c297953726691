-- ===== src/Tree/Lookup/Agree.antt =====
-- The nearest-state search beside the node search.
use chronoporia.Base.{
  found, ℕ, zero, suc, ◌<◌, ◌≡◌, refl, inl, inr, true, false, Option, none, some, List, [], ◌∷◌,
  arith, Bool-cases, ap, sym,
}
use chronoporia.Tree.{Node, ExecutionTree, info, branch_children}
use chronoporia.Tree.Lookup.{
  push_branches, is_exact, better, origin_of, find_loop, nearest_loop, exact_loop, start, rounds,
  find_node, get_exact_node, get_state, get_nearest_state, state_of,
}
use chronoporia.Tree.Lookup.Total.{pending, pending-round, pending-start}

module _ {Data : Type 0} where
  better-keeps :
      (target seq : ℕ) (n b : Node Data)
      → (info b).run_seq ≡ seq
      → better target seq n (some b) ≡ some b
  unfolding better
  better-keeps target seq n b e = ground arith

  -- A best node at the target's own run_seq is never replaced.
  nearest_loop-keeps :
      (fuel target seq : ℕ) (stack : List (Node Data)) (b : Node Data) (origin : Option (Node Data))
      → pending stack < fuel
      → (info b).run_seq ≡ seq
      → nearest_loop fuel target seq stack (some b) origin ≡ found b
  unfolding nearest_loop
  nearest_loop-keeps zero target seq stack b origin h e = absurd (omega arith)
  nearest_loop-keeps (suc fuel) target seq [] b origin h e = refl
  nearest_loop-keeps (suc fuel) target seq (n ∷ stack) b origin h e = ground (
    arith,
    better-keeps target seq n b e,
    pending-round target n stack,
    nearest_loop-keeps fuel target seq (push_branches target (branch_children n) stack) b
        (origin_of target n origin),
  )

  -- The best node so far lies before the target.
  abbrev pub Before : ℕ → Option (Node Data) → Type 0
  Before seq none = Unit
  Before seq (some b) = (info b).run_seq < seq

  better_exact :
      (target seq : ℕ) (n : Node Data) (best : Option (Node Data))
      → Before seq best
      → is_exact target seq n ≡ true
      → (better target seq n best ≡ some n) × ((info n).run_seq ≡ seq)
  unfolding better is_exact
  better_exact target seq n none h e = ground arith
  better_exact target seq n (some b) h e = ground arith

  better-Before :
      (target seq : ℕ) (n : Node Data) (best : Option (Node Data))
      → Before seq best
      → is_exact target seq n ≡ false
      → Before seq (better target seq n best)
  unfolding better is_exact
  better-Before target seq n none h e = ground arith
  better-Before target seq n (some b) h e = ground arith

  pub find_loop-nearest_loop :
      (fuel target seq : ℕ) (stack : List (Node Data)) (best origin : Option (Node Data))
      → pending stack < fuel
      → Before seq best
      → find_loop fuel target seq stack best origin ≡ nearest_loop fuel target seq stack best origin
  unfolding find_loop nearest_loop
  find_loop-nearest_loop zero target seq stack best origin h b = refl
  find_loop-nearest_loop (suc fuel) target seq [] best origin h b = refl
  find_loop-nearest_loop (suc fuel) target seq (n ∷ stack) best origin h b =
      let less = pending-round target n stack in
      elim (Bool-cases (is_exact target seq n)) [
        | inl e ↦
            let (taken, at) = better_exact target seq n best b e in
            ground (
              arith,
              less,
              taken,
              nearest_loop-keeps fuel target seq (push_branches target (branch_children n) stack) n
                  (origin_of target n origin),
            )
        | inr e ↦
            let rest =
              find_loop-nearest_loop fuel target seq
                (push_branches target (branch_children n) stack) (better target seq n best)
                (origin_of target n origin) (omega (arith, less))
                (better-Before target seq n best b e) in
            ground (arith, rest)
      ]

  -- `GetState` and `get_nearest_state` return the same state on every tree and for every target: the
  -- early exit of the first at an exact match only saves work.
  pub get_nearest_state-get_state :
      (t : ExecutionTree Data) (target_run_id target_run_seq : ℕ)
      → get_nearest_state t target_run_id target_run_seq ≡ get_state t target_run_id target_run_seq
  unfolding get_nearest_state get_state find_node
  get_nearest_state-get_state t r s =
      ap state_of
        (sym (find_loop-nearest_loop (rounds t) r s (start t) none none (pending-start t) tt))

  exact_loop-find_loop :
      (fuel target seq : ℕ) (stack : List (Node Data)) (best origin : Option (Node Data))
      (n : Node Data)
      → exact_loop fuel target seq stack ≡ found n
      → find_loop fuel target seq stack best origin ≡ found n
  unfolding exact_loop find_loop
  exact_loop-find_loop zero target seq stack best origin n h = ground arith
  exact_loop-find_loop (suc fuel) target seq [] best origin n h = ground arith
  exact_loop-find_loop (suc fuel) target seq (m ∷ stack) best origin n h = ground (
    arith,
    exact_loop-find_loop fuel target seq (push_branches target (branch_children m) stack)
        (better target seq m best) (origin_of target m origin) n,
  )

  exact_loop-run_seq :
      (fuel target seq : ℕ) (stack : List (Node Data)) (n : Node Data)
      → exact_loop fuel target seq stack ≡ found n
      → ((info n).run_id ≡ target) × ((info n).run_seq ≡ seq)
  unfolding exact_loop is_exact
  exact_loop-run_seq zero target seq stack n h = ground arith
  exact_loop-run_seq (suc fuel) target seq [] n h = ground arith
  exact_loop-run_seq (suc fuel) target seq (m ∷ stack) n h =
      ground (
        arith,
        exact_loop-run_seq fuel target seq (push_branches target (branch_children m) stack) n,
      )

  -- An exact match has the run_id and run_seq that were asked for, and `FindNode` then returns the
  -- same node.
  pub find_node-get_exact_node :
      (t : ExecutionTree Data) (target_run_id target_run_seq : ℕ) (n : Node Data)
      → get_exact_node t target_run_id target_run_seq ≡ found n
      → ((info n).run_id ≡ target_run_id)
        × ((info n).run_seq ≡ target_run_seq)
        × (find_node t target_run_id target_run_seq ≡ found n)
  unfolding get_exact_node find_node
  find_node-get_exact_node t r s n h =
      let at = exact_loop-run_seq (rounds t) r s (start t) n h in
      (at.0, at.1, exact_loop-find_loop (rounds t) r s (start t) none none n h)
