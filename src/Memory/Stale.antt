-- ===== src/Memory/Stale.antt =====
-- The early return of `update_stale_regions`, beside the loop that it skips.
use chronoporia.Base.{
  ℕ, suc, ◌≤◌, ◌≡◌, refl, sym, ap, ◌∙◌, inl, inr, Bool, true, false, List, [], ◌∷◌, arith,
  if◌then◌else◌, ◌==◌, mem, remove, length, length-remove, Bool-cases,
}
use chronoporia.Region.{done, ◌>>=◌}
use chronoporia.Tracking.Histories.{IsDistinct}
use chronoporia.Memory.{
  RegionHistory, AllocationRegion, freed_mbi, update_history, mark_stale, clear_seen,
  update_stale_regions,
}

-- Each of the first list is in the second.
abbrev pub Within : List ℕ → List ℕ → Type 0
Within xs ys = (x : ℕ) → mem x xs ≡ true → mem x ys ≡ true

mem-remove_ne : (x s : ℕ) (ys : List ℕ) → (s == x) ≡ false → mem x (remove s ys) ≡ mem x ys
unfolding mem remove
mem-remove_ne x s [] e = refl
mem-remove_ne x s (y ∷ ys) e = ground (arith, e, mem-remove_ne x s ys e)

mem_first : (x : ℕ) (xs : List ℕ) → mem x (x ∷ xs) ≡ true
unfolding mem
mem_first x xs = ground arith

mem_later : (x y : ℕ) (xs : List ℕ) → mem x xs ≡ true → mem x (y ∷ xs) ≡ true
unfolding mem
mem_later x y xs e = ground arith

distinct_ne : (s x : ℕ) (xs : List ℕ) → mem s xs ≡ false → mem x xs ≡ true → (s == x) ≡ false
distinct_ne s x xs h e = elim (Bool-cases (s == x)) [
  | inl b ↦
      let same : s ≡ x = ground arith in let f : mem x xs ≡ false = rw same at h in ground arith
  | inr b ↦ b
]

-- Different addresses, all from a list that is no longer, are the whole list.
all_seen :
    (seen bases : List ℕ)
    → IsDistinct seen
    → Within seen bases
    → length bases ≤ length seen
    → Within bases seen
unfolding IsDistinct mem
all_seen [] [] d w l x e = e
all_seen [] (b ∷ bases) d w l x e = ground (arith, l)
all_seen (s ∷ seen) bases d w l x e =
    let shorter = length-remove s bases (w s (mem_first s seen)) in
    let rest =
      all_seen seen (remove s bases) d.1
        (λ y f. mem-remove_ne y s bases (distinct_ne s y seen d.0 f) ∙ w y (mem_later y s seen f))
        (omega (arith, shorter, l)) in
    elim (Bool-cases (s == x)) [
      | inl b ↦ ground arith
      | inr b ↦ mem_later x s seen (rest x (mem-remove_ne x s bases b ∙ e))
    ]

module _ {Page : Type 0} (zeroed : Page) (same : Page → Page → Bool) where
  abbrev pub bases_of : List (RegionHistory Page) → List ℕ
  bases_of [] = []
  bases_of (h ∷ histories) = h.base_address ∷ bases_of histories

  length-bases_of : (hs : List (RegionHistory Page)) → length (bases_of hs) ≡ length hs
  length-bases_of [] = refl
  length-bases_of (h ∷ hs) = ap suc (length-bases_of hs)

  mark_stale_none :
      (seen : List ℕ) (hs : List (RegionHistory Page)) (run_id run_seq global_seq : ℕ)
      → Within (bases_of hs) seen
      → mark_stale zeroed same seen hs run_id run_seq global_seq ≡ done hs
  unfolding mark_stale
  mark_stale_none seen [] r s g w = refl
  mark_stale_none seen (h ∷ hs) r s g w =
      let here = w h.base_address (mem_first h.base_address (bases_of hs)) in
      let rest =
        mark_stale_none seen hs r s g (λ x e. w x (mem_later x h.base_address (bases_of hs) e)) in
      ap
        (λ b. (if b then done h else update_history zeroed same h r s g freed_mbi []) >>= λ h'.
          mark_stale zeroed same seen hs r s g >>= λ hs'. done (h' ∷ hs'))
        here
      ∙ ap (λ o. o >>= λ hs'. done (h ∷ hs')) rest

  -- When the addresses that were seen are different and each is the base of a region, which one scan
  -- ensures, the comparison of the two lengths only saves work: `update_stale_regions` marks as free
  -- every region that was not seen, and forgets what was seen.
  pub update_stale_regions-mark_stale :
      (a : AllocationRegion Page) (run_id run_seq global_seq : ℕ)
      → IsDistinct a.seen_base_addresses
      → Within a.seen_base_addresses (bases_of a.regions_history)
      → update_stale_regions zeroed same a run_id run_seq global_seq ≡ (
          mark_stale zeroed same a.seen_base_addresses a.regions_history run_id run_seq global_seq
          >>= λ hs. done (clear_seen zeroed same a hs))
  unfolding update_stale_regions
  update_stale_regions-mark_stale a r s g d w =
      elim (Bool-cases (length a.regions_history == length a.seen_base_addresses)) [
        | inl e ↦
            let count : length a.regions_history ≡ length a.seen_base_addresses = ground arith in
            let nothing = mark_stale_none a.seen_base_addresses a.regions_history r s g (
              all_seen a.seen_base_addresses (bases_of a.regions_history) d w
                (omega (arith, count, length-bases_of a.regions_history))) in
            ap
              (λ b.
                if b
                then done (clear_seen zeroed same a a.regions_history)
                else (mark_stale zeroed same a.seen_base_addresses a.regions_history r s g >>= λ hs.
                    done (clear_seen zeroed same a hs)))
              e
            ∙ sym (ap (λ o. o >>= λ hs. done (clear_seen zeroed same a hs)) nothing)
        | inr e ↦
            ap
              (λ b.
                if b
                then done (clear_seen zeroed same a a.regions_history)
                else (mark_stale zeroed same a.seen_base_addresses a.regions_history r s g >>= λ hs.
                    done (clear_seen zeroed same a hs)))
              e
      ]
