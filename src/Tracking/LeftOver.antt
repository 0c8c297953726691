-- ===== src/Tracking/LeftOver.antt =====
-- The states that are left over when others have taken theirs, by key.
use chronoporia.Base.{
  ℕ, ◌≡◌, refl, ap, sym, ◌∙◌, inl, inr, Bool, false, not, List, [], ◌∷◌, arith, ◌==◌, mem, keep,
  Bool-cases,
}
use chronoporia.Tracking.{erase_first, left_over}
use chronoporia.Tracking.Histories.{IsDistinct, keys_of}

module _ {Data : Type 0} (key_of : Data → ℕ) where
  abbrev other : ℕ → Data → Bool
  other k d = not (key_of d == k)

  keep_all : (k : ℕ) (ds : List Data) → mem k (keys_of key_of ds) ≡ false → keep (other k) ds ≡ ds
  unfolding keep keys_of mem
  keep_all k [] h = refl
  keep_all k (d ∷ ds) h = ground (arith, keep_all k ds)

  erase_first-keep :
      (k : ℕ) (ds : List Data)
      → IsDistinct (keys_of key_of ds)
      → erase_first key_of k ds ≡ keep (other k) ds
  unfolding erase_first keep keys_of IsDistinct
  erase_first-keep k [] h = refl
  erase_first-keep k (d ∷ ds) h = elim (Bool-cases (key_of d == k)) [
    | inl e ↦ let same : key_of d ≡ k = ground arith in ground (arith, keep_all k ds, same, h.0)
    | inr e ↦ ground (arith, erase_first-keep k ds h.1)
  ]

  -- No state of the list has this state's key.
  abbrev pub is_absent : List Data → Data → Bool
  is_absent taken d = not (mem (key_of d) (keys_of key_of taken))

  keep-other :
      (d : Data) (taken ds : List Data)
      → keep (is_absent taken) (keep (other (key_of d)) ds) ≡ keep (is_absent (d ∷ taken)) ds
  unfolding keep keys_of mem
  keep-other d taken [] = refl
  keep-other d taken (x ∷ ds) = ground (arith, keep-other d taken ds)

  mem-keep :
      (p : Data → Bool) (x : ℕ) (ds : List Data)
      → mem x (keys_of key_of ds) ≡ false
      → mem x (keys_of key_of (keep p ds)) ≡ false
  unfolding keep keys_of mem
  mem-keep p x [] h = refl
  mem-keep p x (d ∷ ds) h = ground (arith, mem-keep p x ds)

  keep-IsDistinct :
      (p : Data → Bool) (ds : List Data)
      → IsDistinct (keys_of key_of ds)
      → IsDistinct (keys_of key_of (keep p ds))
  unfolding keep keys_of IsDistinct
  keep-IsDistinct p [] h = tt
  keep-IsDistinct p (d ∷ ds) h = elim (Bool-cases (p d)) [
    | inl e ↦ rw e (mem-keep p (key_of d) ds h.0, keep-IsDistinct p ds h.1)
    | inr e ↦ rw e (keep-IsDistinct p ds h.1)
  ]

  keep_true : (ds : List Data) → keep (is_absent []) ds ≡ ds
  unfolding keep mem keys_of
  keep_true [] = refl
  keep_true (d ∷ ds) = ap (λ rest. d ∷ rest) (keep_true ds)

  -- With different keys, the states left over are those whose key was not taken, in their order.
  pub left_over-keep :
      (taken ds : List Data)
      → IsDistinct (keys_of key_of ds)
      → left_over key_of taken ds ≡ keep (is_absent taken) ds
  unfolding left_over
  left_over-keep [] ds h = sym (keep_true ds)
  left_over-keep (d ∷ taken) ds h =
      ap (left_over key_of taken) (erase_first-keep (key_of d) ds h)
      ∙ left_over-keep taken (keep (other (key_of d)) ds) (keep-IsDistinct (other (key_of d)) ds h)
      ∙ keep-other d taken ds
