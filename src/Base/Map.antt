-- ===== src/Base/Map.antt =====
-- `std::unordered_map` and `std::map` as association lists with number keys.
use Prim.Native.Nat.{ℕ}
use mathlib.Core.Path.{◌≡◌, refl, ap}
use mathlib.Core.Bool.{Bool, true, false}
use mathlib.Core.List.{List, [], ◌∷◌}
use mathlib.Core.Option.{Option, none, some}
use native.Mathlib.Omega.{arith}
use chronoporia.Base.Tests.{if◌then◌else◌, ◌==◌}

module _ {ℓ} {V : Type ℓ} where
  -- `find`: the entry's value.
  unfoldable pub lookup : ℕ → List (ℕ × V) → Option V
  lookup k [] = none
  lookup k ((j, v) ∷ m) = if j == k then some v else lookup k m

  -- `m[k] = v`, or `insert_or_assign`.
  unfoldable pub insert : ℕ → V → List (ℕ × V) → List (ℕ × V)
  insert k v [] = (k, v) ∷ []
  insert k v ((j, w) ∷ m) = if j == k then (k, v) ∷ m else (j, w) ∷ insert k v m

  -- `erase(k)`.
  unfoldable pub erase : ℕ → List (ℕ × V) → List (ℕ × V)
  erase k [] = []
  erase k ((j, w) ∷ m) = let rest = erase k m in if j == k then rest else (j, w) ∷ rest

  -- `contains(k)`.
  unfoldable pub contains : ℕ → List (ℕ × V) → Bool
  contains k m = elim (lookup k m) [ none ↦ false | some _ ↦ true ]

  -- The value at `k`, or the default that `m[k]` makes.
  unfoldable pub get_or : ℕ → V → List (ℕ × V) → V
  get_or k d m = elim (lookup k m) [ none ↦ d | some v ↦ v ]

  pub get_or-some : (k : ℕ) (d v : V) (m : List (ℕ × V)) → lookup k m ≡ some v → get_or k d m ≡ v
  unfolding get_or
  get_or-some k d v m e = ap (λ o. elim o as (λ _. V) [ none ↦ d | some w ↦ w ]) e

  pub get_or-none : (k : ℕ) (d : V) (m : List (ℕ × V)) → lookup k m ≡ none → get_or k d m ≡ d
  unfolding get_or
  get_or-none k d m e = ap (λ o. elim o as (λ _. V) [ none ↦ d | some w ↦ w ]) e

  -- The value that was put at `at` is found there, and every other key as before.
  pub lookup-insert :
      (at key : ℕ) (value : V) (entries : List (ℕ × V))
      → lookup key (insert at value entries)
        ≡ (if at == key then some value else lookup key entries)
  unfolding insert lookup
  lookup-insert at key value (entry ∷ entries) = ground (lookup-insert at key value entries, arith)
  lookup-insert at key value [] = refl

  pub lookup-erase :
      (k j : ℕ) (m : List (ℕ × V)) → lookup j (erase k m) ≡ (if k == j then none else lookup j m)
  unfolding lookup erase
  lookup-erase k j [] = ground arith
  lookup-erase k j ((i, w) ∷ m) = ground (arith, lookup-erase k j m)

  pub get_or-insert :
      (k j : ℕ) (d v : V) (m : List (ℕ × V))
      → get_or j d (insert k v m) ≡ (if k == j then v else get_or j d m)
  unfolding get_or
  get_or-insert k j d v m = ground (arith, lookup-insert k j v m)
