-- ===== src/Krkn/Results/Ranking.antt =====
-- The best scenarios of a run, and the counts of its summary.
use mathlib.Core.List.{Perm}
use osde2e.Prelude.{
  ℕ, zero, suc, ◌+◌, ◌-◌, ◌≤◌, ◌≡◌, refl, ◌∙◌, sym, subst, inl, inr, String, Bool, false, List, [],
  ◌∷◌, ◌++◌, arith, Bool-cases, length, length-append, fold, keep_if, All-keep_if, append_nil,
  append_assoc, count_if, count_if-le-length,
}
use osde2e.Prelude.Int.{pos, ltb_ℤ}
use osde2e.Prelude.Slices.{take}
use osde2e.Prelude.Perms.{keep_if-perm}
use osde2e.Prelude.Sorting.{IsWeakOrder, IsSorted, SortLaws}
use osde2e.Krkn.Results.{
  Floats, ScenarioResult, Data, Sorts, has_failed, has_passed, fitter, add_top, process_scenarios,
}

module _ {A : Type 0} (less : A → A → Bool) where
  -- What is kept of a sorted list is sorted.
  keep_if-IsSorted : (p : A → Bool) (xs : List A) → IsSorted less xs → IsSorted less (keep_if p xs)
  keep_if-IsSorted p [] h = tt
  keep_if-IsSorted p (x ∷ xs) h = elim (Bool-cases (p x)) [
    | inl e ↦ rw e (All-keep_if (λ y. less y x ≡ false) p xs h.0, keep_if-IsSorted p xs h.1)
    | inr e ↦ rw e (keep_if-IsSorted p xs h.1)
  ]

length-keep_if : {A : Type 0} (p : A → Bool) (xs : List A) → length (keep_if p xs) ≡ count_if p xs
length-keep_if p [] = refl
length-keep_if p (x ∷ xs) = ground (arith, length-keep_if p xs)

take-empty : {A : Type 0} (n : ℕ) → take {A = A} n [] ≡ []
take-empty zero = refl
take-empty (suc n) = refl

module _ {F : Type 0} ⦃fl : Floats F⦄ where
  -- The loop keeps the first ones that passed.
  add_top-take :
      (n : ℕ) (top ss : List (ScenarioResult F))
      → length top ≤ n
      → fold (add_top (pos n)) top ss ≡ top ++ take (n - length top) (keep_if has_passed ss)
  add_top-take n top [] h = rw (take-empty (n - length top)) (sym (append_nil top))
  add_top-take n top (s ∷ ss) h = elim (Bool-cases (has_passed s)) [
    | inr f ↦ rw f (add_top-take n top ss h)
    | inl t ↦ elim (Bool-cases (ltb_ℤ (pos (length top)) (pos n))) [
      | inl l ↦
          let longer : length (top ++ (s ∷ [])) ≡ suc (length top) =
            omega (arith, length-append top (s ∷ [])) in
          let left : n - length top ≡ suc (n - length (top ++ (s ∷ []))) = ground (arith, longer) in
          rw (t, l, left)
            (add_top-take n (top ++ (s ∷ [])) ss (ground (arith, longer))
              ∙ append_assoc top (s ∷ [])
                  (take (n - length (top ++ (s ∷ []))) (keep_if has_passed ss)))
      | inr l ↦
          let left : n - length top ≡ 0 = ground arith in
          let later = add_top-take n top ss h in rw (t, l, left) (rw left at later)
    ]
  ]

  -- The best scenarios: those that passed, in an order that has no later one fitter than an earlier
  -- one, and the first `n` of these.
  abbrev pub IsBest : ℕ → List (ScenarioResult F) → List (ScenarioResult F) → Type 0
  IsBest n ss top =
      (good : List (ScenarioResult F)) × Perm good (keep_if has_passed ss)
      × IsSorted fitter good
      × (top ≡ take n good)

  -- The sort keeps its laws, fitness is a weak order, and there is a scenario. With a limit of `n` the
  -- top scenarios are the `n` fittest of those with a score of at least zero (all of them, when there
  -- are fewer); the failed ones are those with a score below zero, in order; and the numbers of
  -- scenarios that succeeded and that failed add up to that of all.
  pub process_scenarios_lem :
      (sort_slice : Sorts F) (sort_strings : List String → List String) (n : ℕ) (found : Data F)
      (s : ScenarioResult F) (ss : List (ScenarioResult F))
      → SortLaws sort_slice
      → IsWeakOrder (fitter {F = F})
      → IsBest n
          (s ∷ ss)
          (process_scenarios sort_slice sort_strings (pos n) found (s ∷ ss)).top_scenarios
        × ((process_scenarios sort_slice sort_strings (pos n) found (s ∷ ss)).failed_scenarios
            ≡ keep_if has_failed (s ∷ ss))
        × ((process_scenarios sort_slice sort_strings
                (pos n)
                found
                (s ∷ ss)).summary.successful_scenario_count
              + (process_scenarios sort_slice sort_strings
                  (pos n)
                  found
                  (s ∷ ss)).summary.failed_scenario_count
            ≡ length (s ∷ ss))
  unfolding process_scenarios
  process_scenarios_lem sort_slice sort_strings n found s ss sort weak =
      let sorted = sort_slice fitter (s ∷ ss) in
      (
        (
          keep_if has_passed sorted,
          keep_if-perm has_passed (sort.permutes fitter (s ∷ ss)),
          keep_if-IsSorted fitter has_passed sorted (sort.sorts fitter (s ∷ ss) weak),
          subst (λ k. fold (add_top (pos n)) [] sorted ≡ take k (keep_if has_passed sorted))
              (omega arith) (add_top-take n [] sorted (omega arith)),
        ),
        refl,
        omega (arith, length-keep_if has_failed (s ∷ ss), count_if-le-length has_failed (s ∷ ss)),
      )
