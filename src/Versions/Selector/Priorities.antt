-- ===== src/Versions/Selector/Priorities.antt =====
-- Which selector the loop of `getInstallVersion` and `getUpgradeVersion` settles on.
use osde2e.Prelude.{
  ◌≡◌, refl, sym, ◌∙◌, ap, Bool, true, ◌&&◌, Option, none, some, List, [], ◌∷◌, ◌⊎◌, inl, inr, ◌≢◌,
  arith, Bool-cases, Option-cases, All, Any, some_eq,
}
use osde2e.Prelude.Int.{ℤ, ltb_ℤ, ◌≤ℤ◌}
use osde2e.Semver.{Semver}
use osde2e.Versions.Settings.{Settings}
use osde2e.Versions.Install.Helpers
use osde2e.Versions.Install.Registry.{global_selector_registry}
use osde2e.Versions.Install.Tagged.{default_version}
use osde2e.Versions.Selector.{min_int32, pick_selector, selected_selector}

module _ {S : Type 0} (usable : S → Bool) (priority : S → ℤ) where
  abbrev better : ℤ → S → Bool
  better current x = usable x && ltb_ℤ current (priority x)

  -- `current` is the priority of what is selected.
  abbrev Agrees : Option S → ℤ → Type 0
  Agrees selected current = (s : S) → selected ≡ some s → priority s ≡ current

  abbrev NoneAbove : S → S → Type 0
  NoneAbove s t = usable t ≡ true → priority t ≤ℤ priority s

  picked_maximal :
      (selected : Option S) (current : ℤ) (xs : List S) (s : S)
      → Agrees selected current
      → pick_selector usable priority selected current xs ≡ some s
      → (current ≤ℤ priority s) × All (NoneAbove s) xs
  unfolding pick_selector
  picked_maximal selected current [] s agrees e = (rw (agrees s e) (omega arith), tt)
  picked_maximal selected current (x ∷ xs) s agrees e = elim (Bool-cases (better current x)) [
    | inl t ↦
        let (le, rest) =
          picked_maximal (some x) (priority x) xs s (λ u h. ap priority (sym (some_eq h)))
            (rw t at e) in
        (ground arith, (λ _. le, rest))
    | inr t ↦
        let (le, rest) = picked_maximal selected current xs s agrees (rw t at e) in
        (le, (λ h. ground arith, rest))
  ]

  picked_source :
      (selected : Option S) (current : ℤ) (xs : List S) (s : S)
      → pick_selector usable priority selected current xs ≡ some s
      → (selected ≡ some s) ⊎ Any (λ x. (x ≡ s) × (usable x ≡ true)) xs
  unfolding pick_selector
  picked_source selected current [] s e = inl e
  picked_source selected current (x ∷ xs) s e = elim (Bool-cases (better current x)) [
    | inl t ↦ elim (picked_source (some x) (priority x) xs s (rw t at e)) [
      | inl h ↦ inr (inl (some_eq h, ground arith))
      | inr h ↦ inr (inr h)
    ]
    | inr t ↦ elim (picked_source selected current xs s (rw t at e)) [
      | inl h ↦ inl h
      | inr h ↦ inr (inr h)
    ]
  ]

  picked_kept :
      (x : S) (current : ℤ) (xs : List S) → pick_selector usable priority (some x) current xs ≢ none
  unfolding pick_selector
  picked_kept x current [] h = cc
  picked_kept x current (y ∷ ys) h = elim (Bool-cases (better current y)) [
    | inl t ↦ picked_kept y (priority y) ys (rw t at h)
    | inr t ↦ picked_kept x current ys (rw t at h)
  ]

  pub picked_first :
      (current : ℤ) (x : S) (xs : List S)
      → usable x ≡ true
      → ltb_ℤ current (priority x) ≡ true
      → (s : S) × (pick_selector usable priority none current (x ∷ xs) ≡ some s)
        × Any (λ y. (y ≡ s) × (usable y ≡ true)) (x ∷ xs)
        × All (NoneAbove s) (x ∷ xs)
  unfolding pick_selector
  picked_first current x xs u h =
      let start : pick_selector usable priority none current (x ∷ xs)
          ≡ pick_selector usable priority (some x) (priority x) xs =
        rw (u, h) refl in
      elim (Option-cases (pick_selector usable priority none current (x ∷ xs))) [
        | inl e ↦ absurd (picked_kept x (priority x) xs (sym start ∙ e))
        | inr (s, e) ↦ (
          s,
          e,
          elim (picked_source none current (x ∷ xs) s e) [ inl n ↦ absurd (cc) | inr a ↦ a ],
          (picked_maximal none current (x ∷ xs) s (λ t n. absurd (cc)) e).1,
        )
      ]

-- The selector that is chosen for the install is a registered one that is to be used, and no other
-- registered one that is to be used has a higher priority; there always is one.
pub selected_selector_lem :
    {V : Type 0} ⦃sv : Semver V⦄ (s : Settings)
    → (i : Helpers.Selector V) × (selected_selector s ≡ some i)
      × Any
          (λ (j : Helpers.Selector V). (j ≡ i) × (j.should_use s ≡ true))
          global_selector_registry.selectors
      × All
          (λ (j : Helpers.Selector V). j.should_use s ≡ true → j.priority ≤ℤ i.priority)
          global_selector_registry.selectors
unfolding selected_selector global_selector_registry default_version
selected_selector_lem s =
    picked_first (λ i. i.should_use s) (λ i. i.priority) min_int32 default_version _ refl refl
