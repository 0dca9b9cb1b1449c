-- ===== src/Versions/Upgrade/Scans.antt =====
-- The loops that the selectors of pkg/common/versions/upgradeselectors share.
use osde2e.Prelude.{◌≡◌, refl, sym, List, [], ◌∷◌, ◌⊎◌, inl, inr, Any, subst}
use osde2e.Spi.Version.{Ptr, Version}
use osde2e.Versions.Upgrade.{scan_upgrades, scan_versions}

module _ {V : Type 0} where
  -- An edge of one of the versions leads to `v`.
  abbrev pub IsEdge : V → List (Version V) → Type 0
  IsEdge v = Any (λ (u : Version V). Any (λ (p : Ptr V). p.target ≡ v) u.available_upgrades)

  -- A scan by a step that keeps or replaces: a property that each replacement has.
  module _ (step : Version V → V → Version V) (P : V → Type 0)
      (replaces : (n : Version V) (u : V) → (step n u ≡ n) ⊎ (((step n u).version ≡ u) × P u)) where
    scan_upgrades_source :
        (n : Version V) (ps : List (Ptr V))
        → (scan_upgrades step n ps ≡ n)
          ⊎ (Any (λ (p : Ptr V). p.target ≡ (scan_upgrades step n ps).version) ps
              × P (scan_upgrades step n ps).version)
    unfolding scan_upgrades
    scan_upgrades_source n [] = inl refl
    scan_upgrades_source n (p ∷ ps) = elim (scan_upgrades_source (step n p.target) ps) [
      | inr (a, h) ↦ inr (inr a, h)
      | inl e ↦ elim (replaces n p.target) [
        | inl k ↦ inl (rw e k)
        | inr (k, h) ↦ inr (rw e (inl (sym k), subst P (sym k) h))
      ]
    ]

    pub scan_versions_source :
        (n : Version V) (vs : List (Version V))
        → (scan_versions step n vs ≡ n)
          ⊎ (IsEdge (scan_versions step n vs).version vs × P (scan_versions step n vs).version)
    unfolding scan_versions
    scan_versions_source n [] = inl refl
    scan_versions_source n (v ∷ vs) =
        elim (scan_versions_source (scan_upgrades step n v.available_upgrades) vs) [
          | inr (a, h) ↦ inr (inr a, h)
          | inl e ↦ elim (scan_upgrades_source n v.available_upgrades) [
            | inl k ↦ inl (rw e k)
            | inr (a, h) ↦ inr (rw e (inl a, h))
          ]
        ]
