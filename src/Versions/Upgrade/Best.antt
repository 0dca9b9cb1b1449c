-- ===== src/Versions/Upgrade/Best.antt =====
-- latest_version_selector.go of pkg/common/versions/upgradeselectors among builds that are no
-- nightlies.
use osde2e.Prelude.{
  ◌≡◌, refl, true, false, Option, none, some, List, [], ◌∷◌, if◌then◌else◌, Bool-cases, All,
  All-map, inl, inr,
}
use osde2e.Prelude.Rank.{irreflexive}
use osde2e.Go.{returns}
use osde2e.Semver.{Semver, SemverLaws}
use osde2e.Spi.Version.{Ptr, Version, VersionList, build, find_version}
use osde2e.Versions.Settings.{Selection}
use osde2e.Versions.Upgrade.{
  scan_upgrades, scan_versions, nightly, latest_step, upgrade_to, no_upgrade, choose_latest,
}

module _ {V : Type 0} where
  -- Every edge of every version has the property.
  abbrev pub AllEdges : (V → Type 0) → List (Version V) → Type 0
  AllEdges P = All (λ (v : Version V). All (λ (p : Ptr V). P p.target) v.available_upgrades)

module _ {V : Type 0} ⦃sv : Semver V⦄ where
  abbrev pub NotLess : V → V → Type 0
  NotLess a b = sv.less_than a b ≡ false

  -- A chosen version is greater than the installed one and no edge is greater than it; if nothing
  -- is chosen, no edge is greater than the installed version.
  abbrev pub BestChoice : V → List (Version V) → Option (Version V) → Type 0
  BestChoice install vs none = AllEdges (λ u. NotLess install u) vs
  BestChoice install vs (some v) =
      (sv.less_than install v.version ≡ true) × AllEdges (λ u. NotLess v.version u) vs

module _ {V : Type 0} ⦃sv : Semver V⦄ (laws : SemverLaws sv) where
  open laws use {weak}

  latest_step_best :
      (n : Version V) (u : V)
      → nightly n.version ≡ false
      → nightly u ≡ false
      → (nightly (latest_step n u).version ≡ false)
        × NotLess (latest_step n u).version n.version
        × NotLess (latest_step n u).version u
  unfolding latest_step build
  latest_step_best n u hn hu = elim (Bool-cases (sv.greater_than u n.version)) [
    | inl t ↦
        let less : sv.less_than n.version u ≡ true = rw (← laws.greater u n.version) t in
        rw (hu, t) (hu, weak.asymmetric n.version u less, irreflexive weak u)
    | inr t ↦
        let less : sv.less_than n.version u ≡ false = rw (← laws.greater u n.version) t in
        rw (hu, t) (hn, irreflexive weak n.version, less)
  ]

  upgrades_best :
      (n : Version V) (ps : List (Ptr V))
      → nightly n.version ≡ false
      → All (λ (p : Ptr V). nightly p.target ≡ false) ps
      → (nightly (scan_upgrades latest_step n ps).version ≡ false)
        × NotLess (scan_upgrades latest_step n ps).version n.version
        × All (λ (p : Ptr V). NotLess (scan_upgrades latest_step n ps).version p.target) ps
  unfolding scan_upgrades
  upgrades_best n [] hn h = (hn, irreflexive weak n.version, tt)
  upgrades_best n (p ∷ ps) hn h =
      let (kn, kold, knew) = latest_step_best n p.target hn h.0 in
      let (mn, mold, rest) = upgrades_best (latest_step n p.target) ps kn h.1 in
      (mn, weak.incomparable _ _ _ mold kold, (weak.incomparable _ _ _ mold knew, rest))

  versions_best :
      (n : Version V) (vs : List (Version V))
      → nightly n.version ≡ false
      → AllEdges (λ u. nightly u ≡ false) vs
      → NotLess (scan_versions latest_step n vs).version n.version
        × AllEdges (λ u. NotLess (scan_versions latest_step n vs).version u) vs
  unfolding scan_versions
  versions_best n [] hn h = (irreflexive weak n.version, tt)
  versions_best n (v ∷ vs) hn h =
      let (kn, kold, here) = upgrades_best n v.available_upgrades hn h.0 in
      let (mold, rest) =
        versions_best (scan_upgrades latest_step n v.available_upgrades) vs kn h.1 in
      (
        weak.incomparable _ _ _ mold kold,
        (All-map _ _ (λ p k. weak.incomparable _ _ _ mold k) v.available_upgrades here, rest),
      )

  latest_run :
      (install : Version V) (vl : VersionList V) (vs : List (Version V))
      → find_version vl (sv.original install.version) ≡ returns vs
      → choose_latest install vl ≡ (
          if sv.greater_than (scan_versions latest_step install vs).version install.version
          then upgrade_to (scan_versions latest_step install vs) "latest version"
          else no_upgrade install "latest version")
  unfolding choose_latest
  latest_run install vl vs e = rw e refl

  -- If neither the installed version nor an edge of the listed versions of its release is a nightly,
  -- the latest selector returns; what it chooses is greater than the installed version and no edge
  -- is greater than it, and it chooses nothing only if no edge is greater than the installed
  -- version. This holds for every order of the edges.
  pub choose_latest_best :
      (install : Version V) (vl : VersionList V) (vs : List (Version V))
      → find_version vl (sv.original install.version) ≡ returns vs
      → nightly install.version ≡ false
      → AllEdges (λ u. nightly u ≡ false) vs
      → (r : Selection (Version V)) × (choose_latest install vl ≡ returns r)
        × BestChoice install.version vs r.version
  choose_latest_best install vl vs e hn h =
      let (_, edges) = versions_best install vs hn h in
      rw (latest_run install vl vs e)
        (elim (Bool-cases
          (sv.greater_than (scan_versions latest_step install vs).version install.version)) [
            | inl t ↦
                let less : sv.less_than install.version
                      (scan_versions latest_step install vs).version
                    ≡ true =
                  rw (← laws.greater _ install.version) t in
                rw t (_, refl, (less, edges))
            | inr t ↦
                let less : sv.less_than install.version
                      (scan_versions latest_step install vs).version
                    ≡ false =
                  rw (← laws.greater _ install.version) t in
                rw t (
                  _,
                  refl,
                  All-map _ _
                      (λ v here.
                        All-map _ _ (λ p q. weak.incomparable _ _ _ less q) v.available_upgrades
                          here)
                      vs edges,
                )
          ])
