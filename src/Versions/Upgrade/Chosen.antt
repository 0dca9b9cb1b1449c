-- ===== src/Versions/Upgrade/Chosen.antt =====
-- What kind of version the selectors of pkg/common/versions/upgradeselectors choose.
use osde2e.Prelude.{
  ◌+◌, ◌%◌, ◌≡◌, refl, Bool, true, false, not, some, List, ◌⊎◌, inl, inr, arith, Bool-cases,
  some_eq, subst, ap, String,
}
use osde2e.Prelude.Int.{word_size}
use osde2e.Prelude.Rank.{irreflexive}
use osde2e.Go.{Outcome, returns, panics, ◌>>=◌}
use osde2e.Semver.{Semver, SemverLaws}
use osde2e.Spi.Version.{Version, VersionList, build, find_version}
use osde2e.Versions.Settings.{Selection}
use osde2e.Versions.Upgrade.{
  scan_versions, latest_step, y_step, z_step, upgrade_to, no_upgrade, choose_latest, choose_y,
  choose_z,
}
use osde2e.Versions.Upgrade.Scans.{IsEdge, scan_versions_source}

module _ {V : Type 0} ⦃sv : Semver V⦄ where
  latest_replaces :
      (n : Version V) (u : V) → (latest_step n u ≡ n) ⊎ (((latest_step n u).version ≡ u) × Unit {0})
  unfolding latest_step build
  latest_replaces n u = ground arith

  y_replaces :
      (i : V) (n : Version V) (u : V)
      → (y_step i n u ≡ n)
        ⊎ (((y_step i n u).version ≡ u) × (sv.minor u ≡ (sv.minor i + 1) % word_size))
  unfolding y_step build
  y_replaces i n u = ground arith

  z_replaces :
      (i : V) (n : Version V) (u : V)
      → (z_step i n u ≡ n) ⊎ (((z_step i n u).version ≡ u) × (sv.minor u ≡ sv.minor i))
  unfolding z_step build
  z_replaces i n u = ground arith

  -- The result of a selector: it panics, it chooses nothing, or what it chooses is an edge of a
  -- listed version of the installed release and has the property.
  abbrev Chooses :
      Version V → VersionList V → (V → Type 0) → Outcome (Selection (Version V)) → Type 0
  Chooses install vl P panics = find_version vl (sv.original install.version) ≡ panics
  Chooses install vl P (returns r) =
      (v : Version V)
      → r.version ≡ some v
      → (vs : List (Version V)) × (find_version vl (sv.original install.version) ≡ returns vs)
        × IsEdge v.version vs
        × P v.version

  Chooses-map :
      (install : Version V) (vl : VersionList V) (P Q : V → Type 0)
      → ((v : V) → P v → Q v)
      → (o : Outcome (Selection (Version V))) → Chooses install vl P o
      → Chooses install vl Q o
  Chooses-map install vl P Q f panics h = h
  Chooses-map install vl P Q f (returns r) h =
      λ v e. let (vs, k, a, p) = h v e in (vs, k, a, f v.version p)

module _ {V : Type 0} ⦃sv : Semver V⦄ (laws : SemverLaws sv) (install : Version V)
    (vl : VersionList V) where
  -- The end of the three functions: the scanned version, if it passes a test that the installed
  -- version does not pass.
  module _ (step : Version V → V → Version V) (P : V → Type 0)
      (replaces : (n : Version V) (u : V) → (step n u ≡ n) ⊎ (((step n u).version ≡ u) × P u))
      (test : V → Bool) (stays : test install.version ≡ false) (text : String)
      (decide : List (Version V) → Outcome (Selection (Version V)))
      (passes : (vs : List (Version V))
        → test (scan_versions step install vs).version ≡ true
        → decide vs ≡ upgrade_to (scan_versions step install vs) text)
      (fails : (vs : List (Version V))
        → test (scan_versions step install vs).version ≡ false
        → decide vs ≡ no_upgrade install text) where
    abbrev Good : V → Type 0
    Good v = (test v ≡ true) × P v

    scanned :
        (vs : List (Version V))
        → test (scan_versions step install vs).version ≡ true
        → IsEdge (scan_versions step install vs).version vs
          × P (scan_versions step install vs).version
    scanned vs t = elim (scan_versions_source step P replaces install vs) [
      | inr h ↦ h
      | inl k ↦ absurd (clash (ap (λ (v : Version V). test v.version) k))
    ]
      where
        clash : test (scan_versions step install vs).version ≡ test install.version → ⊥
        clash k = cc

    decided :
        (o : Outcome (List (Version V)))
        → find_version vl (sv.original install.version) ≡ o
        → Chooses install vl Good (o >>= decide)
    decided panics e = e
    decided (returns vs) e = elim (Bool-cases (test (scan_versions step install vs).version)) [
      | inl t ↦ rw (passes vs t) (λ v h. let (a, g) = moved vs t v (some_eq h) in (vs, e, a, g))
      | inr t ↦ rw (fails vs t) (λ v h. absurd (cc))
    ]
      where
        moved :
            (vs : List (Version V))
            → test (scan_versions step install vs).version ≡ true
            → (v : Version V) → scan_versions step install vs ≡ v
            → IsEdge v.version vs × Good v.version
        moved vs t v k =
            let (a, p) = scanned vs t in
            subst (λ (u : Version V). IsEdge u.version vs × Good u.version) k (a, (t, p))

  not_greater_self : sv.greater_than install.version install.version ≡ false
  not_greater_self = rw laws.greater (irreflexive laws.weak install.version)

  equal_self : sv.equal install.version install.version ≡ true
  equal_self = rw laws.equal_iff (rw (irreflexive laws.weak install.version) refl)

  choose_latest-Chooses :
      Chooses install vl (λ v. sv.greater_than v install.version ≡ true) (choose_latest install vl)
  unfolding choose_latest
  choose_latest-Chooses =
      Chooses-map install vl _ _ (λ v p. p.0) (choose_latest install vl)
        (decided latest_step (λ _. Unit) latest_replaces (λ v. sv.greater_than v install.version)
          not_greater_self "latest version" _ (λ vs t. rw t refl) (λ vs t. rw t refl)
          (find_version vl (sv.original install.version)) refl)

  -- What the latest selector chooses is an edge of a listed version of the installed release, and
  -- greater than the installed version.
  pub choose_latest_upgrades :
      {r : Selection (Version V)} {v : Version V}
      → choose_latest install vl ≡ returns r
      → r.version ≡ some v
      → (vs : List (Version V)) × (find_version vl (sv.original install.version) ≡ returns vs)
        × IsEdge v.version vs
        × (sv.greater_than v.version install.version ≡ true)
  choose_latest_upgrades {r} {v} e h = subst (Chooses install vl _) e choose_latest-Chooses v h

  choose_y-Chooses :
      Chooses install vl
        (λ v.
          (sv.greater_than v install.version ≡ true)
          × (sv.minor v ≡ (sv.minor install.version + 1) % word_size))
        (choose_y install vl)
  unfolding choose_y
  choose_y-Chooses =
      decided (y_step install.version)
        (λ u. sv.minor u ≡ (sv.minor install.version + 1) % word_size) (y_replaces install.version)
        (λ v. sv.greater_than v install.version) not_greater_self "latest y version" _
        (λ vs t. rw t refl) (λ vs t. rw t refl) (find_version vl (sv.original install.version)) refl

  -- What the latest-Y selector chooses is an edge of a listed version of the installed release,
  -- greater than the installed version, and of the next minor number.
  pub choose_y_upgrades :
      {r : Selection (Version V)} {v : Version V}
      → choose_y install vl ≡ returns r
      → r.version ≡ some v
      → (vs : List (Version V)) × (find_version vl (sv.original install.version) ≡ returns vs)
        × IsEdge v.version vs
        × ((sv.greater_than v.version install.version ≡ true)
            × (sv.minor v.version ≡ (sv.minor install.version + 1) % word_size))
  choose_y_upgrades {r} {v} e h = subst (Chooses install vl _) e choose_y-Chooses v h

  choose_z-Chooses :
      Chooses install vl
        (λ v. (not (sv.equal v install.version) ≡ true) × (sv.minor v ≡ sv.minor install.version))
        (choose_z install vl)
  unfolding choose_z
  choose_z-Chooses =
      decided (z_step install.version) (λ u. sv.minor u ≡ sv.minor install.version)
        (z_replaces install.version) (λ v. not (sv.equal v install.version)) (rw equal_self refl)
        "latest z version" _ (λ vs t. ground arith) (λ vs t. ground arith)
        (find_version vl (sv.original install.version)) refl

  -- What the latest-Z selector chooses is an edge of a listed version of the installed release, of
  -- another precedence than the installed version, and of the same minor number.
  pub choose_z_upgrades :
      {r : Selection (Version V)} {v : Version V}
      → choose_z install vl ≡ returns r
      → r.version ≡ some v
      → (vs : List (Version V)) × (find_version vl (sv.original install.version) ≡ returns vs)
        × IsEdge v.version vs
        × ((not (sv.equal v.version install.version) ≡ true)
            × (sv.minor v.version ≡ sv.minor install.version))
  choose_z_upgrades {r} {v} e h = subst (Chooses install vl _) e choose_z-Chooses v h
