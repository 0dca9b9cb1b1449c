-- ===== src/Versions/Install/Ordered/Laws.antt =====
-- What the selectors of Versions/Install/Ordered.antt choose.
use osde2e.Prelude.{
  ℕ, suc, ◌+◌, ◌-◌, ◌/◌, ◌≤◌, ◌<◌, ◌≡◌, refl, sym, true, false, Option, none, some, List, [], ◌∷◌,
  inl, inr, arith, length, leb, get_elem?, get_elem?_bounded, Bool-cases, All, Any, count_if_zero,
  subst,
}
use osde2e.Prelude.Int.{ℤ, pos, negsuc, add_int}
use osde2e.Prelude.Sorting.{IsWeakOrder, sort_by, length-sort_by}
use osde2e.Prelude.Rank.{HasRank, sort_by-HasRank}
use osde2e.Go.{returns, or_panic}
use osde2e.Semver.{Semver, SemverLaws}
use osde2e.Spi.Version.{Version}
use osde2e.Versions.Common.{version_less, sort_versions}
use osde2e.Versions.Settings.{World, Selection}
use osde2e.Versions.Install.Helpers.{chosen, available, sorted_world}
use osde2e.Versions.Install.Ordered.{
  choose_latest, choose_middle, choose_oldest, others, default_index_from,
  find_default_version_index, at_target, noted, choose_delta, delta_text, previous_not_found,
}

module _ {V : Type 0} ⦃sv : Semver V⦄ (laws : SemverLaws sv) where
  pub version_less-IsWeakOrder : IsWeakOrder (version_less {V = V})
  version_less-IsWeakOrder = record {
    asymmetric = λ a b h. laws.weak.asymmetric a.version b.version h;
    incomparable = λ a b c h k. laws.weak.incomparable a.version b.version c.version h k;
  }

  -- The element that an index of the sorted list gives.
  sort_versions_at :
      (vs : List (Version V)) (i : ℕ)
      → i < length vs
      → (v : Version V) × (get_elem? (sort_versions vs) i ≡ some v) × HasRank version_less i v vs
  unfolding sort_versions
  sort_versions_at vs i h =
      let (v, e) =
        get_elem?_bounded (sort_by version_less vs) i
          (omega (arith, length-sort_by version_less vs)) in
      (v, e, sort_by-HasRank version_less-IsWeakOrder vs i v e)

  length-sort_versions : (vs : List (Version V)) → length (sort_versions vs) ≡ length vs
  unfolding sort_versions
  length-sort_versions vs = length-sort_by version_less vs

  latest_run :
      (w : World V) (v : Version V)
      → 0 < length (available w)
      → get_elem? (sort_versions (available w)) (length (sort_versions (available w)) - 1) ≡ some v
      → choose_latest w ≡ chosen v.version "latest version" (sorted_world w)
  unfolding choose_latest
  latest_run w v h e = ground arith

  -- Of a list that is not empty the latest selector chooses an element that is less than none, and
  -- leaves the list sorted.
  pub choose_latest_lem :
      (w : World V)
      → 0 < length (available w)
      → (v : Version V) × (choose_latest w ≡ chosen v.version "latest version" (sorted_world w))
        × Any (λ u. u ≡ v) (available w)
        × All (λ u. version_less v u ≡ false) (available w)
  choose_latest_lem w h =
      let (v, e, rank) = sort_versions_at (available w) (length (available w) - 1) (omega arith) in
      (
        v,
        latest_run w v h (rw length-sort_versions e),
        rank.member,
        count_if_zero (version_less v) (available w) (omega (arith, rank.above)),
      )

  middle_run :
      (w : World V) (v : Version V)
      → 2 ≤ length (others w)
      → get_elem? (sort_versions (others w)) (length (others w) / 2) ≡ some v
      → choose_middle w ≡ chosen v.version "middle version" w
  unfolding choose_middle
  middle_run w v h e = ground arith

  -- Of n versions that are not the default, n at least 2, the middle selector chooses one with at
  -- most n / 2 of them less than it and fewer than n - n / 2 greater, and changes nothing.
  pub choose_middle_lem :
      (w : World V)
      → 2 ≤ length (others w)
      → (v : Version V) × (choose_middle w ≡ chosen v.version "middle version" w)
        × HasRank version_less (length (others w) / 2) v (others w)
  choose_middle_lem w h =
      let (v, e, rank) = sort_versions_at (others w) (length (others w) / 2) (omega arith) in
      (v, middle_run w v h e, rank)

  oldest_run :
      (w : World V) (v : Version V)
      → 2 ≤ length (others w)
      → get_elem? (sort_versions (others w)) 0 ≡ some v
      → choose_oldest w ≡ chosen v.version "oldest version" w
  unfolding choose_oldest
  oldest_run w v h e = ground arith

  -- Of at least 2 versions that are not the default the oldest selector chooses one that none of
  -- them is less than, and changes nothing.
  pub choose_oldest_lem :
      (w : World V)
      → 2 ≤ length (others w)
      → (v : Version V) × (choose_oldest w ≡ chosen v.version "oldest version" w)
        × Any (λ u. u ≡ v) (others w)
        × All (λ u. version_less u v ≡ false) (others w)
  choose_oldest_lem w h =
      let (v, e, rank) = sort_versions_at (others w) 0 (omega arith) in
      (
        v,
        oldest_run w v h e,
        rank.member,
        count_if_zero (λ u. version_less u v) (others w) (omega (arith, rank.below)),
      )

module _ {V : Type 0} where
  -- The index that is found is a default version's; -1 says that there is none.
  abbrev pub DefaultAt : List (Version V) → ℤ → Type 0
  DefaultAt vs (negsuc n) = (n ≡ 0) × All (λ (v : Version V). v.is_default ≡ false) vs
  DefaultAt vs (pos i) = (v : Version V) × (get_elem? vs i ≡ some v) × (v.is_default ≡ true)

  abbrev Shifted : ℕ → List (Version V) → ℤ → Type 0
  Shifted k vs (negsuc n) = (n ≡ 0) × All (λ (v : Version V). v.is_default ≡ false) vs
  Shifted k vs (pos i) =
      (j : ℕ) × (i ≡ k + j) × ((v : Version V) × (get_elem? vs j ≡ some v) × (v.is_default ≡ true))

  default_index_from_lem : (k : ℕ) (vs : List (Version V)) → Shifted k vs (default_index_from k vs)
  unfolding default_index_from
  default_index_from_lem k [] = (refl, tt)
  default_index_from_lem k (v ∷ vs) = elim (Bool-cases v.is_default) [
    | inl t ↦
        let e : default_index_from k (v ∷ vs) ≡ pos k = ground arith in
        subst (Shifted k (v ∷ vs)) (sym e) (0, omega arith, (v, refl, t))
    | inr t ↦
        let e : default_index_from k (v ∷ vs) ≡ default_index_from (suc k) vs = ground arith in
        subst (Shifted k (v ∷ vs)) (sym e)
          (next (default_index_from (suc k) vs) t (default_index_from_lem (suc k) vs))
  ]
    where
      next : (i : ℤ) → v.is_default ≡ false → Shifted (suc k) vs i → Shifted k (v ∷ vs) i
      next (negsuc n) t h = (h.0, (t, h.1))
      next (pos i) t h = (suc h.0, omega (arith, h.1), h.2)

  pub find_default_version_index_lem :
      (vs : List (Version V)) → DefaultAt vs (find_default_version_index vs)
  unfolding find_default_version_index
  find_default_version_index_lem vs =
      unshift (default_index_from 0 vs) (default_index_from_lem 0 vs)
    where
      unshift : (i : ℤ) → Shifted 0 vs i → DefaultAt vs i
      unshift (negsuc n) h = h
      unshift (pos i) h = let e : h.0 ≡ i = omega (arith, h.1) in rw (← e) h.2

  -- A version, if there is one, stands in the list at the index.
  abbrev pub StandsAt : World V → ℤ → Option V → Type 0
  StandsAt w i none = Unit
  StandsAt w i (some v) =
      (j : ℕ) × (i ≡ pos j)
      × ((u : Version V) × (get_elem? (available w) j ≡ some u) × (u.version ≡ v))

  off_list : World V → Selection V × World V
  off_list w = (
    record {
      version = none;
      selector = delta_text w.settings.delta_release_from_default;
      error = none;
    },
    previous_not_found w,
  )

  on_list : Version V → World V → Selection V × World V
  on_list u w = (
    record {
      version = some u.version;
      selector = delta_text w.settings.delta_release_from_default;
      error = none;
    },
    w,
  )

  at_target_lem :
      (i : ℤ) (w : World V)
      → (r : Selection V × World V) × (at_target i w ≡ returns r)
        × (r.0.error ≡ none)
        × (r.1.version_list ≡ w.version_list)
        × StandsAt w i r.0.version
  unfolding at_target off_list on_list
  at_target_lem (negsuc n) w = (off_list w, refl, refl, refl, tt)
  at_target_lem (pos i) w = elim (Bool-cases (leb (length (available w)) i)) [
    | inl t ↦ (off_list w, rw t refl, refl, refl, tt)
    | inr t ↦
        let (u, e) = get_elem?_bounded (available w) i (ground arith) in
        (on_list u w, rw t (rw (e, or_panic) refl), refl, refl, (i, refl, (u, e, refl)))
  ]

  -- The delta selector always returns, with no error, and leaves the version list as it is; the
  -- version that it chooses stands in the list as far from the index of the default version as the
  -- setting says, where the index is -1 when the list has no default version.
  pub choose_delta_lem :
      (w : World V)
      → (r : Selection V × World V) × (choose_delta w ≡ returns r)
        × (r.0.error ≡ none)
        × (r.1.version_list ≡ w.version_list)
        × DefaultAt (available w) (find_default_version_index (available w))
        × StandsAt w
            (add_int
              (find_default_version_index (available w))
              w.settings.delta_release_from_default)
            r.0.version
  unfolding choose_delta
  choose_delta_lem w =
      go (find_default_version_index (available w)) (find_default_version_index_lem (available w))
    where
      go :
          (i : ℤ)
          → DefaultAt (available w) i
          → (r : Selection V × World V) × (at_target
                (add_int i w.settings.delta_release_from_default)
                (noted i w)
              ≡ returns r)
            × (r.0.error ≡ none)
            × (r.1.version_list ≡ w.version_list)
            × DefaultAt (available w) i
            × StandsAt w (add_int i w.settings.delta_release_from_default) r.0.version
      go (negsuc n) h =
          let (r, e, f, g, s) =
            at_target_lem (add_int (negsuc n) w.settings.delta_release_from_default)
              (previous_not_found w) in
          (r, e, f, g, h, s)
      go (pos i) h =
          let (r, e, f, g, s) =
            at_target_lem (add_int (pos i) w.settings.delta_release_from_default) w in
          (r, e, f, g, h, s)
