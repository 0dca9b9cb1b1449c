-- ===== src/Ocm/Listing/Totals.antt =====
-- When the loop of `ListClusters` ends, for pages that do not change while it runs.
use osde2e.Prelude.{
  ℕ, zero, suc, ◌+◌, ◌≤◌, ◌<◌, ◌≡◌, refl, ap, ◌∙◌, sym, subst, String, Bool, true, false, not, ◌||◌,
  ◌⊎◌, inl, inr, Option, none, some, List, [], ◌∷◌, ◌++◌, map, arith, length, length-append,
  length-map, append_nil, append_assoc, ltb, ◌==◌, if◌then◌else◌,
}
use osde2e.Prelude.Slices.{map-append}
use osde2e.Go.Calls.{replied, End, ends}
use osde2e.Go.Steps.{Step, ◌>>=◌, pure}
use osde2e.Spi.Cluster.{Cluster}
use osde2e.Ocm.Provider.{
  OcmCluster, OcmSettings, State, Call, list_clusters, called, ask, list_addons,
}
use osde2e.Ocm.Clusters.{ClusterService, ocm_to_spi_cluster, spi_cluster, or_empty, addons_failed}
use osde2e.Ocm.Listing.{
  Page, ListService, convert_all, cluster_pages, list_clusters_for, is_below, total_of,
}

-- The items of a number of pages, from a page on.
abbrev pub items_from : (ℕ → Page OcmCluster) → ℕ → ℕ → List OcmCluster
items_from pages page zero = []
items_from pages page (suc n) = (pages page).items ++ items_from pages (suc page) n

-- A cluster with its addons.
abbrev pub converted : String → (OcmCluster → List String) → OcmCluster → Cluster
converted environment addons c = spi_cluster environment c (addons c)

-- The addons of the clusters: none where their listing is skipped, and else what the service replies,
-- which it always does.
abbrev pub Lists : ClusterService → Bool → (OcmCluster → List String) → Type 0
Lists sv skips addons =
    ((skips ≡ true) × ((c : OcmCluster) → addons c ≡ []))
    ⊎ ((skips ≡ false)
        × ((cs : List Call) (c : OcmCluster)
            → sv.addons (cs ++ (list_addons (or_empty c.id) ∷ [])) ≡ replied (addons c)))

-- The service replies the same pages whatever was asked before.
abbrev pub Serves : ListService → String → (ℕ → Page OcmCluster) → Type 0
Serves ls query pages =
    (cs : List Call) (page : ℕ)
    → ls.clusters (cs ++ (list_clusters query page ∷ [])) ≡ replied (pages page)

module _ (sv : ClusterService) (addons : OcmCluster → List String) where
  -- The step ends with a value and with the same settings.
  abbrev Gives : {A : Type 0} → Step State A → A → State → OcmSettings → Type 0
  Gives m a s st = (after : State) × (after.settings ≡ st) × (m s ≡ (ends a, after))

  conversion :
      (c : OcmCluster) (s : State)
      → Lists sv s.settings.skip_addon_list addons
      → Gives (ocm_to_spi_cluster sv c) (converted s.settings.environment addons c) s s.settings
  unfolding ocm_to_spi_cluster
  conversion c s lists =
      let end : Bool → End Cluster × State = λ b.
        ((if b
              then pure []
              else ask (list_addons (or_empty c.id)) sv.addons (addons_failed (or_empty c.id)))
            >>= λ found. pure (spi_cluster s.settings.environment c found))
          s in
      elim lists [
        | inl (skips, empty) ↦ (
          s,
          refl,
          ap end skips
              ∙ ap (λ found. (ends (spi_cluster s.settings.environment c found), s))
                  (sym (empty c)),
        )
        | inr (lists_them, listed) ↦ (
          called (list_addons (or_empty c.id)) s,
          refl,
          ap end lists_them ∙ rw (listed s.calls c) refl,
        )
      ]

  module _ (st : OcmSettings) (lists : Lists sv st.skip_addon_list addons) where
    conversion_at :
        (c : OcmCluster) (s : State)
        → s.settings ≡ st
        → Gives (ocm_to_spi_cluster sv c) (converted st.environment addons c) s st
    conversion_at c s e =
        subst
          (λ st.
            Lists sv st.skip_addon_list addons
            → Gives (ocm_to_spi_cluster sv c) (converted st.environment addons c) s st)
          e (conversion c s) lists

    convert_all-map :
        (cs : List OcmCluster) (s : State)
        → s.settings ≡ st
        → Gives (convert_all sv cs) (map (converted st.environment addons) cs) s st
    unfolding convert_all
    convert_all-map [] s e = (s, e, refl)
    convert_all-map (c ∷ cs) s e =
        let (s1, e1, first) = conversion_at c s e in
        let (s2, e2, others) = convert_all-map cs s1 e1 in (s2, e2, rw (first, others) refl)

module _ (ls : ListService) (sv : ClusterService) (query : String) (pages : ℕ → Page OcmCluster)
    (serves : Serves ls query pages) (st : OcmSettings) (addons : OcmCluster → List String)
    (lists : Lists sv st.skip_addon_list addons) where
  cluster_pages_round :
      (fuel page : ℕ) (total : Option ℕ) (empty : Bool) (found : List Cluster) (s : State)
      → s.settings ≡ st
      → (is_below (length found) total || not empty) ≡ true
      → (after : State) × (after.settings ≡ st)
        × (cluster_pages ls sv (suc fuel) query page total empty found s
            ≡ cluster_pages ls sv fuel query
                (suc page)
                (total_of total (pages page).total)
                (empty || (length (pages page).items == 0))
                (found ++ map (converted st.environment addons) (pages page).items)
                after)
  unfolding cluster_pages
  cluster_pages_round fuel page total empty found s h t =
      let asked = called (list_clusters query page) s in
      let (after, e, all) = convert_all-map sv addons st lists (pages page).items asked h in
      (after, e, rw (t, serves s.calls page, all) refl)

  cluster_pages_over :
      (fuel page : ℕ) (total : Option ℕ) (empty : Bool) (found : List Cluster) (s : State)
      → (is_below (length found) total || not empty) ≡ false
      → cluster_pages ls sv (suc fuel) query page total empty found s ≡ (ends (some found), s)
  unfolding cluster_pages
  cluster_pages_over fuel page total empty found s t = rw t refl

  or_true : (b : Bool) → (b || true) ≡ true
  or_true b = ground arith

  pages_end :
      (n fuel page first : ℕ) (total : Option ℕ) (found : List Cluster) (s : State)
      → s.settings ≡ st
      → total_of total (pages page).total ≡ some first
      → first ≤ length found + length (items_from pages page n)
      → ((i : ℕ) → i < n → 0 < length (pages (page + i)).items)
      → (pages (page + n)).items ≡ []
      → n + 2 ≤ fuel
      → (cluster_pages ls sv fuel query page total false found s).0
        ≡ ends (some (found ++ map (converted st.environment addons) (items_from pages page n)))
  pages_end n zero page first total found s h t b k z e = absurd (omega arith)
  pages_end n (suc zero) page first total found s h t b k z e = absurd (omega arith)
  pages_end zero (suc (suc fuel)) page first total found s h t b k z e =
      let here : (pages page).items ≡ [] = subst (λ p. (pages p).items ≡ []) (omega arith) z in
      let (after, same, round) =
        cluster_pages_round (suc fuel) page total false found s h
          (or_true (is_below (length found) total)) in
      rw (round, t, here)
        (ap (λ r. r.0)
          (cluster_pages_over fuel (suc page) (some first) true (found ++ []) after
            (rw append_nil (ground arith))))
  pages_end (suc n) (suc (suc fuel)) page first total found s h t b k z e =
      let f = converted st.environment addons in
      let items = (pages page).items in
      let later = items_from pages (suc page) n in
      let filled : 0 < length items =
        subst (λ p. 0 < length (pages p).items) (omega arith) (k 0 (omega arith)) in
      let left : (length items == 0) ≡ false = ground arith in
      let bound : first ≤ length (found ++ map f items) + length later =
        omega (
          arith,
          length-append found (map f items),
          length-map f items,
          length-append items later,
        ) in
      let (after, same, round) =
        cluster_pages_round (suc fuel) page total false found s h
          (or_true (is_below (length found) total)) in
      rw
        (round, t, left, map-append f items later, ← append_assoc found (map f items) (map f later))
        (pages_end n (suc fuel) (suc page) first (some first) (found ++ map f items) after same refl
          bound
          (λ i l. subst (λ p. 0 < length (pages p).items) (omega arith) (k (suc i) (omega arith)))
          (subst (λ p. (pages p).items ≡ []) (omega arith) z) (omega arith))

  pages_go_on :
      (fuel page first : ℕ) (total : Option ℕ) (empty : Bool) (found : List Cluster) (s : State)
      → s.settings ≡ st
      → total_of total (pages page).total ≡ some first
      → ((m : ℕ) → length found + length (items_from pages page m) < first)
      → is_below (length found) total ≡ true
      → (cluster_pages ls sv fuel query page total empty found s).0 ≡ ends none
  unfolding cluster_pages
  pages_go_on zero page first total empty found s h t b u = refl
  pages_go_on (suc fuel) page first total empty found s h t b u =
      let f = converted st.environment addons in
      let items = (pages page).items in
      let count : length (found ++ map f items) ≡ length found + length items =
        omega (arith, length-append found (map f items), length-map f items) in
      let below : ltb (length (found ++ map f items)) first ≡ true =
        let l = b 1 in let j = length-append items [] in ground (arith, count) in
      let (after, same, round) = cluster_pages_round fuel page total empty found s h (rw u refl) in
      ap (λ r. r.0) round
      ∙ rw t (
          pages_go_on fuel (suc page) first (some first) (empty || (length items == 0))
            (found ++ map f items) after same refl
            (λ m.
              let l = b (suc m) in
              let j = length-append items (items_from pages (suc page) m) in omega (arith, count))
            below)

module _ (ls : ListService) (sv : ClusterService) (query : String) (pages : ℕ → Page OcmCluster)
    (serves : Serves ls query pages) (addons : OcmCluster → List String) where
  -- The pages do not change, there are `n` of them with items, one after the other, and with at least
  -- as many items as the first page says. The listing of addons is skipped, or the service lists the
  -- addons of each cluster. Then the loop ends with every item, converted, in order, if the fuel is
  -- more than the number of pages that it asks for, the empty one included.
  pub list_clusters_for_lem :
      (n fuel : ℕ) (s : State)
      → Lists sv s.settings.skip_addon_list addons
      → (pages 1).total ≤ length (items_from pages 1 n)
      → ((i : ℕ) → i < n → 0 < length (pages (1 + i)).items)
      → (pages (1 + n)).items ≡ []
      → n + 2 ≤ fuel
      → (list_clusters_for ls sv fuel query s).0
        ≡ ends (some (map (converted s.settings.environment addons) (items_from pages 1 n)))
  list_clusters_for_lem n fuel s lists b k z e =
      pages_end ls sv query pages serves s.settings addons lists n fuel 1 (pages 1).total none [] s
        refl refl (omega arith) k z e

  -- The pages do not change, and however many of them are read they have fewer items than the first
  -- one says. The listing of addons is skipped, or the service lists the addons of each cluster. Then
  -- the loop never ends: it uses up whatever fuel it has.
  pub list_clusters_for_endless :
      (fuel : ℕ) (s : State)
      → Lists sv s.settings.skip_addon_list addons
      → ((n : ℕ) → length (items_from pages 1 n) < (pages 1).total)
      → (list_clusters_for ls sv fuel query s).0 ≡ ends none
  list_clusters_for_endless fuel s lists b =
      pages_go_on ls sv query pages serves s.settings addons lists fuel 1 (pages 1).total none false
        [] s refl refl (λ n. omega (arith, b n)) refl
