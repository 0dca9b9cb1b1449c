-- ===== src/Ocm/Listing/Calls.antt =====
-- The listings of clusters request no deletion.
use osde2e.Prelude.{
  ℕ, zero, suc, ◌+◌, ◌≡◌, refl, String, Bool, false, not, ◌||◌, Option, none, some, List, [], ◌∷◌,
  ◌++◌, fold, keep_if, length, leb, ◌==◌, if◌then◌else◌,
}
use osde2e.Go.{wrapf}
use osde2e.Go.Steps.{Step, Keeps, bind-Keeps, if-Keeps, pure, ◌>>=◌}
use osde2e.Spi.Cluster.{Cluster}
use osde2e.Ocm.Provider.{
  State, Call, OcmCluster, ask, ask-Keeps, list_clusters, get_account, list_subscriptions, same,
}
use osde2e.Ocm.Clusters.{ClusterService, ocm_to_spi_cluster}
use osde2e.Ocm.Deletion.Calls.{is_deletion, conversion-Keeps}
use osde2e.Ocm.Listing.{
  Page, ListService, and_then, add_owned, subscription_search, owned_pages, is_below, total_of,
  convert_all, cluster_pages, list_clusters_for, is_owned, list_owned_clusters,
}

module _ (ls : ListService) (sv : ClusterService) (Q : List Call → Type 0)
    (quiet : (c : Call) (cs : List Call) → is_deletion c ≡ false → Q cs → Q (cs ++ (c ∷ []))) where
  abbrev On : State → Type 0
  On s = Q s.calls

  convert_all-Keeps : (cs : List OcmCluster) → Keeps On (convert_all sv cs)
  unfolding convert_all
  convert_all-Keeps [] s h = h
  convert_all-Keeps (c ∷ cs) s h =
      let rest : Cluster → Step State (List Cluster) =
        λ cl. convert_all sv cs >>= λ cls. pure (cl ∷ cls) in
      bind-Keeps On (ocm_to_spi_cluster sv c) rest (conversion-Keeps sv Q quiet c)
        (λ cl.
          bind-Keeps On (convert_all sv cs) (λ cls. pure (cl ∷ cls)) (convert_all-Keeps cs)
            (λ cls s' h'. h'))
        s h

  cluster_pages-Keeps :
      (fuel : ℕ) (query : String) (page : ℕ) (total : Option ℕ) (empty : Bool)
      (found : List Cluster)
      → Keeps On (cluster_pages ls sv fuel query page total empty found)
  unfolding cluster_pages
  cluster_pages-Keeps zero query page total empty found = λ s h. h
  cluster_pages-Keeps (suc fuel) query page total empty found =
      let next : Page OcmCluster → List Cluster → Step State (Option (List Cluster)) = λ p cls.
        cluster_pages ls sv fuel query (suc page) (total_of total p.total)
          (empty || (length p.items == 0)) (found ++ cls) in
      let convert : Page OcmCluster → Step State (Option (List Cluster)) =
        λ p. convert_all sv p.items >>= next p in
      if-Keeps On (is_below (length found) total || not empty)
        (ask (list_clusters query page) ls.clusters same >>= convert) (pure (some found))
        (bind-Keeps On (ask (list_clusters query page) ls.clusters same) convert
          (ask-Keeps On (list_clusters query page) ls.clusters same
            (λ s h. quiet (list_clusters query page) s.calls refl h))
          (λ p. bind-Keeps On (convert_all sv p.items) (next p) (convert_all-Keeps p.items) (λ cls.
            cluster_pages-Keeps fuel query (suc page) (total_of total p.total)
              (empty || (length p.items == 0)) (found ++ cls))))
        (λ s h. h)

  owned_pages-Keeps :
      (fuel : ℕ) (account : String) (page collected : ℕ) (owned : List (String × Bool))
      → Keeps On (owned_pages ls fuel account page collected owned)
  unfolding owned_pages
  owned_pages-Keeps zero account page collected owned = λ s h. h
  owned_pages-Keeps (suc fuel) account page collected owned =
      let c = list_subscriptions (subscription_search account) page in
      let wrap = wrapf "couldn't list subscriptions for account %s: %v" (account ∷ []) in
      let next : Page String → Step State (Option (List (String × Bool))) = λ p.
        let seen = collected + length p.items in
        let owned' = fold add_owned owned p.items in
        let rest = owned_pages ls fuel account (suc page) seen owned' in
        if leb p.total seen || (length p.items == 0) then pure (some owned') else rest in
      bind-Keeps On (ask c ls.subscriptions wrap) next
        (ask-Keeps On c ls.subscriptions wrap (λ s h. quiet c s.calls refl h))
        (λ p.
          let seen = collected + length p.items in
          let owned' = fold add_owned owned p.items in
          if-Keeps On (leb p.total seen || (length p.items == 0)) (pure (some owned'))
            (owned_pages ls fuel account (suc page) seen owned') (λ s h. h)
            (owned_pages-Keeps fuel account (suc page) seen owned'))

  and_then-Keeps :
      {A B : Type 0} (o : Option A) (f : A → Step State (Option B))
      → ((a : A) → Keeps On (f a))
      → Keeps On (and_then o f)
  and_then-Keeps none f k s h = h
  and_then-Keeps (some a) f k s h = k a s h

  pub list_owned_clusters-Keeps :
      (fuel : ℕ) (query : String) → Keeps On (list_owned_clusters ls sv fuel query)
  unfolding list_owned_clusters
  list_owned_clusters-Keeps fuel query =
      let keep : List (String × Bool) → List Cluster → Step State (Option (List Cluster)) =
        λ ids cls. pure (some (keep_if (is_owned ids) cls)) in
      let listed : List (String × Bool) → Step State (Option (List Cluster)) =
        λ ids. list_clusters_for ls sv fuel query >>= λ all. and_then all (keep ids) in
      let owned : String → Step State (Option (List Cluster)) =
        λ account. owned_pages ls fuel account 1 0 [] >>= λ o. and_then o listed in
      let wrap = wrapf "couldn't get current account: %v" [] in
      bind-Keeps On (ask get_account ls.account wrap) owned
        (ask-Keeps On get_account ls.account wrap (λ s h. quiet get_account s.calls refl h))
        (λ account.
          bind-Keeps On (owned_pages ls fuel account 1 0 []) (λ o. and_then o listed)
            (owned_pages-Keeps fuel account 1 0 [])
            (λ o. and_then-Keeps o listed (λ ids.
              bind-Keeps On (list_clusters_for ls sv fuel query) (λ all. and_then all (keep ids))
                (cluster_pages-Keeps fuel query 1 none false [])
                (λ all. and_then-Keeps all (keep ids) (λ cls s h. h)))))
