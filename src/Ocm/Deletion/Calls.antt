-- ===== src/Ocm/Deletion/Calls.antt =====
-- What a deletion keeps of the calls that were made: when every call but the request of a deletion
-- keeps it, so does all of `DeleteCluster` up to that request.
use osde2e.Prelude.{
  ℕ, zero, suc, ◌≡◌, refl, inl, inr, String, Bool, true, false, Option, none, some, List, [], ◌∷◌,
  ◌++◌, Bool-cases,
}
use osde2e.Go.{Error, errorf, wrapf}
use osde2e.Go.Steps.{Step, Keeps, bind-Keeps, if-Keeps, bind_keeps, ◌>>=◌, pure, or_fail, fail}
use osde2e.Spi.Cluster.{Cluster}
use osde2e.Ocm.Provider.{
  State, Call, OcmCluster, OcmSettings, Update, ask, ask-Keeps, cache_cluster, get_cluster,
  list_addons, update_cluster, delete_cluster, set_properties,
}
use osde2e.Ocm.Clusters.{
  ClusterService, get_spi_cluster, get_ocm_cluster, ocm_to_spi_cluster, addons_of, or_empty,
  addons_failed, not_retrieved, spi_cluster, update, update_failed, update_cluster_cache,
  add_property, with_property,
}
use osde2e.Ocm.Deletion.{
  is_uninstalling, is_ready, judge_held, go_on, fetch_held, poll_round, poll_ready,
  request_deletion, delete, delete_fetched, deletion_failed,
}
use osde2e.Ocm.Provider

abbrev pub is_deletion : Call → Bool
is_deletion (Provider.delete_cluster id) = true
is_deletion c = false

module _ (sv : ClusterService) (Q : List Call → Type 0)
    (quiet : (c : Call) (cs : List Call) → is_deletion c ≡ false → Q cs → Q (cs ++ (c ∷ []))) where
  abbrev pub On : State → Type 0
  On s = Q s.calls

  addons-Keeps : (c : OcmCluster) (st : OcmSettings) → Keeps On (addons_of sv c st)
  addons-Keeps c st =
      if-Keeps On st.skip_addon_list (pure [])
        (ask (list_addons (or_empty c.id)) sv.addons (addons_failed (or_empty c.id))) (λ s h. h)
        (ask-Keeps On (list_addons (or_empty c.id)) sv.addons (addons_failed (or_empty c.id))
          (λ s h. quiet (list_addons (or_empty c.id)) s.calls refl h))

  pub conversion-Keeps : (c : OcmCluster) → Keeps On (ocm_to_spi_cluster sv c)
  unfolding ocm_to_spi_cluster
  conversion-Keeps c s h =
      bind_keeps On (addons_of sv c s.settings)
        (λ addons. pure (spi_cluster s.settings.environment c addons)) s
        (addons-Keeps c s.settings s h) (λ a e. addons-Keeps c s.settings s h)

  pub get-Keeps : (id : String) → Keeps On (get_spi_cluster sv id)
  unfolding get_spi_cluster
  get-Keeps id =
      let store : Cluster → Step State Cluster = λ cl. cache_cluster id cl >>= λ _. pure cl in
      bind-Keeps On (get_ocm_cluster sv id) (λ c. ocm_to_spi_cluster sv c >>= store)
        (ask-Keeps On (get_cluster id) sv.cluster (not_retrieved id)
          (λ s h. quiet (get_cluster id) s.calls refl h))
        (λ c. bind-Keeps On (ocm_to_spi_cluster sv c) store (conversion-Keeps c) (λ cl s h. h))

  poll_round-Keeps : (id : String) (h : Option Cluster) → Keeps On (poll_round sv id h)
  poll_round-Keeps id none s p = p
  poll_round-Keeps id (some cl) s p = elim (Bool-cases (is_ready cl.state)) [
    | inl t ↦
        let judged : Option Cluster → Step State (Bool × Option Cluster) =
          λ h s'. (judge_held h, s') in
        rw t (bind-Keeps On (fetch_held sv id) judged (get-Keeps id) (λ h s' p'. p') s p)
    | inr t ↦ rw t p
  ]

  go_on-Keeps :
      (rest : Option Cluster → Step State Cluster) (o : Bool × Option Cluster)
      → ((h : Option Cluster) → Keeps On (rest h))
      → Keeps On (go_on rest o)
  go_on-Keeps rest (true, some cl) k s p = p
  go_on-Keeps rest (true, none) k s p = k none s p
  go_on-Keeps rest (false, h) k s p = k h s p

  pub poll_ready-Keeps :
      (timeout : Error) (id : String) (rounds : ℕ) (h : Option Cluster)
      → Keeps On (poll_ready sv timeout id rounds h)
  unfolding poll_ready
  poll_ready-Keeps timeout id zero h s p = p
  poll_ready-Keeps timeout id (suc rounds) h s p =
      let rest = poll_ready sv timeout id rounds in
      bind-Keeps On (poll_round sv id h) (go_on rest) (poll_round-Keeps id h)
        (λ o. go_on-Keeps rest o (λ h'. poll_ready-Keeps timeout id rounds h')) s p

  update-Keeps : (id : String) (body : Update) → Keeps On (update sv id body)
  unfolding update_cluster_cache
  update-Keeps id body =
      let after : OcmCluster → Step State Unit = λ c. update_cluster_cache sv c in
      bind-Keeps On (ask (update_cluster id body) sv.cluster (update_failed id)) after
        (ask-Keeps On (update_cluster id body) sv.cluster (update_failed id)
          (λ s h. quiet (update_cluster id body) s.calls refl h))
        (λ c.
          let store : Cluster → Step State Unit = λ cl. cache_cluster (or_empty c.id) cl in
          bind-Keeps On (ocm_to_spi_cluster sv c) store (conversion-Keeps c) (λ cl s h. h))

  request_deletion-Keeps :
      (id : String) (cl : Cluster)
      → ((cs : List Call) → Q cs → Q (cs ++ (delete_cluster id ∷ [])))
      → Keeps On (request_deletion sv id cl)
  unfolding add_property
  request_deletion-Keeps id cl allowed =
      let body = set_properties (with_property cl "Status" "uninstalling") in
      let marked = update-Keeps cl.id body in
      bind-Keeps On
        (or_fail (wrapf "error adding uninstalling status to cluster: %v" [])
          (add_property sv cl "Status" "uninstalling"))
        (λ u. ask (delete_cluster id) sv.deleted (deletion_failed id)) (λ s h. marked s h)
        (λ u.
          ask-Keeps On (delete_cluster id) sv.deleted (deletion_failed id)
            (λ s h. allowed s.calls h))

  -- A deletion keeps what its own request keeps.
  pub delete-Keeps :
      (timeout : Error) (rounds : ℕ) (id : String)
      → ((cs : List Call) → Q cs → Q (cs ++ (delete_cluster id ∷ [])))
      → Keeps On (delete sv timeout rounds id)
  unfolding delete
  delete-Keeps timeout rounds id allowed =
      let polled : Cluster → Step State Unit =
        λ cl. poll_ready sv timeout id rounds (some cl) >>= request_deletion sv id in
      bind-Keeps On
        (or_fail (wrapf "error retrieving cluster for deletion: %v" []) (get_spi_cluster sv id))
        (delete_fetched sv timeout rounds id) (λ s h. get-Keeps id s h)
        (λ cl.
          if-Keeps On (is_uninstalling cl.state)
            (fail (errorf "cluster already uninstalling, skipped" [])) (polled cl) (λ s h. h)
            (bind-Keeps On (poll_ready sv timeout id rounds (some cl)) (request_deletion sv id)
              (poll_ready-Keeps timeout id rounds (some cl))
              (λ c. request_deletion-Keeps id c allowed)))
