-- ===== src/Cluster/Poll/Checks.antt =====
-- `PollClusterHealth` of pkg/common/cluster/clusterutil.go and the seven checks that it runs.
use osde2e.Prelude.{
  ℕ, ◌≡◌, refl, ◌↔◌, String, Bool, true, false, ◌||◌, none, some, List, [], ◌∷◌, arith, str_eq, All,
}
use osde2e.Go.{Error}
use osde2e.Health.{Reply, replied, refused, Verdict, ListsOnly}
use osde2e.Health.Operators
use osde2e.Health.Operators.{check_operator_readiness_lem}
use osde2e.Health.Nodes
use osde2e.Health.Nodes.{check_node_health_lem}
use osde2e.Health.ClusterVersion.{AllFine, check_cvo_readiness_lem}
use osde2e.Health.Machines.{Machine, Converts, check_machines_object_state_lem}
use osde2e.Health.Replicas.{
  MultiVerdict, HasReplicas, replicas_pass, check_replica_count_for_daemon_sets_lem,
  check_replica_count_for_replica_sets_lem,
}
use osde2e.Health.Certs.{CertCheckData, check_certs}
use osde2e.Cluster.Poll.{
  ClusterHealth, Replies, as_multi, note, run_checks, all_healthy, poll_cluster_health,
}

-- A check that passes leaves the health as it is, and any other one makes it bad.
note_iff :
    (name : String) (v : MultiVerdict) (h : ClusterHealth)
    → ((note name v h).healthy ≡ true) ↔ ((h.healthy ≡ true) × (v ≡ (true, [])))
note_iff name (true, []) h = (λ k. (k, refl), λ k. k.0)
note_iff name (true, e ∷ es) h = (λ k. absurd (ground arith), λ k. absurd (let p = k.1 in cc))
note_iff name (false, es) h = (λ k. absurd (ground arith), λ k. absurd (let p = k.1 in cc))

as_multi_iff : (v : Verdict) → (as_multi v ≡ (true, [])) ↔ (v ≡ (true, none))
as_multi_iff (ok, none) = (λ k. cc, λ k. cc)
as_multi_iff (ok, some e) = (λ k. absurd (cc), λ k. absurd (cc))

unit_everywhere : {A : Type 0} (xs : List A) → All (λ x. Unit) xs
unit_everywhere [] = tt
unit_everywhere (x ∷ xs) = (tt, unit_everywhere xs)

check_certs_iff :
    {Secret : Type 0} (now : ℕ) (r : Reply (List Secret)) (c : CertCheckData)
    → ((check_certs now r c).0 ≡ (true, none)) ↔ ListsOnly (λ s. Unit) r
unfolding check_certs
check_certs_iff now (refused e) c = (λ k. absurd (cc), λ k. absurd k)
check_certs_iff now (replied []) c = (λ k. absurd (cc), λ k. absurd (k.0 refl))
check_certs_iff now (replied (s ∷ ss)) c =
    (λ k. (λ n. absurd (cc), unit_everywhere (s ∷ ss)), λ k. refl)

-- What each of the seven checks asks for.
abbrev pub AllPass :
    {Item Secret : Type 0} → (Item → Reply Machine) → String → Replies Item Secret → Type 0
AllPass from_unstructured operator_skip api =
    AllFine api.cluster_version
    × ListsOnly Nodes.IsReady api.nodes
    × ListsOnly (Converts from_unstructured) api.machines
    × ListsOnly (Operators.IsReady operator_skip) api.operators
    × ListsOnly (λ s. Unit) api.secrets
    × ListsOnly HasReplicas api.daemon_sets
    × ListsOnly HasReplicas api.replica_sets

after : {A B C : Type 0} → A ↔ B → B ↔ C → A ↔ C
after p q = (λ a. q.0 (p.0 a), λ c. p.1 (q.1 c))

-- One more check that is noted.
noted :
    (name : String) (v : MultiVerdict) (h : ClusterHealth) {P Q : Type 0}
    → (h.healthy ≡ true) ↔ P
    → (v ≡ (true, [])) ↔ Q
    → ((note name v h).healthy ≡ true) ↔ (P × Q)
noted name v h p q =
    let (to, back) = note_iff name v h in
    (λ k. let (a, b) = to k in (p.0 a, q.0 b), λ k. back (p.1 k.0, q.1 k.1))

module _ {Item Secret : Type 0} (is_retryable : Error → Bool)
    (from_unstructured : Item → Reply Machine) (operator_skip : String) where
  run_checks_lem :
      (now : ℕ) (certs : CertCheckData) (api : Replies Item Secret)
      → ((run_checks is_retryable from_unstructured operator_skip now certs api
            all_healthy).0.healthy
          ≡ true)
        ↔ AllPass from_unstructured operator_skip api
  unfolding run_checks
  run_checks_lem now certs api =
      let one =
        noted "cvo" _ all_healthy {P = Unit} (λ k. tt, λ k. refl)
          (after (as_multi_iff _) (check_cvo_readiness_lem api.cluster_version)) in
      let two =
        noted "node" _ _ one
          (after (as_multi_iff _) (check_node_health_lem is_retryable api.nodes)) in
      let three =
        noted "machine" _ _ two (
          after (as_multi_iff _)
            (check_machines_object_state_lem from_unstructured api.machines)) in
      let four =
        noted "operator" _ _ three
          (after (as_multi_iff _) (check_operator_readiness_lem operator_skip api.operators)) in
      let five =
        noted "cert" _ _ four (after (as_multi_iff _) (check_certs_iff now api.secrets certs)) in
      let six = noted "daemonset" _ _ five (
        replicas_pass _ api.daemon_sets _
          (check_replica_count_for_daemon_sets_lem api.daemon_sets)) in
      let seven = noted "replicaset" _ _ six (
        replicas_pass _ api.replica_sets _
          (check_replica_count_for_replica_sets_lem api.replica_sets)) in
      (
        λ k. let (((((((u, a), b), c), d), e), f), g) = seven.0 k in (a, b, c, d, e, f, g),
        λ k. let (a, b, c, d, e, f, g) = k in seven.1 (((((((tt, a), b), c), d), e), f), g),
      )

  -- With the clients of an "ocm" or a "rosa" provider the poll says healthy exactly when all seven
  -- checks pass: the operators', nodes' and version's conditions are in order, the machines convert,
  -- a certificate is there, and the managed daemon and replica sets have their replicas.
  pub poll_cluster_health_lem :
      (provider_type : String) (now : ℕ) (certs : CertCheckData) (api : Replies Item Secret)
      → (str_eq provider_type "rosa" || str_eq provider_type "ocm") ≡ true
      → ((poll_cluster_health is_retryable from_unstructured operator_skip
            (replied provider_type)
            now
            certs
            api).0.healthy
          ≡ true)
        ↔ AllPass from_unstructured operator_skip api
  unfolding poll_cluster_health
  poll_cluster_health_lem provider_type now certs api e = rw e (run_checks_lem now certs api)
