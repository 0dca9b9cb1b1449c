-- ===== src/Cluster/Poll.antt =====
-- `PollClusterHealth`. The clients and the replies of the cluster's API come from outside; any of
-- the four constructions of a client that fails ends the poll in the same way.
pub mod Checks
use osde2e.Prelude.{
  ℕ, String, Bool, true, false, not, ◌||◌, Option, none, some, List, [], ◌∷◌, ◌++◌, if◌then◌else◌,
  str_eq,
}
use osde2e.Go.{Error}
use osde2e.Health.{Reply, replied, refused, Verdict, Condition}
use osde2e.Health.Operators.{ClusterOperator, check_operator_readiness}
use osde2e.Health.Nodes.{Node, check_node_health}
use osde2e.Health.ClusterVersion.{check_cvo_readiness}
use osde2e.Health.Machines.{Machine, check_machines_object_state}
use osde2e.Health.Replicas.{
  Scaled, MultiVerdict, no_errors, check_replica_count_for_daemon_sets,
  check_replica_count_for_replica_sets,
}
use osde2e.Health.Certs.{CertCheckData, check_certs}

-- `status`, `failures` and `err` of the poll.
pub record ClusterHealth : Type 0 where
  pub healthy : Bool
  pub failures : List String
  pub errors : List Error

-- What the cluster's API replies during one poll.
pub record Replies (Item Secret : Type 0) : Type 0 where
  pub cluster_version : Reply (List Condition)
  pub nodes : Reply (List Node)
  pub machines : Reply (List Item)
  pub operators : Reply (List ClusterOperator)
  pub secrets : Reply (List Secret)
  pub daemon_sets : Reply (List Scaled)
  pub replica_sets : Reply (List Scaled)

-- `multierror.Append` of an error, which skips nil.
abbrev pub as_multi : Verdict → MultiVerdict
as_multi (ok, none) = (ok, [])
as_multi (ok, some e) = (ok, e ∷ [])

abbrev pub note : String → MultiVerdict → ClusterHealth → ClusterHealth
note name (check, errors) h =
    if not check || not (no_errors errors)
    then record {
      healthy = false;
      failures = h.failures ++ (name ∷ []);
      errors = h.errors ++ errors;
    }
    else h

abbrev pub all_healthy : ClusterHealth
all_healthy = record { healthy = true; failures = []; errors = [] }

module _ {Item Secret : Type 0} (is_retryable : Error → Bool)
    (from_unstructured : Item → Reply Machine) (operator_skip : String) where
  -- The checks for the providers "rosa" and "ocm", one after the other.
  unfoldable pub run_checks :
      ℕ → CertCheckData → Replies Item Secret → ClusterHealth → ClusterHealth × CertCheckData
  run_checks now certs api h0 =
      let h1 = note "cvo" (as_multi (check_cvo_readiness api.cluster_version)) h0 in
      let h2 = note "node" (as_multi (check_node_health is_retryable api.nodes)) h1 in
      let h3 =
        note "machine" (as_multi (check_machines_object_state from_unstructured api.machines)) h2 in
      let h4 =
        note "operator" (as_multi (check_operator_readiness operator_skip api.operators)) h3 in
      let (verdict, certs') = check_certs now api.secrets certs in
      let h5 = note "cert" (as_multi verdict) h4 in
      let h6 = note "daemonset" (check_replica_count_for_daemon_sets api.daemon_sets) h5 in
      (note "replicaset" (check_replica_count_for_replica_sets api.replica_sets) h6, certs')

  -- `clients` has the type of the provider.
  unfoldable pub poll_cluster_health :
      Reply String → ℕ → CertCheckData → Replies Item Secret → ClusterHealth × CertCheckData
  poll_cluster_health (refused e) now certs api =
      (record { healthy = false; failures = []; errors = [] }, certs)
  poll_cluster_health (replied provider_type) now certs api =
      if str_eq provider_type "rosa" || str_eq provider_type "ocm"
      then run_checks now certs api all_healthy
      else (all_healthy, certs)
