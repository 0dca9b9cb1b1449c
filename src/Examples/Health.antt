-- ===== src/Examples/Health.antt =====
-- The health checks, the poll of a cluster and the wait on concrete replies.
use osde2e.Prelude.{
  ℕ, ◌≡◌, refl, ◌↔◌, String, Bool, true, false, none, some, List, [], ◌∷◌, arith, has_prefix,
  itoa_ℤ, split_commas, All, Any,
}
use osde2e.Prelude.Int.{pos, ltb_ℤ}
use osde2e.Go.{Error, errorf}
use osde2e.Health.{Reply, replied, Condition, ListsOnly}
use osde2e.Health.Operators
use osde2e.Health.Operators.{check_operator_readiness, check_operator_readiness_lem}
use osde2e.Health.Nodes.{Node}
use osde2e.Health.Machines.{Machine, check_machines_object_state, check_machines}
use osde2e.Health.Replicas.{Scaled, check_replica_count_for_daemon_sets}
use osde2e.Health.Certs.{CertCheckData}
use osde2e.Health.Pods.{Pod, JobPods, PodErrorTracker, check_pod_health, check_pending_pods}
use osde2e.Health.Pods.Health.{Concerns, check_pod_health_lem}
use osde2e.Health.Pods.Pending.{times, check_pending_pods_lem}
use osde2e.Cluster.Poll.{Replies, all_healthy, poll_cluster_health}
use osde2e.Cluster.Poll.Checks.{AllPass, poll_cluster_health_lem}
use osde2e.Cluster.Wait.Ready.{BecomesReady, wait_for_cluster_ready_lem}
use osde2e.Cluster.Provisioning.{ProvisioningRound, wait_for_ocm_provisioning}
use osde2e.Cluster.Provisioning.Laws.{FindsReady, wait_for_ocm_provisioning_lem}
use osde2e.Cluster.Wait.{Inputs, wait_for_cluster_ready, Round, wait_rounds, new_wait}
use osde2e.Cluster.Wait.Runs.{HasCleanRun, wait_rounds_lem}

abbrev condition : String → String → Condition
condition kind status = record { kind = kind; status = status }

abbrev some_operators : Reply (List Operators.ClusterOperator)
some_operators = replied (
    record {
      name = "dns";
      conditions = condition "Available" "True" ∷ condition "Degraded" "True" ∷ [];
    }
    ∷ [])

-- A degraded operator that the setting skips does not count.
skipped_operator : check_operator_readiness "dns" some_operators ≡ (true, none)
unfolding check_operator_readiness split_commas
skipped_operator = refl

degraded_operator : check_operator_readiness "" some_operators ≡ (false, none)
unfolding check_operator_readiness split_commas
degraded_operator = refl

abbrev never_retry : Error → Bool
never_retry e = false

abbrev some_nodes : Reply (List Node)
some_nodes = replied (
    record {
      conditions = condition "MemoryPressure" "False" ∷ condition "Ready" "True" ∷ [];
      taints = [];
    }
    ∷ [])

abbrev some_version : Reply (List Condition)
some_version = replied (
    condition "Available" "True"
    ∷ condition "Upgradeable" "True"
    ∷ condition "Failing" "False"
    ∷ [])

abbrev failed_machine : Machine
failed_machine = record { name = "worker-0"; phase = some "Failed" }

abbrev some_machines : Reply (List Machine)
some_machines = replied (failed_machine ∷ [])

abbrev as_it_is : Machine → Reply Machine
as_it_is = replied

-- A machine whose phase is Failed passes.
failed_machine_passes : check_machines_object_state as_it_is some_machines ≡ (true, none)
unfolding check_machines_object_state check_machines
failed_machine_passes = refl

abbrev some_sets : Reply (List Scaled)
some_sets = replied (
    record { name = "dns"; namespace = "openshift-dns"; ready = pos 2; desired = pos 3 }
    ∷ record { name = "mine"; namespace = "mine"; ready = pos 0; desired = pos 3 }
    ∷ [])

one_set_falls_short :
    check_replica_count_for_daemon_sets some_sets
    ≡ (false, errorf "daemonset %s has %d out of %d replicas ready" ("dns" ∷ "2" ∷ "3" ∷ []) ∷ [])
unfolding check_replica_count_for_daemon_sets has_prefix itoa_ℤ
one_set_falls_short = refl

abbrev some_replies : Replies Machine Unit
some_replies = record {
  cluster_version = some_version;
  nodes = some_nodes;
  machines = some_machines;
  operators = some_operators;
  secrets = replied (tt ∷ []);
  daemon_sets = some_sets;
  replica_sets = some_sets;
}

abbrev no_certs : CertCheckData
no_certs = record { check_started = false; start_time = 0; cert_found = false }

poll_cluster_health_lem_example :
    ((poll_cluster_health never_retry as_it_is "dns"
        (replied "ocm")
        7
        no_certs
        some_replies).0.healthy
      ≡ true)
    ↔ AllPass as_it_is "dns" some_replies
poll_cluster_health_lem_example =
    poll_cluster_health_lem never_retry as_it_is "dns" "ocm" 7 no_certs some_replies refl

abbrev clean : Round
clean = record { current_status = ""; health = all_healthy }

abbrev dirty : Round
dirty = record {
  current_status = "";
  health = record { healthy = false; failures = "node" ∷ []; errors = [] };
}

abbrev some_rounds : List Round
some_rounds = clean ∷ dirty ∷ clean ∷ clean ∷ []

wait_rounds_lem_example :
    ((wait_rounds (pos 2) "unhealthy" true some_rounds new_wait).0 ≡ true)
    ↔ HasCleanRun 2 some_rounds
wait_rounds_lem_example = wait_rounds_lem 1 "unhealthy" (omega arith) some_rounds

abbrev pending_pod : Pod
pending_pod = record {
  name = "upgrader-1";
  namespace = "mine";
  uid = "a";
  phase = "Pending";
  reason = "";
  message = "";
  owner_kinds = [];
  labels = [];
  created = 0;
}

abbrev in_order : List JobPods → List JobPods
in_order groups = groups

abbrev two_minutes : Pod → ℕ
two_minutes pod = 120000000000

check_pod_health_lem_example :
    (check_pod_health in_order two_minutes (replied (pending_pod ∷ [])) "mine" ("upgrader" ∷ [])
      ≡ (true, none))
    ↔ ListsOnly
        (λ p. ¬ Concerns two_minutes "mine" ("upgrader" ∷ []) p)
        (replied (pending_pod ∷ []))
check_pod_health_lem_example =
    check_pod_health_lem in_order refl two_minutes (replied (pending_pod ∷ [])) "mine"
      ("upgrader" ∷ [])

abbrev tracker : PodErrorTracker
tracker = record { counts = ("a", 9) ∷ []; max_pending_pods_threshold = pos 10 }

check_pending_pods_lem_example :
    ((check_pending_pods (pending_pod ∷ []) tracker).0 ≡ none)
    ↔ All
        (λ (q : Pod). ltb_ℤ (pos (times q.uid (pending_pod ∷ []))) (pos 10) ≡ true)
        (pending_pod ∷ [])
check_pending_pods_lem_example = check_pending_pods_lem (pending_pod ∷ []) tracker

abbrev some_inputs : Inputs
some_inputs = record {
  skip_cluster_health_checks = false;
  clean_check_runs = pos 2;
  provider = replied tt;
  provisioning = replied tt;
  cluster_ready = replied true;
  rounds = some_rounds;
  healthy_added = replied tt;
}

wait_for_cluster_ready_lem_example :
    ((wait_for_cluster_ready some_inputs true false).0 ≡ none) ↔ BecomesReady 2 some_inputs
wait_for_cluster_ready_lem_example =
    wait_for_cluster_ready_lem 1 (omega arith) true false some_inputs refl refl

-- The last two rounds are clean.
inputs_become_ready : BecomesReady 2 some_inputs
inputs_become_ready = (
  (tt, refl),
  (tt, refl),
  refl,
  (clean ∷ dirty ∷ [], clean ∷ clean ∷ [], [], refl, (refl, (refl, tt)), refl),
  (tt, refl),
)

abbrev late_round : ProvisioningRound
late_round = record {
  cluster = replied (record { current_status = "waiting-for-ready"; state = "ready" });
  waiting_added = replied tt;
  healthcheck_added = replied tt;
}

wait_for_ocm_provisioning_lem_example :
    ((wait_for_ocm_provisioning true (late_round ∷ []) []).0 ≡ true)
    ↔ Any FindsReady (late_round ∷ [])
wait_for_ocm_provisioning_lem_example = wait_for_ocm_provisioning_lem true (late_round ∷ []) []
