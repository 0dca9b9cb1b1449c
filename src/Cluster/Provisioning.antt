-- ===== src/Cluster/Provisioning.antt =====
-- `WaitForOCMProvisioning` of pkg/common/cluster/clusterutil.go. The rounds until the timeout are a
-- list, each with what the provider replies: the cluster, and whether the two properties that the
-- round may add are taken. The time when the cluster became ready is left out; its caller drops it.
pub mod Laws
use osde2e.Prelude.{String, Bool, true, false, not, ◌&&◌, List, [], ◌∷◌, if◌then◌else◌, str_eq}
use osde2e.Health.{Reply, replied, refused}

-- The status property and the state of a cluster.
pub record ClusterView : Type 0 where
  pub current_status : String
  pub state : String

pub record ProvisioningRound : Type 0 where
  pub cluster : Reply ClusterView
  pub waiting_added : Reply Unit
  pub healthcheck_added : Reply Unit

abbrev pub taken : Reply Unit → Bool
taken (replied u) = true
taken (refused e) = false

-- `healthcheckStatus`.
abbrev pub healthcheck_status : Bool → String
healthcheck_status is_upgrade = if is_upgrade then "upgrade-health-check" else "health-check"

module _ (is_upgrade : Bool) where
  -- The end of the round, with the statuses asked for so far, the last one first.
  abbrev pub ready_round : ClusterView → Reply Unit → List String → Bool × List String
  ready_round c added statuses =
      if str_eq c.state "ready"
      then (taken added, healthcheck_status is_upgrade ∷ statuses)
      else (false, statuses)

  -- `readinessSet` is never set.
  unfoldable pub provisioning_round : ProvisioningRound → List String → Bool × List String
  provisioning_round r statuses = elim r.cluster [
    | refused e ↦ (false, statuses)
    | replied c ↦
        if str_eq c.current_status "provisioning"
        then (if not (taken r.waiting_added)
            then (false, "waiting-for-ready" ∷ statuses)
            else ready_round c r.healthcheck_added ("waiting-for-ready" ∷ statuses))
        else ready_round c r.healthcheck_added statuses
  ]

  -- Over, or timed out after the last round.
  unfoldable pub wait_for_ocm_provisioning :
      List ProvisioningRound → List String → Bool × List String
  wait_for_ocm_provisioning [] statuses = (false, statuses)
  wait_for_ocm_provisioning (r ∷ rs) statuses =
      let (over, statuses') = provisioning_round r statuses in
      let rest = wait_for_ocm_provisioning rs statuses' in if over then (true, statuses') else rest
