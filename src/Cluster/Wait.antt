-- ===== src/Cluster/Wait.antt =====
-- `waitForClusterReadyWithOverrideAndExpectedNumberOfNodes`: the wait for `cleanRunsNeeded` clean
-- polls in a row. Time is outside: the rounds until the timeout are a list, each with what the
-- cluster's property says and what the health poll returns. The cluster is fetched once, before the
-- rounds, so its state is the same in all of them. A round's `AddProperty` call may fail, but its
-- error only makes a message.
pub mod Runs
pub mod Ready
use osde2e.Prelude.{
  String, Bool, true, false, not, ◌&&◌, Option, none, some, List, [], ◌∷◌, ◌++◌, if◌then◌else◌,
  str_eq, concat,
}
use osde2e.Prelude.Int.{ℤ, pos, add_int, eqb_ℤ, ltb_ℤ}
use osde2e.Go.{Error, errorf, wrapf}
use osde2e.Health.{Reply, replied, refused}
use osde2e.Health.Replicas.{no_errors}
use osde2e.Cluster.Poll.{ClusterHealth}

-- `errorWindow`.
abbrev pub error_window : ℤ
error_window = pos 20

pub record Round : Type 0 where
  pub current_status : String
  pub health : ClusterHealth

-- The counters, and the values of the status property that were asked for, the last one first.
pub record Waiting : Type 0 where
  pub clean_runs : ℤ
  pub err_runs : ℤ
  pub statuses : List String

abbrev pub add_property : String → Waiting → Waiting
add_property status w = record w { statuses = status ∷ w.statuses }

-- `strings.Join(failures, ",")`.
abbrev pub join : List String → String
join [] = ""
join (s ∷ []) = s
join (s ∷ t ∷ rest) = concat (s ∷ "," ∷ join (t ∷ rest) ∷ [])

module _ (clean_runs_needed : ℤ) (unhealthy_status : String) where
  abbrev pub reset_runs : Round → Waiting → Waiting
  reset_runs r w =
      let reset = record w { clean_runs = pos 0 } in
      let failures = join r.health.failures in
      if str_eq r.current_status failures then reset else add_property failures reset

  -- The body of the poll for a cluster that is ready: whether the wait is over, and the counters.
  unfoldable pub wait_round : Round → Waiting → Bool × Waiting
  wait_round r w =
      if r.health.healthy
      then (let clean = add_int w.clean_runs (pos 1) in
          (eqb_ℤ clean clean_runs_needed, record w { clean_runs = clean; err_runs = pos 0 }))
      else (if no_errors r.health.errors
          then (false, reset_runs r w)
          else (let failed = record w { err_runs = add_int w.err_runs (pos 1) } in
              if not (ltb_ℤ failed.err_runs error_window)
              then (false, add_property unhealthy_status failed)
              else (false, reset_runs r failed)))

  -- The poll: it ends with a round that says so, or with the timeout after the last round.
  unfoldable pub wait_rounds : Bool → List Round → Waiting → Bool × Waiting
  wait_rounds ready [] w = (false, w)
  wait_rounds ready (r ∷ rs) w =
      let (over, w') = if ready then wait_round r w else (false, w) in
      let rest = wait_rounds ready rs w' in if over then (true, w') else rest

abbrev pub new_wait : Waiting
new_wait = record { clean_runs = pos 0; err_runs = pos 0; statuses = [] }

-- What the wait is given: the settings, and the replies of the calls before the rounds and of the
-- last `AddProperty`. The reply for the cluster is whether its state is ready.
pub record Inputs : Type 0 where
  pub skip_cluster_health_checks : Bool
  pub clean_check_runs : ℤ
  pub provider : Reply Unit
  pub provisioning : Reply Unit
  pub cluster_ready : Reply Bool
  pub rounds : List Round
  pub healthy_added : Reply Unit

abbrev pub finish : Reply Unit → String → Bool × Waiting → Option Error × Waiting
finish added status (false, w) = (some (errorf "failed polling for cluster health: %w" []), w)
finish (refused e) status (true, w) = (
  some (wrapf "error trying to add healthy property to cluster ID %s: %w" [] e),
  add_property status w,
)
finish (replied u) status (true, w) = (none, add_property status w)

-- `is_upgrade` chooses the names of the statuses.
abbrev pub healthy_status : Bool → String
healthy_status is_upgrade = if is_upgrade then "upgrade-healthy" else "healthy"

abbrev pub unhealthy_status_of : Bool → String
unhealthy_status_of is_upgrade = if is_upgrade then "upgrade-unhealthy" else "unhealthy"

unfoldable pub wait_for_cluster_ready : Inputs → Bool → Bool → Option Error × Waiting
wait_for_cluster_ready i is_upgrade override_skip_check =
    if i.skip_cluster_health_checks && not override_skip_check
    then (none, new_wait)
    else elim i.provider [
      | refused e ↦ (some (wrapf "error getting cluster provisioning client: %v" [] e), new_wait)
      | replied u ↦ elim i.provisioning [
        | refused e ↦ (some (wrapf "OCM never became ready: %w" [] e), new_wait)
        | replied t ↦ elim i.cluster_ready [
          | refused e ↦
              (some (wrapf "error fetching cluster details from provider: %w" [] e), new_wait)
          | replied ready ↦ finish i.healthy_added (healthy_status is_upgrade) (
              wait_rounds i.clean_check_runs (unhealthy_status_of is_upgrade) ready i.rounds
                new_wait)
        ]
      ]
    ]
