-- ===== src/Ocm/Deletion.antt =====
-- `DeleteCluster` of pkg/common/providers/ocmprovider/cluster.go. How often the poll runs before its
-- time is over is a parameter, and so is the error that it then gives. The variable of the cluster is
-- nil after a request that failed, and the state of a nil cluster panics.
pub mod Calls
pub mod Requests
use osde2e.Prelude.{
  ℕ, zero, suc, String, Bool, true, false, Option, none, some, List, [], ◌∷◌, if◌then◌else◌,
}
use osde2e.Go.{Error, errorf, wrapf}
use osde2e.Go.Calls.{Reply, End, ends, fails, dies, wrapped_end}
use osde2e.Go.Steps.{Step, pure, fail, from_reply, bind_end, or_fail, ◌>>=◌, ◌>>◌}
use osde2e.Spi.Cluster.{Cluster, ClusterState}
use osde2e.Spi.Cluster
use osde2e.Ocm.Provider.{State, delete_cluster, ask}
use osde2e.Ocm.Clusters.{ClusterService, get_spi_cluster, add_property}

abbrev pub is_ready : ClusterState → Bool
is_ready Cluster.ready = true
is_ready s = false

abbrev pub is_errored : ClusterState → Bool
is_errored Cluster.error = true
is_errored s = false

abbrev pub is_uninstalling : ClusterState → Bool
is_uninstalling Cluster.uninstalling = true
is_uninstalling s = false

-- What the variable holds after a request.
abbrev pub held : End Cluster → End (Option Cluster)
held (ends cl) = ends (some cl)
held (fails e) = ends none
held dies = dies

-- Whether a round ends the poll, with the cluster that it leaves in the variable.
abbrev pub judge : Cluster → End (Bool × Option Cluster)
judge cl =
    if is_errored cl.state
    then fails (errorf "cluster %s is in an errored state" (cl.id ∷ []))
    else ends (is_ready cl.state, some cl)

-- A request that failed ends the round at once.
abbrev pub judge_held : Option Cluster → End (Bool × Option Cluster)
judge_held none = ends (false, none)
judge_held (some cl) = judge cl

-- The poll is over, or goes on with what the variable holds.
abbrev pub go_on :
    (Option Cluster → Step State Cluster) → Bool × Option Cluster → Step State Cluster
go_on rest (true, some cl) = pure cl
go_on rest (true, none) = rest none
go_on rest (false, h) = rest h

-- The function of the retryer wraps the error, and so does its caller.
abbrev pub deletion_failed : String → Error → Error
deletion_failed id e =
    wrapf "couldn't delete cluster '%s': %v" (id ∷ [])
      (wrapf "couldn't delete cluster '%s': %v" (id ∷ []) e)

module _ (sv : ClusterService) where
  abbrev pub fetch_held : String → Step State (Option Cluster)
  fetch_held id s = let r = get_spi_cluster sv id s in (held r.0, r.1)

  -- Only a cluster that is ready is fetched again.
  abbrev pub poll_round : String → Option Cluster → Step State (Bool × Option Cluster)
  poll_round id none s = (dies, s)
  poll_round id (some cl) s =
      if is_ready cl.state then (fetch_held id >>= λ h s'. (judge_held h, s')) s else (judge cl, s)

  unfoldable pub poll_ready : Error → String → ℕ → Option Cluster → Step State Cluster
  poll_ready timeout id zero h = fail timeout
  poll_ready timeout id (suc rounds) h =
      let rest = poll_ready timeout id rounds in poll_round id h >>= go_on rest

  abbrev pub request_deletion : String → Cluster → Step State Unit
  request_deletion id cl = do
    _ ←
        or_fail (wrapf "error adding uninstalling status to cluster: %v" [])
          (add_property sv cl "Status" "uninstalling")
    ask (delete_cluster id) sv.deleted (deletion_failed id)

  abbrev pub delete_fetched : Error → ℕ → String → Cluster → Step State Unit
  delete_fetched timeout rounds id cl =
      if is_uninstalling cl.state
      then fail (errorf "cluster already uninstalling, skipped" [])
      else poll_ready timeout id rounds (some cl) >>= request_deletion id

  unfoldable pub delete : Error → ℕ → String → Step State Unit
  delete timeout rounds id =
      or_fail (wrapf "error retrieving cluster for deletion: %v" []) (get_spi_cluster sv id)
      >>= delete_fetched timeout rounds id
