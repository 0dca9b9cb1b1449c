-- ===== src/Cluster/Launch.antt =====
-- `ProvisionCluster` of pkg/common/cluster/clusterutil.go.
pub mod Names
use osde2e.Prelude.{
  ℕ, zero, suc, String, Bool, true, false, not, ◌&&◌, ◌||◌, Option, none, some, List, [], ◌∷◌,
  str_eq, if◌then◌else◌, leb,
}
use osde2e.Go.{Error, errorf, wrapf}
use osde2e.Go.Calls.{Reply, replied, refused, ends, fails, dies, wrapped_end}
use osde2e.Go.Steps.{Step, pure, fail, change, from_reply, bind_end, or_fail, step_if, ◌>>=◌, ◌>>◌}
use osde2e.Cluster.Config.{
  Cluster, ClusterConfig, World, Call, made, set_config, config_of, call, same,
  claim_cluster_from_reserve, query_reserve, is_valid_cluster_name, launch_cluster, get_cluster,
}
use osde2e.Cluster.Names.{NameDraws, cluster_name}

-- One attempt at a name: its draws, and what the provider says about it.
pub record NameAttempt : Type 0 where
  pub name_draws : NameDraws
  pub is_valid : Reply Bool

-- What the calls reply. `LaunchCluster` may give an id together with an error.
pub record LaunchReplies : Type 0 where
  pub provider : Reply Unit
  pub ocm_provider : Reply Unit
  pub claimed : String
  pub reserve_total : Reply ℕ
  pub attempts : ℕ → NameAttempt
  pub launched_id : String
  pub launch_error : Option Error
  pub cluster : Reply Cluster

-- `ReserveCount` and `ErrReserveFull`.
abbrev pub reserve_count : ℕ
reserve_count = 5

abbrev pub err_reserve_full : Error
err_reserve_full = errorf "reserve full" []

abbrev pub is_claiming : ClusterConfig → Bool
is_claiming c = c.use_cluster_reserve && str_eq c.provider "rosa" && not c.hypershift && c.sts

-- `clusterID`: the setting's, or the one that is claimed.
abbrev pub claimed_id : LaunchReplies → ClusterConfig → Step World String
claimed_id r c =
    if is_claiming c
    then change (made (claim_cluster_from_reserve c.versions.cluster_version "aws" "rosa"))
      >> pure r.claimed
    else pure c.id

abbrev pub check_reserve : LaunchReplies → ClusterConfig → Step World Unit
check_reserve r c =
    if c.reserve
    then (call (query_reserve c.versions.cluster_version c.cloud_provider_id c.provider)
          (wrapf "could not query reserve: %v" []) r.reserve_total
        >>= λ total. if leb reserve_count total then fail err_reserve_full else pure tt)
    else pure tt

abbrev pub accept_name : String → Step World String
accept_name name = change (set_config (λ c. record c { name = name })) >> pure name

abbrev pub accepted : Reply Bool → Bool
accepted (replied b) = b
accepted (refused e) = false

-- An attempt with its name and what the provider says, and the attempts after it. Draws that are
-- used up have no name; Go's calls of `rand.Intn` are not, and the end is not one of the code's.
abbrev pub try_name : Option String → Bool → Step World String → Step World String
try_name none is_valid rest = λ w. (dies, w)
try_name (some name) is_valid rest =
    change (made (is_valid_cluster_name name)) >> (if is_valid then accept_name name else rest)

-- The attempts that are left, and the number of the next one.
unfoldable pub find_name : ℕ → ℕ → (ℕ → NameAttempt) → ClusterConfig → Step World String
find_name zero k attempts c = fail (errorf "could not validate cluster name. timed out" [])
find_name (suc n) k attempts c =
    let rest = find_name n (suc k) attempts c in
    try_name (cluster_name c.name c.suffix (attempts k).name_draws) (accepted (attempts k).is_valid)
      rest

abbrev pub attempt_limit : ℕ
attempt_limit = 10

abbrev pub is_unnamed : ClusterConfig → Bool
is_unnamed c = str_eq c.name "" || str_eq c.name "random"

abbrev pub choose_name : (ℕ → NameAttempt) → ClusterConfig → Step World String
choose_name attempts c = if is_unnamed c then find_name attempt_limit 1 attempts c else pure c.name

abbrev pub or_none : Option Error → (Error → Error) → Step World Unit
or_none none wrap = pure tt
or_none (some e) wrap = fail (wrap e)

abbrev pub get_launched : LaunchReplies → Step World Cluster
get_launched r =
    or_none r.launch_error (wrapf "could not launch cluster: %v" [])
    >> call (get_cluster r.launched_id) (wrapf "could not get cluster after launching: %v" [])
        r.cluster

abbrev pub launch : LaunchReplies → String → Step World Cluster
launch r name = do
  _ ← change (made (launch_cluster name))
  _ ←
      step_if (not (str_eq r.launched_id ""))
        (change (set_config (λ c. record c { id = r.launched_id })))
  get_launched r

abbrev pub obtain : LaunchReplies → ClusterConfig → String → Step World Cluster
obtain r c id =
    if str_eq id ""
    then choose_name r.attempts c >>= launch r
    else call (get_cluster id) (wrapf "could not retrieve cluster information from OCM: %v" [])
        r.cluster

unfoldable pub provision_cluster : LaunchReplies → Step World Cluster
provision_cluster r = do
  _ ← from_reply (wrapf "error getting cluster provisioning client: %v" []) r.provider
  c ← config_of
  _ ← from_reply (wrapf "could not setup ocm provider: %v" []) r.ocm_provider
  id ← claimed_id r c
  _ ← check_reserve r c
  obtain r c id
