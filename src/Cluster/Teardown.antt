-- ===== src/Cluster/Teardown.antt =====
-- pkg/common/cluster/clusterutil.go: `DeleteCluster`, `UpdateClusterProperties` and
-- `HandleExpirationExtension`. The provider may be nil.
pub mod Laws
use osde2e.Prelude.{
  ℕ, ◌+◌, String, Bool, true, false, not, ◌&&◌, ◌||◌, Option, none, some, List, [], ◌∷◌, ◌++◌,
  str_eq, if◌then◌else◌, leb, ltb,
}
use osde2e.Go.{Error, errorf, wrapf}
use osde2e.Go.Calls.{Reply, replied, refused, ends, fails, dies, wrapped_end}
use osde2e.Go.Steps.{Step, pure, fail, change, from_reply, bind_end, step_if, ◌>>=◌, ◌>>◌}
use osde2e.Cluster.Config.{
  Cluster, ClusterConfig, World, Call, made, set_config, config_of, call, same, get_cluster,
  add_property, delete_cluster, expire, extend_expiry,
}

-- Of a provider that is nil, only a call on it panics.
unfoldable pub delete_if_configured : Bool → Reply Unit → Step World Unit
delete_if_configured has_provider deleted = config_of >>= λ c.
    if str_eq c.id "" || c.skip_destroy_cluster
    then pure tt
    else (if has_provider
        then call (delete_cluster c.id) (wrapf "failed to delete cluster: %w" []) deleted
        else λ w. (dies, w))

abbrev pub Property : Type 0
Property = String × String

abbrev pub properties : String → List Property
properties status =
    ("Status", status) ∷ ("JobID", "") ∷ ("JobName", "") ∷ ("Availability", "used") ∷ []

-- What `AddProperty` replies for a name.
unfoldable pub add_properties : (String → Reply Unit) → List Property → Step World Unit
add_properties added [] = pure tt
add_properties added ((key, value) ∷ rest) =
    let others = add_properties added rest in
    call (add_property key value) (wrapf "failed to set property %s: %w" (key ∷ [])) (added key)
    >> others

-- Go ranges over a map in any order, which is a parameter.
module _ (ranged : List Property → List Property) where
  unfoldable pub update_cluster_properties :
      Reply Cluster → (String → Reply Unit) → String → Step World Unit
  update_cluster_properties cluster added status = do
    c ← config_of
    _ ← call (get_cluster c.id) (wrapf "failed to get cluster: %w" []) cluster
    add_properties added (ranged (properties (if c.passing then "completed-passing" else status)))

pub record ExpiryReplies : Type 0 where
  pub expired : Reply Unit
  pub cluster : Reply Cluster
  pub extended : Reply Unit

abbrev pub is_nightly : ClusterConfig → Bool
is_nightly c =
    not (str_eq c.versions.install_specific_nightly "")
    || not (str_eq c.versions.release_image_latest "")

-- `!a.Add(6h).After(b.Add(24h))`, in minutes.
abbrev pub is_short_lived : Cluster → Bool
is_short_lived cl = leb (cl.expiration_timestamp + 360) (cl.creation_timestamp + 1440)

abbrev pub extend_if_short_lived : Reply Unit → String → Cluster → Step World Unit
extend_if_short_lived extended id cl =
    step_if (is_short_lived cl) (call (extend_expiry id 6 0 0) same extended)

abbrev pub extend_passing : ExpiryReplies → ClusterConfig → Step World Unit
extend_passing r c =
    step_if (not c.claimed_from_reserve && str_eq c.addon_ids "")
      (call (get_cluster c.id) same r.cluster >>= extend_if_short_lived r.extended c.id)

unfoldable pub handle_expiration_extension : ExpiryReplies → Step World Unit
handle_expiration_extension r = config_of >>= λ c.
    if str_eq c.id "" || not c.skip_destroy_cluster
    then pure tt
    else step_if (is_nightly c) (call (expire c.id 30) same r.expired) >> extend_passing r c
