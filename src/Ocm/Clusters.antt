-- ===== src/Ocm/Clusters.antt =====
-- pkg/common/providers/ocmprovider/cluster.go: reading a cluster, its properties, its expiry and its
-- kubeconfig. Times are seconds from the first day of year 1, the zero time; the hours, minutes and
-- seconds of an extension stay below the 292 years at which a Go duration wraps.
pub mod Kubeconfig
use osde2e.Prelude.{
  ℕ, ◌+◌, ◌*◌, String, not, Option, none, some, List, [], ◌∷◌, str_eq, if◌then◌else◌, ltb,
}
use osde2e.Prelude.Maps.{lookup, assign}
use osde2e.Go.{Error, errorf, wrapf}
use osde2e.Go.Calls.{Reply}
use osde2e.Go.Steps.{Step, pure, fail, from_reply, ◌>>=◌, ◌>>◌}
use osde2e.Spi.Cluster.{Cluster, ClusterState, Properties, new_cluster}
use osde2e.Spi.Cluster
use osde2e.Ocm.Provider.{
  OcmState, OcmCluster, OcmSettings, State, Update, expire_at, set_properties, get_cluster,
  list_addons, update_cluster, get_credentials, settings_of, set_settings, cache_cluster,
  cache_credentials, ask, same,
}
use osde2e.Ocm.Provider

abbrev pub ocm_state_to_internal_state : OcmState → ClusterState
ocm_state_to_internal_state Provider.error = Cluster.error
ocm_state_to_internal_state Provider.installing = Cluster.installing
ocm_state_to_internal_state Provider.pending = Cluster.pending
ocm_state_to_internal_state Provider.ready = Cluster.ready
ocm_state_to_internal_state Provider.uninstalling = Cluster.uninstalling
ocm_state_to_internal_state Provider.hibernating = Cluster.hibernating
ocm_state_to_internal_state Provider.resuming = Cluster.resuming
ocm_state_to_internal_state (Provider.other s) = Cluster.unknown

abbrev pub or_empty : Option String → String
or_empty none = ""
or_empty (some s) = s

abbrev pub state_of : Option OcmState → ClusterState
state_of none = Cluster.unknown
state_of (some s) = ocm_state_to_internal_state s

abbrev pub version_id : Option (String × String) → String
version_id none = ""
version_id (some (v, channel)) = v

abbrev pub channel_of : Option (String × String) → String
channel_of none = ""
channel_of (some (v, channel)) = channel

-- On "prod" the expiry cannot be changed, and is left out.
abbrev pub spi_cluster : String → OcmCluster → List String → Cluster
spi_cluster environment c addons = record new_cluster {
  name = c.name;
  region = c.region;
  flavour = c.flavour;
  id = or_empty c.id;
  version = version_id c.version;
  channel_group = channel_of c.version;
  cloud_provider = or_empty c.cloud_provider;
  product = or_empty c.product;
  state = state_of c.state;
  properties = c.properties;
  addons = addons;
  expiration_timestamp = if str_eq environment "prod" then 0 else c.expiration_timestamp;
  creation_timestamp = c.creation_timestamp;
  num_compute_nodes = c.compute_nodes;
}

-- `Year() < 2000`.
abbrev pub year_2000 : ℕ
year_2000 = 63_082_281_600

-- The properties of a cluster with one more; `AddProperty` changes the map of the cluster that it is
-- given, when there is one, and else makes a map of its own.
abbrev pub present : Option Properties → Properties
present none = []
present (some ps) = ps

abbrev pub with_property : Cluster → String → String → Properties
with_property cl tag value = assign tag value (present cl.properties)

abbrev pub changed_map : String → String → Option Properties → Option Properties
changed_map tag value none = none
changed_map tag value (some ps) = some (assign tag value ps)

abbrev pub after_property : Cluster → String → String → Cluster
after_property cl tag value = record cl { properties = changed_map tag value cl.properties }

abbrev pub update_failed : String → Error → Error
update_failed id = wrapf "couldn't update cluster '%s': %v" (id ∷ [])

abbrev pub addons_failed : String → Error → Error
addons_failed id = wrapf "couldn't retrieve addons for cluster '%s': %v" (id ∷ [])

abbrev pub not_retrieved : String → Error → Error
not_retrieved id = wrapf "couldn't retrieve cluster '%s': %v" (id ∷ [])

-- What the calls on a cluster reply.
pub record ClusterService : Type 0 where
  pub cluster : List Provider.Call → Reply OcmCluster
  pub addons : List Provider.Call → Reply (List String)
  pub kubeconfig : List Provider.Call → Reply String
  pub deleted : List Provider.Call → Reply Unit

module _ (sv : ClusterService) where
  abbrev pub addons_of : OcmCluster → OcmSettings → Step State (List String)
  addons_of c st =
      if st.skip_addon_list
      then pure []
      else ask (list_addons (or_empty c.id)) sv.addons (addons_failed (or_empty c.id))

  unfoldable pub ocm_to_spi_cluster : OcmCluster → Step State Cluster
  ocm_to_spi_cluster c = do
    st ← settings_of
    addons ← addons_of c st
    pure (spi_cluster st.environment c addons)

  unfoldable pub update_cluster_cache : OcmCluster → Step State Unit
  update_cluster_cache c = ocm_to_spi_cluster c >>= λ cl. cache_cluster (or_empty c.id) cl

  abbrev pub get_ocm_cluster : String → Step State OcmCluster
  get_ocm_cluster id = ask (get_cluster id) sv.cluster (not_retrieved id)

  unfoldable pub get_spi_cluster : String → Step State Cluster
  get_spi_cluster id = do
    c ← get_ocm_cluster id
    cl ← ocm_to_spi_cluster c
    _ ← cache_cluster id cl
    pure cl

  pub get_cluster_region : String → Step State String
  get_cluster_region id = get_spi_cluster id >>= λ cl.
      if str_eq cl.region ""
      then fail (errorf "cluster %q has no region" (id ∷ []))
      else pure cl.region

  -- A cluster without properties has no property.
  abbrev pub property_or : String → Option String → Step State String
  property_or name none = fail (errorf "cluster property: %s is undefined" (name ∷ []))
  property_or name (some v) = pure v

  abbrev pub find_property : String → Option Properties → Option String
  find_property name none = none
  find_property name (some ps) = lookup name ps

  unfoldable pub get_property : String → String → Step State String
  get_property id name = ask (get_cluster id) sv.cluster same >>= λ c.
      property_or name (find_property name c.properties)

  -- An update, and the cache after it.
  abbrev pub update : String → Update → Step State Unit
  update id body =
      ask (update_cluster id body) sv.cluster (update_failed id) >>= λ c. update_cluster_cache c

  unfoldable pub add_property : Cluster → String → String → Step State Unit
  add_property cl tag value = update cl.id (set_properties (with_property cl tag value))

  -- The time now is a parameter.
  unfoldable pub expire : ℕ → String → ℕ → Step State Unit
  expire now id duration = settings_of >>= λ st.
      if str_eq st.environment "prod" then pure tt else update id (expire_at (now + duration))

  abbrev pub extended : ℕ → ℕ → ℕ → ℕ → ℕ
  extended time hours minutes seconds = time + hours * 3600 + minutes * 60 + seconds

  abbrev pub extend_if_expires : String → Cluster → ℕ → ℕ → ℕ → Step State Unit
  extend_if_expires id cl hours minutes seconds =
      if ltb cl.expiration_timestamp year_2000
      then pure tt
      else update id (expire_at (extended cl.expiration_timestamp hours minutes seconds))

  unfoldable pub extend_expiry : String → ℕ → ℕ → ℕ → Step State Unit
  extend_expiry id hours minutes seconds = settings_of >>= λ st.
      if str_eq st.environment "prod"
      then pure tt
      else get_ocm_cluster id >>= λ c.
          ocm_to_spi_cluster c >>= λ cl. extend_if_expires id cl hours minutes seconds

  abbrev pub set_kubeconfig : String → Step State Unit
  set_kubeconfig text = set_settings (λ st. record st { kubeconfig_contents = text })

  abbrev pub cached_kubeconfig : String → Option String → Step State String
  cached_kubeconfig id (some text) = set_kubeconfig text >> pure text
  cached_kubeconfig id none = do
    text ←
        ask (get_credentials id) sv.kubeconfig
          (wrapf "couldn't retrieve credentials for cluster '%s': %v" (id ∷ []))
    _ ← cache_credentials id text
    _ ← set_kubeconfig text
    pure text

  -- A file is opened and then read.
  abbrev pub local_kube_config : Reply (Reply String) → Step State String
  local_kube_config file =
      from_reply (wrapf "error opening provided kubeconfig: %v" []) file
      >>= from_reply (wrapf "error reading provided kubeconfig: %v" [])

  -- A local file comes first, then the setting, then the cache.
  unfoldable pub cluster_kubeconfig : (String → Reply (Reply String)) → String → Step State String
  cluster_kubeconfig file id s =
      if not (str_eq s.settings.kubeconfig_path "")
      then local_kube_config (file s.settings.kubeconfig_path) s
      else if not (str_eq s.settings.kubeconfig_contents "")
      then pure s.settings.kubeconfig_contents s
      else cached_kubeconfig id (lookup id s.credential_cache) s
