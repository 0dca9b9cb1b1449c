-- ===== src/Ocm/Proxy.antt =====
-- pkg/common/providers/ocmprovider/proxy.go. The file of the certificates is outside.
use osde2e.Prelude.{String, [], ◌∷◌}
use osde2e.Prelude.Spaces.{trim_space}
use osde2e.Go.{wrapf}
use osde2e.Go.Calls.{Reply}
use osde2e.Go.Steps.{Step, pure, from_reply, or_fail, ◌>>=◌, ◌>>◌}
use osde2e.Ocm.Provider.{State, Update, set_proxy, drop_bundle, update_cluster, ask}
use osde2e.Ocm.Clusters.{ClusterService}

abbrev pub load_user_ca_bundle_data : (String → Reply String) → String → Step State String
load_user_ca_bundle_data file path =
    from_reply (wrapf "can't read userCABundle file '%s': %w" (path ∷ [])) (file path) >>= λ text.
    pure (trim_space text)

module _ (cv : ClusterService) where
  abbrev pub update_proxy : String → Update → Step State Unit
  update_proxy id body =
      ask (update_cluster id body) cv.cluster
        (wrapf "couldn't update proxy for cluster '%s': %v" (id ∷ []))
      >> pure tt

  unfoldable pub add_cluster_proxy :
      (String → Reply String) → String → String → String → String → Step State Unit
  add_cluster_proxy file id https_proxy http_proxy user_ca_bundle =
      or_fail (wrapf "error loading ca bundle contents: %v" [])
        (load_user_ca_bundle_data file user_ca_bundle)
      >>= λ bundle. update_proxy id (set_proxy http_proxy https_proxy bundle)

  unfoldable pub remove_cluster_proxy : String → Step State Unit
  remove_cluster_proxy id = update_proxy id (set_proxy "" "" "")

  unfoldable pub remove_user_ca_bundle : String → Step State Unit
  remove_user_ca_bundle id = update_proxy id drop_bundle
