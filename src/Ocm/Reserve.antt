-- ===== src/Ocm/Reserve.antt =====
-- pkg/common/providers/ocmprovider/cluster.go: `QueryReserve` and `ClaimClusterFromReserve`. Times are
-- seconds.
pub mod Candidates
use osde2e.Prelude.{
  ℕ, ◌+◌, String, Bool, true, false, not, Option, none, some, List, [], ◌∷◌, concat, trim_prefix,
  str_eq, if◌then◌else◌, ltb, ◌==◌,
}
use osde2e.Go.{Error}
use osde2e.Go.Calls.{Reply, End, ends, fails, dies}
use osde2e.Go.Steps.{Step, pure, from_reply, bind_end, step_if, forget, ◌>>=◌, ◌>>◌}
use osde2e.Semver.{Semver}
use osde2e.Spi.Cluster.{Cluster}
use osde2e.Ocm.Provider.{
  OcmState, OcmCluster, State, Call, search_reserve, settings_of, set_settings, ask, same,
}
use osde2e.Ocm.Provider
use osde2e.Ocm.Clusters.{
  ClusterService, or_empty, ocm_to_spi_cluster, add_property, after_property, expire,
}
use osde2e.Ocm.Listing.{Page}
use osde2e.Ocm.Choices.{try_step}

abbrev pub is_ready : Option OcmState → Bool
is_ready (some Provider.ready) = true
is_ready s = false

abbrev pub is_installing : Option OcmState → Bool
is_installing (some Provider.installing) = true
is_installing s = false

-- The first ready cluster; else the last one that installs.
unfoldable pub choose_candidate : Option OcmCluster → List OcmCluster → Option OcmCluster
choose_candidate candidate [] = candidate
choose_candidate candidate (c ∷ cs) =
    if is_ready c.state
    then some c
    else choose_candidate (if is_installing c.state then some c else candidate) cs

abbrev pub candidates : Option (Page OcmCluster) → List OcmCluster
candidates none = []
candidates (some p) = if p.total == 0 then [] else p.items

abbrev pub reserve_query : String → String → String → String → String
reserve_query provider region product version = concat (
    "cloud_provider.id='" ∷ provider ∷ "' and  region.id='" ∷ region
    ∷ "' and properties.MadeByOSDe2e='true' and product.id='" ∷ product
    ∷ "' and properties.Availability like 'reserved%' and version.id like 'openshift-v" ∷ version
    ∷ "%' and state in ('ready','pending','installing')" ∷ [])

-- The reserve's listing.
abbrev pub Reserve : Type 0
Reserve = List Call → Reply (Page OcmCluster)

module _ (V : Type 0) ⦃sv : Semver V⦄ (reserve : Reserve) where
  -- `MustParse` panics on a text that is no version.
  abbrev pub query_parsed : Option V → String → String → Step State (Page OcmCluster)
  query_parsed none provider product = λ s. (dies, s)
  query_parsed (some v) provider product = settings_of >>= λ st.
      ask (search_reserve (reserve_query provider st.region product (sv.string v))) reserve same

  unfoldable pub query_reserve : String → String → String → Step State (Page OcmCluster)
  query_reserve version provider product =
      query_parsed (sv.new_version (trim_prefix version "openshift-")) provider product

-- Two hours.
abbrev pub claim_time : ℕ
claim_time = 7200

-- A step whose error ends the claim without a cluster.
abbrev pub or_give_up : Option (Unit {0}) → Step State String → Step State String
or_give_up none rest = pure ""
or_give_up (some u) rest = rest

module _ (cv : ClusterService) where
  -- The properties that are added after the claim; their errors are messages.
  abbrev pub add_tracking : Cluster → Step State Unit
  add_tracking cl = settings_of >>= λ st.
      forget (add_property cv cl "AdHocTestImages" st.ad_hoc_test_images)
      >> forget (
          add_property cv (after_property cl "AdHocTestImages" st.ad_hoc_test_images) "AWSAccount"
            st.aws_account_id)

  abbrev pub mark_claimed : OcmCluster → Step State Unit
  mark_claimed c =
      set_settings (λ st. record st { claimed_from_reserve = true })
      >> step_if (not (str_eq c.role_arn "")) (set_settings (λ st. record st { sts = true }))

  abbrev pub take_cluster : OcmCluster → Cluster → Step State String
  take_cluster c cl = try_step (add_property cv cl "Availability" "claimed") >>= λ o. or_give_up o (
      mark_claimed c
      >> add_tracking (after_property cl "Availability" "claimed")
      >> pure (or_empty c.id))

  abbrev pub extend_claim : ℕ → OcmCluster → Cluster → Step State (Option Unit)
  extend_claim now c cl =
      if ltb c.expiration_timestamp (now + claim_time)
      then try_step (expire cv now cl.id claim_time)
      else pure (some tt)

  abbrev pub claim_converted : ℕ → OcmCluster → Option Cluster → Step State String
  claim_converted now c none = pure ""
  claim_converted now c (some cl) = extend_claim now c cl >>= λ o. or_give_up o (take_cluster c cl)

  abbrev pub claim : ℕ → Option OcmCluster → Step State String
  claim now none = pure ""
  claim now (some c) = try_step (ocm_to_spi_cluster cv c) >>= claim_converted now c

module _ (V : Type 0) ⦃sv : Semver V⦄ (reserve : Reserve) (cv : ClusterService) where
  unfoldable pub claim_cluster_from_reserve : ℕ → String → String → String → Step State String
  claim_cluster_from_reserve now version provider product =
      try_step (query_reserve V reserve version provider product) >>= λ r.
      claim cv now (choose_candidate none (candidates r))
