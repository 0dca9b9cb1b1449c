-- ===== src/Versions/ClusterVersions.antt =====
-- pkg/common/versions/versionselector.go: `setUpgradeVersion`, `getUpgradeVersion` and the poll loop
-- of `SelectClusterVersions`.
pub mod Polls
pub mod Names
use osde2e.Prelude.{
  ℕ, String, Bool, true, false, not, ◌&&◌, ◌||◌, Option, none, some, List, [], ◌∷◌, str_eq,
  if◌then◌else◌, concat,
}
use osde2e.Go.{Outcome, returns, Error, errorf, wrapf, passed_on, or_panic, ◌>>=◌}
use osde2e.Spi.Version.{Version, VersionList, build}
use osde2e.Versions.Settings.{Settings, World, Selection}
use osde2e.Versions.Upgrade
use osde2e.Versions.Selector.{
  VersionSelector, Poll, listed, unavailable, min_int32, pick_selector, set_install_version,
}
use osde2e.Semver.{Semver}

-- `util.NoVersionFound`.
abbrev pub no_version_found : String
no_version_found = "NoVersionFound"

-- A release name, which may be empty, and an error, which may be nil.
pub record Release : Type 0 where
  pub name : String
  pub error : Option Error

-- The end of `SelectClusterVersions` or of one of its steps: the state, and the error.
pub record Ended (V : Type 0) : Type 0 where
  pub selector : VersionSelector V
  pub error : Option Error

-- With no version these selectors wait for the next poll.
abbrev pub is_waiting : String → Bool
is_waiting s =
    str_eq s "specific image" || (str_eq s "specific nightly" || str_eq s "triggered nightly")

-- What one poll decides: the loop ends with an error, ends with the state, or goes on.
pub data Round (V : Type 0) : Type 0 where
  done : VersionSelector V → Round V
  stopped : VersionSelector V → Error → Round V
  again : VersionSelector V → Round V

module _ {V : Type 0} ⦃sv : Semver V⦄ where
  unfoldable pub selected_upgrade : Settings → Option (Upgrade.Selector V)
  selected_upgrade s =
      pick_selector (λ u. u.should_use s) (λ u. u.priority) none min_int32
        Upgrade.get_version_selectors

  pub release_of : Selection (Version V) → Release
  release_of r = elim r.version [
    | none ↦ record { name = no_version_found; error = r.error }
    | some v ↦
        if str_eq (sv.original v.version) ""
        then record { name = no_version_found; error = r.error }
        else record { name = concat ("openshift-v" ∷ sv.original v.version ∷ []); error = r.error }
  ]

  -- A nil version list is dereferenced by the selector.
  unfoldable pub get_upgrade_version : Settings → V → Option (VersionList V) → Outcome Release
  unfolding release_of
  get_upgrade_version s cluster vl = elim (selected_upgrade s) [
    | none ↦ returns (record { name = ""; error = none })
    | some u ↦
        or_panic vl >>= λ l. u.choose (build cluster false none) l >>= λ r. returns (release_of r)
  ]

  abbrev pub ended : VersionSelector V → Option Error → Outcome (Ended V)
  ended v e = returns (record { selector = v; error = e })

  pub set_release : VersionSelector V → Release → Outcome (Ended V)
  set_release v r = elim r.error [
    | some e ↦ ended v (some (wrapf "error selecting an upgrade version: %v" [] e))
    | none ↦
        if str_eq r.name ""
        then ended v none
        else ended (record v { settings = record v.settings { release_name = r.name; image = "" } })
            none
  ]

  pub set_upgrade : VersionSelector V → Option V → Outcome (Ended V)
  unfolding set_release
  set_upgrade v none = ended v none
  set_upgrade v (some cluster) =
      get_upgrade_version v.settings cluster v.version_list >>= set_release v

  unfoldable pub set_upgrade_version : VersionSelector V → Outcome (Ended V)
  unfolding set_upgrade
  set_upgrade_version v =
      if not (str_eq v.settings.release_name "") || not (str_eq v.settings.image "")
      then ended v none
      else set_upgrade v v.cluster_version

  pub judge : VersionSelector V → Selection V × World V → Round V
  judge v (r, w) =
      let v' : VersionSelector V = record {
        settings = w.settings;
        version_list = some w.version_list;
        cluster_version = r.version;
      } in
      elim r.error [
        | some e ↦ stopped v' e
        | none ↦ elim r.version [
          | some found ↦ done v'
          | none ↦ if is_waiting r.selector then again v' else done v'
        ]
      ]

  pub poll_once : VersionSelector V → Poll V → Outcome (Round V)
  unfolding judge
  poll_once v (unavailable e) =
      returns (stopped (record v { version_list = none }) (wrapf "error getting versions: %v" [] e))
  poll_once v (listed vl) = do
    r ← set_install_version (record { settings = v.settings; version_list = vl })
    returns (judge v r)

  -- The rounds of the poll loop, and the timeout.
  unfoldable pub poll : VersionSelector V → List (Poll V) → Outcome (Ended V)
  unfolding poll_once
  poll v [] = ended v (some (passed_on "wait.PollUntilContextTimeout" "versions"))
  poll v (p ∷ ps) = poll_once v p >>= λ r. elim r [
    | done v' ↦ ended v' none
    | stopped v' e ↦ ended v' (some e)
    | again v' ↦ poll v' ps
  ]

  abbrev pub start : VersionSelector V → VersionSelector V
  start v =
      if not (str_eq v.settings.release_image_latest "")
        || not (str_eq v.settings.install_specific_nightly "")
      then record v { settings = record v.settings { channel = "nightly" } }
      else v

  pub wrapped : String → Ended V → Outcome (Ended V)
  wrapped text r = elim r.error [
    | none ↦ ended r.selector none
    | some e ↦ ended r.selector (some (wrapf text [] e))
  ]

  pub upgrade_after : Ended V → Outcome (Ended V)
  unfolding wrapped
  upgrade_after r = elim r.error [
    | some e ↦ wrapped "error while selecting install version: %v" r
    | none ↦ set_upgrade_version r.selector >>= wrapped "error while selecting upgrade version: %v"
  ]

  -- `SelectClusterVersions`; the flag says whether a provider was set up.
  unfoldable pub select_cluster_versions :
      Bool → VersionSelector V → List (Poll V) → Outcome (Ended V)
  unfolding upgrade_after
  select_cluster_versions false v polls = ended v (some (errorf "no cluster provider was setup" []))
  select_cluster_versions true v polls = poll (start v) polls >>= upgrade_after
