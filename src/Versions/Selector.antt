-- ===== src/Versions/Selector.antt =====
-- pkg/common/versions/versionselector.go, and the two conversions of pkg/common/util/util.go that it
-- calls. The provider is outside: what each of its `Versions()` calls returns is a list of polls,
-- one for each round of the poll loop, which ends with the timeout's error when the list does.
pub mod Priorities
pub mod Install
use osde2e.Prelude.{
  ℕ, String, Bool, true, false, not, ◌&&◌, ◌||◌, Option, none, some, List, [], ◌∷◌, str_eq,
  contains, if◌then◌else◌, concat, trim_prefix,
}
use osde2e.Prelude.Int.{ℤ, negsuc, ltb_ℤ}
use osde2e.Go.{Outcome, returns, panics, Error, errorf, wrapf, passed_on, or_panic, ◌>>=◌}
use osde2e.Spi.Version.{Version, VersionList, build}
use osde2e.Versions.Settings.{Settings, World, Selection}
use osde2e.Versions.Install.Helpers
use osde2e.Versions.Install.Registry.{global_selector_registry}
use osde2e.Versions.Upgrade
use osde2e.Semver.{Semver}

pub record VersionSelector (V : Type 0) : Type 0 where
  pub settings : Settings
  pub version_list : Option (VersionList V)
  pub cluster_version : Option V

-- One `Provider.Versions()` call.
pub data Poll (V : Type 0) : Type 0 where
  listed : VersionList V → Poll V
  unavailable : Error → Poll V

-- `math.MinInt32`.
abbrev pub min_int32 : ℤ
min_int32 = negsuc 2147483647

-- `selectedVersionSelector` and `curPriority` of the loop over the selectors.
module _ {S : Type 0} (usable : S → Bool) (priority : S → ℤ) where
  unfoldable pub pick_selector : Option S → ℤ → List S → Option S
  pick_selector selected current [] = selected
  pick_selector selected current (s ∷ ss) =
      let better = usable s && ltb_ℤ current (priority s) in
      pick_selector (if better then some s else selected) (if better then priority s else current)
        ss

module _ {V : Type 0} ⦃sv : Semver V⦄ where
  -- `OpenshiftVersionToSemver` and `SemverToOpenshiftVersion`.
  abbrev pub openshift_version_to_semver : String → Option V
  openshift_version_to_semver text = sv.new_version (trim_prefix text "openshift-v")

  abbrev pub semver_to_openshift_version : V → String
  semver_to_openshift_version v = concat ("openshift-v" ∷ sv.string v ∷ [])

  unfoldable pub selected_selector : Settings → Option (Helpers.Selector V)
  selected_selector s =
      pick_selector (λ i. i.should_use s) (λ i. i.priority) none min_int32
        global_selector_registry.selectors

  abbrev pub install_result :
      Option V → String → Option Error → World V → Outcome (Selection V × World V)
  install_result v selector e w =
      returns (record { version = v; selector = selector; error = e }, w)

  -- A version that does not name the channel is parsed again with the channel as a suffix. Of a nil
  -- version `Original` panics, and `MustParse` does of a text that is no version.
  pub in_channel : Option V → String → World V → Outcome (Selection V × World V)
  in_channel none selector w =
      if str_eq w.settings.channel "stable" then install_result none selector none w else panics
  in_channel (some v) selector w =
      if not (str_eq w.settings.channel "stable")
        && not (contains (sv.original v) w.settings.channel)
      then (or_panic (sv.new_version (concat (sv.original v ∷ "-" ∷ w.settings.channel ∷ [])))
          >>= λ v'. install_result (some v') selector none w)
      else install_result (some v) selector none w

  pub after_choice : Selection V × World V → Outcome (Selection V × World V)
  unfolding in_channel
  after_choice (r, w) = elim r.error [
    | some e ↦ install_result none r.selector none w
    | none ↦ in_channel r.version r.selector w
  ]

  unfoldable pub get_install_version : World V → Outcome (Selection V × World V)
  unfolding after_choice
  get_install_version w = elim (selected_selector w.settings) [
    | none ↦
        install_result none "" (some (errorf "unable to find an install version selector" [])) w
    | some s ↦ s.choose w >>= after_choice
  ]

  -- The setting is written only when both flags still hold; the version is returned in any case.
  pub keep_version : Selection V → World V → Outcome (Selection V × World V)
  keep_version r w = elim r.version [
    | none ↦ install_result none r.selector none w
    | some v ↦ install_result (some v) r.selector none (
        if w.settings.enough_versions_for_oldest_or_middle_test
          && w.settings.previous_version_from_default_found
        then record w {
          settings = record w.settings { cluster_version = semver_to_openshift_version v };
        }
        else w)
  ]

  pub keep_chosen : Selection V × World V → Outcome (Selection V × World V)
  unfolding keep_version
  keep_chosen (r, w) = elim r.error [
    | some e ↦ install_result none r.selector none w
    | none ↦ keep_version r w
  ]

  unfoldable pub set_install_version : World V → Outcome (Selection V × World V)
  unfolding keep_chosen
  set_install_version w =
      let text = w.settings.cluster_version in
      if str_eq text ""
      then get_install_version w >>= keep_chosen
      else elim (openshift_version_to_semver text) [
        | none ↦
            install_result none "user supplied version"
              (some (
                wrapf "supplied version %s is invalid: %v" (text ∷ [])
                  (passed_on "semver.NewVersion" text)))
              w
        | some v ↦ install_result (some v) "user supplied version" none w
      ]
