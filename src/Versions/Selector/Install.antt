-- ===== src/Versions/Selector/Install.antt =====
-- What `getInstallVersion` and `setInstallVersion` return.
use osde2e.Prelude.{
  ◌<◌, String, ◌≡◌, refl, sym, ◌≢◌, ◌↔◌, false, not, ◌&&◌, Option, none, some, inl, inr, [], ◌∷◌,
  length, arith, str_eq, Bool-cases, Option-cases, contains, concat, subst,
}
use osde2e.Go.{Outcome, returns, panics, Error, wrapf, passed_on, or_panic, ◌>>=◌}
use osde2e.Semver.{Semver}
use osde2e.Versions.Settings.{World, Selection}
use osde2e.Versions.Install.Helpers
use osde2e.Versions.Install.Helpers.{available}
use osde2e.Versions.Install.Ordered.{choose_middle, middle_cluster_image_set, others, too_few}
use osde2e.Versions.Selector.{
  selected_selector, install_result, in_channel, after_choice, get_install_version,
  set_install_version, openshift_version_to_semver,
}
use osde2e.Versions.Selector.Priorities.{selected_selector_lem}

-- The result, when there is one, has no error.
abbrev NoError : {A B : Type 0} → Outcome (Selection A × B) → Type 0
NoError (returns r) = r.0.error ≡ none
NoError panics = Unit

NoError-bind :
    {A B C : Type 0} (m : Outcome C) (f : C → Outcome (Selection A × B))
    → ((c : C) → NoError (f c))
    → NoError (m >>= f)
NoError-bind (returns c) f h = h c
NoError-bind panics f h = tt

module _ {V : Type 0} ⦃sv : Semver V⦄ where
  in_channel-NoError : (o : Option V) (s : String) (w : World V) → NoError (in_channel o s w)
  unfolding in_channel
  in_channel-NoError none s w = elim (Bool-cases (str_eq w.settings.channel "stable")) [
    | inl e ↦ rw e refl
    | inr e ↦ rw e tt
  ]
  in_channel-NoError (some v) s w =
      elim (Bool-cases (
        not (str_eq w.settings.channel "stable")
        && not (contains (sv.original v) w.settings.channel))) [
          | inl e ↦ rw e (
              NoError-bind
                (or_panic (sv.new_version (concat (sv.original v ∷ "-" ∷ w.settings.channel ∷ []))))
                (λ v'. install_result (some v') s none w) (λ v'. refl))
          | inr e ↦ rw e refl
        ]

  after_choice-NoError : (r : Selection V × World V) → NoError (after_choice r)
  unfolding after_choice
  after_choice-NoError (r, w) = go r.error
    where
      go :
          (o : Option Error)
          → NoError {A = V} {B = World V} (elim o [
            | some e ↦ install_result none r.selector none w
            | none ↦ in_channel r.version r.selector w
          ])
      go none = in_channel-NoError r.version r.selector w
      go (some e) = refl

  run_selected :
      (w : World V) (i : Helpers.Selector V)
      → selected_selector w.settings ≡ some i
      → get_install_version w ≡ (i.choose w >>= after_choice)
  unfolding get_install_version
  run_selected w i e = rw (e, get_install_version) refl

  get_install_version-NoError : (w : World V) → NoError (get_install_version w)
  get_install_version-NoError w =
      let (i, e, _, _) = selected_selector_lem w.settings in
      rw (run_selected w i e) (NoError-bind (i.choose w) after_choice after_choice-NoError)

  -- The search for an install version never ends with an error: a selector is always found, and the
  -- error of its choice is dropped.
  pub get_install_version_no_error :
      (w : World V) {r : Selection V × World V}
      → get_install_version w ≡ returns r
      → r.0.error ≡ none
  get_install_version_no_error w e = subst NoError e (get_install_version-NoError w)

  supplied : World V → Option V → Selection V
  supplied w none = record {
    version = none;
    selector = "user supplied version";
    error = some (
        wrapf "supplied version %s is invalid: %v" (w.settings.cluster_version ∷ [])
          (passed_on "semver.NewVersion" w.settings.cluster_version));
  }
  supplied w (some v) = record {
    version = some v;
    selector = "user supplied version";
    error = none;
  }

  supplied_run :
      (w : World V) (o : Option V)
      → str_eq w.settings.cluster_version "" ≡ false
      → openshift_version_to_semver w.settings.cluster_version ≡ o
      → set_install_version w ≡ returns (supplied w o, w)
  unfolding set_install_version supplied
  supplied_run w none h e = ground arith
  supplied_run w (some v) h e = ground arith

  -- A version that the user supplied is used whatever the provider lists: nothing is changed, no
  -- selector is asked, and the only error is that the text is no version.
  pub set_install_version_supplied :
      (w : World V)
      → str_eq w.settings.cluster_version "" ≡ false
      → (r : Selection V) × (set_install_version w ≡ returns (r, w))
        × (r.version ≡ openshift_version_to_semver w.settings.cluster_version)
        × ((r.error ≡ none) ↔ (r.version ≢ none))
  unfolding supplied
  set_install_version_supplied w h =
      elim (Option-cases (openshift_version_to_semver w.settings.cluster_version)) [
        | inl e ↦ (
          supplied w none,
          supplied_run w none h e,
          sym e,
          (λ c. absurd (cc), λ c. absurd (c refl)),
        )
        | inr (v, e) ↦ (
          supplied w (some v),
          supplied_run w (some v) h e,
          sym e,
          (λ c n. absurd (cc), λ c. refl),
        )
      ]

  few_run : (w : World V) → length (others w) < 2 → choose_middle w ≡ too_few "middle version" w
  unfolding choose_middle
  few_run w few = ground arith

  -- Where the middle selector is the one to use and fewer than two versions are not the default, the
  -- search panics on every channel but stable.
  pub middle_too_few-panics :
      (w : World V)
      → selected_selector {V = V} w.settings ≡ some middle_cluster_image_set
      → length (others w) < 2
      → str_eq w.settings.channel "stable" ≡ false
      → get_install_version w ≡ panics
  unfolding middle_cluster_image_set after_choice in_channel
  middle_too_few-panics w pick few channel =
      rw (run_selected w middle_cluster_image_set pick) (rw (few_run w few) (rw channel refl))
