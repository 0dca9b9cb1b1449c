-- ===== src/Versions/Install/Named.antt =====
-- The selectors that match a nightly by its text: specific_image.go, specific_nightlies.go and
-- triggered_nightlies.go.
use osde2e.Prelude.{
  String, Bool, not, ◌&&◌, none, some, List, [], ◌∷◌, ◌++◌, reverse, ◌==◌, str_eq, contains,
  remove_all, if◌then◌else◌, find_first, concat,
}
use osde2e.Prelude.Int.{pos}
use osde2e.Prelude.Regex.{digit, any, Item, one, plus, literals, find_match}
use osde2e.Go.{Outcome, errorf, or_panic, ◌>>=◌}
use osde2e.Spi.Version.{Version}
use osde2e.Versions.Common.{sort_versions}
use osde2e.Versions.Settings.{World, Selection}
use osde2e.Versions.Install.Helpers.{
  Selector, refused, chosen_or, remove_default_version, available,
}
use osde2e.Semver.{Semver}

-- `\d.\d+.\d-\d.nightly-\d{4}-\d{2}-\d{2}-\d+`
abbrev pub version_regex : List Item
version_regex =
    one digit ∷ one any ∷ plus digit ∷ one any ∷ one digit ∷ literals "-"
    ++ one digit ∷ one any ∷ literals "nightly-"
    ++ one digit ∷ one digit ∷ one digit ∷ one digit ∷ literals "-"
    ++ one digit ∷ one digit ∷ literals "-"
    ++ one digit ∷ one digit ∷ literals "-"
    ++ plus digit ∷ []

-- The image's tag, with a suffix for a nightly.
pub image_version : String → String
image_version image =
    let tag = remove_all image "registry.ci.openshift.org/ocp/release:" in
    if contains tag "nightly" then concat (tag ∷ "-nightly" ∷ []) else tag

module _ {V : Type 0} ⦃sv : Semver V⦄ where
  abbrev pub same_original : V → Version V → Bool
  same_original want v = str_eq (sv.original v.version) (sv.original want)

  unfoldable pub choose_image : World V → Outcome (Selection V × World V)
  unfolding image_version
  choose_image w =
      let image = w.settings.release_image_latest in
      if str_eq image ""
      then refused "specific image" (errorf "no image provided" []) w
      else elim (sv.new_version (image_version image)) [
        | none ↦
            refused "specific image" (errorf "error parsing semver version for %s" (image ∷ [])) w
        | some want ↦
            chosen_or
              (find_first (same_original want)
                (sort_versions (remove_default_version (available w))))
              "specific image" (errorf "no valid nightly found for version %s" (image ∷ [])) w
      ]

  unfoldable pub specific_image : Selector V
  unfolding choose_image
  specific_image = record {
    name = "specific image";
    should_use =
        λ s. not (str_eq s.release_image_latest "") && contains s.release_image_latest "nightly";
    priority = pos 90;
    choose = choose_image;
  }

  abbrev pub is_nightly_of : V → Version V → Bool
  is_nightly_of want v =
      contains (sv.original v.version) "nightly"
      && (sv.major v.version == sv.major want && sv.minor v.version == sv.minor want)

  -- The loop runs from the end of the sorted list. `MustParse` panics on a text that is no version.
  unfoldable pub choose_nightly : World V → Outcome (Selection V × World V)
  choose_nightly w =
      let nightly = w.settings.install_specific_nightly in
      if str_eq nightly ""
      then refused "specific nightly" (errorf "no version to match nightly found" []) w
      else do
        want ← or_panic (sv.new_version nightly)
        chosen_or
            (find_first (is_nightly_of want)
              (reverse (sort_versions (remove_default_version (available w)))))
            "specific nightly" (errorf "no valid nightly found for version %s" (nightly ∷ [])) w

  unfoldable pub specific_nightlies : Selector V
  unfolding choose_nightly
  specific_nightlies = record {
    name = "specific nightly";
    should_use = λ s. not (str_eq s.install_specific_nightly "");
    priority = pos 60;
    choose = choose_nightly;
  }

  pub match_payload : String → World V → Outcome (Selection V × World V)
  match_payload payload w = elim (sv.new_version payload) [
    | none ↦
        refused "triggered nightly" (errorf "error parsing semver version for %s" (payload ∷ [])) w
    | some want ↦
        chosen_or (find_first (same_original want) (remove_default_version (available w)))
          "triggered nightly" (errorf "failed to find version %q" (payload ∷ [])) w
  ]

  unfoldable pub choose_triggered : World V → Outcome (Selection V × World V)
  unfolding match_payload find_match literals
  choose_triggered w =
      let tag = w.settings.prow_job_id in
      elim (find_match version_regex tag) [
        | none ↦
            refused "triggered nightly"
              (errorf "failed to match nightly version tag: %q" (tag ∷ [])) w
        | some found ↦ match_payload (concat (found ∷ "-nightly" ∷ [])) w
      ]

  unfoldable pub triggered_nightlies : Selector V
  unfolding choose_triggered
  triggered_nightlies = record {
    name = "triggered nightly";
    should_use = λ s. contains s.prow_job_id "nightly";
    priority = pos 100;
    choose = choose_triggered;
  }
