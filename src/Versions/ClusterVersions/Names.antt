-- ===== src/Versions/ClusterVersions/Names.antt =====
-- The release name that the choice of an upgrade writes, and what reading it gives.
use osde2e.Prelude.{◌≡◌, refl, ap, ◌∙◌, false, some, [], ◌∷◌, concat, trim_prefix-concat, str_eq}
use osde2e.Semver.{Semver}
use osde2e.Spi.Version.{Version}
use osde2e.Versions.Settings.{Selection}
use osde2e.Versions.Selector.{openshift_version_to_semver}
use osde2e.Versions.ClusterVersions.{release_of}

-- The name of a chosen version that has a text is read back as that version, when the semver library
-- reads the text so.
pub release_of-round_trip :
    {V : Type 0} ⦃sv : Semver V⦄ (r : Selection (Version V)) (v : Version V)
    → r.version ≡ some v
    → str_eq (sv.original v.version) "" ≡ false
    → sv.new_version (sv.original v.version) ≡ some v.version
    → openshift_version_to_semver (release_of r).name ≡ some v.version
unfolding release_of
release_of-round_trip {V} ⦃sv = sv⦄ r v chosen named reads =
    let text = sv.original v.version in
    let name : (release_of r).name ≡ concat ("openshift-v" ∷ text ∷ []) = rw (chosen, named) refl in
    ap (λ n. openshift_version_to_semver {V = V} n) name
    ∙ ap sv.new_version (trim_prefix-concat "openshift-v" text)
    ∙ reads
