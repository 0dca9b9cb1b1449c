-- ===== src/Ocm/Description.antt =====
-- pkg/common/providers/ocmprovider/cluster_image_sources.go, `GenerateProperties` and
-- `GetAvailabilityZones` of cluster.go: the parts of the description of a new cluster.
pub mod Zones
use osde2e.Prelude.{
  ℕ, zero, String, Bool, true, false, not, ◌&&◌, ◌||◌, Option, none, some, List, [], ◌∷◌, ◌++◌,
  concat, str_eq, contains, if◌then◌else◌, split_commas, fold, itoa_ℤ,
}
use osde2e.Prelude.Int.{ℤ, pos, negsuc}
use osde2e.Prelude.Maps.{lookup, assign}
use osde2e.Go.{Error, wrapf}
use osde2e.Go.Calls.{Reply, replied, refused}
use osde2e.Spi.Cluster.{Properties}
use osde2e.Ocm.Provider.{OcmSettings}

abbrev pub quay_primary : String
quay_primary = concat (
    "imageContentSources:\n" ∷ "- mirrors:\n" ∷ "  - quay.io/openshift-release-dev/ocp-release\n"
    ∷ "  - pull.q1w2.quay.rhcloud.com/openshift-release-dev/ocp-release\n"
    ∷ "  source: quay.io/openshift-release-dev/ocp-release\n" ∷ "- mirrors:\n"
    ∷ "  - quay.io/openshift-release-dev/ocp-v4.0-art-dev\n"
    ∷ "  - pull.q1w2.quay.rhcloud.com/openshift-release-dev/ocp-art-dev\n"
    ∷ "  source: quay.io/openshift-release-dev/ocp-v4.0-art-dev\n" ∷ "- mirrors:\n"
    ∷ "  - quay.io/app-sre/managed-upgrade-operator\n"
    ∷ "  - pull.q1w2.quay.rhcloud.com/app-sre/managed-upgrade-operator\n"
    ∷ "  source: quay.io/app-sre/managed-upgrade-operator\n" ∷ "- mirrors:\n"
    ∷ "  - quay.io/app-sre/managed-upgrade-operator-registry\n"
    ∷ "  - pull.q1w2.quay.rhcloud.com/app-sre/managed-upgrade-operator-registry\n"
    ∷ "  source: quay.io/app-sre/managed-upgrade-operator-registry" ∷ [])

abbrev pub regional_primary : String
regional_primary = concat (
    "imageContentSources:\n" ∷ "- mirrors:\n"
    ∷ "  - pull.q1w2.quay.rhcloud.com/openshift-release-dev/ocp-release\n"
    ∷ "  - quay.io/openshift-release-dev/ocp-release\n"
    ∷ "  source: quay.io/openshift-release-dev/ocp-release\n" ∷ "- mirrors:\n"
    ∷ "  - pull.q1w2.quay.rhcloud.com/openshift-release-dev/ocp-art-dev\n"
    ∷ "  - quay.io/openshift-release-dev/ocp-v4.0-art-dev\n"
    ∷ "  source: quay.io/openshift-release-dev/ocp-v4.0-art-dev\n" ∷ "- mirrors:\n"
    ∷ "  - pull.q1w2.quay.rhcloud.com/app-sre/managed-upgrade-operator\n"
    ∷ "  - quay.io/app-sre/managed-upgrade-operator\n"
    ∷ "  source: quay.io/app-sre/managed-upgrade-operator\n" ∷ "- mirrors:\n"
    ∷ "  - pull.q1w2.quay.rhcloud.com/app-sre/managed-upgrade-operator-registry\n"
    ∷ "  - quay.io/app-sre/managed-upgrade-operator-registry\n"
    ∷ "  source: quay.io/app-sre/managed-upgrade-operator-registry" ∷ [])

-- `clusterImageSources`.
abbrev pub cluster_image_sources : List (String × String)
cluster_image_sources = ("quay-primary", quay_primary) ∷ ("regional-primary", regional_primary) ∷ []

abbrev pub text_or_empty : Option String → String
text_or_empty none = ""
text_or_empty (some t) = t

-- For "random" or no choice the choice becomes the text of the first source.
abbrev pub named_choice : String → String
named_choice choice =
    if str_eq choice "random" || str_eq choice ""
    then text_or_empty (lookup "quay-primary" cluster_image_sources)
    else choice

unfoldable pub choose_image_source : String → String
choose_image_source choice = text_or_empty (lookup (named_choice choice) cluster_image_sources)

-- The install configuration: the image source of a periodic job outside of "prod", and the setting.
abbrev pub is_periodic : OcmSettings → Bool
is_periodic st =
    not (str_eq st.environment "prod")
    && (str_eq st.job_type "periodic" && not (contains st.job_name "addon"))

abbrev pub install_config_of : OcmSettings → String
install_config_of st = concat (
    (if is_periodic st
      then concat ("\n" ∷ choose_image_source st.image_content_source ∷ [])
      else "")
    ∷ (if not (str_eq st.install_config "") then concat ("\n" ∷ st.install_config ∷ []) else "")
    ∷ [])

abbrev pub is_minus_one : ℤ → Bool
is_minus_one (negsuc zero) = true
is_minus_one z = false

abbrev pub user_or_error : Reply String → Reply String
user_or_error (replied u) = replied u
user_or_error (refused e) = refused (wrapf "unable to get current user: %v" [] e)

-- On Prow the number of the job is set. The user of the machine is a parameter.
abbrev pub user_name : Reply String → OcmSettings → Reply String
user_name current st =
    if not (is_minus_one st.job_id)
    then replied "prow"
    else if not (str_eq st.user_override "")
    then replied st.user_override
    else user_or_error current

abbrev pub add_label : Properties → String → Properties
add_label ps label = assign label "true" ps

abbrev pub labels_of : OcmSettings → List String
labels_of st = if str_eq st.additional_labels "" then [] else split_commas st.additional_labels

abbrev pub base_properties : String → OcmSettings → Properties
base_properties user st =
    ("JobName", st.job_name)
    ∷ ("JobID", itoa_ℤ st.job_id)
    ∷ ("MadeByOSDe2e", "true")
    ∷ ("OwnedBy", user)
    ∷ ("InstalledVersion", st.version)
    ∷ ("UpgradeVersion", "--")
    ∷ ("Status", "provisioning")
    ∷ ("Availability", if st.reserve then "reserved" else "")
    ∷ ("AWSAccount", st.aws_account_id)
    ∷ ("AdHocTestImages", st.ad_hoc_test_images)
    ∷ []

abbrev pub with_shard : OcmSettings → Properties → Properties
with_shard st ps =
    if not (str_eq st.provision_shard_id "")
    then assign "provision_shard_id" st.provision_shard_id ps
    else ps

abbrev pub properties_for : OcmSettings → String → Properties
properties_for st user = fold add_label (with_shard st (base_properties user st)) (labels_of st)

abbrev pub properties_reply : OcmSettings → Reply String → Reply Properties
properties_reply st (replied user) = replied (properties_for st user)
properties_reply st (refused e) = refused e

unfoldable pub generate_properties : Reply String → OcmSettings → Reply Properties
generate_properties current st = properties_reply st (user_name current st)

pub record Subnetwork : Type 0 where
  pub subnet_id : String
  pub availability_zone : String

-- `collectedAZs` and `availabilityZones`.
abbrev pub Zones : Type 0
Zones = List (String × Bool) × List String

abbrev pub is_collected : Option Bool → Bool
is_collected none = false
is_collected (some b) = b

abbrev pub match_subnet : Subnetwork → Zones → String → Zones
match_subnet n z id =
    if not (str_eq n.subnet_id id) || is_collected (lookup n.availability_zone z.0)
    then z
    else (assign n.availability_zone true z.0, z.1 ++ (n.availability_zone ∷ []))

abbrev pub add_zone : List String → Zones → Subnetwork → Zones
add_zone ids z n = fold (match_subnet n) z ids

unfoldable pub get_availability_zones : List Subnetwork → List String → List String
get_availability_zones subnets ids = (fold (add_zone ids) ([], []) subnets).1
