-- ===== src/Ocm/Environments.antt =====
-- pkg/common/providers/ocmprovider/environments.go, and the functions of ocm.go that look at the
-- environment. `Choose` calls itself; the calls are bounded by fuel, and `none` means that it was
-- used up.
pub mod Endpoints
use osde2e.Prelude.{
  ℕ, zero, suc, String, Bool, true, false, ◌||◌, Option, none, some, List, [], ◌∷◌, str_eq,
  if◌then◌else◌,
}
use osde2e.Prelude.Maps.{lookup}

-- `Environments`.
abbrev pub environments : List (String × String)
environments =
    ("", "int")
    ∷ ("int", "https://api.integration.openshift.com")
    ∷ ("stage", "https://api.stage.openshift.com")
    ∷ ("prod", "https://api.openshift.com")
    ∷ ("frInt", "https://api.int.openshiftusgov.com")
    ∷ ("frStage", "https://api.stage.openshiftusgov.com")
    ∷ ("frProd", "https://api.openshiftusgov.com")
    ∷ []

-- With FedRamp the three environments stand for those of FedRamp.
abbrev pub fed_ramp_name : Bool → String → String
fed_ramp_name false desired = desired
fed_ramp_name true desired =
    if str_eq desired "int"
    then "frInt"
    else if str_eq desired "stage"
    then "frStage"
    else if str_eq desired "prod"
    then "frProd"
    else desired

abbrev pub follow : String → Option String → (String → Option String) → Option String
follow desired none again = some desired
follow desired (some val) again =
    let rest = again val in if str_eq desired val then some desired else rest

unfoldable pub choose : ℕ → Bool → String → Option String
choose zero fed_ramp desired = none
choose (suc fuel) fed_ramp desired =
    follow (fed_ramp_name fed_ramp desired) (lookup (fed_ramp_name fed_ramp desired) environments)
      (choose fuel fed_ramp)

pub data UpgradeSource : Type 0 where
  cincinnati_source release_controller_source : UpgradeSource

pub data CincinnatiChannel : Type 0 where
  cincinnati_stable_channel cincinnati_fast_channel cincinnati_candidate_channel : CincinnatiChannel

pub upgrade_source : String → UpgradeSource
upgrade_source environment =
    if str_eq environment "stage" || str_eq environment "prod"
    then cincinnati_source
    else release_controller_source

pub cincinnati_channel : String → CincinnatiChannel
cincinnati_channel environment =
    if str_eq environment "prod" then cincinnati_stable_channel else cincinnati_fast_channel
