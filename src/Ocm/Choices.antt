-- ===== src/Ocm/Choices.antt =====
-- The random choices of pkg/common/providers/ocmprovider: the region and the machine type of
-- cluster.go, flavour.go, sku.go, and cluster_image_sources.go. What `rand.Intn` draws and how
-- `rand.Shuffle` orders a list are parameters.
pub mod Machines
use osde2e.Prelude.{
  ℕ, zero, String, Bool, true, false, not, ◌&&◌, ◌||◌, Option, none, some, List, [], ◌∷◌, concat,
  str_eq, if◌then◌else◌, leb, ◌==◌, get_elem?, keep_if, split_commas,
}
use osde2e.Prelude.Maps.{lookup}
use osde2e.Go.{Error, errorf}
use osde2e.Go.Calls.{Reply, End, ends, fails, dies}
use osde2e.Go.Steps.{Step, pure, fail, from_reply, bind_end, step_if, ◌>>=◌, ◌>>◌}
use osde2e.Ocm.Provider.{
  State, Call, OcmSettings, settings_of, set_settings, list_regions, list_machine_types, ask, same,
}
use osde2e.Ocm.Listing.{Page}

pub record CloudRegion : Type 0 where
  pub id : String
  pub enabled : Bool

pub record ChoiceService : Type 0 where
  pub regions : List Call → Reply (List CloudRegion)
  -- The ids of the machine types.
  pub machine_types : List Call → Reply (Page String)

pub record Draws : Type 0 where
  pub flavour : ℕ
  pub sku : ℕ
  pub use_random : ℕ
  pub machine_type : ℕ

abbrev pub first : {A : Type 0} → List A → Option A
first [] = none
first (x ∷ xs) = some x

abbrev pub choose_random_region :
    (List CloudRegion → List CloudRegion) → List CloudRegion → Option CloudRegion
choose_random_region shuffle regions = first (shuffle (keep_if (λ r. r.enabled) regions))

-- An element of a list, by a draw below its length; out of range it panics.
abbrev pub drawn : Option String → Step State String
drawn none = λ s. (dies, s)
drawn (some x) = pure x

-- `getFlavour` and `getSKU`: one of the texts between the commas.
abbrev pub pick : ℕ → List String → Step State String
pick draw [] = pure ""
pick draw (x ∷ []) = pure x
pick draw xs = drawn (get_elem? xs draw)

unfoldable pub get_flavour : ℕ → Step State String
get_flavour draw = settings_of >>= λ st. pick draw (split_commas st.flavours)

unfoldable pub get_sku : ℕ → Step State String
get_sku draw = settings_of >>= λ st. pick draw (split_commas st.skus)

-- The error of a request as a value.
abbrev pub tried_end : {A : Type 0} → End A → End (Option A)
tried_end (ends a) = ends (some a)
tried_end (fails e) = ends none
tried_end dies = dies

abbrev pub try_step : {A : Type 0} → Step State A → Step State (Option A)
try_step m s = let r = m s in (tried_end r.0, r.1)

abbrev pub default_region : String → String → String
default_region provider region =
    if str_eq provider "aws"
    then "us-east-1"
    else if str_eq provider "gcp"
    then "us-east1"
    else region

abbrev pub set_region : String → Step State String
set_region region = set_settings (λ st. record st { region = region }) >> pure region

abbrev pub region_or_fail : Option CloudRegion → Step State String
region_or_fail none = fail (errorf "unable to choose a random enabled region" [])
region_or_fail (some r) = set_region r.id

abbrev pub is_random : OcmSettings → Bool
is_random st = str_eq st.compute_machine_type "random"

-- A random type is asked for when a draw of three says so, or when there is an expression.
abbrev pub is_drawn : ℕ → OcmSettings → Bool
is_drawn draw st =
    (is_random st && leb 2 draw) || (is_random st && not (str_eq st.compute_machine_type_regex ""))

abbrev pub search_string : String → OcmSettings → String
search_string provider st =
    if not (str_eq st.compute_machine_type_regex "")
    then concat (
        "cloud_provider.id like '" ∷ provider ∷ "' AND id like '" ∷ st.compute_machine_type_regex
        ∷ ".%'" ∷ [])
    else concat ("cloud_provider.id like '" ∷ provider ∷ "'" ∷ [])

-- An empty list has no type. The draw is below the total, which may be more than the page has; a
-- total of zero panics.
abbrev pub random_type_of : List String → ℕ → ℕ → Step State String
random_type_of [] total draw = pure ""
random_type_of (x ∷ xs) total draw =
    if total == 0 then (λ s. (dies, s)) else drawn (get_elem? (x ∷ xs) draw)

abbrev pub random_type : ℕ → Page String → Step State String
random_type draw p = random_type_of p.items p.total draw

-- A type that is set stands, unless it is "random".
abbrev pub chosen_type : OcmSettings → String → String
chosen_type st drawn =
    if not (is_random st) && not (str_eq st.compute_machine_type "")
    then st.compute_machine_type
    else drawn

abbrev pub set_machine_type : String → Step State String
set_machine_type name = set_settings (λ st. record st { compute_machine_type = name }) >> pure name

module _ (cs : ChoiceService) where
  abbrev pub region_from :
      (List CloudRegion → List CloudRegion) → String → Option (List CloudRegion) → Step State String
  region_from shuffle provider none = set_region (default_region provider "random")
  region_from shuffle provider (some regions) =
      region_or_fail (choose_random_region shuffle regions)

  unfoldable pub determine_region :
      (List CloudRegion → List CloudRegion) → String → Step State String
  determine_region shuffle provider = settings_of >>= λ st.
      if str_eq st.region "random"
      then try_step (ask (list_regions provider) cs.regions same) >>= region_from shuffle provider
      else pure st.region

  abbrev pub drawn_type : Draws → String → OcmSettings → Step State String
  drawn_type d provider st =
      if is_drawn d.use_random st
      then ask (list_machine_types (search_string provider st)) cs.machine_types same
        >>= random_type d.machine_type
      else pure ""

  unfoldable pub determine_machine_type : Draws → String → Step State String
  determine_machine_type d provider = settings_of >>= λ st.
      drawn_type d provider st >>= λ drawn. set_machine_type (chosen_type st drawn)
