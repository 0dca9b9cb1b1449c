-- ===== src/Ocm/Versions.antt =====
-- `Versions` of pkg/common/providers/ocmprovider/versions.go. The endpoint is outside: what the last
-- try of the retryer gets for a page is a reply, and the sum `page * PageSize` stays within an int.
pub mod Pages
use osde2e.Prelude.{
  ℕ, zero, suc, ◌*◌, ◌≡◌, String, Bool, true, false, ◌&&◌, ◌||◌, Option, none, some, List, [], ◌∷◌,
  ◌++◌, fold, if◌then◌else◌, leb, str_eq,
}
use osde2e.Prelude.Sorting.{IsWeakOrder, IsSorted}
use mathlib.Core.List.{Perm}
use osde2e.Go.{Error, wrapf}
use osde2e.Go.Calls.{Reply, replied, refused}
use osde2e.Semver.{Semver}
use osde2e.Spi.Version.{Ptr, Version, VersionList, add_upgrade_path, build}
use osde2e.Versions.Selector.{openshift_version_to_semver}

-- A version of the endpoint.
pub record Item : Type 0 where
  pub id : String
  pub enabled : Bool
  pub channel_group : String
  pub is_default : Bool
  pub available_upgrades : List String

pub record Page : Type 0 where
  pub items : List Item
  pub total : ℕ

-- `PageSize`.
abbrev pub page_size : ℕ
page_size = 100

-- The versions so far, and the address of the next version that is parsed.
pub record Listing (V : Type 0) : Type 0 where
  pub versions : List (Version V)
  pub next_address : ℕ

abbrev pub is_offered : String → Item → Bool
is_offered channel i =
    i.enabled && (str_eq i.channel_group "stable" || str_eq i.channel_group channel)

abbrev pub listing_failed : Error → Error
listing_failed e =
    wrapf "couldn't retrieve available versions: %v" []
      (wrapf "failed getting list of OSD versions: %v" [] e)

-- `channel` is the setting `config.Cluster.Channel`.
module _ {V : Type 0} ⦃sv : Semver V⦄ (channel : String) where
  -- An upgrade that cannot be read is left out.
  abbrev pub add_target : ℕ → Version V → Option V → Version V
  add_target address v none = v
  add_target address v (some target) =
      add_upgrade_path v (record { address = address; target = target })

  abbrev pub add_upgrade : ℕ → Version V → String → Version V
  add_upgrade address v upgrade = add_target address v (openshift_version_to_semver upgrade)

  unfoldable pub add_upgrades : ℕ → Version V → List String → Version V
  add_upgrades address v [] = v
  add_upgrades address v (u ∷ us) = add_upgrades (suc address) (add_upgrade address v u) us

  abbrev pub built : Listing V → Item → V → Version V
  built l i parsed =
      add_upgrades l.next_address (build parsed i.is_default none) i.available_upgrades

  abbrev pub add_parsed : Listing V → Item → Option V → Listing V
  add_parsed l i none = l
  add_parsed l i (some parsed) =
      if is_offered channel i
      then record {
        versions = l.versions ++ (built l i parsed ∷ []);
        next_address = fold (λ n u. suc n) l.next_address i.available_upgrades;
      }
      else l

  -- The function of `Each`.
  unfoldable pub add_item : Listing V → Item → Listing V
  add_item l i = add_parsed l i (openshift_version_to_semver i.id)

  -- The pages from one on; `none` when the fuel is used up.
  unfoldable pub list_pages : ℕ → ℕ → (ℕ → Reply Page) → Listing V → Option (Reply (Listing V))
  list_pages zero page pages l = none
  list_pages (suc fuel) page pages l = elim (pages page) [
    | refused e ↦ some (refused (listing_failed e))
    | replied p ↦
        let l' = fold add_item l p.items in
        let rest = list_pages fuel (suc page) pages l' in
        if leb p.total (page * page_size) then some (replied l') else rest
  ]

  abbrev pub newer_first : Version V → Version V → Bool
  newer_first a b = sv.greater_than a.version b.version

  abbrev pub new_listing : Listing V
  new_listing = record { versions = []; next_address = zero }

  -- There is no override of the default version.
  abbrev pub listed :
      ((Version V → Version V → Bool) → List (Version V) → List (Version V))
      → Option (Reply (Listing V))
      → Option (Reply (VersionList V))
  listed sort_slice none = none
  listed sort_slice (some (refused e)) = some (refused e)
  listed sort_slice (some (replied l)) = some (
      replied (record {
        available_versions = sort_slice newer_first l.versions;
        default_version_override = none;
      }))

  unfoldable pub versions :
      ((Version V → Version V → Bool) → List (Version V) → List (Version V))
      → ℕ
      → (ℕ → Reply Page)
      → Option (Reply (VersionList V))
  versions sort_slice fuel pages = listed sort_slice (list_pages fuel 1 pages new_listing)
