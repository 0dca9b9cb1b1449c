-- ===== src/Spi/Version.antt =====
-- pkg/common/spi/version.go: versions with their upgrade edges, and the list of them that a provider
-- found. An upgrade edge is keyed by a pointer, so `Ptr` keeps the address beside the version; two
-- pointers are the same key only when the addresses are equal. The pointers to a `Version` in a list
-- and the version inside one are never nil, as the providers build them.
pub mod Lookup
use osde2e.Prelude.{
  ℕ, String, Bool, true, false, ◌&&◌, Option, none, some, List, [], ◌∷◌, ◌==◌, if◌then◌else◌,
  keep_if, find_first,
}
use osde2e.Go.{Outcome, returns, or_panic, ◌>>=◌}
use osde2e.Semver.{Semver}

pub record Ptr (V : Type 0) : Type 0 where
  pub address : ℕ
  pub target : V

-- The enumeration order of `available_upgrades` stands for the order of a `range` over the Go map.
pub record Version (V : Type 0) : Type 0 where
  pub version : V
  pub available_upgrades : List (Ptr V)
  pub is_default : Bool

pub record VersionList (V : Type 0) : Type 0 where
  pub available_versions : List (Version V)
  pub default_version_override : Option V

module _ {V : Type 0} where
  has_key : ℕ → List (Ptr V) → Bool
  has_key a [] = false
  has_key a (p ∷ ps) = if p.address == a then true else has_key a ps

  unfoldable pub can_upgrade_to : Version V → Ptr V → Bool
  unfolding has_key
  can_upgrade_to v target = has_key target.address v.available_upgrades

  -- A key that is there is written again and nothing changes.
  unfoldable pub add_upgrade_path : Version V → Ptr V → Version V
  unfolding can_upgrade_to
  add_upgrade_path v target =
      if can_upgrade_to v target
      then v
      else record v { available_upgrades = target ∷ v.available_upgrades }

  -- The `VersionBuilder` chain, ending in `Build`; a nil map becomes an empty one.
  unfoldable pub build : V → Bool → Option (List (Ptr V)) → Version V
  build v default none = record { version = v; available_upgrades = []; is_default = default }
  build v default (some ups) = record {
    version = v;
    available_upgrades = ups;
    is_default = default;
  }

  default_in : List (Version V) → Option V
  default_in [] = none
  default_in (v ∷ vs) = if v.is_default then some v.version else default_in vs

  -- `VersionList.Default`: the override, or else the first version that is tagged as default.
  unfoldable pub default : VersionList V → Option V
  unfolding default_in
  default vl = elim vl.default_version_override [
    | some v ↦ some v
    | none ↦ default_in vl.available_versions
  ]

  abbrev pub versions_of : VersionList V → List (Version V)
  versions_of vl = vl.available_versions

module _ {V : Type 0} ⦃sv : Semver V⦄ where
  abbrev pub same_release : V → V → Bool
  same_release a b =
      sv.major a == sv.major b && (sv.minor a == sv.minor b && sv.patch a == sv.patch b)

  -- `VersionList.FindVersion`; `MustParse` panics on a text that is no version.
  unfoldable pub find_version : VersionList V → String → Outcome (List (Version V))
  find_version vl text = do
    parsed ← or_panic (sv.new_version text)
    returns (keep_if (λ v. same_release v.version parsed) vl.available_versions)
