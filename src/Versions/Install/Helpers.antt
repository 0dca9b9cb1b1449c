-- ===== src/Versions/Install/Helpers.antt =====
-- installselectors/interface.go and installselectors/utils.go, and how the results of a selector are
-- put together.
use osde2e.Prelude.{String, Bool, not, Option, none, some, List, [], keep_if, find_first}
use osde2e.Prelude.Int.{ℤ}
use osde2e.Go.{Outcome, returns, Error, errorf}
use osde2e.Spi.Version.{Version}
use osde2e.Versions.Common.{sort_versions}
use osde2e.Versions.Settings.{Settings, World, Selection}
use osde2e.Semver.{Semver}

-- The methods of `Interface`; `choose` is `SelectVersion`.
pub record Selector (V : Type 0) : Type 0 where
  pub name : String
  pub should_use : Settings → Bool
  pub priority : ℤ
  pub choose : World V → Outcome (Selection V × World V)

abbrev pub no_default_found : Error
no_default_found = errorf "no default version found" []

module _ {V : Type 0} where
  abbrev pub chosen : V → String → World V → Outcome (Selection V × World V)
  chosen v selector w = returns (record { version = some v; selector = selector; error = none }, w)

  abbrev pub not_chosen : String → World V → Outcome (Selection V × World V)
  not_chosen selector w = returns (record { version = none; selector = selector; error = none }, w)

  abbrev pub refused : String → Error → World V → Outcome (Selection V × World V)
  refused selector e w = returns (record { version = none; selector = selector; error = some e }, w)

  -- The result of a lookup of a version, with the error that a miss gives.
  abbrev pub chosen_or :
      Option (Version V) → String → Error → World V → Outcome (Selection V × World V)
  chosen_or none selector e w = refused selector e w
  chosen_or (some v) selector e w = chosen v.version selector w

  unfoldable pub remove_default_version : List (Version V) → List (Version V)
  remove_default_version vs = keep_if (λ v. not v.is_default) vs

  unfoldable pub find_default_version : List (Version V) → Option (Version V)
  find_default_version vs = find_first (λ v. v.is_default) vs

  abbrev pub available : World V → List (Version V)
  available w = w.version_list.available_versions

  abbrev pub with_available : World V → List (Version V) → World V
  with_available w vs = record w {
    version_list = record w.version_list { available_versions = vs };
  }

-- `SortVersions` on the list's own slice.
module _ {V : Type 0} ⦃sv : Semver V⦄ where
  abbrev pub sorted_world : World V → World V
  sorted_world w = with_available w (sort_versions (available w))
