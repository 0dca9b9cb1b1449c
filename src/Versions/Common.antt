-- ===== src/Versions/Common.antt =====
-- pkg/common/versions/common/utils.go: sorting of versions, and the release that lies a number of
-- releases after a given one. A Go map is an association list in the order of its insertions; the
-- code sorts the keys that it ranges over, so that order does not show in the result.
pub mod Buckets
pub mod Next
pub mod Distinct
pub mod Release
use osde2e.Prelude.{
  ℕ, zero, suc, ◌+◌, ◌≤◌, String, Bool, true, false, not, ◌&&◌, Option, none, some, List, [], ◌∷◌,
  map, length, str_eq, contains, if◌then◌else◌, leb,
}
use osde2e.Prelude.Maps.{lookup, assign}
use osde2e.Prelude.Int.{ℤ, pos, negsuc, add_int}
use osde2e.Prelude.Sorting.{sort_by}
use osde2e.Go.{
  Outcome, returns, panics, Error, errorf, passed_on, Found, found, failed, index, ◌>>=◌,
}
use osde2e.Semver.{Semver, dotted}
use osde2e.Spi.Version.{Version}

module _ {V : Type 0} ⦃sv : Semver V⦄ where
  abbrev pub version_less : Version V → Version V → Bool
  version_less this that = sv.less_than this.version that.version

  -- `SortVersions`, in place: the sorted list replaces the one that was passed.
  unfoldable pub sort_versions : List (Version V) → List (Version V)
  sort_versions vs = sort_by version_less vs

  -- `CreateMajorMinorStringFromSemver`; a nil version has the empty text.
  unfoldable pub major_minor : V → String
  major_minor v = dotted (sv.major v) (sv.minor v)

  abbrev pub create_major_minor : Option V → String
  create_major_minor none = ""
  create_major_minor (some v) = major_minor v

  unfoldable pub is_nightly : V → Bool
  is_nightly v = contains (sv.prerelease v) "nightly"

  -- Does a version replace the one that its bucket holds?
  pub replaces : V → V → Bool
  replaces v current =
      if is_nightly v && not (is_nightly current)
      then true
      else if is_nightly current && not (is_nightly v)
      then false
      else sv.less_than current v

  pub bucket_step : V → List (String × V) → Option V → List (String × V)
  bucket_step v buckets none = assign (major_minor v) v buckets
  bucket_step v buckets (some current) =
      if replaces v current then assign (major_minor v) v buckets else buckets

  pub fill_buckets : List (String × V) → List (Version V) → List (String × V)
  unfolding lookup assign replaces bucket_step
  fill_buckets buckets [] = buckets
  fill_buckets buckets (v ∷ vs) =
      fill_buckets (bucket_step v.version buckets (lookup (major_minor v.version) buckets)) vs

  -- The keys are parsed again; the first that is no version ends the function with an error.
  pub parse_keys : List (String × V) → Option (List V)
  parse_keys [] = some []
  parse_keys ((k, v) ∷ m) = elim (sv.new_version k) [
    | none ↦ none
    | some w ↦ elim (parse_keys m) [ none ↦ none | some ws ↦ some (w ∷ ws) ]
  ]

  pub index_of_equal : V → List V → Option ℕ
  index_of_equal given [] = none
  index_of_equal given (w ∷ ws) =
      if sv.equal w given
      then some 0
      else elim (index_of_equal given ws) [ none ↦ none | some i ↦ some (suc i) ]

  -- `len(list) <= next` is an error, a negative index panics.
  pub at_next : List (String × V) → List V → ℤ → Outcome (Found V)
  at_next buckets releases (negsuc n) = panics
  at_next buckets releases (pos i) =
      if leb (length releases) i
      then failed
          (errorf "there is no eligible next release from the list of available versions" [])
      else do
        next ← index releases i
        elim (lookup (major_minor next) buckets) [
          | none ↦ failed (errorf "no major/minor version found for %s" (major_minor next ∷ []))
          | some v ↦ found v
        ]

  pub after_given : List (String × V) → List V → Option V → ℤ → Outcome (Found V)
  unfolding index_of_equal at_next
  after_given buckets releases none distance = failed (passed_on "semver.NewVersion" "major.minor")
  after_given buckets releases (some given) distance = elim (index_of_equal given releases) [
    | none ↦ failed (errorf "unable to find given version from list of available versions" [])
    | some i ↦ at_next buckets releases (add_int (pos i) distance)
  ]

  -- `NextReleaseAfterGivenVersionFromVersionList`.
  unfoldable pub next_release : Option V → List (Version V) → ℤ → Outcome (Found V)
  unfolding fill_buckets parse_keys after_given
  next_release given version_list distance =
      let buckets = fill_buckets [] version_list in
      elim (parse_keys buckets) [
        | none ↦ failed (passed_on "semver.NewVersion" "major.minor")
        | some keys ↦
            after_given buckets (sort_by sv.less_than keys)
              (sv.new_version (create_major_minor given)) distance
      ]
