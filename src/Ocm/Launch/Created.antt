-- ===== src/Ocm/Launch/Created.antt =====
-- What `LaunchCluster` creates.
use osde2e.Prelude.{
  ℕ, ◌%◌, ◌≡◌, String, Bool, true, false, not, ◌&&◌, ◌||◌, Option, none, some, str_eq, ◌==◌, ltb,
}
use osde2e.Semver.{Semver}
use osde2e.Ocm.Provider.{NewCluster}
use osde2e.Ocm.Reserve.{Reserve}

-- Some positive number that three divides, and no number.
abbrev pub is_by_three : Option ℕ → Bool
is_by_three none = false
is_by_three (some n) = ltb 0 n && ((n % 3) == 0)

abbrev pub is_absent : Option ℕ → Bool
is_absent none = true
is_absent (some n) = false

-- A cluster in several zones has a positive number of workers that three divides; on "prod" the
-- expiry is left out.
abbrev pub IsSound : String → NewCluster → Type 0
IsSound environment c =
    ((not c.multi_az || is_by_three c.nodes.compute) ≡ true)
    × ((not (str_eq environment "prod") || is_absent c.expiration_timestamp) ≡ true)
