-- ===== src/Examples/Versions.antt =====
-- spi/version.go and versions/common/utils.go on concrete lists.
use osde2e.Prelude.{◌≡◌, refl, none, some, [], arith, itoa, contains}
use osde2e.Prelude.Int.{pos}
use osde2e.Prelude.Sorting.{sort_by}
use osde2e.Go.{returns}
use osde2e.Semver.Sample.{v4_3_12, v4_4_6, v4_5_0, sample_semver, sample_laws}
use osde2e.Prelude.Maps.{lookup}
use osde2e.Versions.Common.{fill_buckets, next_release, major_minor, is_nightly}
use osde2e.Versions.Common.Buckets.{BucketHolds, fill_buckets_lem}
use osde2e.Versions.Common.Release.{NextResult, next_release_lem}
use osde2e.Examples.Data.{four}

-- Two releases after 4.3 comes 4.5.
two_releases_on : next_release (some v4_3_12) four (pos 2) ≡ returns (some v4_5_0, none)
unfolding next_release itoa major_minor is_nightly contains sort_by
two_releases_on = refl

-- One release after 4.3 comes 4.4, and its best version is 4.4.6.
one_release_on : next_release (some v4_3_12) four (pos 1) ≡ returns (some v4_4_6, none)
unfolding next_release itoa major_minor is_nightly contains sort_by
one_release_on = refl

next_release_lem_example : NextResult four v4_3_12 1 (next_release (some v4_3_12) four (pos 1))
next_release_lem_example = next_release_lem sample_laws four v4_3_12 1 (omega arith)

fill_buckets_lem_example : BucketHolds four "4.4" (lookup "4.4" (fill_buckets [] four))
fill_buckets_lem_example = fill_buckets_lem sample_laws four "4.4"
