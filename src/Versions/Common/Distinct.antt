-- ===== src/Versions/Common/Distinct.antt =====
-- pkg/common/versions/common/utils.go: the keys of the map of releases, each of them once.
use text.Mathlib.TextEquality.{eq_iff}
use osde2e.Prelude.{
  ℕ, ◌≤◌, String, ◌≡◌, refl, List, [], ◌∷◌, Option, none, some, arith, str_eq, map, count_if,
  if◌then◌else◌, ◌&&◌, ◌==◌,
}
use osde2e.Semver.{Semver}
use osde2e.Spi.Version.{Version}
use osde2e.Prelude.Maps.{lookup, assign}
use osde2e.Versions.Common.{major_minor, bucket_step, fill_buckets}
use osde2e.Versions.Common.Buckets.{step}

-- How many entries have the key.
abbrev pub key_count {ℓ} : {V : Type ℓ} → String → List (String × V) → ℕ
key_count k m = count_if (λ e. str_eq e.0 k) m

key_count-assign :
    {V : Type 0} (j k : String) (v : V) (m : List (String × V))
    → key_count k (assign j v m) ≡ (if str_eq j k && (key_count k m == 0) then 1 else key_count k m)
unfolding assign
key_count-assign j k v [] = ground arith
key_count-assign j k v ((i, w) ∷ m) =
    ground (arith, eq_iff i j, eq_iff i k, eq_iff j k, key_count-assign j k v m)

module _ {V : Type 0} ⦃sv : Semver V⦄ where
  step-le :
      (k : String) (v : V) (m : List (String × V)) (o : Option V)
      → key_count k m ≤ 1
      → key_count k (bucket_step v m o) ≤ 1
  unfolding bucket_step
  step-le k v m none h = ground (arith, key_count-assign (major_minor v) k v m)
  step-le k v m (some c) h = ground (arith, key_count-assign (major_minor v) k v m)

  pub key_count-fill_buckets :
      (k : String) (vs : List (Version V)) (m : List (String × V))
      → key_count k m ≤ 1
      → key_count k (fill_buckets m vs) ≤ 1
  unfolding fill_buckets
  key_count-fill_buckets k [] m h = h
  key_count-fill_buckets k (u ∷ vs) m h =
      key_count-fill_buckets k vs (step u.version m)
        (step-le k u.version m (lookup (major_minor u.version) m) h)

  -- Releases that were read from the keys have a release as often as the keys have it.
  pub count_releases :
      (k : String) (m : List (String × V)) (ws : List V)
      → map major_minor ws ≡ map (λ (e : String × V). e.0) m
      → count_if (λ w. str_eq (major_minor w) k) ws ≡ key_count k m
  count_releases k [] [] p = refl
  count_releases k [] (w ∷ ws) p = absurd (cc)
  count_releases k (e ∷ m) [] p = absurd (cc)
  count_releases k (e ∷ m) (w ∷ ws) p =
      let same : major_minor w ≡ e.0 = cc in rw (same, count_releases k m ws (cc)) refl
