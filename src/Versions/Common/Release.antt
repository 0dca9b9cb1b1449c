-- ===== src/Versions/Common/Release.antt =====
-- `NextReleaseAfterGivenVersionFromVersionList` of pkg/common/versions/common/utils.go: what it
-- returns.
use osde2e.Prelude.{
  ℕ, ◌+◌, ◌≤◌, ◌<◌, ◌^◌, String, ◌≡◌, refl, ap, true, false, none, some, List, [], ◌⊎◌, inl, inr,
  arith, Bool-cases, Option-cases, All, Any, All-Any, All-Any_meet, All-map, length-map, length,
  get_elem?, get_elem?_bounded, get_elem?-All, leb, subst, count_if, str_eq,
}
use osde2e.Prelude.Int.{ℤ, pos, add_int, add_int_pos}
use osde2e.Prelude.Sorting.{
  IsSorted, sort_by, sort_by-IsSorted, All-sort_by, Any-sort_by, length-sort_by, sort_by-perm,
}
use osde2e.Prelude.Perms.{count_if-perm}
use osde2e.Versions.Common.Distinct.{count_releases, key_count-fill_buckets}
use osde2e.Go.{Outcome, returns, Error, errorf, Found, found, failed}
use osde2e.Semver.{Semver, SemverLaws}
use osde2e.Spi.Version.{Version}
use osde2e.Prelude.Maps.{lookup}
use osde2e.Versions.Common.{
  major_minor, fill_buckets, parse_keys, index_of_equal, at_next, after_given, next_release,
}
use osde2e.Versions.Common.Buckets.{IsFrom, NoBetter, BucketHolds, fill_buckets_lem}
use osde2e.Versions.Common.Next.{
  Keyed-fill, length-fill, lookup_present, key_present, All-releases, Any-releases, EqualAt,
  index_of_equal_found, index_of_equal_missing, reads_release, parse_keys_total,
}

module _ {V : Type 0} ⦃sv : Semver V⦄ (vs : List (Version V)) where
  -- The releases of the list: in order, each of them the release of a version, none of them twice, and
  -- none left out.
  pub record IsReleases (rs : List V) : Type 0 where
    pub sorted : IsSorted sv.less_than rs
    pub bounded : length rs ≤ length vs
    pub distinct : (k : String) → count_if (λ r. str_eq (major_minor r) k) rs ≤ 1
    pub held : All (λ r. (b : V) × (lookup (major_minor r) (fill_buckets [] vs) ≡ some b)) rs
    pub complete : All (λ (u : Version V). Any (λ r. major_minor r ≡ major_minor u.version) rs) vs

  -- `v` is the best version of the release that stands `n` places after the given version's.
  pub record IsNextRelease (given : V) (n : ℕ) (v : V) : Type 0 where
    pub releases : List V
    pub valid : IsReleases releases
    pub release : V
    pub read : sv.new_version (major_minor given) ≡ some release
    pub position : ℕ
    pub start : EqualAt release releases position
    pub target : V
    pub at : get_elem? releases (position + n) ≡ some target
    pub source : Any (IsFrom (major_minor target) v) vs
    pub best : All (NoBetter (major_minor target) v) vs

  -- The given version's release is not in the list, or fewer than `n` releases follow it.
  pub record IsNoRelease (given : V) (n : ℕ) : Type 0 where
    pub releases : List V
    pub valid : IsReleases releases
    pub release : V
    pub read : sv.new_version (major_minor given) ≡ some release
    pub absent :
        All (λ r. sv.equal r release ≡ false) releases
        ⊎ ((i : ℕ) × EqualAt release releases i × (length releases ≤ i + n))

  abbrev pub NextResult : V → ℕ → Outcome (Found V) → Type 0
  NextResult given n (returns (some v, none)) = IsNextRelease given n v
  NextResult given n (returns (none, some e)) = IsNoRelease given n
  NextResult given n _ = ⊥

module _ {V : Type 0} ⦃sv : Semver V⦄ (laws : SemverLaws sv) (vs : List (Version V)) where
  -- Each release of the list has an entry in the map.
  present :
      All
        (λ (u : Version V).
          (b : V) × (lookup (major_minor u.version) (fill_buckets [] vs) ≡ some b))
        vs
  present = All-map (λ u. Any (λ w. w ≡ u) vs) _ has vs (All-Any vs)
    where
      has :
          (u : Version V)
          → Any (λ w. w ≡ u) vs
          → (b : V) × (lookup (major_minor u.version) (fill_buckets [] vs) ≡ some b)
      has u h = elim (Option-cases (lookup (major_minor u.version) (fill_buckets [] vs))) [
        | inr found ↦ found
        | inl n ↦
            let (w, ne, same) =
              All-Any_meet _ _ vs
                (subst (BucketHolds vs (major_minor u.version)) n
                  (fill_buckets_lem laws vs (major_minor u.version)))
                h in
            absurd (ne (ap (λ (w : Version V). major_minor w.version) same))
      ]

  keys_in_order :
      (rs : List V) × (parse_keys (fill_buckets [] vs) ≡ some rs)
      × IsReleases vs (sort_by sv.less_than rs)
  keys_in_order =
      let m = fill_buckets [] vs in
      let (rs, e, same) = parse_keys_total laws m (Keyed-fill vs [] tt) in
      (
        rs,
        e,
        record {
          sorted = sort_by-IsSorted laws.weak rs;
          bounded = omega (
            arith,
            length-sort_by sv.less_than rs,
            length-fill vs [],
            ap length same,
            length-map major_minor rs,
            length-map (λ (e : String × V). e.0) m,
          );
          distinct = λ k. omega (
            arith,
            count_if-perm (λ r. str_eq (major_minor r) k) (sort_by-perm sv.less_than rs),
            count_releases k m rs same,
            key_count-fill_buckets k vs [] (omega arith),
          );
          held = All-sort_by sv.less_than _ rs (
              All-releases (λ k. (b : V) × (lookup k m ≡ some b)) m rs same
                (All-map (λ e. Any (λ f. f ≡ e) m) _ (λ e h. lookup_present m e h) m (All-Any m)));
          complete =
              All-map _ _
                (λ u h. Any-sort_by sv.less_than _ rs (
                  Any-releases (λ k. k ≡ major_minor u.version) m rs same
                    (key_present (major_minor u.version) h.0 m h.1)))
                vs present;
        },
      )

-- What the parts compute to once their tests are known.
module _ {V : Type 0} ⦃sv : Semver V⦄ (m : List (String × V)) (rs : List V) where
  at_next_past :
      (i : ℕ) → leb (length rs) i ≡ true → (e : Error) × (at_next m rs (pos i) ≡ failed e)
  unfolding at_next
  at_next_past i t = (
    errorf "there is no eligible next release from the list of available versions" [],
    ground arith,
  )

  at_next-found :
      (i : ℕ) (w b : V)
      → leb (length rs) i ≡ false
      → get_elem? rs i ≡ some w
      → lookup (major_minor w) m ≡ some b
      → at_next m rs (pos i) ≡ found b
  unfolding at_next
  at_next-found i w b t at e = ground arith

  after_given_absent :
      (p : V) (d : ℤ)
      → index_of_equal p rs ≡ none
      → (e : Error) × (after_given m rs (some p) d ≡ failed e)
  unfolding after_given
  after_given_absent p d e =
      (errorf "unable to find given version from list of available versions" [], ground arith)

  after_given_present :
      (p : V) (d : ℤ) (i : ℕ)
      → index_of_equal p rs ≡ some i
      → after_given m rs (some p) d ≡ at_next m rs (add_int (pos i) d)
  unfolding after_given
  after_given_present p d i e = ground arith

next_release_read :
    {V : Type 0} ⦃sv : Semver V⦄ (given : V) (vs : List (Version V)) (d : ℤ) (rs : List V)
    → parse_keys (fill_buckets [] vs) ≡ some rs
    → next_release (some given) vs d
      ≡ after_given
          (fill_buckets [] vs)
          (sort_by sv.less_than rs)
          (sv.new_version (major_minor given))
          d
unfolding next_release
next_release_read given vs d rs e = ground arith

module _ {V : Type 0} ⦃sv : Semver V⦄ (laws : SemverLaws sv) (vs : List (Version V)) (given : V)
    (n : ℕ) {rs : List V} (valid : IsReleases vs rs) {p : V}
    (read : sv.new_version (major_minor given) ≡ some p) where
  at_next_lem :
      (i : ℕ)
      → EqualAt p rs i
      → NextResult vs given n (at_next (fill_buckets [] vs) rs (pos (i + n)))
  at_next_lem i h = elim (Bool-cases (leb (length rs) (i + n))) [
    | inl t ↦
        let (e, q) = at_next_past (fill_buckets [] vs) rs (i + n) t in
        rw q (record {
          releases = rs;
          valid = valid;
          release = p;
          read = read;
          absent = inr (i, h, ground arith);
        })
    | inr t ↦
        let (w, at) = get_elem?_bounded rs (i + n) (ground arith) in
        let (b, e) = get_elem?-All _ rs (i + n) valid.held at in
        let holds : BucketHolds vs (major_minor w) (some b) =
          subst (BucketHolds vs (major_minor w)) e (fill_buckets_lem laws vs (major_minor w)) in
        rw (at_next-found (fill_buckets [] vs) rs (i + n) w b t at e) (record {
          releases = rs;
          valid = valid;
          release = p;
          read = read;
          position = i;
          start = h;
          target = w;
          at = at;
          source = holds.0;
          best = holds.1;
        })
  ]

  after_given_lem :
      length vs + n < 2 ^ 63
      → NextResult vs given n (after_given (fill_buckets [] vs) rs (some p) (pos n))
  after_given_lem small = elim (Option-cases (index_of_equal p rs)) [
    | inl e ↦
        let (x, q) = after_given_absent (fill_buckets [] vs) rs p (pos n) e in
        rw q (record {
          releases = rs;
          valid = valid;
          release = p;
          read = read;
          absent = inl (index_of_equal_missing p rs e);
        })
    | inr (i, e) ↦
        let h = index_of_equal_found p rs i e in
        rw (after_given_present (fill_buckets [] vs) rs p (pos n) i e)
          (rw (add_int_pos i n (omega (arith, valid.bounded, h.3))) (at_next_lem i h))
  ]

module _ {V : Type 0} ⦃sv : Semver V⦄ (laws : SemverLaws sv) (vs : List (Version V)) where
  -- Given a distance n that is not negative, the function always returns, either a version or an
  -- error: a version is the best one of the release n places after the given version's in the sorted
  -- list of the releases, which has each release once, and an error says that there is no such release. (The sum of the list's
  -- length and n fits an int.)
  pub next_release_lem :
      (given : V) (n : ℕ)
      → length vs + n < 2 ^ 63
      → NextResult vs given n (next_release (some given) vs (pos n))
  next_release_lem given n small =
      let (rs, e, valid) = keys_in_order laws vs in
      let (p, read, same) = reads_release laws given (major_minor given) refl in
      rw (next_release_read given vs (pos n) rs e)
        (rw read (after_given_lem laws vs given n valid read small))
