-- ===== src/Versions/Common/Buckets.antt =====
-- The map that pkg/common/versions/common/utils.go fills: for each X.Y release its best version.
use text.Mathlib.TextEquality.{eq_iff}
use text.Mathlib.TextPositions.{eq_refl}
use osde2e.Prelude.{
  String, ◌≡◌, refl, sym, ◌≢◌, false, Option, none, some, List, [], ◌∷◌, ◌⊎◌, inl, inr, arith,
  str_eq, if◌then◌else◌, Bool-cases, Option-cases, All, Any, some_eq, ◌∙◌,
}
use osde2e.Prelude.Sorting.{IsWeakOrder}
use osde2e.Semver.{Semver, SemverLaws}
use osde2e.Spi.Version.{Version}
use osde2e.Prelude.Maps.{lookup, lookup-assign}
use osde2e.Versions.Common.{major_minor, replaces, bucket_step, fill_buckets}

module _ {V : Type 0} ⦃sv : Semver V⦄ (laws : SemverLaws sv) where
  -- The preference is an order: a nightly is better than what is none, and else precedence decides.
  pub replaces-IsWeakOrder : IsWeakOrder {A = V} replaces
  unfolding replaces
  replaces-IsWeakOrder = record {
    asymmetric = λ a b h. ground (arith, laws.weak.asymmetric b a);
    incomparable = λ a b c h k. ground (arith, laws.weak.incomparable c b a);
  }

module _ {V : Type 0} ⦃sv : Semver V⦄ where
  abbrev pick : V → Option V → V
  pick v none = v
  pick v (some c) = if replaces v c then v else c

  abbrev pub step : V → List (String × V) → List (String × V)
  step v m = bucket_step v m (lookup (major_minor v) m)

  lookup-bucket_step :
      (v : V) (m : List (String × V)) (k : String)
      → lookup k (step v m)
        ≡ (if str_eq (major_minor v) k then some (pick v (lookup k m)) else lookup k m)
  unfolding bucket_step
  lookup-bucket_step v m k = elim (Bool-cases (str_eq (major_minor v) k)) [
    | inl e ↦
        let same : major_minor v ≡ k = (eq_iff (major_minor v) k).0 e in rw (e, ← same) (own v m)
    | inr e ↦ rw e (other v m k e)
  ]
    where
      own :
          (v : V) (m : List (String × V))
          → lookup (major_minor v) (bucket_step v m (lookup (major_minor v) m))
            ≡ some (pick v (lookup (major_minor v) m))
      own v m = elim (Option-cases (lookup (major_minor v) m)) [
        | inl n ↦ rw n (rw lookup-assign (rw eq_refl refl))
        | inr (c, n) ↦ elim (Bool-cases (replaces v c)) [
          | inl r ↦ rw (n, r) (rw lookup-assign (rw eq_refl refl))
          | inr r ↦ rw (n, r) n
        ]
      ]

      other :
          (v : V) (m : List (String × V)) (k : String)
          → str_eq (major_minor v) k ≡ false
          → lookup k (bucket_step v m (lookup (major_minor v) m)) ≡ lookup k m
      other v m k e = elim (Option-cases (lookup (major_minor v) m)) [
        | inl n ↦ rw n (rw lookup-assign (rw e refl))
        | inr (c, n) ↦ elim (Bool-cases (replaces v c)) [
          | inl r ↦ rw (n, r) (rw lookup-assign (rw e refl))
          | inr r ↦ rw (n, r) refl
        ]
      ]

module _ {V : Type 0} ⦃sv : Semver V⦄ where
  -- No version of the release replaces `b`.
  abbrev pub NoBetter : String → V → Version V → Type 0
  NoBetter k b u = major_minor u.version ≡ k → replaces u.version b ≡ false

  -- Nothing that the map holds for the release replaces `b`.
  abbrev Beats : List (String × V) → String → V → Type 0
  Beats m k b = (c : V) → lookup k m ≡ some c → replaces c b ≡ false

module _ {V : Type 0} ⦃sv : Semver V⦄ (laws : SemverLaws sv) where
  irreflexive : (v : V) → replaces v v ≡ false
  irreflexive v = elim (Bool-cases (replaces v v)) [
    | inl e ↦ (replaces-IsWeakOrder laws).asymmetric v v e
    | inr e ↦ e
  ]

  pick-new : (v : V) (o : Option V) → replaces v (pick v o) ≡ false
  pick-new v none = irreflexive v
  pick-new v (some c) = elim (Bool-cases (replaces v c)) [
    | inl e ↦ rw e (irreflexive v)
    | inr e ↦ rw e e
  ]

  pick-old : (v c : V) → replaces c (pick v (some c)) ≡ false
  pick-old v c = elim (Bool-cases (replaces v c)) [
    | inl e ↦ rw e ((replaces-IsWeakOrder laws).asymmetric v c e)
    | inr e ↦ rw e (irreflexive c)
  ]

  head-Beats :
      (u : V) (m : List (String × V)) (k : String) (b : V)
      → Beats (step u m) k b
      → major_minor u ≡ k
      → replaces u b ≡ false
  head-Beats u m k b h same =
      (replaces-IsWeakOrder laws).incomparable u (pick u (lookup k m)) b (pick-new u (lookup k m)) (
        h (pick u (lookup k m))
          (rw lookup-bucket_step (rw ((eq_iff (major_minor u) k).1 same) refl)))

  kept-Beats :
      (u : V) (m : List (String × V)) (k : String) (b : V) → Beats (step u m) k b → Beats m k b
  kept-Beats u m k b h c e = elim (Bool-cases (str_eq (major_minor u) k)) [
    | inl t ↦
        (replaces-IsWeakOrder laws).incomparable c (pick u (some c)) b (pick-old u c)
          (h (pick u (some c)) (rw (lookup-bucket_step, t, e)))
    | inr t ↦ h c (rw (lookup-bucket_step, t) e)
  ]

  fill_best :
      (vs : List (Version V)) (m : List (String × V)) (k : String) (b : V)
      → lookup k (fill_buckets m vs) ≡ some b
      → All (NoBetter k b) vs × Beats m k b
  unfolding fill_buckets
  fill_best [] m k b e = (tt, λ c h. rw (some_eq (sym h ∙ e)) (irreflexive b))
  fill_best (u ∷ vs) m k b e =
      let (rest, h) = fill_best vs (step u.version m) k b e in
      ((head-Beats u.version m k b h, rest), kept-Beats u.version m k b h)

module _ {V : Type 0} ⦃sv : Semver V⦄ where
  -- The version in a bucket is one of the list, of that bucket's release.
  abbrev pub IsFrom : String → V → Version V → Type 0
  IsFrom k b u = (u.version ≡ b) × (major_minor u.version ≡ k)

  step_source :
      (u : V) (m : List (String × V)) (k : String) (b : V)
      → lookup k (step u m) ≡ some b
      → (lookup k m ≡ some b) ⊎ ((u ≡ b) × (major_minor u ≡ k))
  step_source u m k b e = elim (Bool-cases (str_eq (major_minor u) k)) [
    | inl t ↦ picked (lookup k m) (rw (lookup-bucket_step, t) at e) ((eq_iff (major_minor u) k).0 t)
    | inr t ↦ inl (rw (lookup-bucket_step, t) at e)
  ]
    where
      picked :
          (o : Option V)
          → some (pick u o) ≡ some b
          → major_minor u ≡ k
          → (o ≡ some b) ⊎ ((u ≡ b) × (major_minor u ≡ k))
      picked none h same = inr (some_eq h, same)
      picked (some c) h same = ground arith

  fill_source :
      (vs : List (Version V)) (m : List (String × V)) (k : String) (b : V)
      → lookup k (fill_buckets m vs) ≡ some b
      → (lookup k m ≡ some b) ⊎ Any (IsFrom k b) vs
  unfolding fill_buckets
  fill_source [] m k b e = inl e
  fill_source (u ∷ vs) m k b e = elim (fill_source vs (step u.version m) k b e) [
    | inr r ↦ inr (inr r)
    | inl h ↦ elim (step_source u.version m k b h) [ inl g ↦ inl g | inr g ↦ inr (inl g) ]
  ]

  step_missing :
      (u : V) (m : List (String × V)) (k : String)
      → lookup k (step u m) ≡ none
      → (lookup k m ≡ none) × (major_minor u ≢ k)
  step_missing u m k e = elim (Bool-cases (str_eq (major_minor u) k)) [
    | inl t ↦ absurd (ground (arith, lookup-bucket_step u m k))
    | inr t ↦ (rw (lookup-bucket_step, t) at e, λ same. ground (arith, eq_iff (major_minor u) k))
  ]

  fill_missing :
      (vs : List (Version V)) (m : List (String × V)) (k : String)
      → lookup k (fill_buckets m vs) ≡ none
      → (lookup k m ≡ none) × All (λ (u : Version V). major_minor u.version ≢ k) vs
  unfolding fill_buckets
  fill_missing [] m k e = (e, tt)
  fill_missing (u ∷ vs) m k e =
      let (h, rest) = fill_missing vs (step u.version m) k e in
      let (g, ne) = step_missing u.version m k h in (g, (ne, rest))

  abbrev pub BucketHolds : List (Version V) → String → Option V → Type 0
  BucketHolds vs k none = All (λ (u : Version V). major_minor u.version ≢ k) vs
  BucketHolds vs k (some b) = Any (IsFrom k b) vs × All (NoBetter k b) vs

module _ {V : Type 0} ⦃sv : Semver V⦄ (laws : SemverLaws sv) (vs : List (Version V))
    (k : String) where
  bucket_of : (o : Option V) → lookup k (fill_buckets [] vs) ≡ o → BucketHolds vs k o
  unfolding lookup
  bucket_of none e = (fill_missing vs [] k e).1
  bucket_of (some b) e = (
    elim (fill_source vs [] k b e) [ inl h ↦ absurd (ground arith) | inr h ↦ h ],
    (fill_best laws vs [] k b e).0,
  )

  -- The map holds for each X.Y release a version of the list that no version of that release
  -- replaces, and has no entry exactly for the releases that the list does not have.
  pub fill_buckets_lem : BucketHolds vs k (lookup k (fill_buckets [] vs))
  fill_buckets_lem = bucket_of (lookup k (fill_buckets [] vs)) refl
