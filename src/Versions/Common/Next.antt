-- ===== src/Versions/Common/Next.antt =====
-- The steps of `NextReleaseAfterGivenVersionFromVersionList` in pkg/common/versions/common/utils.go:
-- the keys of the map, reading them again, and the search for the given release.
use text.Mathlib.TextEquality.{eq_iff}
use osde2e.Prelude.{
  ℕ, suc, ◌+◌, ◌≤◌, ◌<◌, String, ◌≡◌, refl, sym, ap, true, false, Option, none, some, List, [], ◌∷◌,
  inl, inr, arith, str_eq, Bool-cases, Option-cases, All, Any, map, length, get_elem?, subst,
}
use osde2e.Semver.{Semver, SemverLaws}
use osde2e.Spi.Version.{Version}
use osde2e.Prelude.Maps.{lookup, assign}
use osde2e.Versions.Common.{
  major_minor, replaces, bucket_step, fill_buckets, parse_keys, index_of_equal,
}
use osde2e.Versions.Common.Buckets.{step}

module _ {V : Type 0} ⦃sv : Semver V⦄ where
  -- Each entry stands under the release of its version.
  abbrev pub Keyed : List (String × V) → Type 0
  Keyed = All (λ e. major_minor e.1 ≡ e.0)

  Keyed-assign : (v : V) (m : List (String × V)) → Keyed m → Keyed (assign (major_minor v) v m)
  unfolding assign
  Keyed-assign v [] h = (refl, tt)
  Keyed-assign v ((j, w) ∷ m) h = elim (Bool-cases (str_eq j (major_minor v))) [
    | inl e ↦ rw e (sym ((eq_iff j (major_minor v)).0 e), h.1)
    | inr e ↦ rw e (h.0, Keyed-assign v m h.1)
  ]

  Keyed-step : (v : V) (m : List (String × V)) (o : Option V) → Keyed m → Keyed (bucket_step v m o)
  unfolding bucket_step
  Keyed-step v m none h = Keyed-assign v m h
  Keyed-step v m (some c) h = elim (Bool-cases (replaces v c)) [
    | inl e ↦ rw e (Keyed-assign v m h)
    | inr e ↦ rw e h
  ]

  pub Keyed-fill :
      (vs : List (Version V)) (m : List (String × V)) → Keyed m → Keyed (fill_buckets m vs)
  unfolding fill_buckets
  Keyed-fill [] m h = h
  Keyed-fill (u ∷ vs) m h =
      Keyed-fill vs (step u.version m) (Keyed-step u.version m (lookup (major_minor u.version) m) h)

  length-assign :
      (k : String) (v : V) (m : List (String × V)) → length (assign k v m) ≤ length m + 1
  unfolding assign
  length-assign k v [] = omega arith
  length-assign k v ((j, w) ∷ m) = ground (arith, length-assign k v m)

  length-step :
      (v : V) (m : List (String × V)) (o : Option V) → length (bucket_step v m o) ≤ length m + 1
  unfolding bucket_step
  length-step v m none = length-assign (major_minor v) v m
  length-step v m (some c) = ground (arith, length-assign (major_minor v) v m)

  pub length-fill :
      (vs : List (Version V)) (m : List (String × V))
      → length (fill_buckets m vs) ≤ length m + length vs
  unfolding fill_buckets
  length-fill [] m = omega arith
  length-fill (u ∷ vs) m = omega (
    arith,
    length-fill vs (step u.version m),
    length-step u.version m (lookup (major_minor u.version) m),
  )

  pub lookup_present :
      (m : List (String × V)) (e : String × V)
      → Any (λ f. f ≡ e) m
      → (v : V) × (lookup e.0 m ≡ some v)
  unfolding lookup
  lookup_present [] e h = absurd h
  lookup_present ((j, w) ∷ m) e h = elim (Bool-cases (str_eq j e.0)) [
    | inl t ↦ (w, rw t)
    | inr t ↦ elim h [
      | inl p ↦ absurd (absurd_key t (ap (λ (f : String × V). f.0) p))
      | inr r ↦ let (v, q) = lookup_present m e r in (v, rw t q)
    ]
  ]
    where
      absurd_key : {j k : String} → str_eq j k ≡ false → j ≡ k → ⊥
      absurd_key {j} {k} t p = ground (arith, eq_iff j k)

  -- A predicate on the keys of the map holds of the releases that were read from them.
  pub All-releases :
      (P : String → Type 0) (m : List (String × V)) (ws : List V)
      → map major_minor ws ≡ map (λ (e : String × V). e.0) m
      → All (λ e. P e.0) m
      → All (λ w. P (major_minor w)) ws
  All-releases P [] [] p h = tt
  All-releases P [] (w ∷ ws) p h = absurd (cc)
  All-releases P (e ∷ m) [] p h = absurd (cc)
  All-releases P (e ∷ m) (w ∷ ws) p h = (subst P (cc) h.0, All-releases P m ws (cc) h.1)

  pub Any-releases :
      (P : String → Type 0) (m : List (String × V)) (ws : List V)
      → map major_minor ws ≡ map (λ (e : String × V). e.0) m
      → Any (λ e. P e.0) m
      → Any (λ w. P (major_minor w)) ws
  Any-releases P [] ws p h = absurd h
  Any-releases P (e ∷ m) [] p h = absurd (cc)
  Any-releases P (e ∷ m) (w ∷ ws) p (inl h) = inl (subst P (cc) h)
  Any-releases P (e ∷ m) (w ∷ ws) p (inr h) = inr (Any-releases P m ws (cc) h)

  pub key_present :
      (k : String) (b : V) (m : List (String × V)) → lookup k m ≡ some b → Any (λ e. e.0 ≡ k) m
  unfolding lookup
  key_present k b [] e = absurd (ground arith)
  key_present k b ((j, w) ∷ m) e = elim (Bool-cases (str_eq j k)) [
    | inl t ↦ inl ((eq_iff j k).0 t)
    | inr t ↦ inr (key_present k b m (rw t at e))
  ]

  -- The element at the index equals `p`.
  abbrev pub EqualAt : V → List V → ℕ → Type 0
  EqualAt p ws i = (w : V) × (get_elem? ws i ≡ some w) × (sv.equal w p ≡ true) × (i < length ws)

  pub index_of_equal_found :
      (p : V) (ws : List V) (i : ℕ) → index_of_equal p ws ≡ some i → EqualAt p ws i
  unfolding index_of_equal
  index_of_equal_found p [] i e = absurd (ground arith)
  index_of_equal_found p (w ∷ ws) i e = elim (Bool-cases (sv.equal w p)) [
    | inl t ↦
        let z : ◌≡◌ {A = ℕ} 0 i = ground arith in
        subst (EqualAt p (w ∷ ws)) z (w, refl, t, omega arith)
    | inr t ↦ elim (Option-cases (index_of_equal p ws)) [
      | inl n ↦ absurd (ground arith)
      | inr (j, n) ↦
          let (x, q, r, b) = index_of_equal_found p ws j n in
          let k : suc j ≡ i = ground arith in subst (EqualAt p (w ∷ ws)) k (x, q, r, omega arith)
    ]
  ]

  pub index_of_equal_missing :
      (p : V) (ws : List V) → index_of_equal p ws ≡ none → All (λ w. sv.equal w p ≡ false) ws
  unfolding index_of_equal
  index_of_equal_missing p [] e = tt
  index_of_equal_missing p (w ∷ ws) e = elim (Option-cases (index_of_equal p ws)) [
    | inl n ↦ (ground arith, index_of_equal_missing p ws n)
    | inr (j, n) ↦ absurd (ground arith)
  ]

module _ {V : Type 0} ⦃sv : Semver V⦄ (laws : SemverLaws sv) where
  pub reads_release :
      (v : V) (k : String)
      → major_minor v ≡ k
      → (w : V) × (sv.new_version k ≡ some w) × (major_minor w ≡ k)
  unfolding major_minor
  reads_release v k same =
      let (w, p, a, b, _, _) = laws.reads_dotted v in (w, rw (← same) p, rw (a, b) same)

  pub parse_keys_total :
      (m : List (String × V))
      → All (λ e. major_minor e.1 ≡ e.0) m
      → (ws : List V) × (parse_keys m ≡ some ws)
        × (map major_minor ws ≡ map (λ (e : String × V). e.0) m)
  unfolding parse_keys
  parse_keys_total [] h = ([], refl, refl)
  parse_keys_total ((k, v) ∷ m) h =
      let (w, p, q) = reads_release v k h.0 in
      let (ws, r, s) = parse_keys_total m h.1 in
      (w ∷ ws, rw (p, parse_keys) (rw (r, parse_keys) refl), cc)
