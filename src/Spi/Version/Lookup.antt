-- ===== src/Spi/Version/Lookup.antt =====
-- What the lookups of pkg/common/spi/version.go return.
use osde2e.Prelude.{
  ◌≡◌, refl, true, some, List, [], ◌∷◌, ◌⊎◌, inl, inr, arith, ◌==◌, if◌then◌else◌, Bool-cases,
  Option-cases, Any,
}
use osde2e.Spi.Version.{
  Ptr, Version, VersionList, can_upgrade_to, add_upgrade_path, default, default_in,
}

module _ {V : Type 0} where
  -- After an edge is added exactly its own pointer is a further valid target: a target with another
  -- address is one exactly when it was one before.
  pub can_upgrade_to-add_upgrade_path :
      (v : Version V) (p q : Ptr V)
      → can_upgrade_to (add_upgrade_path v p) q
        ≡ (if p.address == q.address then true else can_upgrade_to v q)
  unfolding can_upgrade_to add_upgrade_path
  can_upgrade_to-add_upgrade_path v p q = ground arith

  abbrev pub TaggedAs : V → Version V → Type 0
  TaggedAs d v = (v.is_default ≡ true) × (v.version ≡ d)

  default_in_found :
      (vs : List (Version V))
      → Any (λ (v : Version V). v.is_default ≡ true) vs
      → (d : V) × (default_in vs ≡ some d) × Any (TaggedAs d) vs
  unfolding default_in
  default_in_found [] h = absurd h
  default_in_found (v ∷ vs) (inl t) = (v.version, rw t, inl (t, refl))
  default_in_found (v ∷ vs) (inr r) = elim (Bool-cases v.is_default) [
    | inl t ↦ (v.version, rw t, inl (t, refl))
    | inr t ↦ let (d, e, a) = default_in_found vs r in (d, rw t e, inr a)
  ]

  -- The default is the override when there is one; otherwise a version tagged as default, found
  -- whenever the list holds one.
  pub default_found :
      (vl : VersionList V)
      → Any (λ (v : Version V). v.is_default ≡ true) vl.available_versions
      → (d : V) × (default vl ≡ some d)
        × ((vl.default_version_override ≡ some d) ⊎ Any (TaggedAs d) vl.available_versions)
  unfolding default
  default_found vl h = elim (Option-cases vl.default_version_override) [
    | inl e ↦ let (d, f, a) = default_in_found vl.available_versions h in (d, ground arith, inr a)
    | inr (d, e) ↦ (d, rw e refl, inl e)
  ]
