-- ===== src/Versions/Install/Tagged/Scans.antt =====
-- The part that the loops of latest_y_from_default_selector.go and latest_z_from_default_selector.go
-- share: the greatest of the versions that a loop considers.
use osde2e.Prelude.{
  ◌≡◌, refl, sym, ◌∙◌, ap, true, false, Option, none, some, List, [], ◌∷◌, ◌⊎◌, inl, inr,
  Bool-cases, All, Any, some_eq,
}
use osde2e.Prelude.Rank.{irreflexive}
use osde2e.Semver.{Semver, SemverLaws}
use osde2e.Spi.Version.{Version}
use osde2e.Versions.Install.Tagged.{newer}

module _ {V : Type 0} ⦃sv : Semver V⦄ where
  -- `newer` over a list of candidates.
  unfoldable pub newest : Option (Version V) → List (Version V) → Option (Version V)
  newest l [] = l
  newest l (v ∷ vs) = newest (newer v l) vs

  abbrev pub NotBelow : Version V → Option (Version V) → Type 0
  NotBelow b none = Unit
  NotBelow b (some c) = sv.less_than b.version c.version ≡ false

  -- The greatest of the candidates and of what was there before.
  abbrev pub Greatest : Option (Version V) → List (Version V) → Option (Version V) → Type 0
  Greatest l vs none = (l ≡ none) × (vs ≡ [])
  Greatest l vs (some b) =
      ((l ≡ some b) ⊎ Any (λ u. u ≡ b) vs)
      × All (λ u. sv.less_than b.version u.version ≡ false) vs
      × NotBelow b l

module _ {V : Type 0} ⦃sv : Semver V⦄ (laws : SemverLaws sv) where
  open laws use {weak}

  newer_lem :
      (v : Version V) (l : Option (Version V))
      → (x : Version V) × (newer v l ≡ some x)
        × ((x ≡ v) ⊎ (l ≡ some x))
        × (sv.less_than x.version v.version ≡ false)
        × NotBelow x l
  newer_lem v none = (v, refl, inl refl, irreflexive weak v.version, tt)
  newer_lem v (some c) = elim (Bool-cases (sv.greater_than v.version c.version)) [
    | inl t ↦
        let less : sv.less_than c.version v.version ≡ true =
          rw (← laws.greater v.version c.version) t in
        (
          v,
          rw t refl,
          inl refl,
          irreflexive weak v.version,
          weak.asymmetric c.version v.version less,
        )
    | inr t ↦
        let less : sv.less_than c.version v.version ≡ false =
          rw (← laws.greater v.version c.version) t in
        (c, rw t refl, inr refl, less, irreflexive weak c.version)
  ]

  pub newest-Greatest :
      (l : Option (Version V)) (vs : List (Version V)) → Greatest l vs (newest l vs)
  unfolding newest
  newest-Greatest none [] = (refl, refl)
  newest-Greatest (some c) [] = (inl refl, tt, irreflexive weak c.version)
  newest-Greatest l (v ∷ vs) =
      let (x, e, from, xv, xl) = newer_lem v l in
      rw e (extend x from xv xl (newest (some x) vs) (newest-Greatest (some x) vs))
    where
      below :
          (b x : Version V) (l : Option (Version V))
          → sv.less_than b.version x.version ≡ false
          → NotBelow x l
          → NotBelow b l
      below b x none h k = tt
      below b x (some c) h k = weak.incomparable b.version x.version c.version h k

      extend :
          (x : Version V)
          → (x ≡ v) ⊎ (l ≡ some x)
          → sv.less_than x.version v.version ≡ false
          → NotBelow x l
          → (o : Option (Version V)) → Greatest (some x) vs o
          → Greatest l (v ∷ vs) o
      extend x from xv xl none h = absurd (none_some h.0)
        where
          none_some : some x ≡ none → ⊥
          none_some h = cc
      extend x from xv xl (some b) (source, rest, bx) = (
        found source,
        (weak.incomparable b.version x.version v.version bx xv, rest),
        below b x l bx xl,
      )
        where
          start : x ≡ b → (x ≡ v) ⊎ (l ≡ some x) → (l ≡ some b) ⊎ Any (λ u. u ≡ b) (v ∷ vs)
          start p (inl q) = inr (inl (sym q ∙ p))
          start p (inr q) = inl (q ∙ ap some p)

          found : (some x ≡ some b) ⊎ Any (λ u. u ≡ b) vs → (l ≡ some b) ⊎ Any (λ u. u ≡ b) (v ∷ vs)
          found (inl p) = start (some_eq p) from
          found (inr a) = inr (inr a)
