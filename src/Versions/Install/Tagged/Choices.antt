-- ===== src/Versions/Install/Tagged/Choices.antt =====
-- What latest_y_from_default_selector.go and latest_z_from_default_selector.go choose from a list that
-- has one default version.
use osde2e.Prelude.{
  ◌<◌, String, ◌≡◌, refl, ◌∙◌, ap, true, false, Option, none, some, List, [], ◌∷◌, ◌++◌, ◌⊎◌, inl,
  inr, arith, length, Bool-cases, All, Any, keep_if,
}
use osde2e.Go.{returns}
use osde2e.Semver.{Semver, SemverLaws}
use osde2e.Spi.Version.{Version}
use osde2e.Versions.Common.{sort_versions}
use osde2e.Versions.Settings.{World, Selection}
use osde2e.Versions.Install.Helpers.{available, sorted_world, chosen_or}
use osde2e.Versions.Install.Tagged.{
  Scan, nothing_seen, newer, is_next_minor, y_step, y_scan, y_after_default, choose_latest_y,
  no_match,
}
use osde2e.Versions.Install.Tagged.Scans.{newest, Greatest, newest-Greatest}

module _ {V : Type 0} ⦃sv : Semver V⦄ where
  abbrev after_default : Version V → Option (Version V) → Scan V
  after_default d l = record { default_seen = some d; latest = l }

  abbrev NoDefault : List (Version V) → Type 0
  NoDefault = All (λ (v : Version V). v.is_default ≡ false)

  y_scan-append :
      (s : Scan V) (xs ys : List (Version V)) → y_scan s (xs ++ ys) ≡ y_scan (y_scan s xs) ys
  unfolding y_scan
  y_scan-append s [] ys = refl
  y_scan-append s (x ∷ xs) ys = y_scan-append (y_step s x) xs ys

  y_step_plain :
      (v : Version V) (l : Option (Version V)) (s : Option (Version V))
      → v.is_default ≡ false
      → y_step (record { default_seen = s; latest = l }) v
        ≡ record { default_seen = s; latest = y_after_default v s l }
  unfolding y_step
  y_step_plain v l s h = ground arith

  y_step_default :
      (v : Version V) (l s : Option (Version V))
      → v.is_default ≡ true
      → y_step (record { default_seen = s; latest = l }) v ≡ after_default v l
  unfolding y_step
  y_step_default v l s h = ground arith

  y_scan_before : (vs : List (Version V)) → NoDefault vs → y_scan nothing_seen vs ≡ nothing_seen
  unfolding y_scan
  y_scan_before [] h = refl
  y_scan_before (v ∷ vs) h =
      rw (y_step_plain v none none h.0) (unfold y_after_default in y_scan_before vs h.1)

  y_taken :
      (d : Version V) (l : Option (Version V)) (v : Version V) (vs : List (Version V))
      → (y_scan (after_default d l) vs).latest ≡ newest l (keep_if (is_next_minor d) vs)
      → (y_scan (after_default d (newer v l)) vs).latest
        ≡ newest (newer v l) (keep_if (is_next_minor d) vs)
      → (y_scan (after_default d (y_after_default v (some d) l)) vs).latest
        ≡ newest l (keep_if (is_next_minor d) (v ∷ vs))
  unfolding y_after_default newest
  y_taken d l v vs skip take = elim (Bool-cases (is_next_minor d v)) [
    | inl t ↦ rw t take
    | inr t ↦ rw t skip
  ]

  y_scan_default :
      (after : List (Version V)) (d : Version V)
      → d.is_default ≡ true
      → (y_scan nothing_seen (d ∷ after)).latest ≡ (y_scan (after_default d none) after).latest
  unfolding y_scan
  y_scan_default after d h =
      ap (λ (s : Scan V). (y_scan s after).latest) (y_step_default d none none h)

  y_scan_after :
      (d : Version V) (l : Option (Version V)) (vs : List (Version V))
      → NoDefault vs
      → (y_scan (after_default d l) vs).latest ≡ newest l (keep_if (is_next_minor d) vs)
  unfolding y_scan newest
  y_scan_after d l [] h = refl
  y_scan_after d l (v ∷ vs) h =
      ap (λ (s : Scan V). (y_scan s vs).latest) (y_step_plain v l (some d) h.0)
      ∙ y_taken d l v vs (y_scan_after d l vs h.1) (y_scan_after d (newer v l) vs h.1)

  -- The result of a scan of the list before, the default version and the list after.
  y_scan_lem :
      (before after : List (Version V)) (d : Version V)
      → NoDefault before
      → d.is_default ≡ true
      → NoDefault after
      → (y_scan nothing_seen (before ++ d ∷ after)).latest
        ≡ newest none (keep_if (is_next_minor d) after)
  y_scan_lem before after d hb hd ha =
      ap (λ (s : Scan V). s.latest) (y_scan-append nothing_seen before (d ∷ after))
      ∙ ap (λ (s : Scan V). (y_scan s (d ∷ after)).latest) (y_scan_before before hb)
      ∙ y_scan_default after d hd
      ∙ y_scan_after d none after ha

  -- The greatest candidate is chosen; with no candidate nothing is.
  abbrev pub GreatestOf : List (Version V) → Option V → Type 0
  GreatestOf vs none = vs ≡ []
  GreatestOf vs (some v) =
      Any (λ u. u.version ≡ v) vs × All (λ u. sv.less_than v u.version ≡ false) vs

  y_run :
      (w : World V)
      → 0 < length (available w)
      → choose_latest_y w
        ≡ chosen_or
            (y_scan nothing_seen (sort_versions (available w))).latest
            "latest y version from default"
            no_match
            (sorted_world w)
  unfolding choose_latest_y
  y_run w h = ground arith

module _ {V : Type 0} ⦃sv : Semver V⦄ (laws : SemverLaws sv) where
  chosen-Greatest :
      (o : Option (Version V)) (vs : List (Version V)) (text : String) (w : World V)
      → Greatest none vs o
      → (r : Selection V × World V) × (chosen_or o text no_match w ≡ returns r)
        × (r.1 ≡ w)
        × GreatestOf vs r.0.version
  chosen-Greatest none vs text w h = (_, refl, refl, h.1)
  chosen-Greatest (some b) vs text w (from, best, _) = (_, refl, refl, (member from, best))
    where
      named :
          (us : List (Version V))
          → Any (λ u. u ≡ b) us
          → Any (λ (u : Version V). u.version ≡ b.version) us
      named [] h = h
      named (u ∷ us) (inl h) = inl (ap (λ (u : Version V). u.version) h)
      named (u ∷ us) (inr h) = inr (named us h)

      member : (none ≡ some b) ⊎ Any (λ u. u ≡ b) vs → Any (λ u. u.version ≡ b.version) vs
      member (inl h) = absurd (cc)
      member (inr h) = named vs h

  -- Of a list that sorts to one with a single default version, the latest-Y selector chooses among
  -- the versions behind the default whose minor number is the next one: the greatest of them, or
  -- none if there are none. It returns, and leaves the list sorted.
  pub choose_latest_y_lem :
      (w : World V) (before after : List (Version V)) (d : Version V)
      → 0 < length (available w)
      → sort_versions (available w) ≡ before ++ d ∷ after
      → All (λ (v : Version V). v.is_default ≡ false) before
      → d.is_default ≡ true
      → All (λ (v : Version V). v.is_default ≡ false) after
      → (r : Selection V × World V) × (choose_latest_y w ≡ returns r)
        × (r.1 ≡ sorted_world w)
        × GreatestOf (keep_if (is_next_minor d) after) r.0.version
  choose_latest_y_lem w before after d h e hb hd ha =
      let found = y_scan_lem before after d hb hd ha in
      rw (y_run w h) (
        rw (ap (λ vs. (y_scan nothing_seen vs).latest) e ∙ found) (
          chosen-Greatest (newest none (keep_if (is_next_minor d) after))
            (keep_if (is_next_minor d) after) "latest y version from default" (sorted_world w)
            (newest-Greatest laws none (keep_if (is_next_minor d) after))))
