-- ===== src/Versions/Install/Delta.antt =====
-- The selectors that add a number to a part of the default version: latest_y_from_delta.go,
-- latest_z_from_delta.go and next_version_after_prod_default.go.
use osde2e.Prelude.{
  ℕ, ◌+◌, ◌%◌, String, Bool, not, ◌&&◌, none, some, [], ◌∷◌, length, ◌==◌, if◌then◌else◌,
  find_first, concat, itoa_ℤ,
}
use osde2e.Prelude.Int.{ℤ, pos, negsuc, word, word_size, eqb_ℤ, ltb_ℤ}
use osde2e.Go.{Outcome, returns, Error, errorf, ◌>>=◌}
use osde2e.Spi.Version.{Version, default}
use osde2e.Versions.Common.{next_release}
use osde2e.Versions.Settings.{World, Selection}
use osde2e.Versions.Install.Helpers.{
  Selector, refused, chosen_or, find_default_version, no_default_found, available,
}
use osde2e.Semver.{Semver}

abbrev pub no_versions : Error
no_versions = errorf "no versions supplied, unable to select version" []

abbrev pub no_version_found : Error
no_version_found = errorf "no version found matching the selector" []

-- `int64(a)+delta == int64(b)`: the 64-bit patterns agree.
abbrev pub shifted_equal : ℕ → ℤ → ℕ → Bool
shifted_equal a delta b = ((a + word delta) % word_size) == (b % word_size)

module _ {V : Type 0} ⦃sv : Semver V⦄ where
  abbrev pub y_text : V → ℤ → String
  y_text d n = concat ("latest Y '" ∷ sv.string d ∷ "' from delta " ∷ itoa_ℤ n ∷ [])

  abbrev pub z_text : V → ℤ → String
  z_text d n = concat ("latest Z '" ∷ sv.string d ∷ "' from delta " ∷ itoa_ℤ n ∷ [])

  abbrev pub y_matches : Version V → ℤ → Version V → Bool
  y_matches d n v = shifted_equal (sv.minor d.version) n (sv.minor v.version)

  abbrev pub z_matches : Version V → ℤ → Version V → Bool
  z_matches d n v =
      sv.minor d.version == sv.minor v.version
      && shifted_equal (sv.patch d.version) n (sv.patch v.version)

  unfoldable pub choose_y_from_delta : World V → Outcome (Selection V × World V)
  choose_y_from_delta w =
      let n = w.settings.install_latest_y_from_delta in
      let text = concat ("latest Y from delta " ∷ itoa_ℤ n ∷ []) in
      if length (available w) == 0
      then refused text no_versions w
      else elim (find_default_version (available w)) [
        | none ↦ refused text no_default_found w
        | some d ↦
            chosen_or (find_first (y_matches d n) (available w)) (y_text d.version n)
              no_version_found w
      ]

  unfoldable pub latest_y_from_delta : Selector V
  unfolding choose_y_from_delta
  latest_y_from_delta = record {
    name = "latest Y from delta";
    should_use = λ s. not (eqb_ℤ s.install_latest_y_from_delta (pos 0));
    priority = pos 70;
    choose = choose_y_from_delta;
  }

  unfoldable pub choose_z_from_delta : World V → Outcome (Selection V × World V)
  choose_z_from_delta w =
      let n = w.settings.install_latest_z_from_delta in
      let text = concat ("latest Z from delta " ∷ itoa_ℤ n ∷ []) in
      if length (available w) == 0
      then refused text no_versions w
      else elim (find_default_version (available w)) [
        | none ↦ refused text no_default_found w
        | some d ↦
            chosen_or (find_first (z_matches d n) (available w)) (z_text d.version n)
              no_version_found w
      ]

  unfoldable pub latest_z_from_delta : Selector V
  unfolding choose_z_from_delta
  latest_z_from_delta = record {
    name = "latest Z from delta";
    should_use = λ s. not (eqb_ℤ s.install_latest_z_from_delta (pos 0));
    priority = pos 70;
    choose = choose_z_from_delta;
  }

  -- The version and the error are passed on together.
  unfoldable pub choose_next : World V → Outcome (Selection V × World V)
  choose_next w = do
    let n = w.settings.next_release_after_prod_default
    (v, e) ← next_release (default w.version_list) (available w) n
    returns (
      record {
        version = v;
        selector = concat (itoa_ℤ n ∷ " release(s) from the default version in prod" ∷ []);
        error = e;
      },
      w,
    )

  unfoldable pub next_version_after_prod_default : Selector V
  unfolding choose_next
  next_version_after_prod_default = record {
    name = "next version(s) after default";
    should_use = λ s. ltb_ℤ (negsuc 0) s.next_release_after_prod_default;
    priority = pos 40;
    choose = choose_next;
  }
