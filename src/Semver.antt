-- ===== src/Semver.antt =====
-- The interface of github.com/Masterminds/semver/v3, which is not part of this repository: the
-- functions that the code calls, as a record over the type `V` of parsed versions, and the behaviour
-- that the package documents, as a record of laws.
pub mod Sample
use osde2e.Prelude.{
  ℕ, ◌≤◌, String, ◌≡◌, Bool, true, false, not, ◌&&◌, Option, some, [], ◌∷◌, concat, itoa,
}
use osde2e.Prelude.Sorting.{IsWeakOrder}

pub record Semver (V : Type 0) : Type 0 where
  pub major : V → ℕ
  pub minor : V → ℕ
  pub patch : V → ℕ
  pub prerelease : V → String
  pub original : V → String
  pub string : V → String
  pub less_than : V → V → Bool
  pub greater_than : V → V → Bool
  pub equal : V → V → Bool
  pub new_version : String → Option V

-- "%d.%d" of a major and a minor number.
abbrev pub dotted : ℕ → ℕ → String
dotted m n = concat (itoa m ∷ "." ∷ itoa n ∷ [])

-- Versions are ordered by precedence (https://semver.org, section 11), `GreaterThan` is `LessThan`
-- with the sides swapped, `Equal` is neither, and an "X.Y" text is read as X.Y.0.
pub record SemverLaws {V : Type 0} (sv : Semver V) : Type 0 where
  pub greater : (a b : V) → sv.greater_than a b ≡ sv.less_than b a
  pub equal_iff : (a b : V) → sv.equal a b ≡ (not (sv.less_than a b) && not (sv.less_than b a))
  pub weak : IsWeakOrder sv.less_than
  pub major_first : (a b : V) → sv.less_than a b ≡ true → sv.major a ≤ sv.major b
  pub minor_next :
      (a b : V) → sv.less_than a b ≡ true → sv.major a ≡ sv.major b → sv.minor a ≤ sv.minor b
  pub reads_dotted :
      (v : V)
      → (w : V) × (sv.new_version (dotted (sv.major v) (sv.minor v)) ≡ some w)
        × (sv.major w ≡ sv.major v)
        × (sv.minor w ≡ sv.minor v)
        × (sv.patch w ≡ 0)
        × (sv.prerelease w ≡ "")
  pub same_precedence :
      (a b : V)
      → sv.major a ≡ sv.major b
      → sv.minor a ≡ sv.minor b
      → sv.patch a ≡ sv.patch b
      → sv.prerelease a ≡ sv.prerelease b
      → sv.less_than a b ≡ false
