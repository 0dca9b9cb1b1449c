-- ===== src/Prelude/Rank.antt =====
-- Where an element of a sorted list stands among all of them.
use Prim.Native.Nat.{ℕ, zero, suc, ◌+◌, ◌≤◌}
use mathlib.Core.Path.{◌≡◌, refl, subst}
use mathlib.Core.Logic.{inl, inr}
use mathlib.Core.Bool.{Bool, false}
use mathlib.Core.List.{List, [], ◌∷◌}
use mathlib.Core.Option.{some}
use native.Mathlib.Omega.{arith}
use osde2e.Prelude.Tests.{Bool-cases}
use osde2e.Prelude.Lists.{
  length, get_elem?, Any, count_if, count_if-le-length, count_if_none, some_eq, get_elem?-All,
  get_elem?-Any,
}
use osde2e.Prelude.Sorting.{
  IsWeakOrder, insert_by, sort_by, IsSorted, sort_by-IsSorted, length-sort_by, sort_by-Any,
}

-- `v` is an element, at most `i` elements are less than it, and it is less than at most `above`.
pub record HasRank {A : Type 0} (less : A → A → Bool) (i : ℕ) (v : A) (xs : List A) : Type 0 where
  pub member : Any (λ u. u ≡ v) xs
  pub below : count_if (λ u. less u v) xs ≤ i
  pub above : count_if (λ u. less v u) xs + suc i ≤ length xs

module _ {A : Type 0} (less : A → A → Bool) where
  count_if-insert_by :
      (p : A → Bool) (x : A) (ys : List A) → count_if p (insert_by less x ys) ≡ count_if p (x ∷ ys)
  unfolding insert_by
  count_if-insert_by p x [] = refl
  count_if-insert_by p x (y ∷ ys) = ground (arith, count_if-insert_by p x ys)

  pub count_if-sort_by : (p : A → Bool) (xs : List A) → count_if p (sort_by less xs) ≡ count_if p xs
  unfolding sort_by
  count_if-sort_by p [] = refl
  count_if-sort_by p (x ∷ xs) =
      ground (arith, count_if-insert_by p x (sort_by less xs), count_if-sort_by p xs)

module _ {A : Type 0} {less : A → A → Bool} (weak : IsWeakOrder less) where
  pub irreflexive : (a : A) → less a a ≡ false
  irreflexive a = elim (Bool-cases (less a a)) [ inl e ↦ weak.asymmetric a a e | inr e ↦ e ]

  sorted_below :
      (xs : List A) (i : ℕ) (v : A)
      → IsSorted less xs
      → get_elem? xs i ≡ some v
      → count_if (λ u. less u v) xs ≤ i
  sorted_below [] i v s e = omega arith
  sorted_below (x ∷ xs) zero v s e =
      subst (λ w. count_if (λ u. less u w) (x ∷ xs) ≤ 0) (some_eq e)
        (rw (irreflexive x) (rw (count_if_none (λ u. less u x) xs s.0) (omega arith)))
  sorted_below (x ∷ xs) (suc i) v s e = ground (arith, sorted_below xs i v s.1 e)

  sorted_above :
      (xs : List A) (i : ℕ) (v : A)
      → IsSorted less xs
      → get_elem? xs i ≡ some v
      → count_if (λ u. less v u) xs + suc i ≤ length xs
  sorted_above [] i v s e = absurd (ground arith)
  sorted_above (x ∷ xs) zero v s e =
      subst (λ w. count_if (λ u. less w u) (x ∷ xs) + 1 ≤ suc (length xs)) (some_eq e)
        (rw (irreflexive x) (omega (arith, count_if-le-length (λ u. less x u) xs)))
  sorted_above (x ∷ xs) (suc i) v s e =
      rw (get_elem?-All (λ y. less y x ≡ false) xs i s.0 e)
        (omega (arith, sorted_above xs i v s.1 e))

  -- The element at an index of the sorted list has that rank in the list.
  pub sort_by-HasRank :
      (xs : List A) (i : ℕ) (v : A) → get_elem? (sort_by less xs) i ≡ some v → HasRank less i v xs
  sort_by-HasRank xs i v e = record {
    member = sort_by-Any less _ xs (get_elem?-Any (sort_by less xs) i (λ u. u ≡ v) e refl);
    below = omega (
      arith,
      sorted_below (sort_by less xs) i v (sort_by-IsSorted weak xs) e,
      count_if-sort_by less (λ u. less u v) xs,
    );
    above = omega (
      arith,
      sorted_above (sort_by less xs) i v (sort_by-IsSorted weak xs) e,
      count_if-sort_by less (λ u. less v u) xs,
      length-sort_by less xs,
    );
  }
