-- ===== src/Prelude/Sorting.antt =====
-- Stable sorting by a `less` function, as `sort.SliceStable` of the Go library orders a slice, and
-- what its result promises when `less` is a strict weak order.
use mathlib.Core.Path.{◌≡◌, refl}
use mathlib.Core.Logic.{◌⊎◌, inl, inr}
use mathlib.Core.Bool.{Bool, true, false}
use mathlib.Core.List.{List, [], ◌∷◌, Perm}
use mathlib.Core.List.Perm
use Prim.Native.Nat.{suc}
use native.Mathlib.Omega.{arith}
use osde2e.Prelude.Tests.{if◌then◌else◌, Bool-cases}
use osde2e.Prelude.Lists.{length, All, All-map, Any}

pub record IsWeakOrder {ℓ} {A : Type ℓ} (less : A → A → Bool) : Type ℓ where
  pub asymmetric : (a b : A) → less a b ≡ true → less b a ≡ false
  pub incomparable : (a b c : A) → less a b ≡ false → less b c ≡ false → less a c ≡ false

module _ {ℓ} {A : Type ℓ} (less : A → A → Bool) where
  -- An element goes before the first one that is not less than it.
  unfoldable pub insert_by : A → List A → List A
  insert_by x [] = x ∷ []
  insert_by x (y ∷ ys) = if less y x then y ∷ insert_by x ys else x ∷ y ∷ ys

  unfoldable pub sort_by : List A → List A
  unfolding insert_by
  sort_by [] = []
  sort_by (x ∷ xs) = insert_by x (sort_by xs)

  -- No later element is less than an earlier one.
  abbrev pub IsSorted : List A → Type 0
  IsSorted [] = Unit
  IsSorted (x ∷ xs) = All (λ y. less y x ≡ false) xs × IsSorted xs

-- `sort.Slice` does not say how it orders equal elements.
pub record SortLaws {A : Type 0} (sort_slice : (A → A → Bool) → List A → List A) : Type 0 where
  pub permutes : (less : A → A → Bool) (xs : List A) → Perm (sort_slice less xs) xs
  pub sorts :
      (less : A → A → Bool) (xs : List A) → IsWeakOrder less → IsSorted less (sort_slice less xs)

module _ {ℓ} {A : Type ℓ} (less : A → A → Bool) where
  All-insert_by :
      (P : A → Type 0) (x : A) (ys : List A) → P x → All P ys → All P (insert_by less x ys)
  unfolding insert_by
  All-insert_by P x [] px h = (px, tt)
  All-insert_by P x (y ∷ ys) px h = elim (Bool-cases (less y x)) [
    | inl e ↦ rw e (h.0, All-insert_by P x ys px h.1)
    | inr e ↦ rw e (px, h)
  ]

  insert_by-All :
      (P : A → Type 0) (x : A) (ys : List A) → All P (insert_by less x ys) → P x × All P ys
  unfolding insert_by
  insert_by-All P x [] h = h
  insert_by-All P x (y ∷ ys) h = elim (Bool-cases (less y x)) [
    | inl e ↦
        let h' : P y × All P (insert_by less x ys) = rw e at h in
        let r = insert_by-All P x ys h'.1 in (r.0, (h'.0, r.1))
    | inr e ↦ rw e at h
  ]

  pub All-sort_by : (P : A → Type 0) (xs : List A) → All P xs → All P (sort_by less xs)
  unfolding sort_by
  All-sort_by P [] h = tt
  All-sort_by P (x ∷ xs) h = All-insert_by P x (sort_by less xs) h.0 (All-sort_by P xs h.1)

  pub sort_by-All : (P : A → Type 0) (xs : List A) → All P (sort_by less xs) → All P xs
  unfolding sort_by
  sort_by-All P [] h = tt
  sort_by-All P (x ∷ xs) h =
      let r = insert_by-All P x (sort_by less xs) h in (r.0, sort_by-All P xs r.1)

  Any-insert_by :
      (P : A → Type 0) (x : A) (ys : List A) → P x ⊎ Any P ys → Any P (insert_by less x ys)
  unfolding insert_by
  Any-insert_by P x [] h = h
  Any-insert_by P x (y ∷ ys) h = elim (Bool-cases (less y x)) [
    | inl e ↦ rw e (moved (Any-insert_by P x ys) h)
    | inr e ↦ rw e h
  ]
    where
      moved :
          (P x ⊎ Any P ys → Any P (insert_by less x ys))
          → P x ⊎ Any P (y ∷ ys)
          → P y ⊎ Any P (insert_by less x ys)
      moved ih (inl p) = inr (ih (inl p))
      moved ih (inr (inl p)) = inl p
      moved ih (inr (inr p)) = inr (ih (inr p))

  pub Any-sort_by : (P : A → Type 0) (xs : List A) → Any P xs → Any P (sort_by less xs)
  unfolding sort_by
  Any-sort_by P [] h = h
  Any-sort_by P (x ∷ xs) (inl h) = Any-insert_by P x (sort_by less xs) (inl h)
  Any-sort_by P (x ∷ xs) (inr h) = Any-insert_by P x (sort_by less xs) (inr (Any-sort_by P xs h))

  insert_by-Any :
      (P : A → Type 0) (x : A) (ys : List A) → Any P (insert_by less x ys) → P x ⊎ Any P ys
  unfolding insert_by
  insert_by-Any P x [] h = h
  insert_by-Any P x (y ∷ ys) h = elim (Bool-cases (less y x)) [
    | inl e ↦ moved (insert_by-Any P x ys) (rw e at h)
    | inr e ↦ rw e at h
  ]
    where
      moved :
          (Any P (insert_by less x ys) → P x ⊎ Any P ys)
          → P y ⊎ Any P (insert_by less x ys)
          → P x ⊎ Any P (y ∷ ys)
      moved ih (inl p) = inr (inl p)
      moved ih (inr q) = elim (ih q) [ inl p ↦ inl p | inr p ↦ inr (inr p) ]

  pub sort_by-Any : (P : A → Type 0) (xs : List A) → Any P (sort_by less xs) → Any P xs
  unfolding sort_by
  sort_by-Any P [] h = h
  sort_by-Any P (x ∷ xs) h = elim (insert_by-Any P x (sort_by less xs) h) [
    | inl p ↦ inl p
    | inr q ↦ inr (sort_by-Any P xs q)
  ]

  length-insert_by : (x : A) (ys : List A) → length (insert_by less x ys) ≡ suc (length ys)
  unfolding insert_by
  length-insert_by x [] = refl
  length-insert_by x (y ∷ ys) = ground (arith, length-insert_by x ys)

  pub length-sort_by : (xs : List A) → length (sort_by less xs) ≡ length xs
  unfolding sort_by
  length-sort_by [] = refl
  length-sort_by (x ∷ xs) = omega (arith, length-insert_by x (sort_by less xs), length-sort_by xs)

  insert_by-perm : (x : A) (ys : List A) → Perm (insert_by less x ys) (x ∷ ys)
  unfolding insert_by
  insert_by-perm x [] = Perm.refl (x ∷ [])
  insert_by-perm x (y ∷ ys) = elim (Bool-cases (less y x)) [
    | inl e ↦ rw e (Perm.trans (Perm.cons y (insert_by-perm x ys)) (Perm.swap x y ys))
    | inr e ↦ rw e (Perm.refl (x ∷ y ∷ ys))
  ]

  pub sort_by-perm : (xs : List A) → Perm (sort_by less xs) xs
  unfolding sort_by
  sort_by-perm [] = Perm.refl []
  sort_by-perm (x ∷ xs) =
      Perm.trans (insert_by-perm x (sort_by less xs)) (Perm.cons x (sort_by-perm xs))

module _ {ℓ} {A : Type ℓ} {less : A → A → Bool} (weak : IsWeakOrder less) where
  insert_by-IsSorted :
      (x : A) (ys : List A) → IsSorted less ys → IsSorted less (insert_by less x ys)
  unfolding insert_by
  insert_by-IsSorted x [] s = (tt, tt)
  insert_by-IsSorted x (y ∷ ys) s = elim (Bool-cases (less y x)) [
    | inl e ↦ rw e (
      All-insert_by less (λ z. less z y ≡ false) x ys (weak.asymmetric y x e) s.0,
      insert_by-IsSorted x ys s.1,
    )
    | inr e ↦ rw e (
      (
        e,
        All-map (λ z. less z y ≡ false) (λ z. less z x ≡ false) (λ z h. weak.incomparable z y x h e)
            ys s.0,
      ),
      s,
    )
  ]

  pub sort_by-IsSorted : (xs : List A) → IsSorted less (sort_by less xs)
  unfolding sort_by
  sort_by-IsSorted [] = tt
  sort_by-IsSorted (x ∷ xs) = insert_by-IsSorted x (sort_by less xs) (sort_by-IsSorted xs)
