-- ===== src/Prelude/Perms.antt =====
-- What a permutation of a list keeps.
use mathlib.Core.Path.{◌≡◌, refl, sym, ◌∙◌, ap}
use mathlib.Core.Bool.{Bool, true, false, ◌||◌}
use mathlib.Core.List.{List, [], ◌∷◌, Perm, foldr, filter}
use mathlib.Core.List.Perm
use mathlib.Core.Logic.{inl, inr}
use Prim.Native.Nat.{ℕ, suc}
use native.Mathlib.Omega.{arith}
use osde2e.Prelude.Tests.{if◌then◌else◌, Bool-cases}
use osde2e.Prelude.Lists.{any_if, count_if, length, keep_if}

false-ne-true : ¬ (false ≡ true)
false-ne-true h = cc

abbrev dec_true : (b : Bool) → Dec (b ≡ true)
dec_true true = yes refl
dec_true false = no false-ne-true

module _ {ℓ} {A : Type ℓ} where
  any_if-foldr : (p : A → Bool) (xs : List A) → any_if p xs ≡ foldr (λ a b. p a || b) false xs
  any_if-foldr p [] = refl
  any_if-foldr p (x ∷ xs) = ap (λ b. p x || b) (any_if-foldr p xs)

  pub any_if-perm : (p : A → Bool) {xs ys : List A} → Perm xs ys → any_if p xs ≡ any_if p ys
  any_if-perm p {xs} {ys} h =
      let set : IsSet Bool = hlevel in
      let or_p : A → Bool → Bool = λ a b. p a || b in
      any_if-foldr p xs
      ∙ Perm.foldr-eq set or_p (λ a b c. ground arith) h false
      ∙ sym (any_if-foldr p ys)

  abbrev add_if : (A → Bool) → A → ℕ → ℕ
  add_if p a n = if p a then suc n else n

  count_if-foldr : (p : A → Bool) (xs : List A) → count_if p xs ≡ foldr (add_if p) 0 xs
  count_if-foldr p [] = refl
  count_if-foldr p (x ∷ xs) = ap (add_if p x) (count_if-foldr p xs)

  pub count_if-perm : (p : A → Bool) {xs ys : List A} → Perm xs ys → count_if p xs ≡ count_if p ys
  count_if-perm p {xs} {ys} h =
      let set : IsSet ℕ = hlevel in
      count_if-foldr p xs
      ∙ Perm.foldr-eq set (add_if p) (λ a b c. ground arith) h 0
      ∙ sym (count_if-foldr p ys)

  length-count_if : (xs : List A) → length xs ≡ count_if (λ a. true) xs
  length-count_if [] = refl
  length-count_if (x ∷ xs) = ap suc (length-count_if xs)

  pub length-perm : {xs ys : List A} → Perm xs ys → length xs ≡ length ys
  length-perm {xs} {ys} h =
      length-count_if xs ∙ count_if-perm (λ a. true) h ∙ sym (length-count_if ys)

  keep_if-filter : (p : A → Bool) (xs : List A) → keep_if p xs ≡ filter (λ a. dec_true (p a)) xs
  keep_if-filter p [] = refl
  keep_if-filter p (x ∷ xs) = elim (Bool-cases (p x)) [
    | inl e ↦ rw e (ap (λ l. x ∷ l) (keep_if-filter p xs))
    | inr e ↦ rw e (keep_if-filter p xs)
  ]

  -- What is kept of a permutation is a permutation of what is kept.
  pub keep_if-perm :
      (p : A → Bool) {xs ys : List A} → Perm xs ys → Perm (keep_if p xs) (keep_if p ys)
  keep_if-perm p {xs} {ys} h =
      rw (keep_if-filter p xs, keep_if-filter p ys) (Perm.filter (λ a. dec_true (p a)) h)
