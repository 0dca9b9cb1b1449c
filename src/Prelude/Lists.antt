-- ===== src/Prelude/Lists.antt =====
-- Lists measured and indexed by native numbers, and predicates on lists by recursion.
use Prim.Native.Nat.{ℕ, zero, suc, ◌+◌, ◌≤◌, ◌<◌}
use mathlib.Core.Path.{◌≡◌, refl, sym, ap, subst}
use mathlib.Core.Logic.{◌↔◌, ◌⊎◌, inl, inr}
use mathlib.Core.Bool.{Bool, true, false, ◌||◌}
use mathlib.Core.List.{List, [], ◌∷◌, ◌++◌, map}
use mathlib.Core.Option.{Option, none, some}
use native.Mathlib.Omega.{arith}
use osde2e.Prelude.Tests.{if◌then◌else◌, Bool-cases}

module _ {ℓ} {A : Type ℓ} where
  abbrev pub length : List A → ℕ
  length [] = 0
  length (x ∷ xs) = suc (length xs)

  abbrev pub get_elem? : List A → ℕ → Option A
  get_elem? [] i = none
  get_elem? (x ∷ xs) zero = some x
  get_elem? (x ∷ xs) (suc i) = get_elem? xs i

  pub length-append : (xs ys : List A) → length (xs ++ ys) ≡ length xs + length ys
  length-append [] ys = omega arith
  length-append (x ∷ xs) ys = omega (arith, length-append xs ys)

  pub get_elem?_bounded :
      (xs : List A) (i : ℕ) → i < length xs → (a : A) × (get_elem? xs i ≡ some a)
  get_elem?_bounded [] i h = elim h [ ]
  get_elem?_bounded (x ∷ xs) zero h = (x, refl)
  get_elem?_bounded (x ∷ xs) (suc i) h = get_elem?_bounded xs i (omega arith)

  pub get_elem?_beyond : (xs : List A) (i : ℕ) → length xs ≤ i → get_elem? xs i ≡ none
  get_elem?_beyond [] i h = refl
  get_elem?_beyond (x ∷ xs) zero h = absurd (omega arith)
  get_elem?_beyond (x ∷ xs) (suc i) h = get_elem?_beyond xs i (omega arith)

  -- The elements that pass a test, in order (a loop with `continue`).
  abbrev pub keep_if : (A → Bool) → List A → List A
  keep_if p [] = []
  keep_if p (x ∷ xs) = if p x then x ∷ keep_if p xs else keep_if p xs

  -- How many elements pass a test.
  abbrev pub count_if : (A → Bool) → List A → ℕ
  count_if p [] = 0
  count_if p (x ∷ xs) = if p x then suc (count_if p xs) else count_if p xs

  pub count_if-le-length : (p : A → Bool) (xs : List A) → count_if p xs ≤ length xs
  count_if-le-length p [] = omega arith
  count_if-le-length p (x ∷ xs) = ground (arith, count_if-le-length p xs)

  -- Whether some element passes a test.
  abbrev pub any_if : (A → Bool) → List A → Bool
  any_if p [] = false
  any_if p (x ∷ xs) = p x || any_if p xs

  -- The first element that passes a test (a loop that returns).
  abbrev pub find_first : (A → Bool) → List A → Option A
  find_first p [] = none
  find_first p (x ∷ xs) = if p x then some x else find_first p xs

pub some_eq {ℓ} : {A : Type ℓ} {a b : A} → some a ≡ some b → a ≡ b
some_eq e = cc

-- `P` holds of every element, and of some element.
module _ {ℓ} {A : Type ℓ} where
  abbrev pub All : (A → Type 0) → List A → Type 0
  All P [] = Unit
  All P (x ∷ xs) = P x × All P xs

  abbrev pub Any : (A → Type 0) → List A → Type 0
  Any P [] = ⊥
  Any P (x ∷ xs) = P x ⊎ Any P xs

module _ {ℓ} {A : Type ℓ} (P : A → Type 0) where
  pub get_elem?-All : (xs : List A) (i : ℕ) {a : A} → All P xs → get_elem? xs i ≡ some a → P a
  get_elem?-All [] i h e = absurd (ground arith)
  get_elem?-All (x ∷ xs) zero h e = subst P (some_eq e) h.0
  get_elem?-All (x ∷ xs) (suc i) h e = get_elem?-All xs i h.1 e

  pub All-map : (Q : A → Type 0) → ((a : A) → P a → Q a) → (xs : List A) → All P xs → All Q xs
  All-map Q f [] h = tt
  All-map Q f (x ∷ xs) h = (f x h.0, All-map Q f xs h.1)

  pub All-append : (xs ys : List A) → All P xs → All P ys → All P (xs ++ ys)
  All-append [] ys h k = k
  All-append (x ∷ xs) ys h k = (h.0, All-append xs ys h.1 k)

  pub All-keep_if : (p : A → Bool) (xs : List A) → All P xs → All P (keep_if p xs)
  All-keep_if p [] h = tt
  All-keep_if p (x ∷ xs) h = elim (Bool-cases (p x)) [
    | inl e ↦ rw e (h.0, All-keep_if p xs h.1)
    | inr e ↦ rw e (All-keep_if p xs h.1)
  ]

  pub find_first-All :
      (p : A → Bool) (xs : List A) {a : A} → All P xs → find_first p xs ≡ some a → P a
  find_first-All p [] h e = absurd (ground arith)
  find_first-All p (x ∷ xs) h e = elim (Bool-cases (p x)) [
    | inl t ↦ subst P (some_eq (rw t at e)) h.0
    | inr t ↦ find_first-All p xs h.1 (rw t at e)
  ]

-- Every element is an element.
pub All-Any : {A : Type 0} (xs : List A) → All (λ a. Any (λ b. b ≡ a) xs) xs
All-Any [] = tt
All-Any {A} (x ∷ xs) = (
  inl refl,
  All-map (λ a. Any (λ b. b ≡ a) xs) (λ a. Any (λ b. b ≡ a) (x ∷ xs)) (λ a h. inr h) xs
      (All-Any xs),
)

module _ {ℓ} {A : Type ℓ} where
  -- What the first match is: it passes, and it is an element.
  pub find_first_passes :
      (p : A → Bool) (xs : List A) {a : A} → find_first p xs ≡ some a → p a ≡ true
  find_first_passes p [] e = absurd (ground arith)
  find_first_passes p (x ∷ xs) e = elim (Bool-cases (p x)) [
    | inl t ↦ subst (λ b. p b ≡ true) (some_eq (rw t at e)) t
    | inr t ↦ find_first_passes p xs (rw t at e)
  ]

  pub find_first-none :
      (p : A → Bool) (xs : List A) → find_first p xs ≡ none → All (λ a. p a ≡ false) xs
  find_first-none p [] e = tt
  find_first-none p (x ∷ xs) e = elim (Bool-cases (p x)) [
    | inl t ↦ absurd (ground arith)
    | inr t ↦ (t, find_first-none p xs (rw t at e))
  ]

  pub keep_if_passes : (p : A → Bool) (xs : List A) → All (λ a. p a ≡ true) (keep_if p xs)
  keep_if_passes p [] = tt
  keep_if_passes p (x ∷ xs) = elim (Bool-cases (p x)) [
    | inl e ↦ rw e (e, keep_if_passes p xs)
    | inr e ↦ rw e (keep_if_passes p xs)
  ]

  pub length-map {κ} : {B : Type κ} (f : A → B) (xs : List A) → length (map f xs) ≡ length xs
  length-map f [] = refl
  length-map f (x ∷ xs) = ap suc (length-map f xs)

  pub Any-map : (P Q : A → Type 0) → ((a : A) → P a → Q a) → (xs : List A) → Any P xs → Any Q xs
  Any-map P Q f [] h = absurd h
  Any-map P Q f (x ∷ xs) (inl h) = inl (f x h)
  Any-map P Q f (x ∷ xs) (inr h) = inr (Any-map P Q f xs h)

  -- What holds of every element and what holds of some element meet at an element.
  pub All-Any_meet : (P Q : A → Type 0) (xs : List A) → All P xs → Any Q xs → (a : A) × P a × Q a
  All-Any_meet P Q [] h k = absurd k
  All-Any_meet P Q (x ∷ xs) h (inl k) = (x, h.0, k)
  All-Any_meet P Q (x ∷ xs) h (inr k) = All-Any_meet P Q xs h.1 k

  pub count_if_none : (p : A → Bool) (xs : List A) → All (λ a. p a ≡ false) xs → count_if p xs ≡ 0
  count_if_none p [] h = refl
  count_if_none p (x ∷ xs) h = rw h.0 (count_if_none p xs h.1)

  pub count_if_zero : (p : A → Bool) (xs : List A) → count_if p xs ≡ 0 → All (λ a. p a ≡ false) xs
  count_if_zero p [] e = tt
  count_if_zero p (x ∷ xs) e = elim (Bool-cases (p x)) [
    | inl t ↦ absurd (ground arith)
    | inr t ↦ (t, count_if_zero p xs (rw t at e))
  ]

  pub count_if-append :
      (p : A → Bool) (xs ys : List A) → count_if p (xs ++ ys) ≡ count_if p xs + count_if p ys
  count_if-append p [] ys = omega arith
  count_if-append p (x ∷ xs) ys = ground (arith, count_if-append p xs ys)

  pub get_elem?-Any :
      (xs : List A) (i : ℕ) {a : A} (P : A → Type 0) → get_elem? xs i ≡ some a → P a → Any P xs
  get_elem?-Any [] i P e h = absurd (ground arith)
  get_elem?-Any (x ∷ xs) zero P e h = inl (subst P (sym (some_eq e)) h)
  get_elem?-Any (x ∷ xs) (suc i) P e h = inr (get_elem?-Any xs i P e h)

-- A loop that updates one variable.
module _ {ℓ κ} {A : Type ℓ} {S : Type κ} where
  abbrev pub fold : (S → A → S) → S → List A → S
  fold step s [] = s
  fold step s (x ∷ xs) = fold step (step s x) xs

-- A loop that clears a flag at a bad element leaves it set when no element is bad.
pub fold_flag :
    {A : Type 0} (step : Bool → A → Bool) (P : A → Type 0)
    → ((b : Bool) (a : A) → (step b a ≡ true) ↔ ((b ≡ true) × P a))
    → (xs : List A) (b : Bool) → (fold step b xs ≡ true) ↔ ((b ≡ true) × All P xs)
fold_flag step P h [] b = (λ e. (e, tt), λ k. k.0)
fold_flag step P h (x ∷ xs) b =
    let (to, back) = fold_flag step P h xs (step b x) in
    let (here, there) = h b x in
    (
      λ e. let (k, rest) = to e in let (l, px) = here k in (l, (px, rest)),
      λ k. back (there (k.0, k.1.0), k.1.1),
    )

module _ {ℓ} {A : Type ℓ} where
  pub append_nil : (xs : List A) → xs ++ [] ≡ xs
  append_nil [] = refl
  append_nil (x ∷ xs) = ap (λ ys. x ∷ ys) (append_nil xs)

  pub append_assoc : (xs ys zs : List A) → (xs ++ ys) ++ zs ≡ xs ++ (ys ++ zs)
  append_assoc [] ys zs = refl
  append_assoc (x ∷ xs) ys zs = ap (λ l. x ∷ l) (append_assoc xs ys zs)
