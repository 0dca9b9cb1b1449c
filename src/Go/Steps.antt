-- ===== src/Go/Steps.antt =====
-- Code that reads and changes a state: it ends with a value, an error or a panic, and leaves a state.
use osde2e.Prelude.{◌≡◌, refl, Bool, true, false, inl, inr, if◌then◌else◌}
use osde2e.Go.{Error}
use osde2e.Go.Calls.{End, ends, fails, dies, wrapped_end, End-cases, Reply, replied, refused}

abbrev pub Step : Type 0 → Type 0 → Type 0
Step S A = S → End A × S

module _ {S : Type 0} where
  abbrev pub pure : {A : Type 0} → A → Step S A
  pure a s = (ends a, s)

  abbrev pub fail : {A : Type 0} → Error → Step S A
  fail e s = (fails e, s)

  abbrev pub get : Step S S
  get s = (ends s, s)

  abbrev pub change : (S → S) → Step S Unit
  change f s = (ends tt, f s)

  abbrev pub bind_end : {A B : Type 0} → End A → S → (A → Step S B) → End B × S
  bind_end (ends a) s f = f a s
  bind_end (fails e) s f = (fails e, s)
  bind_end dies s f = (dies, s)

  infixl 5 ◌>>=◌ ◌>>◌
  abbrev pub ◌>>=◌ : {A B : Type 0} → Step S A → (A → Step S B) → Step S B
  (m >>= f) s = let r = m s in bind_end r.0 r.1 f

  abbrev pub ◌>>◌ : {A B : Type 0} → Step S A → Step S B → Step S B
  m >> k = m >>= λ _. k

  abbrev pub step_if : Bool → Step S Unit → Step S Unit
  step_if false m = pure tt
  step_if true m = m

  -- The error of a step, wrapped by its caller.
  abbrev pub or_fail : {A : Type 0} → (Error → Error) → Step S A → Step S A
  or_fail wrap m s = let r = m s in (wrapped_end wrap r.0, r.1)

  abbrev pub from_reply : {A : Type 0} → (Error → Error) → Reply A → Step S A
  from_reply wrap (replied a) = pure a
  from_reply wrap (refused e) = fail (wrap e)

  -- An error that only makes a message.
  abbrev pub forget : {A : Type 0} → Step S A → Step S Unit
  forget m s = let r = m s in (ends tt, r.1)

  -- What two steps keep, one after the other, they keep together.
  pub bind_keeps :
      {A B : Type 0} (P : S → Type 0) (m : Step S A) (f : A → Step S B) (s : S)
      → P (m s).1
      → ((a : A) → (m s).0 ≡ ends a → P (f a (m s).1).1)
      → P ((m >>= f) s).1
  bind_keeps P m f s h k = elim (End-cases (m s).0) [
    | inl (a, e) ↦ rw (e, bind_end) (k a e)
    | inr (inl (x, e)) ↦ rw (e, bind_end) h
    | inr (inr e) ↦ rw (e, bind_end) h
  ]

  -- What a step keeps wherever it starts.
  abbrev pub Keeps : {A : Type 0} → (S → Type 0) → Step S A → Type 0
  Keeps P m = (s : S) → P s → P (m s).1

  pub bind-Keeps :
      {A B : Type 0} (P : S → Type 0) (m : Step S A) (f : A → Step S B)
      → Keeps P m
      → ((a : A) → Keeps P (f a))
      → Keeps P (m >>= f)
  bind-Keeps P m f h k s p = bind_keeps P m f s (h s p) (λ a e. k a (m s).1 (h s p))

  pub from_reply-Keeps :
      {A : Type 0} (P : S → Type 0) (wrap : Error → Error) (r : Reply A)
      → Keeps P (from_reply wrap r)
  from_reply-Keeps P wrap (replied a) s h = h
  from_reply-Keeps P wrap (refused e) s h = h

  pub if-Keeps :
      {A : Type 0} (P : S → Type 0) (b : Bool) (m n : Step S A)
      → Keeps P m
      → Keeps P n
      → Keeps P (if b then m else n)
  if-Keeps P true m n h k = h
  if-Keeps P false m n h k = k

  -- A step that ends with a value ran both its parts.
  pub bind_ends :
      {A B : Type 0} (m : Step S A) (f : A → Step S B) (s : S) {b : B}
      → ((m >>= f) s).0 ≡ ends b
      → (a : A) × ((m s).0 ≡ ends a) × ((f a (m s).1).0 ≡ ends b) × ((m >>= f) s ≡ f a (m s).1)
  bind_ends m f s h = elim (End-cases (m s).0) [
    | inl (a, e) ↦ (a, e, rw (e, bind_end) at h, rw (e, bind_end) refl)
    | inr (inl (x, e)) ↦ absurd (let k = rw (e, bind_end) at h in cc)
    | inr (inr e) ↦ absurd (let k = rw (e, bind_end) at h in cc)
  ]
