-- ===== src/Go/Calls.antt =====
-- Calls of outside services: what a call replies, and code that makes calls one after the other. A
-- run has the calls that were made, in their order, and its end: a value, an error or a panic.
use osde2e.Prelude.{◌≡◌, refl, ◌⊎◌, inl, inr, Option, none, some, List, [], ◌∷◌, ◌++◌}
use osde2e.Go.{Error}

pub data Reply (A : Type 0) : Type 0 where
  replied : A → Reply A
  refused : Error → Reply A

pub reply_cases :
    {A : Type 0} (r : Reply A) → ((e : Error) × (r ≡ refused e)) ⊎ ((a : A) × (r ≡ replied a))
reply_cases (refused e) = inl (e, refl)
reply_cases (replied a) = inr (a, refl)

pub data End (A : Type 0) : Type 0 where
  ends : A → End A
  fails : Error → End A
  dies : End A

pub record Run (C A : Type 0) : Type 0 where
  pub calls : List C
  pub end : End A

-- The error of a run, wrapped by its caller.
abbrev pub wrapped_end : {A : Type 0} → (Error → Error) → End A → End A
wrapped_end wrap (ends a) = ends a
wrapped_end wrap (fails e) = fails (wrap e)
wrapped_end wrap dies = dies

module _ {C : Type 0} where
  abbrev pub pure : {A : Type 0} → A → Run C A
  pure a = record { calls = []; end = ends a }

  abbrev pub fail : {A : Type 0} → Error → Run C A
  fail e = record { calls = []; end = fails e }

  abbrev pub die : {A : Type 0} → Run C A
  die = record { calls = []; end = dies }

  -- A call, with what the code makes of its error.
  abbrev pub call : {A : Type 0} → C → Reply A → (Error → Error) → Run C A
  call c (replied a) wrap = record { calls = c ∷ []; end = ends a }
  call c (refused e) wrap = record { calls = c ∷ []; end = fails (wrap e) }

  -- A call that is not listed.
  abbrev pub given : {A : Type 0} → Reply A → (Error → Error) → Run C A
  given (replied a) wrap = pure a
  given (refused e) wrap = fail (wrap e)

  -- A call whose error makes a message and nothing else.
  abbrev pub try_call : {A : Type 0} → C → Reply A → Run C (Option A)
  try_call c (replied a) = record { calls = c ∷ []; end = ends (some a) }
  try_call c (refused e) = record { calls = c ∷ []; end = ends none }

  abbrev pub after_end : {A B : Type 0} → List C → End A → (A → Run C B) → Run C B
  after_end cs (ends a) f = let r = f a in record { calls = cs ++ r.calls; end = r.end }
  after_end cs (fails e) f = record { calls = cs; end = fails e }
  after_end cs dies f = record { calls = cs; end = dies }

  infixl 5 ◌>>=◌ ◌>>◌
  abbrev pub ◌>>=◌ : {A B : Type 0} → Run C A → (A → Run C B) → Run C B
  m >>= f = after_end m.calls m.end f

  abbrev pub ◌>>◌ : {A B : Type 0} → Run C A → Run C B → Run C B
  m >> k = m >>= λ _. k

  abbrev pub or_fail : {A : Type 0} → (Error → Error) → Run C A → Run C A
  or_fail wrap m = record m { end = wrapped_end wrap m.end }

pub End-cases :
    {A : Type 0} (x : End A)
    → ((a : A) × (x ≡ ends a)) ⊎ (((e : Error) × (x ≡ fails e)) ⊎ (x ≡ dies))
End-cases (ends a) = inl (a, refl)
End-cases (fails e) = inr (inl (e, refl))
End-cases dies = inr (inr refl)

-- Code that makes no calls.
pub bind_no_calls :
    {C A B : Type 0} (m : Run C A) (f : A → Run C B)
    → m.calls ≡ []
    → ((a : A) → (f a).calls ≡ [])
    → (m >>= f).calls ≡ []
bind_no_calls m f h k = elim (End-cases m.end) [
  | inl (a, e) ↦ rw (e, h, after_end) (k a)
  | inr (inl (x, e)) ↦ rw (e, h, after_end) refl
  | inr (inr e) ↦ rw (e, h, after_end) refl
]

pub given_no_calls :
    {C A : Type 0} (r : Reply A) (wrap : Error → Error) → (given {C = C} r wrap).calls ≡ []
given_no_calls (replied a) wrap = refl
given_no_calls (refused e) wrap = refl

-- A run that ends with a value ran both its parts.
pub bind_ends :
    {C A B : Type 0} (m : Run C A) (f : A → Run C B) {b : B}
    → (m >>= f).end ≡ ends b
    → (a : A) × (m.end ≡ ends a) × ((f a).end ≡ ends b)
bind_ends m f h = elim (End-cases m.end) [
  | inl (a, e) ↦ (a, e, rw (e, after_end) at h)
  | inr (inl (x, e)) ↦ absurd (let k = rw (e, after_end) at h in cc)
  | inr (inr e) ↦ absurd (let k = rw (e, after_end) at h in cc)
]
