-- ===== src/Go.antt =====
-- What a Go function does besides returning: it may panic, and an error is a value with the text of
-- the `fmt.Errorf` call that made it.
pub mod Calls
pub mod Steps
use osde2e.Prelude.{ℕ, String, List, Option, none, some, get_elem?}

pub data Outcome {ℓ} (A : Type ℓ) : Type ℓ where
  returns : A → Outcome A
  panics : Outcome A

infixl 5 ◌>>=◌ ◌>>◌
abbrev pub ◌>>=◌ {ℓ κ} : {A : Type ℓ} {B : Type κ} → Outcome A → (A → Outcome B) → Outcome B
returns a >>= f = f a
panics >>= f = panics

abbrev pub ◌>>◌ {ℓ κ} : {A : Type ℓ} {B : Type κ} → Outcome A → Outcome B → Outcome B
m >> k = m >>= λ _. k

-- `xs[i]`: an index out of range panics.
abbrev pub or_panic {ℓ} : {A : Type ℓ} → Option A → Outcome A
or_panic none = panics
or_panic (some a) = returns a

abbrev pub index {ℓ} : {A : Type ℓ} → List A → ℕ → Outcome A
index xs i = or_panic (get_elem? xs i)

-- The format of the `fmt.Errorf` call and its texts, the same with the error that it wraps, and the
-- error of a call of outside code, by the names of the function and of what it was given.
pub data Error : Type 0 where
  errorf : String → List String → Error
  wrapf : String → List String → Error → Error
  passed_on : String → String → Error

-- A Go result of a pointer and an error: either may be nil, also both.
abbrev pub Found : Type 0 → Type 0
Found A = Option A × Option Error

abbrev pub found : {A : Type 0} → A → Outcome (Found A)
found a = returns (some a, none)

abbrev pub failed : {A : Type 0} → Error → Outcome (Found A)
failed e = returns (none, some e)
