-- ===== src/Prelude/Text.antt =====
-- Texts: the functions of Go's `strings`, `strconv` and `fmt` that the modelled code calls.
use Prim.Native.Nat.{ℕ, zero, suc, ◌+◌, ◌-◌, ◌/◌, ◌%◌}
use Prim.Native.String.{String, ◌++◌, slice, count}
use mathlib.Core.Bool.{Bool, true, false}
use mathlib.Core.List.{List, [], ◌∷◌}
use mathlib.Core.Option.{Option, none, some}
use mathlib.Core.Path.{◌≡◌}
use text.Mathlib.TextLemmas.{length-append, length-cons, append-nil, nil-append, cons-append}
use text.Mathlib.TextPositions.{starts_with-append}
use text.Mathlib.Text.{◌==◌ as text_eq, starts_with, find?}
use osde2e.Prelude.Tests.{◌==◌, if◌then◌else◌}
use osde2e.Prelude.Int.{ℤ, pos, negsuc}

abbrev pub str_eq : String → String → Bool
str_eq = text_eq

-- `strings.Contains` and `strings.HasPrefix`.
unfoldable pub contains : String → String → Bool
contains s part = elim (find? s part) [ none ↦ false | some i ↦ true ]

unfoldable pub has_prefix : String → String → Bool
has_prefix = starts_with

-- The pieces of a formatted text, joined.
abbrev pub concat : List String → String
concat [] = ""
concat (s ∷ rest) = s ++ concat rest

-- One digit in a round; the number has at most as many digits as its value plus one.
digits : ℕ → ℕ → String → String
digits zero n out = out
digits (suc fuel) n out =
    let rest = digits fuel (n / 10) (slice "0123456789" (n % 10) (n % 10 + 1) ++ out) in
    if n == 0 then out else rest

-- `%d` of an unsigned and of a signed number.
unfoldable pub itoa : ℕ → String
unfolding digits
itoa n = if n == 0 then "0" else digits (suc n) n ""

unfoldable pub itoa_ℤ : ℤ → String
unfolding itoa
itoa_ℤ (pos n) = itoa n
itoa_ℤ (negsuc n) = "-" ++ itoa (suc n)

-- Drop that many characters, and then every occurrence of a text.
remove_after : ℕ → String → String → String
remove_after skip part String.[] = ""
remove_after (suc skip) part (String.◌∷◌ c s) = remove_after skip part s
remove_after zero part (String.◌∷◌ c s) = elim (starts_with (String.◌∷◌ c s) part) [
  | true ↦ remove_after (count part - 1) part s
  | false ↦ String.◌∷◌ c (remove_after zero part s)
]

-- `strings.ReplaceAll(s, part, "")` for a part that is not empty.
unfoldable pub remove_all : String → String → String
unfolding remove_after
remove_all s part = remove_after 0 part s

drop_chars : ℕ → String → String
drop_chars zero s = s
drop_chars (suc n) String.[] = ""
drop_chars (suc n) (String.◌∷◌ c s) = drop_chars n s

-- `strings.TrimPrefix`.
unfoldable pub trim_prefix : String → String → String
unfolding drop_chars
trim_prefix s part = if starts_with s part then drop_chars (count part) s else s

-- `strings.Split(s, ",")`: the pieces between the commas, of which there is always one.
split_at_commas : String → String → List String
split_at_commas piece String.[] = piece ∷ []
split_at_commas piece (String.◌∷◌ c s) = elim (starts_with (String.◌∷◌ c s) ",") [
  | true ↦ piece ∷ split_at_commas "" s
  | false ↦ split_at_commas (piece ++ String.◌∷◌ c "") s
]

unfoldable pub split_commas : String → List String
unfolding split_at_commas
split_commas s = split_at_commas "" s

-- `s[:strings.LastIndex(s, "-")]` when there is a dash.
unfoldable pub before_last_dash : String → Option String
before_last_dash String.[] = none
before_last_dash (String.◌∷◌ c s) = elim (before_last_dash s) [
  | some cut ↦ some (String.◌∷◌ c cut)
  | none ↦ if starts_with (String.◌∷◌ c s) "-" then some "" else none
]

-- `len(s)` of a text whose characters are one byte long each, as in the names of the cluster's API.
abbrev pub byte_length : String → ℕ
byte_length s = count s

pub byte_length-concat :
    (s : String) (rest : List String)
    → byte_length (concat (s ∷ rest)) ≡ byte_length s + byte_length (concat rest)
byte_length-concat s rest = length-append s (concat rest)

drop_chars-append : (p s : String) → drop_chars (count p) (p ++ s) ≡ s
unfolding drop_chars
drop_chars-append String.[] s = nil-append s
drop_chars-append (String.◌∷◌ c p) s =
    rw (length-cons c p, cons-append c p s) (drop_chars-append p s)

-- A text behind a prefix is what is left without it.
pub trim_prefix-concat : (p s : String) → trim_prefix (concat (p ∷ s ∷ [])) p ≡ s
unfolding trim_prefix
trim_prefix-concat p s = rw (append-nil s, starts_with-append p s) (drop_chars-append p s)
