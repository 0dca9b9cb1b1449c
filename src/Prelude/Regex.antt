-- ===== src/Prelude/Regex.antt =====
-- The part of Go's `regexp` that the modelled code uses: a sequence of single characters of a class
-- and of repetitions `a+`, matched at the leftmost place, each repetition as long as possible.

use Prim.Native.Char.{Char, code}
use Prim.Native.String.{String}
use mathlib.Core.Bool.{Bool, true, false, not, ◌&&◌}
use mathlib.Core.List.{List, [], ◌∷◌}
use mathlib.Core.Option.{Option, none, some}
use osde2e.Prelude.Tests.{leb, ◌==◌}

-- `\d`, `.` and a character that stands for itself.
pub data Class : Type 0 where
  digit any : Class
  literal : Char → Class

pub data Item : Type 0 where
  one plus : Class → Item

in_class : Class → Char → Bool
in_class digit c = leb b'0' (code c) && leb (code c) b'9'
in_class any c = not (code c == 10)
in_class (literal d) c = code c == code d

prefixed : Char → Option String → Option String
prefixed c none = none
prefixed c (some s) = some (String.◌∷◌ c s)

or_else : Option String → Option String → Option String
or_else none b = b
or_else (some s) b = some s

-- The text that the items match at the start of a text.
match_here : List Item → String → Option String
unfolding in_class prefixed or_else
match_here [] s = some ""
match_here (one a ∷ items) String.[] = none
match_here (plus a ∷ items) String.[] = none
match_here (one a ∷ items) (String.◌∷◌ c s) = elim (in_class a c) [
  | true ↦ prefixed c (match_here items s)
  | false ↦ none
]
match_here (plus a ∷ items) (String.◌∷◌ c s) = elim (in_class a c) [
  | true ↦ prefixed c (or_else (match_here (plus a ∷ items) s) (match_here items s))
  | false ↦ none
]

-- `FindStringSubmatch` of an expression with no groups: the text of the leftmost match.
unfoldable pub find_match : List Item → String → Option String
unfolding match_here
find_match items String.[] = match_here items ""
find_match items (String.◌∷◌ c s) =
    let later = find_match items s in or_else (match_here items (String.◌∷◌ c s)) later

unfoldable pub literals : String → List Item
literals String.[] = []
literals (String.◌∷◌ c s) = one (literal c) ∷ literals s
