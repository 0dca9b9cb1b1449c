-- ===== src/Krkn/Query.antt =====
-- params_validation.go: `validatePromQL`, the structural check of a PromQL query.
pub mod Grammar
use Prim.Native.Char.{Char, code}
use Prim.Native.String.{String}
use osde2e.Prelude.{
  ℕ, Bool, true, false, Option, none, some, List, [], ◌∷◌, if◌then◌else◌, ◌==◌, str_eq,
}
use osde2e.Prelude.Spaces.{trim_space}
use osde2e.Go.{Error, errorf}

-- `()`, `[]` and `{}`.
pub data Bracket : Type 0 where
  parenthesis : Bracket
  bracket : Bracket
  brace : Bracket

abbrev pub is_same : Bracket → Bracket → Bool
is_same parenthesis parenthesis = true
is_same bracket bracket = true
is_same brace brace = true
is_same b c = false

-- The cases of the `switch` over a rune.
pub data Mark : Type 0 where
  opens : Bracket → Mark
  closes : Bracket → Mark
  plain : Mark

unfoldable pub mark : Char → Mark
mark r =
    let n = code r in
    if n == b'('
    then opens parenthesis
    else (if n == b'['
        then opens bracket
        else (if n == b'{'
            then opens brace
            else (if n == b')'
                then closes parenthesis
                else (if n == b']'
                    then closes bracket
                    else (if n == b'}' then closes brace else plain)))))

unfoldable pub marks : String → List Mark
marks String.[] = []
marks (String.◌∷◌ r s) = mark r ∷ marks s

-- The end of the loop: the stack, or the kind of the closing mark that does not match.
pub data Scan : Type 0 where
  ended : List Bracket → Scan
  unbalanced : Bracket → Scan

-- The stack has its top at the head.
unfoldable pub scan : List Mark → List Bracket → Scan
scan [] stack = ended stack
scan (plain ∷ ms) stack = scan ms stack
scan (opens b ∷ ms) stack = scan ms (b ∷ stack)
scan (closes b ∷ ms) [] = unbalanced b
scan (closes b ∷ ms) (top ∷ stack) =
    let rest = scan ms stack in if is_same top b then rest else unbalanced b

abbrev pub unbalanced_text : Bracket → String
unbalanced_text parenthesis = "unbalanced parenthesis in query: %s"
unbalanced_text bracket = "unbalanced bracket in query: %s"
unbalanced_text brace = "unbalanced brace in query: %s"

abbrev pub opening : Bracket → String
opening parenthesis = "("
opening bracket = "["
opening brace = "{"

abbrev pub judge_scan : String → Scan → Option Error
judge_scan query (unbalanced b) = some (errorf (unbalanced_text b) (query ∷ []))
judge_scan query (ended []) = none
judge_scan query (ended (top ∷ stack)) =
    some (errorf "unclosed %c in query: %s" (opening top ∷ query ∷ []))

abbrev pub judge_query : String → Option Error
judge_query query =
    if str_eq query ""
    then some (errorf "empty query" [])
    else judge_scan query (scan (marks query) [])

unfoldable pub validate_promql : String → Option Error
validate_promql query = judge_query (trim_space query)
