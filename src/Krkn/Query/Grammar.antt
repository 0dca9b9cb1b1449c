-- ===== src/Krkn/Query/Grammar.antt =====
-- The queries that `validatePromQL` lets pass, as a grammar.
use Prim.Native.String.{String}
use osde2e.Prelude.{
  ◌≡◌, refl, ap, sym, subst, ◌∙◌, ◌↔◌, inl, inr, true, false, none, List, [], ◌∷◌, ◌++◌, str_eq,
  Bool-cases, append_nil, append_assoc,
}
use osde2e.Prelude.Spaces.{trim_space}
use osde2e.Krkn.Query.{
  Bracket, parenthesis, bracket, brace, is_same, Mark, opens, closes, plain, marks, Scan, ended,
  unbalanced, scan, judge_scan, validate_promql,
}

-- Text whose brackets are closed in the right order.
pub data Balanced : List Mark → Type 0 where
  nothing : Balanced []
  mark_then : {ms : List Mark} → Balanced ms → Balanced (plain ∷ ms)
  pair_then :
      (b : Bracket) {ms ns : List Mark}
      → Balanced ms
      → Balanced ns
      → Balanced (opens b ∷ (ms ++ (closes b ∷ ns)))

is_same_refl : (b : Bracket) → is_same b b ≡ true
is_same_refl parenthesis = refl
is_same_refl bracket = refl
is_same_refl brace = refl

is_same_eq : (a b : Bracket) → is_same a b ≡ true → a ≡ b
is_same_eq parenthesis parenthesis h = refl
is_same_eq bracket bracket h = refl
is_same_eq brace brace h = refl
is_same_eq parenthesis bracket h = absurd (cc)
is_same_eq parenthesis brace h = absurd (cc)
is_same_eq bracket parenthesis h = absurd (cc)
is_same_eq bracket brace h = absurd (cc)
is_same_eq brace parenthesis h = absurd (cc)
is_same_eq brace bracket h = absurd (cc)

-- A balanced text leaves the stack as it was.
scan-Balanced :
    {ms : List Mark} (rest : List Mark) (stack : List Bracket)
    → Balanced ms
    → scan (ms ++ rest) stack ≡ scan rest stack
unfolding scan
scan-Balanced rest stack nothing = refl
scan-Balanced rest stack (mark_then h) = scan-Balanced rest stack h
scan-Balanced rest stack (pair_then b {ms} {ns} h k) =
    let inner = scan-Balanced (closes b ∷ (ns ++ rest)) (b ∷ stack) h in
    let outer = scan-Balanced rest stack k in
    rw (append_assoc ms (closes b ∷ ns) rest) (inner ∙ rw (is_same_refl b) outer)

-- Text that closes what is on the stack.
abbrev ClosesAll : List Mark → List Bracket → Type 0
ClosesAll ms [] = Balanced ms
ClosesAll ms (b ∷ stack) =
    (pre : List Mark) × (post : List Mark) × (ms ≡ pre ++ (closes b ∷ post))
    × Balanced pre
    × ClosesAll post stack

closes_behind :
    (front ms : List Mark) (stack : List Bracket)
    → ((ns : List Mark) → Balanced ns → Balanced (front ++ ns))
    → ClosesAll ms stack
    → ClosesAll (front ++ ms) stack
closes_behind front ms [] grows h = grows ms h
closes_behind front ms (b ∷ stack) grows (pre, post, e, h, k) = (
  front ++ pre,
  post,
  ap (λ xs. front ++ xs) e ∙ sym (append_assoc front pre (closes b ∷ post)),
  grows pre h,
  k,
)

scan-ClosesAll :
    (ms : List Mark) (stack : List Bracket) → scan ms stack ≡ ended [] → ClosesAll ms stack
unfolding scan
scan-ClosesAll [] [] h = nothing
scan-ClosesAll [] (b ∷ stack) h = absurd (cc)
scan-ClosesAll (plain ∷ ms) stack h =
    closes_behind (plain ∷ []) ms stack (λ ns k. mark_then k) (scan-ClosesAll ms stack h)
scan-ClosesAll (opens b ∷ ms) stack h =
    let (pre, post, e, k, l) = scan-ClosesAll ms (b ∷ stack) h in
    let front = opens b ∷ (pre ++ (closes b ∷ [])) in
    let grows : (ns : List Mark) → Balanced ns → Balanced (front ++ ns) =
      λ ns m. rw (append_assoc pre (closes b ∷ []) ns) (pair_then b k m) in
    let same : front ++ post ≡ opens b ∷ ms =
      ap (λ xs. opens b ∷ xs) (append_assoc pre (closes b ∷ []) post ∙ sym e) in
    subst (λ xs. ClosesAll xs stack) same (closes_behind front post stack grows l)
scan-ClosesAll (closes b ∷ ms) [] h = absurd (cc)
scan-ClosesAll (closes b ∷ ms) (top ∷ stack) h = elim (Bool-cases (is_same top b)) [
  | inl t ↦ ([], ms, rw (is_same_eq top b t) refl, nothing, scan-ClosesAll ms stack (rw t at h))
  | inr f ↦ absurd (let k = rw f at h in cc)
]

judge_scan-none : (query : String) (s : Scan) → judge_scan query s ≡ none → s ≡ ended []
judge_scan-none query (unbalanced b) h = absurd (cc)
judge_scan-none query (ended []) h = refl
judge_scan-none query (ended (b ∷ stack)) h = absurd (cc)

-- A query passes exactly when, without the space around it, it is not empty and its parentheses,
-- brackets and braces are closed in the right order, as the grammar says.
pub validate_promql_lem :
    (query : String)
    → (validate_promql query ≡ none)
      ↔ ((str_eq (trim_space query) "" ≡ false) × Balanced (marks (trim_space query)))
unfolding validate_promql scan
validate_promql_lem query =
    let text = trim_space query in
    (
      λ h. elim (Bool-cases (str_eq text "")) [
        | inl t ↦ absurd (let k = rw t at h in cc)
        | inr f ↦ (
          f,
          scan-ClosesAll (marks text) [] (judge_scan-none text (scan (marks text) []) (rw f at h)),
        )
      ],
      λ k.
          let whole = scan-Balanced [] [] k.1 in
          let done : scan (marks text) [] ≡ ended [] = rw (append_nil (marks text)) at whole in
          rw (k.0, done) refl,
    )
