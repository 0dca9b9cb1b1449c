-- ===== src/Cluster/Names/Bounds.antt =====
-- The lengths of the names of `clusterName`.
use osde2e.Prelude.{
  ℕ, ◌<◌, ◌≤◌, ◌+◌, ◌≡◌, refl, zero, suc, inl, inr, sym, ◌∙◌, String, Bool, true, false, some, List,
  [], ◌∷◌, ◌++◌, ◌&&◌, arith, concat, byte_length, get_elem?, get_elem?_bounded, get_elem?-All, All,
  ltb, leb, Bool-cases, byte_length-concat, length,
}
use osde2e.Cluster.Names.{
  Draw, InRange, name_prefixes, names, name_suffixes, with_prefix, with_suffix, new_name,
  random_name,
}

-- At most that many characters.
abbrev UpTo : ℕ → String → Type 0
UpTo n s = byte_length s ≤ n

all_up_to : ℕ → List String → Bool
all_up_to n [] = true
all_up_to n (s ∷ ss) = leb (byte_length s) n && all_up_to n ss

All-UpTo : (n : ℕ) (ss : List String) → all_up_to n ss ≡ true → All (UpTo n) ss
unfolding all_up_to
All-UpTo n [] h = tt
All-UpTo n (s ∷ ss) h =
    let here : leb (byte_length s) n ≡ true = ground arith in
    let there : all_up_to n ss ≡ true = ground arith in (ground arith, All-UpTo n ss there)

short_names : All (UpTo 11) names
unfolding all_up_to
short_names = All-UpTo 11 names refl

short_prefixes : All (UpTo 4) name_prefixes
unfolding all_up_to
short_prefixes = All-UpTo 4 name_prefixes refl

-- All but the last one.
abbrev short_suffixes : List String
short_suffixes = "0" ∷ "1" ∷ "2" ∷ "3" ∷ "5" ∷ "8" ∷ "13" ∷ "temp" ∷ []

get_elem?-append :
    {A : Type 0} (xs ys : List A) (i : ℕ) → i < length xs → get_elem? (xs ++ ys) i ≡ get_elem? xs i
get_elem?-append [] ys i h = absurd (omega arith)
get_elem?-append (x ∷ xs) ys zero h = refl
get_elem?-append (x ∷ xs) ys (suc i) h = get_elem?-append xs ys i (omega arith)

short_suffix : (i : ℕ) {s : String} → i < 8 → get_elem? name_suffixes i ≡ some s → byte_length s ≤ 4
unfolding all_up_to
short_suffix i h e =
    get_elem?-All (UpTo 4) short_suffixes i (All-UpTo 4 short_suffixes refl)
      (sym (get_elem?-append short_suffixes ("final" ∷ []) i h) ∙ e)

-- The length of two texts and the dash between them.
dashed :
    (a b : String) → byte_length (concat (a ∷ "-" ∷ b ∷ [])) ≡ byte_length a + 1 + byte_length b
dashed a b = omega (
  arith,
  byte_length-concat a ("-" ∷ b ∷ []),
  byte_length-concat "-" (b ∷ []),
  byte_length-concat b [],
)

with_prefix_bound :
    (d : Draw) (name : String)
    → d.name_prefix < 7
    → byte_length name ≤ 11
    → (p : String) × (with_prefix d name ≡ some p) × (byte_length p ≤ 15)
with_prefix_bound d name h short =
    elim (Bool-cases (ltb 0 d.do_prefix && leb (byte_length name) 10)) [
      | inr f ↦ (name, rw f refl, omega arith)
      | inl t ↦
          let (p, e) = get_elem?_bounded name_prefixes d.name_prefix h in
          let small : byte_length name ≤ 10 = ground arith in
          let bound : byte_length p ≤ 4 =
            get_elem?-All (UpTo 4) name_prefixes d.name_prefix short_prefixes e in
          (concat (p ∷ "-" ∷ name ∷ []), rw (t, e) refl, omega (arith, dashed p name))
    ]

with_suffix_bound :
    (d : Draw) (name : String)
    → d.name_suffix < 9
    → byte_length name ≤ 15
    → (n : String) × (with_suffix d name ≡ some n) × (d.name_suffix < 8 → byte_length n ≤ 15)
with_suffix_bound d name h short =
    elim (Bool-cases (ltb 0 d.do_suffix && leb (byte_length name) 10)) [
      | inr f ↦ (name, rw f refl, λ g. short)
      | inl t ↦
          let (s, e) = get_elem?_bounded name_suffixes d.name_suffix h in
          let small : byte_length name ≤ 10 = ground arith in
          (
            concat (name ∷ "-" ∷ s ∷ []),
            rw (t, e) refl,
            λ g. let bound = short_suffix d.name_suffix g e in omega (arith, dashed name s),
          )
    ]

new_name_bound :
    (d : Draw)
    → InRange d
    → (n : String) × (new_name d ≡ some n) × (d.name_suffix < 8 → byte_length n ≤ 15)
unfolding new_name
new_name_bound d r =
    let (name, e) = get_elem?_bounded names d.name r.name in
    let short = get_elem?-All (UpTo 11) names d.name short_names e in
    let (p, ep, sp) = with_prefix_bound d name r.name_prefix short in
    let (n, en, sn) = with_suffix_bound d p r.name_suffix sp in (n, rw (e, ep) en, sn)

-- With draws that are in range, the calls end once one does not draw the last suffix, whatever was
-- drawn before it, and the name has at most 15 characters.
pub random_name_ends :
    (before : List Draw) (d : Draw) (after : List Draw)
    → All InRange before
    → InRange d
    → d.name_suffix < 8
    → (n : String) × (random_name (before ++ (d ∷ after)) ≡ some n) × (byte_length n ≤ 15)
unfolding random_name
random_name_ends [] d after hs h last =
    let (n, e, short) = new_name_bound d h in
    let small : byte_length n ≤ 15 = short last in
    let passes : ltb 15 (byte_length n) ≡ false = ground arith in (n, rw (e, passes) refl, small)
random_name_ends (b ∷ bs) d after hs h last =
    let (n, e, short) = new_name_bound b hs.0 in
    elim (Bool-cases (ltb 15 (byte_length n))) [
      | inl t ↦ let (m, em, sm) = random_name_ends bs d after hs.1 h last in (m, rw (e, t) em, sm)
      | inr f ↦ (n, rw (e, f) refl, ground arith)
    ]
