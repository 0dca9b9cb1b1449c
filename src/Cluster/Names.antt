-- ===== src/Cluster/Names.antt =====
-- `clusterName` of pkg/common/cluster/clusterutil.go and `RandomStr` of pkg/common/util/util.go. A
-- call of `rand.Intn` is a number of the draws; the calls that `clusterName` makes until a name is
-- short enough are a list of draws.
pub mod Bounds
use osde2e.Prelude.{
  ℕ, ◌<◌, ◌≤◌, String, Bool, Option, none, some, List, [], ◌∷◌, ◌&&◌, concat, byte_length,
  get_elem?, if◌then◌else◌, str_eq, ltb, leb,
}
use osde2e.Prelude.Options.{◌>>=◌, ◌>>◌}

abbrev pub name_prefixes : List String
name_prefixes = "prod" ∷ "stg" ∷ "int" ∷ "p" ∷ "i" ∷ "s" ∷ "pre" ∷ []

abbrev pub names : List String
names =
    "app" ∷ "db" ∷ "cache" ∷ "ocp" ∷ "openshift" ∷ "store" ∷ "control" ∷ "swap" ∷ "testing"
    ∷ "application" ∷ "user" ∷ "customer" ∷ "cust" ∷ "osd" ∷ "dedicated" ∷ []

abbrev pub name_suffixes : List String
name_suffixes = "0" ∷ "1" ∷ "2" ∷ "3" ∷ "5" ∷ "8" ∷ "13" ∷ "temp" ∷ "final" ∷ []

-- The `rand.Intn` calls for one new name, in their order; the ones for the prefix and the suffix are
-- made only if they are used.
pub record Draw : Type 0 where
  pub do_prefix : ℕ
  pub do_suffix : ℕ
  pub name : ℕ
  pub name_prefix : ℕ
  pub name_suffix : ℕ

-- Go's `rand.Intn(n)` is less than `n`.
pub record InRange (d : Draw) : Type 0 where
  pub name : d.name < 15
  pub name_prefix : d.name_prefix < 7
  pub name_suffix : d.name_suffix < 9

abbrev pub with_prefix : Draw → String → Option String
with_prefix d name =
    if ltb 0 d.do_prefix && leb (byte_length name) 10
    then elim (get_elem? name_prefixes d.name_prefix) [
      | none ↦ none
      | some p ↦ some (concat (p ∷ "-" ∷ name ∷ []))
    ]
    else some name

abbrev pub with_suffix : Draw → String → Option String
with_suffix d name =
    if ltb 0 d.do_suffix && leb (byte_length name) 10
    then elim (get_elem? name_suffixes d.name_suffix) [
      | none ↦ none
      | some s ↦ some (concat (name ∷ "-" ∷ s ∷ []))
    ]
    else some name

-- A number that is out of range has no name; Go's are in range.
unfoldable pub new_name : Draw → Option String
new_name d = do name ← get_elem? names d.name; prefixed ← with_prefix d name; with_suffix d prefixed

-- The branch of the name "random", with one draw for each call of `clusterName`.
unfoldable pub random_name : List Draw → Option String
random_name [] = none
random_name (d ∷ ds) =
    let rest = random_name ds in
    new_name d >>= λ name. if ltb 15 (byte_length name) then rest else some name

abbrev pub chars : List String
chars =
    "0" ∷ "1" ∷ "2" ∷ "3" ∷ "4" ∷ "5" ∷ "6" ∷ "7" ∷ "8" ∷ "9" ∷ "a" ∷ "b" ∷ "c" ∷ "d" ∷ "e" ∷ "f"
    ∷ "g" ∷ "h" ∷ "i" ∷ "j" ∷ "k" ∷ "l" ∷ "m" ∷ "n" ∷ "o" ∷ "p" ∷ "q" ∷ "r" ∷ "s" ∷ "t" ∷ "u" ∷ "v"
    ∷ "w" ∷ "x" ∷ "y" ∷ "z" ∷ []

-- `RandomStr`, whose length is the number of draws.
unfoldable pub random_str : List ℕ → Option String
random_str [] = some ""
random_str (i ∷ is) = do rest ← random_str is; c ← get_elem? chars i; some (concat (c ∷ rest ∷ []))

-- What `rand.Intn` gives to one call of `clusterName` and the calls that it makes.
pub record NameDraws : Type 0 where
  pub draws : List Draw
  pub suffix : List ℕ

unfoldable pub cluster_name : String → String → NameDraws → Option String
cluster_name name suffix r =
    if str_eq name "random"
    then random_name r.draws
    else (if str_eq suffix ""
        then (random_str r.suffix >>= λ s. some (concat ("osde2e-" ∷ s ∷ [])))
        else some (concat ("osde2e-" ∷ suffix ∷ [])))
