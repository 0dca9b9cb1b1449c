-- ===== src/Ocm/Description/Zones.antt =====
-- The availability zones of a new cluster, and the image sources.
use text.Mathlib.TextEquality.{eq_iff}
use osde2e.Prelude.{
  ℕ, ◌&&◌, ◌∙◌, count_if, count_if-append, any_if, ◌≡◌, refl, inl, inr, ap, String, Bool, true,
  false, ◌||◌, List, [], ◌∷◌, arith, Bool-cases, if◌then◌else◌, fold, str_eq,
}
use osde2e.Prelude.Maps.{lookup, lookup-assign}
use osde2e.Ocm.Description.{
  Subnetwork, Zones, is_collected, match_subnet, add_zone, get_availability_zones,
  choose_image_source, cluster_image_sources, text_or_empty,
}

-- A choice that is random, or none, has no image source: the text of the first source is looked up
-- as if it were a name. Any other choice has the source of that name, or none.
pub choose_image_source_lem :
    (choice : String)
    → choose_image_source choice ≡ (
        if str_eq choice "random" || str_eq choice ""
        then ""
        else text_or_empty (lookup choice cluster_image_sources))
unfolding choose_image_source lookup
choose_image_source_lem choice = elim (Bool-cases (str_eq choice "random" || str_eq choice "")) [
  | inl e ↦ rw e refl
  | inr e ↦ rw e refl
]

abbrev pub bit : Bool → ℕ
bit true = 1
bit false = 0

abbrev pub times : String → List String → ℕ
times zone = count_if (λ z. str_eq z zone)

abbrev pub is_in : String → Subnetwork → String → Bool
is_in zone n id = str_eq n.subnet_id id && str_eq n.availability_zone zone

-- Whether a subnet of the zone is among the configured ones.
abbrev pub is_used : String → List String → Subnetwork → Bool
is_used zone ids n = any_if (is_in zone n) ids

abbrev collected : String → Zones → Bool
collected zone z = is_collected (lookup zone z.0)

-- The map has the zones of the list, and each is in the list once.
abbrev Agrees : String → Zones → Type 0
Agrees zone z = times zone z.1 ≡ bit (collected zone z)

match_subnet-collected :
    (zone : String) (n : Subnetwork) (z : Zones) (id : String)
    → collected zone (match_subnet n z id) ≡ (collected zone z || is_in zone n id)
match_subnet-collected zone n z id =
    ground (arith, eq_iff n.availability_zone zone, lookup-assign n.availability_zone zone true z.0)

match_subnet-Agrees :
    (zone : String) (n : Subnetwork) (z : Zones) (id : String)
    → Agrees zone z
    → Agrees zone (match_subnet n z id)
match_subnet-Agrees zone n z id h = ground (
  arith,
  eq_iff n.availability_zone zone,
  lookup-assign n.availability_zone zone true z.0,
  count_if-append (λ x. str_eq x zone) z.1 (n.availability_zone ∷ []),
)

ids-collected :
    (zone : String) (n : Subnetwork) (z : Zones) (ids : List String)
    → collected zone (fold (match_subnet n) z ids) ≡ (collected zone z || is_used zone ids n)
ids-collected zone n z [] = ground arith
ids-collected zone n z (id ∷ ids) =
    ids-collected zone n (match_subnet n z id) ids
    ∙ ground (arith, match_subnet-collected zone n z id)

ids-Agrees :
    (zone : String) (n : Subnetwork) (z : Zones) (ids : List String)
    → Agrees zone z
    → Agrees zone (fold (match_subnet n) z ids)
ids-Agrees zone n z [] h = h
ids-Agrees zone n z (id ∷ ids) h =
    ids-Agrees zone n (match_subnet n z id) ids (match_subnet-Agrees zone n z id h)

zones-collected :
    (zone : String) (ids : List String) (z : Zones) (ns : List Subnetwork)
    → collected zone (fold (add_zone ids) z ns) ≡ (collected zone z || any_if (is_used zone ids) ns)
zones-collected zone ids z [] = ground arith
zones-collected zone ids z (n ∷ ns) =
    zones-collected zone ids (add_zone ids z n) ns ∙ ground (arith, ids-collected zone n z ids)

zones-Agrees :
    (zone : String) (ids : List String) (z : Zones) (ns : List Subnetwork)
    → Agrees zone z
    → Agrees zone (fold (add_zone ids) z ns)
zones-Agrees zone ids z [] h = h
zones-Agrees zone ids z (n ∷ ns) h =
    zones-Agrees zone ids (add_zone ids z n) ns (ids-Agrees zone n z ids h)

-- A zone is among the zones of a new cluster exactly once when it is the zone of a subnet that is
-- configured, and else it is not.
pub get_availability_zones_lem :
    (ns : List Subnetwork) (ids : List String) (zone : String)
    → times zone (get_availability_zones ns ids) ≡ bit (any_if (is_used zone ids) ns)
unfolding get_availability_zones lookup
get_availability_zones_lem ns ids zone =
    zones-Agrees zone ids ([], []) ns refl ∙ ap bit (zones-collected zone ids ([], []) ns)
