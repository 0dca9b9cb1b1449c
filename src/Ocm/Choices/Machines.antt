-- ===== src/Ocm/Choices/Machines.antt =====
-- The region and the machine type that are chosen.
use mathlib.Core.List.{Perm}
use osde2e.Prelude.{
  ℕ, ◌<◌, ◌≤◌, ◌≡◌, refl, ap, ◌∙◌, sym, subst, ◌⊎◌, inl, inr, ◌↔◌, String, Bool, true, false, ◌&&◌,
  Option, none, some, List, [], ◌∷◌, ◌++◌, arith, Bool-cases, any_if, keep_if, some_eq, length,
  str_eq, ◌==◌, ltb, get_elem?_bounded, get_elem?_beyond,
}
use text.Mathlib.TextPositions.{eq_refl}
use osde2e.Go.{Error}
use osde2e.Prelude.Perms.{any_if-perm}
use osde2e.Go.Calls.{Reply, replied, refused, reply_cases, ends, fails, dies, End}
use osde2e.Go.Steps.{Step, bind_end}
use osde2e.Ocm.Provider.{State, list_regions, list_machine_types, called}
use osde2e.Ocm.Listing.{Page}
use osde2e.Ocm.Choices.{
  CloudRegion, ChoiceService, Draws, first, choose_random_region, default_region, determine_region,
  region_or_fail, determine_machine_type, is_drawn, random_type_of, search_string, random_type,
  set_machine_type, chosen_type,
}

any_if-keep_if :
    {A : Type 0} (p q : A → Bool) (xs : List A)
    → any_if p (keep_if q xs) ≡ any_if (λ x. q x && p x) xs
any_if-keep_if p q [] = refl
any_if-keep_if p q (x ∷ xs) = ground (arith, any_if-keep_if p q xs)

-- Whether a region of the list is enabled and has the id.
abbrev pub offers : String → List CloudRegion → Bool
offers id = any_if (λ r. r.enabled && str_eq r.id id)

module _ (cs : ChoiceService) (shuffle : List CloudRegion → List CloudRegion) where
  first-any :
      (p : CloudRegion → Bool) (xs : List CloudRegion) (r : CloudRegion)
      → first xs ≡ some r
      → p r ≡ true
      → any_if p xs ≡ true
  first-any p [] r h t = absurd (ground arith)
  first-any p (x ∷ xs) r h t =
      let e : p x ≡ true = subst (λ y. p y ≡ true) (sym (some_eq h)) t in rw e refl

  first-offers :
      (rs : List CloudRegion) (r : CloudRegion)
      → Perm (shuffle (keep_if (λ x. x.enabled) rs)) (keep_if (λ x. x.enabled) rs)
      → choose_random_region shuffle rs ≡ some r
      → offers r.id rs ≡ true
  first-offers rs r p h =
      sym (any_if-keep_if (λ x. str_eq x.id r.id) (λ x. x.enabled) rs)
      ∙ (sym (any_if-perm (λ x. str_eq x.id r.id) p)
          ∙ first-any (λ x. str_eq x.id r.id) (shuffle (keep_if (λ x. x.enabled) rs)) r h
              (eq_refl r.id))

  region_of-offers :
      (rs : List CloudRegion) (o : Option CloudRegion) (region : String) (s s' : State)
      → Perm (shuffle (keep_if (λ x. x.enabled) rs)) (keep_if (λ x. x.enabled) rs)
      → choose_random_region shuffle rs ≡ o
      → region_or_fail o s ≡ (ends region, s')
      → (s'.settings.region ≡ region) × (offers region rs ≡ true)
  region_of-offers rs none region s s' p c h = absurd cc
  region_of-offers rs (some r) region s s' p c h =
      let it : r.id ≡ region = cc in
      (
        subst (λ x. x.settings.region ≡ region) (ap (λ x. x.1) h) it,
        subst (λ x. offers x rs ≡ true) it (first-offers rs r p c),
      )

  -- A shuffle permutes. When a random region is asked for and the choice ends, the settings have the
  -- region: either the listing failed, and it is the default of the provider, or it is the id of an
  -- enabled region of the listing.
  pub determine_region_lem :
      (provider region : String) (s s' : State)
      → ((xs : List CloudRegion) → Perm (shuffle xs) xs)
      → str_eq s.settings.region "random" ≡ true
      → determine_region cs shuffle provider s ≡ (ends region, s')
      → (s'.settings.region ≡ region)
        × (((e : Error) × (cs.regions (s.calls ++ (list_regions provider ∷ [])) ≡ refused e)
              × (region ≡ default_region provider "random"))
            ⊎ ((rs : List CloudRegion) × (cs.regions (s.calls ++ (list_regions provider ∷ []))
                  ≡ replied rs)
                × (offers region rs ≡ true)))
  unfolding determine_region
  determine_region_lem provider region s s' perm random h =
      elim (reply_cases (cs.regions (s.calls ++ (list_regions provider ∷ [])))) [
        | inl (x, e) ↦
            let k = rw (random, e) at h in
            let it : default_region provider "random" ≡ region = cc in
            (subst (λ z. z.settings.region ≡ region) (ap (λ z. z.1) k) it, inl (x, e, sym it))
        | inr (rs, e) ↦
            let (there, found) =
              region_of-offers rs (choose_random_region shuffle rs) region
                (called (list_regions provider) s) s' (perm (keep_if (λ x. x.enabled) rs)) refl
                (rw (random, e) at h) in
            (there, inr (rs, e, found))
      ]

-- The draw is out of the range of the page, which is not empty.
abbrev pub IsBeyond : ℕ → List String → Type 0
IsBeyond draw items = (0 < length items) × (length items ≤ draw)

random_type_of-dies :
    (items : List String) (total draw : ℕ) (s : State)
    → draw < total
    → ((random_type_of items total draw s).0 ≡ dies) ↔ IsBeyond draw items
random_type_of-dies [] total draw s l = (λ h. absurd cc, λ b. absurd (omega arith))
random_type_of-dies (x ∷ xs) total draw s l =
    let positive : (total == 0) ≡ false = ground arith in
    elim (Bool-cases (ltb draw (length (x ∷ xs)))) [
      | inl p ↦
          let within : draw < length (x ∷ xs) = ground arith in
          let (y, e) = get_elem?_bounded (x ∷ xs) draw within in
          (λ h. absurd (let k = rw (positive, e) at h in cc), λ b. absurd (omega arith))
      | inr p ↦
          let beyond : length (x ∷ xs) ≤ draw = ground arith in
          let e = get_elem?_beyond (x ∷ xs) draw beyond in
          (λ h. (omega arith, beyond), λ b. rw (positive, e) refl)
    ]

-- What comes after a choice ends, so a panic is one of the choice.
bind_dies :
    (r : End String × State) (f : String → Step State String)
    → ((a : String) (z : State) → (b : String) × ((f a z).0 ≡ ends b))
    → ((bind_end r.0 r.1 f).0 ≡ dies) ↔ (r.0 ≡ dies)
bind_dies (ends a, z) f h = (λ k. absurd (let (b, e) = h a z in cc), λ k. absurd cc)
bind_dies (fails e, z) f h = (λ k. absurd cc, λ k. absurd cc)
bind_dies (dies, z) f h = (λ k. refl, λ k. refl)

module _ (cs : ChoiceService) (d : Draws) (provider : String) where
  -- What the search for machine types replies.
  abbrev pub types_reply : State → Reply (Page String)
  types_reply s =
      cs.machine_types (s.calls ++ (list_machine_types (search_string provider s.settings) ∷ []))

  -- The draw is below the total that the listing gives. The choice of a machine type panics exactly
  -- when a random type is asked for, the listing replies a page that is not empty, and the draw is
  -- out of the range of the page, which may have fewer items than the total.
  pub determine_machine_type-dies :
      (s : State)
      → ((p : Page String) → types_reply s ≡ replied p → d.machine_type < p.total)
      → ((determine_machine_type cs d provider s).0 ≡ dies) ↔ (
          (is_drawn d.use_random s.settings ≡ true)
          × ((p : Page String) × (types_reply s ≡ replied p) × IsBeyond d.machine_type p.items))
  unfolding determine_machine_type
  determine_machine_type-dies s below = elim (Bool-cases (is_drawn d.use_random s.settings)) [
    | inr f ↦ (λ h. absurd (let k = rw f at h in cc), λ b. absurd (let t = b.0 in cc))
    | inl t ↦ elim (reply_cases (types_reply s)) [
      | inl (x, e) ↦
          (λ h. absurd (let k = rw (t, e) at h in cc), λ b. absurd (let (p, e', o) = b.1 in cc))
      | inr (p, e) ↦
          let s1 = called (list_machine_types (search_string provider s.settings)) s in
          let (to, back) = random_type_of-dies p.items p.total d.machine_type s1 (below p e) in
          let (out, into) =
            bind_dies (random_type d.machine_type p s1)
              (λ name. set_machine_type (chosen_type s.settings name))
              (λ a z. (chosen_type s.settings a, refl)) in
          (
            λ h. (t, (p, e, to (out (rw (t, e) at h)))),
            λ b.
                let (p', e', o) = b.1 in
                let it : p' ≡ p = cc in
                let o' = subst (λ q. IsBeyond d.machine_type q.items) it o in
                rw (t, e) (into (back o')),
          )
    ]
  ]
