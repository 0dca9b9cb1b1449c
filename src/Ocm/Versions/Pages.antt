-- ===== src/Ocm/Versions/Pages.antt =====
-- The versions that `Versions` gives when the endpoint serves a list in pages.
use mathlib.Core.List.{Perm}
use mathlib.Core.List.Perm
use osde2e.Prelude.{
  ◌≡◌, refl, ap, sym, subst, ◌∙◌, inl, inr, ℕ, zero, suc, ◌+◌, ◌-◌, ◌*◌, ◌≤◌, arith, String, Bool,
  true, Option, none, some, List, [], ◌∷◌, ◌++◌, map, fold, length, if◌then◌else◌, leb, Bool-cases,
  append_nil, append_assoc,
}
use osde2e.Prelude.Slices.{
  take, drop, take-all, take-drop, length-drop, drop-drop, fold-append, map-append,
}
use osde2e.Prelude.Sorting.{SortLaws, IsWeakOrder, IsSorted}
use osde2e.Go.Calls.{Reply, replied}
use osde2e.Semver.{Semver, SemverLaws}
use osde2e.Spi.Version.{Version, VersionList, Ptr, can_upgrade_to, add_upgrade_path, build}
use osde2e.Versions.Selector.{openshift_version_to_semver}
use osde2e.Ocm.Versions.{
  Item, Page, Listing, page_size, add_target, add_upgrade, add_upgrades, add_parsed, built,
  is_offered, add_item, list_pages, newer_first, new_listing, versions,
}

-- An endpoint that serves the list in pages, the first of which is page 1.
abbrev pub served : List Item → ℕ → Reply Page
served all page =
    replied
      (record { items = take page_size (drop ((page - 1) * page_size) all); total = length all })

page_items :
    (k : ℕ) (all : List Item)
    → take page_size (drop ((suc k - 1) * page_size) all)
      ≡ take page_size (drop (k * page_size) all)
page_items k all =
    let before : suc k - 1 ≡ k = omega arith in
    ap (λ n. take page_size (drop (n * page_size) all)) before

last_page :
    (k : ℕ) (all : List Item)
    → length all ≤ suc k * page_size
    → take page_size (drop ((suc k - 1) * page_size) all) ≡ drop (k * page_size) all
last_page k all few =
    let here = drop (k * page_size) all in
    let short : length here ≤ page_size = omega (arith, length-drop (k * page_size) all) in
    page_items k all ∙ take-all page_size here short

abbrev pub offered_one : {V : Type 0} → String → Item → Option V → List V
offered_one channel i none = []
offered_one channel i (some parsed) = if is_offered channel i then parsed ∷ [] else []

module _ {V : Type 0} ⦃sv : Semver V⦄ (channel : String) where
  -- The listed version of an enabled item of the stable channel or the channel that is set, for every
  -- item whose id can be read.
  abbrev pub offered_versions : List Item → List V
  offered_versions [] = []
  offered_versions (i ∷ is) =
      offered_one channel i (openshift_version_to_semver i.id) ++ offered_versions is

  rest_of_page :
      (k : ℕ) (all : List Item) (l : Listing V)
      → fold
          (add_item channel)
          (fold (add_item channel) l (take page_size (drop (k * page_size) all)))
          (drop (suc k * page_size) all)
        ≡ fold (add_item channel) l (drop (k * page_size) all)
  rest_of_page k all l =
      let here = drop (k * page_size) all in
      let next : drop page_size here ≡ drop (suc k * page_size) all =
        drop-drop page_size (k * page_size) all ∙ ap (λ n. drop n all) (omega arith) in
      rw (sym next) (
        sym (fold-append (add_item channel) l (take page_size here) (drop page_size here))
        ∙ ap (fold (add_item channel) l) (take-drop page_size here))

  list_pages-served :
      (fuel k : ℕ) (all : List Item) (l : Listing V)
      → length all ≤ (suc k + fuel) * page_size
      → list_pages channel (suc fuel) (suc k) (served all) l
        ≡ some (replied (fold (add_item channel) l (drop (k * page_size) all)))
  unfolding list_pages
  list_pages-served zero k all l h =
      let few : length all ≤ suc k * page_size = omega arith in
      let t : leb (length all) (suc k * page_size) ≡ true = ground arith in
      rw (t, last_page k all few) refl
  list_pages-served (suc fuel) k all l h =
      elim (Bool-cases (leb (length all) (suc k * page_size))) [
        | inl t ↦
            let few : length all ≤ suc k * page_size = ground arith in
            rw (t, last_page k all few) refl
        | inr f ↦
            let l2 = fold (add_item channel) l (take page_size (drop (k * page_size) all)) in
            let rest = list_pages-served fuel (suc k) all l2 (omega arith) in
            rw (f, page_items k all) (rest ∙ ap (λ x. some (replied x)) (rest_of_page k all l))
      ]

  add_upgrade_path-version :
      (v : Version V) (p : Ptr V) → (add_upgrade_path v p).version ≡ v.version
  unfolding add_upgrade_path
  add_upgrade_path-version v p = elim (Bool-cases (can_upgrade_to v p)) [
    | inl t ↦ rw t refl
    | inr f ↦ rw f refl
  ]

  add_target-version :
      (address : ℕ) (v : Version V) (target : Option V)
      → (add_target channel address v target).version ≡ v.version
  add_target-version address v none = refl
  add_target-version address v (some target) =
      add_upgrade_path-version v (record { address = address; target = target })

  build-version : (v : V) (d : Bool) → (build v d none).version ≡ v
  unfolding build
  build-version v d = refl

  add_upgrade-version :
      (address : ℕ) (v : Version V) (u : String)
      → (add_upgrade channel address v u).version ≡ v.version
  add_upgrade-version address v u = add_target-version address v (openshift_version_to_semver u)

  add_upgrades-version :
      (address : ℕ) (v : Version V) (us : List String)
      → (add_upgrades channel address v us).version ≡ v.version
  unfolding add_upgrades
  add_upgrades-version address v [] = refl
  add_upgrades-version address v (u ∷ us) =
      add_upgrades-version (suc address) (add_upgrade channel address v u) us
      ∙ add_upgrade-version address v u

  abbrev pub version_of : Version V → V
  version_of v = v.version

  add_parsed-offered :
      (l : Listing V) (i : Item) (parsed : Option V)
      → map version_of (add_parsed channel l i parsed).versions
        ≡ map version_of l.versions ++ offered_one channel i parsed
  add_parsed-offered l i none = sym (append_nil (map version_of l.versions))
  add_parsed-offered l i (some parsed) = elim (Bool-cases (is_offered channel i)) [
    | inr f ↦ rw f (sym (append_nil (map version_of l.versions)))
    | inl t ↦
        let named : (built channel l i parsed).version ≡ parsed =
          add_upgrades-version l.next_address (build parsed i.is_default none) i.available_upgrades
          ∙ build-version parsed i.is_default in
        rw t (
          map-append version_of l.versions (built channel l i parsed ∷ [])
          ∙ ap (λ x. map version_of l.versions ++ (x ∷ [])) named)
  ]

  fold-offered :
      (l : Listing V) (is : List Item)
      → map version_of (fold (add_item channel) l is).versions
        ≡ map version_of l.versions ++ offered_versions is
  unfolding add_item
  fold-offered l [] = sym (append_nil (map version_of l.versions))
  fold-offered l (i ∷ is) =
      let one = add_parsed-offered l i (openshift_version_to_semver i.id) in
      let rest = offered_versions is in
      fold-offered (add_item channel l i) is
      ∙ ap (λ x. x ++ rest) one
      ∙ append_assoc (map version_of l.versions)
          (offered_one channel i (openshift_version_to_semver i.id)) rest

  newer_first-IsWeakOrder : SemverLaws sv → IsWeakOrder (newer_first {V = V} channel)
  newer_first-IsWeakOrder laws = record {
    asymmetric = λ a b h.
        let less : sv.less_than b.version a.version ≡ true =
          sym (laws.greater a.version b.version) ∙ h in
        laws.greater b.version a.version ∙ laws.weak.asymmetric b.version a.version less;
    incomparable = λ a b c h k.
        laws.greater a.version c.version
        ∙ laws.weak.incomparable c.version b.version a.version
            (sym (laws.greater b.version c.version) ∙ k)
            (sym (laws.greater a.version b.version) ∙ h);
  }

  -- By the laws of the semver library, and with a sort that permutes a list and orders it: when the
  -- endpoint serves a list in pages, and the fuel allows enough of them for its length, `Versions`
  -- ends without an error. The list that it returns has the version of every item that is enabled, in
  -- the stable channel or the one that is set, and can be read, as often as the endpoint serves it and
  -- no others, and no version of it stands before a newer one.
  pub versions_lem :
      (sort_slice : (Version V → Version V → Bool) → List (Version V) → List (Version V))
      → SortLaws sort_slice
      → SemverLaws sv
      → (fuel : ℕ) (all : List Item) → length all ≤ suc fuel * page_size
      → (vl : VersionList V) × (versions channel sort_slice (suc fuel) (served all)
          ≡ some (replied vl))
        × Perm (map version_of vl.available_versions) (offered_versions all)
        × IsSorted (newer_first channel) vl.available_versions
  unfolding versions
  versions_lem sort_slice sort laws fuel all h =
      let listing = fold (add_item channel) (new_listing channel) all in
      let sorted = sort_slice (newer_first channel) listing.versions in
      let pages : list_pages channel (suc fuel) 1 (served all) (new_listing channel)
          ≡ some (replied listing) =
        list_pages-served fuel zero all (new_listing channel) (omega arith) in
      let same : map version_of listing.versions ≡ offered_versions all =
        fold-offered (new_listing channel) all in
      (
        record { available_versions = sorted; default_version_override = none },
        rw pages refl,
        subst (λ xs. Perm (map version_of sorted) xs) same
            (Perm.map version_of (sort.permutes (newer_first channel) listing.versions)),
        sort.sorts (newer_first channel) listing.versions (newer_first-IsWeakOrder laws),
      )
