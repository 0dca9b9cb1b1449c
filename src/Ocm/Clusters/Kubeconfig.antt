-- ===== src/Ocm/Clusters/Kubeconfig.antt =====
-- The kubeconfig is fetched once.
use text.Mathlib.TextPositions.{eq_refl}
use osde2e.Prelude.{
  ◌≡◌, refl, ap, ◌∙◌, inl, inr, subst, String, [], ◌∷◌, ◌++◌, true, false, some, Bool-cases,
  Option-cases, str_eq,
}
use osde2e.Prelude.Maps.{lookup, lookup-assign}
use osde2e.Go.Calls.{Reply, ends, reply_cases}
use osde2e.Ocm.Provider.{State, get_credentials}
use osde2e.Ocm.Clusters.{ClusterService, cluster_kubeconfig, cached_kubeconfig}

ends_eq : {a b : String} → ends a ≡ ends b → a ≡ b
ends_eq h = cc

module _ (sv : ClusterService) (file : String → Reply (Reply String)) (id : String) where
  -- The settings and the cache of a state that has the kubeconfig.
  abbrev Has : String → State → Type 0
  Has text s =
      (str_eq s.settings.kubeconfig_path "" ≡ true)
      × (s.settings.kubeconfig_contents ≡ text)
      × (lookup id s.credential_cache ≡ some text)

  abbrev Given : String → State → Type 0
  Given text s =
      (str_eq s.settings.kubeconfig_path "" ≡ true)
      × (str_eq s.settings.kubeconfig_contents "" ≡ false)
      × (s.settings.kubeconfig_contents ≡ text)

  cached_again :
      (s s' : State) (text : String)
      → str_eq s.settings.kubeconfig_path "" ≡ true
      → cached_kubeconfig sv id (lookup id s.credential_cache) s ≡ (ends text, s')
      → Has text s'
  cached_again s s' text p h = elim (Option-cases (lookup id s.credential_cache)) [
    | inr (found, e) ↦
        let k = rw e at h in
        let it : found ≡ text = cc in subst (Has text) (ap (λ r. r.1) k) (p, it, e ∙ ap some it)
    | inl e ↦ elim (reply_cases (sv.kubeconfig (s.calls ++ (get_credentials id ∷ [])))) [
      | inl (x, r) ↦ absurd (let k = rw (e, r) at h in cc)
      | inr (t, r) ↦
          let k = rw (e, r) at h in
          let it : t ≡ text = cc in
          subst (Has text) (ap (λ r. r.1) k) (p, it, rw (lookup-assign, eq_refl id) (ap some it))
    ]
  ]

  again_from :
      (s' : State) (text : String)
      → Has text s'
      → ((cluster_kubeconfig sv file id s').0 ≡ ends text)
        × ((cluster_kubeconfig sv file id s').1.calls ≡ s'.calls)
  unfolding cluster_kubeconfig
  again_from s' text (p, c, l) = elim (Bool-cases (str_eq s'.settings.kubeconfig_contents "")) [
    | inr f ↦ rw (p, f) (ap ends c, refl)
    | inl t ↦ rw (p, t, l) (refl, refl)
  ]

  -- Without a local file: a kubeconfig that was obtained is given again, for the same cluster, and
  -- nothing is asked for it.
  pub cluster_kubeconfig_again :
      (s s' : State) (text : String)
      → str_eq s.settings.kubeconfig_path "" ≡ true
      → cluster_kubeconfig sv file id s ≡ (ends text, s')
      → ((cluster_kubeconfig sv file id s').0 ≡ ends text)
        × ((cluster_kubeconfig sv file id s').1.calls ≡ s'.calls)
  unfolding cluster_kubeconfig
  cluster_kubeconfig_again s s' text p h =
      elim (Bool-cases (str_eq s.settings.kubeconfig_contents "")) [
        | inl t ↦ again_from s' text (cached_again s s' text p (rw (p, t) at h))
        | inr f ↦
            let k : (ends s.settings.kubeconfig_contents, s) ≡ (ends text, s') = rw (p, f) at h in
            let it : s.settings.kubeconfig_contents ≡ text = ends_eq (ap (λ r. r.0) k) in
            let (path, filled, same) : Given text s' =
              subst (Given text) (ap (λ r. r.1) k) (p, f, it) in
            rw (path, filled) (ap ends same, refl)
      ]
