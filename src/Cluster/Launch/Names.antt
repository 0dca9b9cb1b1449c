-- ===== src/Cluster/Launch/Names.antt =====
-- The `LaunchCluster` calls of `ProvisionCluster`.
use osde2e.Prelude.{
  ℕ, zero, suc, ◌≤◌, ◌+◌, ◌≡◌, refl, sym, ◌⊎◌, inl, inr, arith, String, Bool, true, false, some,
  List, [], ◌∷◌, ◌++◌, All, All-append, append_nil, append_assoc, ap, ◌∙◌, Bool-cases, Option-cases,
  str_eq, leb,
}
use osde2e.Go.Calls.{reply_cases, ends}
use osde2e.Go.Steps.{bind_keeps, ◌>>=◌}
use osde2e.Cluster.Config.{
  ClusterConfig, World, Call, made, set_config, launch_cluster, query_reserve,
  is_valid_cluster_name, get_cluster,
}
use osde2e.Cluster.Names.{cluster_name}
use osde2e.Cluster.Launch.{
  LaunchReplies, accepted, find_name, attempt_limit, is_unnamed, is_claiming, choose_name,
  claimed_id, check_reserve, get_launched, launch, obtain, provision_cluster,
}

abbrev is_launch : Call → Bool
is_launch (launch_cluster name) = true
is_launch c = false

abbrev IsQuiet : Call → Type 0
IsQuiet c = is_launch c ≡ false

-- The name of one of the ten attempts, which the provider found valid.
abbrev pub IsAttempted : LaunchReplies → ClusterConfig → String → Type 0
IsAttempted r c name =
    (k : ℕ) × (1 ≤ k)
    × (k ≤ 10)
    × (accepted (r.attempts k).is_valid ≡ true)
    × (cluster_name c.name c.suffix (r.attempts k).name_draws ≡ some name)

-- The name that is set, or that of an attempt.
abbrev pub IsChosen : LaunchReplies → ClusterConfig → String → Type 0
IsChosen r c name =
    ((is_unnamed c ≡ false) × (name ≡ c.name)) ⊎ ((is_unnamed c ≡ true) × IsAttempted r c name)

abbrev Quiet : World → Type 0
Quiet w = All IsQuiet w.calls

Quiet-made : (c : Call) (w : World) → IsQuiet c → Quiet w → Quiet (made c w)
Quiet-made c w q h = All-append IsQuiet w.calls (c ∷ []) h (q, tt)

module _ (r : LaunchReplies) (c : ClusterConfig) where
  find_name-Quiet : (n k : ℕ) (w : World) → Quiet w → Quiet (find_name n k r.attempts c w).1
  unfolding find_name
  find_name-Quiet zero k w h = h
  find_name-Quiet (suc n) k w h =
      elim (Option-cases (cluster_name c.name c.suffix (r.attempts k).name_draws)) [
        | inl e ↦ rw (e, find_name) h
        | inr (name, e) ↦
            let next = Quiet-made (is_valid_cluster_name name) w refl h in
            elim (Bool-cases (accepted (r.attempts k).is_valid)) [
              | inl t ↦ rw (e, t, find_name) next
              | inr f ↦
                  rw (e, f, find_name)
                    (find_name-Quiet n (suc k) (made (is_valid_cluster_name name) w) next)
            ]
      ]

  find_name-IsAttempted :
      (n k : ℕ) (w : World) {name : String}
      → 1 ≤ k
      → k + n ≤ 11
      → (find_name n k r.attempts c w).0 ≡ ends name
      → IsAttempted r c name
  unfolding find_name
  find_name-IsAttempted zero k w low high h = absurd (cc)
  find_name-IsAttempted (suc n) k w {name} low high h =
      elim (Option-cases (cluster_name c.name c.suffix (r.attempts k).name_draws)) [
        | inl e ↦ absurd (let k = rw (e, find_name) at h in cc)
        | inr (made_up, e) ↦ elim (Bool-cases (accepted (r.attempts k).is_valid)) [
          | inl t ↦
              let ended = rw (e, t, find_name) at h in
              let same : made_up ≡ name = cc in (k, low, omega arith, t, e ∙ ap (λ s. some s) same)
          | inr f ↦
              find_name-IsAttempted n (suc k) (made (is_valid_cluster_name made_up) w) (omega arith)
                (omega arith) (rw (e, f, find_name) at h)
        ]
      ]

  -- No cluster was launched, or one was, with a name that is right.
  abbrev pub LaunchedOnce : World → Type 0
  LaunchedOnce w =
      Quiet w
      ⊎ ((before : List Call) × (name : String) × (after : List Call) × (w.calls
            ≡ before ++ (launch_cluster name ∷ after))
          × All IsQuiet before
          × All IsQuiet after
          × IsChosen r c name)

  claimed_id-Quiet : (w : World) → Quiet w → Quiet (claimed_id r c w).1
  claimed_id-Quiet w h = elim (Bool-cases (is_claiming c)) [
    | inl t ↦ rw t (All-append IsQuiet w.calls _ h (refl, tt))
    | inr f ↦ rw f h
  ]

  check_reserve-Quiet : (w : World) → Quiet w → Quiet (check_reserve r c w).1
  check_reserve-Quiet w h = elim (Bool-cases c.reserve) [
    | inr f ↦ rw f h
    | inl t ↦
        let asked =
          All-append IsQuiet w.calls
            (query_reserve c.versions.cluster_version c.cloud_provider_id c.provider ∷ []) h
            (refl, tt) in
        elim (reply_cases r.reserve_total) [
          | inl (x, e) ↦ rw (t, e) asked
          | inr (total, e) ↦ elim (Bool-cases (leb 5 total)) [
            | inl full ↦ rw (t, e, full) asked
            | inr more ↦ rw (t, e, more) asked
          ]
        ]
  ]

  choose_name-Quiet : (w : World) → Quiet w → Quiet (choose_name r.attempts c w).1
  choose_name-Quiet w h = elim (Bool-cases (is_unnamed c)) [
    | inl t ↦ rw t (find_name-Quiet attempt_limit 1 w h)
    | inr f ↦ rw f h
  ]

  choose_name-IsChosen :
      (w : World) {name : String} → (choose_name r.attempts c w).0 ≡ ends name → IsChosen r c name
  choose_name-IsChosen w h = elim (Bool-cases (is_unnamed c)) [
    | inl t ↦
        inr (t, find_name-IsAttempted attempt_limit 1 w (omega arith) (omega arith) (rw t at h))
    | inr f ↦ inl (f, let k = rw f at h in cc)
  ]

  after_launch :
      (v : World)
      → (calls : List Call) × ((get_launched r v).1.calls ≡ v.calls ++ calls) × All IsQuiet calls
  after_launch v = elim (Option-cases r.launch_error) [
    | inl e ↦ elim (reply_cases r.cluster) [
      | inl (x, d) ↦ (get_cluster r.launched_id ∷ [], rw (e, d) refl, (refl, tt))
      | inr (x, d) ↦ (get_cluster r.launched_id ∷ [], rw (e, d) refl, (refl, tt))
    ]
    | inr (x, e) ↦ ([], rw e (sym (append_nil v.calls)), tt)
  ]

  launched_once :
      (name : String) (w u : World)
      → IsChosen r c name
      → Quiet w
      → u.calls ≡ w.calls ++ (launch_cluster name ∷ [])
      → LaunchedOnce (get_launched r u).1
  launched_once name w u chosen h same =
      let (after, e, q) = after_launch u in
      let all : (get_launched r u).1.calls ≡ w.calls ++ (launch_cluster name ∷ after) =
        e ∙ (ap (λ cs. cs ++ after) same ∙ append_assoc w.calls (launch_cluster name ∷ []) after) in
      inr (w.calls, name, after, all, h, q, chosen)

  launch_once :
      (name : String) (w : World) → IsChosen r c name → Quiet w → LaunchedOnce (launch r name w).1
  launch_once name w chosen h =
      let v = made (launch_cluster name) w in
      let named = set_config (λ c. record c { id = r.launched_id }) v in
      elim (Bool-cases (str_eq r.launched_id "")) [
        | inl t ↦ rw t (launched_once name w v chosen h refl)
        | inr f ↦ rw f (launched_once name w named chosen h refl)
      ]

  obtain_once : (id : String) (w : World) → Quiet w → LaunchedOnce (obtain r c id w).1
  obtain_once id w h = elim (Bool-cases (str_eq id "")) [
    | inl t ↦ rw t (
        bind_keeps LaunchedOnce (choose_name r.attempts c) (launch r) w
          (inl (choose_name-Quiet w h))
          (λ name e.
            launch_once name (choose_name r.attempts c w).1 (choose_name-IsChosen w e)
              (choose_name-Quiet w h)))
    | inr f ↦
        let asked = Quiet-made (get_cluster id) w refl h in
        elim (reply_cases r.cluster) [
          | inl (x, e) ↦ rw (f, e) (inl asked)
          | inr (x, e) ↦ rw (f, e) (inl asked)
        ]
  ]

  reserved_once :
      (id : String) (w : World)
      → Quiet w
      → LaunchedOnce ((check_reserve r c >>= λ u. obtain r c id) w).1
  reserved_once id w h =
      bind_keeps LaunchedOnce (check_reserve r c) (λ u. obtain r c id) w
        (inl (check_reserve-Quiet w h))
        (λ u e. obtain_once id (check_reserve r c w).1 (check_reserve-Quiet w h))

-- From no calls, `ProvisionCluster` launches at most one cluster, however it ends: no call launches
-- one, or one does, with the name that is set or, when none is set or it is "random", with the name
-- of one of at most ten attempts, which `clusterName` made and the provider found valid.
pub provision_cluster_launches :
    (r : LaunchReplies) (w : World)
    → w.calls ≡ []
    → LaunchedOnce r w.config (provision_cluster r w).1
unfolding provision_cluster
provision_cluster_launches r w e =
    let h : Quiet w = rw e tt in
    let c = w.config in
    elim (reply_cases r.provider) [
      | inl (x, p) ↦ rw p (inl h)
      | inr (u, p) ↦ elim (reply_cases r.ocm_provider) [
        | inl (x, o) ↦ rw (p, o) (inl h)
        | inr (x, o) ↦
            rw (p, o)
              (bind_keeps (LaunchedOnce r c) (claimed_id r c)
                (λ id. check_reserve r c >>= λ u. obtain r c id) w (inl (claimed_id-Quiet r c w h))
                (λ id q. reserved_once r c id (claimed_id r c w).1 (claimed_id-Quiet r c w h)))
      ]
    ]
