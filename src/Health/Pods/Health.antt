-- ===== src/Health/Pods/Health.antt =====
-- `CheckPodHealth` of pkg/common/cluster/healthchecks/pods.go and the pods that its filters let by.
use osde2e.Prelude.{
  ℕ, ◌+◌, ◌≡◌, refl, sym, ◌∙◌, ◌↔◌, ◌≢◌, ◌⊎◌, inl, inr, String, Bool, true, false, none, List, [],
  ◌∷◌, ◌++◌, arith, str_eq, keep_if, keep_if_passes, All, All-map, Bool-cases, ltb,
}
use osde2e.Prelude.Int.{pos_part, neg_part}
use osde2e.Go.{Error}
use osde2e.Health.{Reply, replied, refused, ListsOnly}
use osde2e.Health.Pods.Pending.{sum_cases}
use osde2e.Health.Pods.{
  Pod, PodPredicate, JobPods, passes, filter_pods, contains_prefixes, is_not_controlled_by_job,
  sort_out, check_sorted, check_job_pods, group_job_pods, pending_job_pods, check_pods, pod_filters,
  check_pod_health, minute,
}

-- The pod concerns the check: it is old enough, its namespace and its name are those asked for, it
-- is neither the readiness pod nor of a job, and it neither runs nor has succeeded.
abbrev pub Concerns : (Pod → ℕ) → String → List String → Pod → Type 0
Concerns now ns prefixes p =
    (ltb (p.created + (pos_part minute + neg_part minute)) (now p) ≡ true)
    × (str_eq p.namespace ns ≡ true)
    × (contains_prefixes p.name prefixes ≡ true)
    × (contains_prefixes p.name ("osd-cluster-ready-" ∷ []) ≡ false)
    × (str_eq p.phase "Running" ≡ false)
    × (str_eq p.phase "Succeeded" ≡ false)
    × (is_not_controlled_by_job p ≡ true)

passes_iff :
    (now : Pod → ℕ) (ns : String) (prefixes : List String) (p : Pod)
    → (passes (pod_filters now ns prefixes) p ≡ true) ↔ Concerns now ns prefixes p
passes_iff now ns prefixes p = ground arith

none_kept : (p : Pod → Bool) (xs : List Pod) → keep_if p xs ≡ [] → All (λ x. p x ≡ false) xs
none_kept p [] e = tt
none_kept p (x ∷ xs) e = elim (Bool-cases (p x)) [
  | inl t ↦ absurd (let k : x ∷ keep_if p xs ≡ [] = rw t at e in cc)
  | inr f ↦ (f, none_kept p xs (rw f at e))
]

keeps_none : (p : Pod → Bool) (xs : List Pod) → All (λ x. p x ≡ false) xs → keep_if p xs ≡ []
keeps_none p [] h = refl
keeps_none p (x ∷ xs) h = rw h.0 (keeps_none p xs h.1)

-- What a loop that has a pending pod already comes to: an error, or pods with that one first.
abbrev StillPending : Error ⊎ (List Pod × List Pod) → Type 0
StillPending (inl e) = Unit
StillPending (inr (pending, jobs)) = pending ≢ []

pending_stays :
    (x : Pod) (pending jobs pods : List Pod) → StillPending (sort_out (x ∷ pending) jobs pods)
unfolding sort_out
pending_stays x pending jobs [] = λ h. absurd (cc)
pending_stays x pending jobs (pod ∷ pods) = elim (Bool-cases (is_not_controlled_by_job pod)) [
  | inr f ↦ rw (f, sort_out) (pending_stays x pending (jobs ++ (pod ∷ [])) pods)
  | inl t ↦ elim (Bool-cases (str_eq pod.phase "Succeeded")) [
    | inl s ↦ rw (t, s, sort_out) (pending_stays x pending jobs pods)
    | inr n ↦ elim (Bool-cases (str_eq pod.phase "Pending")) [
      | inl q ↦ rw (t, n, q, sort_out) (pending_stays x (pending ++ (pod ∷ [])) jobs pods)
      | inr q ↦ rw (t, n, q, sort_out) tt
    ]
  ]
]

-- A first pod that is of no job and has not succeeded leaves an error or a pending pod.
first_stays :
    (pod : Pod) (pods : List Pod)
    → is_not_controlled_by_job pod ≡ true
    → str_eq pod.phase "Succeeded" ≡ false
    → StillPending (sort_out [] [] (pod ∷ pods))
unfolding sort_out
first_stays pod pods t n = elim (Bool-cases (str_eq pod.phase "Pending")) [
  | inl q ↦ rw (t, n, q, sort_out) (pending_stays pod [] [] pods)
  | inr q ↦ rw (t, n, q, sort_out) tt
]

module _ (arrange : List JobPods → List JobPods) (arrange_nil : arrange [] ≡ []) where
  -- No pods of jobs, so nothing but the pending pods.
  no_jobs : (pending : List Pod) → check_sorted arrange (pending, []) ≡ inr (pending ++ [])
  unfolding check_sorted check_job_pods group_job_pods pending_job_pods
  no_jobs pending = rw (arrange_nil, check_sorted) refl

  -- A check with a pending pod does not say healthy.
  abbrev NotHealthy : Error ⊎ List Pod → Type 0
  NotHealthy (inl e) = Unit
  NotHealthy (inr pods) = pods ≢ []

  sorted_stays :
      (s : Error ⊎ (List Pod × List Pod))
      → StillPending s
      → NotHealthy (elim s [ inl e ↦ inl e | inr sorted ↦ check_sorted arrange sorted ])
  unfolding check_sorted
  sorted_stays (inl e) h = tt
  sorted_stays (inr ([], jobs)) h = absurd (h refl)
  sorted_stays (inr (p ∷ ps, jobs)) h = elim (sum_cases (check_job_pods arrange jobs)) [
    | inl (e, q) ↦ rw (q, check_sorted) tt
    | inr (more, q) ↦ rw (q, check_sorted) (λ n. absurd (cc))
  ]

  verdict_nil :
      (now : Pod → ℕ) (r : Reply (List Pod)) (ns : String) (prefixes : List String)
      → (check_pod_health arrange now r ns prefixes ≡ (true, none))
        ↔ (check_pods arrange r (pod_filters now ns prefixes) ≡ inr [])
  unfolding check_pod_health
  verdict_nil now r ns prefixes =
      elim (sum_cases (check_pods arrange r (pod_filters now ns prefixes))) [
        | inl (e, q) ↦ rw (q, check_pod_health) (λ k. absurd (cc), λ k. absurd (cc))
        | inr ([], q) ↦ rw (q, check_pod_health) (λ k. refl, λ k. refl)
        | inr (p ∷ ps, q) ↦ rw (q, check_pod_health) (λ k. absurd (cc), λ k. absurd (cc))
      ]

  not_nil : (c : Error ⊎ List Pod) → NotHealthy c → c ≡ inr [] → ⊥
  not_nil (inl e) h q = cc
  not_nil (inr pods) h q = h (ground (arith, q))

  checked :
      (p : Pod) (ps : List Pod) (filters : List PodPredicate) (kept : List Pod)
      → filter_pods (p ∷ ps) filters ≡ kept
      → check_pods arrange (replied (p ∷ ps)) filters
        ≡ (elim (sort_out [] [] kept) [ inl e ↦ inl e | inr sorted ↦ check_sorted arrange sorted ])
  unfolding check_pods
  checked p ps filters kept e = rw (← e) refl

  from_kept :
      (now : Pod → ℕ) (ns : String) (prefixes : List String) (p : Pod) (ps kept : List Pod)
      → filter_pods (p ∷ ps) (pod_filters now ns prefixes) ≡ kept
      → All (λ x. passes (pod_filters now ns prefixes) x ≡ true) kept
      → (check_pods arrange (replied (p ∷ ps)) (pod_filters now ns prefixes) ≡ inr []) ↔ (kept ≡ [])
  unfolding sort_out
  from_kept now ns prefixes p ps [] e h =
      (λ k. refl, λ k. checked p ps (pod_filters now ns prefixes) [] e ∙ no_jobs [])
  from_kept now ns prefixes p ps (x ∷ kept) e h =
      let (a, b, c, d, f, g, i) = (passes_iff now ns prefixes x).0 h.0 in
      let stays = sorted_stays (sort_out [] [] (x ∷ kept)) (first_stays x kept i g) in
      (
        λ k.
            absurd
              (not_nil _ stays (sym (checked p ps (pod_filters now ns prefixes) (x ∷ kept) e) ∙ k)),
        λ k. absurd (cc),
      )

  -- Provided that the order of no jobs is the order of none, the pods are healthy, without an error,
  -- exactly when the list came, is not empty and none of its pods concerns the check: is older than a
  -- minute, of the namespace and one of the names, not the readiness pod, of no job, and neither
  -- running nor completed.
  pub check_pod_health_lem :
      (now : Pod → ℕ) (r : Reply (List Pod)) (ns : String) (prefixes : List String)
      → (check_pod_health arrange now r ns prefixes ≡ (true, none))
        ↔ ListsOnly (λ p. ¬ Concerns now ns prefixes p) r
  unfolding check_pods
  check_pod_health_lem now (refused e) ns prefixes =
      let (to, back) = verdict_nil now (refused e) ns prefixes in
      (λ k. absurd (let q = to k in cc), λ k. absurd k)
  check_pod_health_lem now (replied []) ns prefixes =
      let (to, back) = verdict_nil now (replied []) ns prefixes in
      (λ k. absurd (let q = to k in cc), λ k. absurd (k.0 refl))
  check_pod_health_lem now (replied (p ∷ ps)) ns prefixes =
      let (to, back) = verdict_nil now (replied (p ∷ ps)) ns prefixes in
      let filters = pod_filters now ns prefixes in
      let (there, here) =
        from_kept now ns prefixes p ps (filter_pods (p ∷ ps) filters) refl
          (keep_if_passes (passes filters) (p ∷ ps)) in
      (
        λ k. (
          λ n. absurd (cc),
          All-map (λ x. passes filters x ≡ false) (λ x. ¬ Concerns now ns prefixes x)
              (λ x f c. absurd (let t = (passes_iff now ns prefixes x).1 c in ground (arith, t, f)))
              (p ∷ ps) (none_kept (passes filters) (p ∷ ps) (there (to k))),
        ),
        λ k. back (
            here (
              keeps_none (passes filters) (p ∷ ps) (
                All-map (λ x. ¬ Concerns now ns prefixes x) (λ x. passes filters x ≡ false)
                  (λ x c. elim (Bool-cases (passes filters x)) [
                    | inl t ↦ absurd (c ((passes_iff now ns prefixes x).0 t))
                    | inr f ↦ f
                  ])
                  (p ∷ ps) k.1))),
      )
