-- ===== src/Krkn/Inputs/Checks.antt =====
-- What `PreProcess` lets pass.
use Prim.Native.String.{String}
use osde2e.Prelude.{
  ◌≡◌, refl, ◌↔◌, ◌⊎◌, inl, inr, ℕ, ◌≤◌, ◌<◌, arith, Bool, true, false, ◌||◌, List, [], ◌∷◌, ◌++◌,
  ltb, leb, str_eq, All, Bool-cases, Option-cases,
}
use osde2e.Prelude.Spaces.{trim_space}
use osde2e.Go.{Error}
use osde2e.Go.Calls.{Reply, replied, refused, reply_cases}
use osde2e.Krkn.Query.{marks, validate_promql}
use osde2e.Krkn.Query.Grammar.{Balanced, validate_promql_lem}
use osde2e.Krkn.Runs.{detect_container_runtime}
use osde2e.Krkn.Inputs.{
  UrlLibrary, App, is_cluster_health_endpoint, parse_health_check_endpoints, url_errors,
  unreachable, endpoint_errors, query_errors, app_errors, health_check_errors, runtime_errors,
  id_errors, pre_process,
}

append-nil_iff : {A : Type 0} (xs ys : List A) → (xs ++ ys ≡ []) ↔ ((xs ≡ []) × (ys ≡ []))
append-nil_iff [] ys = (λ h. (refl, h), λ h. h.1)
append-nil_iff (x ∷ xs) ys = (λ h. absurd (cc), λ h. absurd (let k = h.0 in cc))

-- Either empty, or balanced without the space around it.
abbrev pub QueryPasses : String → Type 0
QueryPasses query =
    (str_eq query "" ≡ true)
    ⊎ ((str_eq (trim_space query) "" ≡ false) × Balanced (marks (trim_space query)))

query_errors-nil :
    (query : String) → (query_errors (validate_promql query) query ≡ []) ↔ QueryPasses query
query_errors-nil query = elim (Option-cases (validate_promql query)) [
  | inl e ↦ (λ h. inr ((validate_promql_lem query).0 e), λ k. rw e refl)
  | inr (x, e) ↦ elim (Bool-cases (str_eq query "")) [
    | inl t ↦ (λ h. inl t, λ k. rw (e, t) refl)
    | inr f ↦ (
      λ h. absurd (let k = rw (e, f) at h in cc),
      λ k. absurd (elim k [ inl t ↦ cc | inr b ↦ let n = (validate_promql_lem query).1 b in cc ]),
    )
  ]
]

abbrev pub HasRuntime : Bool → Reply String → Reply String → Type 0
HasRuntime dry_run podman docker =
    (dry_run ≡ true)
    ⊎ (((path : String) × (podman ≡ replied path)) ⊎ ((path : String) × (docker ≡ replied path)))

runtime_errors-nil :
    (dry_run : Bool) (podman docker : Reply String)
    → (runtime_errors dry_run (detect_container_runtime podman docker) ≡ [])
      ↔ HasRuntime dry_run podman docker
unfolding detect_container_runtime
runtime_errors-nil true podman docker = (λ h. inl refl, λ k. refl)
runtime_errors-nil false (replied p) docker = (λ h. inr (inl (p, refl)), λ k. refl)
runtime_errors-nil false (refused e) (replied p) = (λ h. inr (inr (p, refl)), λ k. refl)
runtime_errors-nil false (refused e) (refused x) = (
  λ h. absurd (cc),
  λ k. absurd (elim k [ inl t ↦ cc | inr (inl (p, q)) ↦ cc | inr (inr (p, q)) ↦ cc ]),
)

id_errors-nil : (id : String) → (id_errors id ≡ []) ↔ (str_eq id "" ≡ false)
id_errors-nil id = ground arith

module _ (urls : UrlLibrary) (get : String → Reply ℕ) (error_text : Error → String) where
  -- The URL answers with a status from 200 to 299; one that is empty is not asked.
  abbrev pub Answers : App → Type 0
  Answers a =
      (str_eq a.url "" ≡ true)
      ⊎ ((status : ℕ) × (get a.url ≡ replied status) × (200 ≤ status) × (status < 300))

  url_errors-nil : (apps : List App) → (url_errors urls get error_text apps ≡ []) ↔ All Answers apps
  unfolding url_errors
  url_errors-nil [] = (λ h. tt, λ k. refl)
  url_errors-nil (a ∷ rest) =
      let (to, back) = url_errors-nil rest in
      elim (Bool-cases (str_eq a.url "")) [
        | inl t ↦ (λ h. (inl t, to (rw t at h)), λ k. rw t (back k.1))
        | inr f ↦ elim (reply_cases (get a.url)) [
          | inl (e, g) ↦ (
            λ h. absurd (let k = rw (f, g) at h in cc),
            λ k. absurd (elim k.0 [ inl t ↦ cc | inr (n, m, l, u) ↦ cc ]),
          )
          | inr (status, g) ↦ elim (Bool-cases (ltb status 200 || leb 300 status)) [
            | inl bad ↦ (
              λ h. absurd (let k = rw (f, g, bad) at h in cc),
              λ k. absurd (elim k.0 [
                | inl t ↦ cc
                | inr (n, m, l, u) ↦ let same : status ≡ n = cc in ground arith
              ]),
            )
            | inr good ↦ (
              λ h. (inr (status, g, ground arith, ground arith), to (rw (f, g, good) at h)),
              λ k. rw (f, g, good) (back k.1),
            )
          ]
        ]
      ]

  endpoint_errors-nil :
      (apps : List App)
      → (endpoint_errors urls apps ≡ [])
        ↔ All (λ a. is_cluster_health_endpoint urls a.url ≡ true) apps
  unfolding endpoint_errors
  endpoint_errors-nil [] = (λ h. tt, λ k. refl)
  endpoint_errors-nil (a ∷ rest) =
      let (to, back) = endpoint_errors-nil rest in
      elim (Bool-cases (is_cluster_health_endpoint urls a.url)) [
        | inl t ↦ (λ h. (t, to (rw t at h)), λ k. rw t (back k.1))
        | inr f ↦ (λ h. absurd (let k = rw f at h in cc), λ k. absurd (let t = k.0 in cc))
      ]

  unreachable-nil : (es : List String) → (unreachable urls get error_text es ≡ []) ↔ (es ≡ [])
  unreachable-nil [] = (λ h. refl, λ k. refl)
  unreachable-nil (e ∷ es) = (λ h. absurd (cc), λ k. absurd (cc))

  -- Either empty, or endpoints that can be read, end in "/health" and answer.
  abbrev pub EndpointsPass : String → Type 0
  EndpointsPass input =
      (str_eq input "" ≡ true)
      ⊎ ((apps : List App) × (parse_health_check_endpoints urls input ≡ replied apps)
          × All (λ a. is_cluster_health_endpoint urls a.url ≡ true) apps
          × All Answers apps)

  app_errors-nil :
      (apps : List App)
      → (app_errors urls get error_text (replied apps) ≡ [])
        ↔ (All (λ a. is_cluster_health_endpoint urls a.url ≡ true) apps × All Answers apps)
  app_errors-nil apps =
      let (split, join) =
        append-nil_iff (endpoint_errors urls apps)
          (unreachable urls get error_text (url_errors urls get error_text apps)) in
      let (ends, ends') = endpoint_errors-nil apps in
      let (one, one') = unreachable-nil (url_errors urls get error_text apps) in
      let (asked, asked') = url_errors-nil apps in
      (
        λ h. let k = split h in (ends k.0, asked (one k.1)),
        λ k. join (ends' k.0, one' (asked' k.1)),
      )

  health_check_errors-nil :
      (input : String) → (health_check_errors urls get error_text input ≡ []) ↔ EndpointsPass input
  health_check_errors-nil input = elim (Bool-cases (str_eq input "")) [
    | inl t ↦ (λ h. inl t, λ k. rw t refl)
    | inr f ↦ elim (reply_cases (parse_health_check_endpoints urls input)) [
      | inl (e, p) ↦ (
        λ h. absurd (let k = rw (f, p) at h in cc),
        λ k. absurd (elim k [ inl t ↦ cc | inr (apps, q, r, s) ↦ cc ]),
      )
      | inr (apps, p) ↦
          let (to, back) = app_errors-nil apps in
          (
            λ h. let k = to (rw (f, p) at h) in inr (apps, p, k.0, k.1),
            λ k. elim k [
              | inl t ↦ absurd (cc)
              | inr (other, q, r, s) ↦
                  let same : apps ≡ other = cc in rw (f, p) (back (rw same (r, s)))
            ],
          )
    ]
  ]

  -- `PreProcess` returns no error exactly when there is a cluster id, the query is empty or balanced,
  -- the health check is empty or names endpoints that can be read, end in "/health" and answer, and,
  -- unless the run is dry, podman or docker is found.
  pub pre_process_lem :
      (id query input : String) (dry_run : Bool) (podman docker : Reply String)
      → (pre_process urls get error_text id query input dry_run podman docker ≡ []) ↔ (
          (str_eq id "" ≡ false)
          × QueryPasses query
          × EndpointsPass input
          × HasRuntime dry_run podman docker)
  unfolding pre_process
  pre_process_lem id query input dry_run podman docker =
      let runtime = runtime_errors dry_run (detect_container_runtime podman docker) in
      let health = health_check_errors urls get error_text input in
      let asked = query_errors (validate_promql query) query in
      let (s1, j1) = append-nil_iff (id_errors id) (asked ++ (health ++ runtime)) in
      let (s2, j2) = append-nil_iff asked (health ++ runtime) in
      let (s3, j3) = append-nil_iff health runtime in
      let (i, i') = id_errors-nil id in
      let (q, q') = query_errors-nil query in
      let (e, e') = health_check_errors-nil input in
      let (r, r') = runtime_errors-nil dry_run podman docker in
      (
        λ h. let a = s1 h in let b = s2 a.1 in let c = s3 b.1 in (i a.0, q b.0, e c.0, r c.1),
        λ k. let (a, b, c, d) = k in j1 (i' a, j2 (q' b, j3 (e' c, r' d))),
      )
