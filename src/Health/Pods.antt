-- ===== src/Health/Pods.antt =====
-- pkg/common/cluster/healthchecks/pods.go and pod_predicates.go. Times are nanoseconds on one scale.
-- The clock is read for each pod, and the order in which Go ranges over the map of the jobs is not
-- fixed: both are parameters.
pub mod Health
pub mod Pending
use osde2e.Prelude.{
  ℕ, zero, suc, ◌+◌, ◌*◌, ◌≤◌, String, Bool, true, false, not, ◌&&◌, Option, none, some, List, [],
  ◌∷◌, ◌++◌, if◌then◌else◌, str_eq, has_prefix, before_last_dash, byte_length, keep_if, ◌⊎◌, inl,
  inr, ltb, leb,
}
use osde2e.Prelude.Int.{ℤ, pos, pos_part, neg_part, ltb_ℤ}
use osde2e.Prelude.Sorting.{sort_by}
use osde2e.Go.{Error, errorf, wrapf}
use osde2e.Health.{Reply, replied, refused, Verdict}
use osde2e.Prelude.Maps.{lookup, assign}

-- `owner_kinds` are the kinds of the owner references, and `created` is the creation timestamp.
pub record Pod : Type 0 where
  pub name : String
  pub namespace : String
  pub uid : String
  pub phase : String
  pub reason : String
  pub message : String
  pub owner_kinds : List String
  pub labels : List (String × String)
  pub created : ℕ

abbrev pub PodPredicate : Type 0
PodPredicate = Pod → Bool

abbrev pub contains_prefixes : String → List String → Bool
contains_prefixes str [] = false
contains_prefixes str (sub ∷ subs) = if has_prefix str sub then true else contains_prefixes str subs

abbrev pub is_not_readiness_pod : PodPredicate
is_not_readiness_pod pod = not (contains_prefixes pod.name ("osd-cluster-ready-" ∷ []))

abbrev pub matches_names : List String → PodPredicate
matches_names names pod = contains_prefixes pod.name names

abbrev pub matches_namespace : String → PodPredicate
matches_namespace ns pod = str_eq pod.namespace ns

abbrev pub is_not_running : PodPredicate
is_not_running pod = not (str_eq pod.phase "Running")

abbrev pub is_not_completed : PodPredicate
is_not_completed pod = not (str_eq pod.phase "Succeeded")

abbrev pub not_a_job : List String → Bool
not_a_job [] = true
not_a_job (kind ∷ kinds) = not (str_eq kind "Job")

abbrev pub is_not_controlled_by_job : PodPredicate
is_not_controlled_by_job pod = not_a_job pod.owner_kinds

-- A duration is taken without its sign; the pod is older when it was created before the time that
-- lies so far back.
abbrev pub is_older_than : (Pod → ℕ) → ℤ → PodPredicate
is_older_than now d pod = ltb (pod.created + (pos_part d + neg_part d)) (now pod)

abbrev pub minute : ℤ
minute = pos (60 * 1000000000)

-- `filterPods`: the pods that pass every predicate, which are tried up to the first that fails.
abbrev pub passes : List PodPredicate → Pod → Bool
passes [] pod = true
passes (p ∷ ps) pod = if not (p pod) then false else passes ps pod

abbrev pub filter_pods : List Pod → List PodPredicate → List Pod
filter_pods pods predicates = keep_if (passes predicates) pods

abbrev pub unexpected_phase : Pod → Error
unexpected_phase pod =
    errorf "pod %s/%s in unexpected phase %s: reason: %s message: %s"
      (pod.namespace ∷ pod.name ∷ pod.phase ∷ pod.reason ∷ pod.message ∷ [])

-- The pods of one job, or of one cron job, of one namespace.
pub record JobPods : Type 0 where
  pub namespace : String
  pub job : String
  pub pods : List Pod

abbrev pub add_job_pod : String → String → Pod → List JobPods → List JobPods
add_job_pod ns job pod [] = record { namespace = ns; job = job; pods = pod ∷ [] } ∷ []
add_job_pod ns job pod (g ∷ gs) =
    if str_eq g.namespace ns && str_eq g.job job
    then record g { pods = g.pods ++ (pod ∷ []) } ∷ gs
    else g ∷ add_job_pod ns job pod gs

-- The name of the job, or of the cron job before the last dash of a name of at most 52 bytes.
abbrev pub job_of : String → String
job_of name =
    if leb (byte_length name) 52
    then elim (before_last_dash name) [ none ↦ name | some cut ↦ cut ]
    else name

abbrev pub no_job_name : Pod → Error
no_job_name pod =
    errorf "expected 'job-name' label to be non-empty for pod %s/%s" (pod.namespace ∷ pod.name ∷ [])

pub group_job_pods : List Pod → List JobPods → Error ⊎ List JobPods
group_job_pods [] groups = inr groups
group_job_pods (pod ∷ pods) groups =
    let rest : String → Error ⊎ List JobPods =
      λ name. group_job_pods pods (add_job_pod pod.namespace (job_of name) pod groups) in
    elim (lookup "job-name" pod.labels) [
      | none ↦ inl (no_job_name pod)
      | some name ↦ if str_eq name "" then inl (no_job_name pod) else rest name
    ]

abbrev pub last_pod : Pod → List Pod → Pod
last_pod pod [] = pod
last_pod pod (p ∷ ps) = last_pod p ps

abbrev pub created_before : Pod → Pod → Bool
created_before first second = ltb first.created second.created

-- The pods of a group that are pending, when the latest one has not succeeded. A group is never
-- empty, since it begins with a pod.
abbrev pub pending_of : List Pod → Error ⊎ List Pod
pending_of [] = inr []
pending_of (pod ∷ pods) =
    let latest = last_pod pod pods in
    if str_eq latest.phase "Succeeded"
    then inr []
    else (if not (str_eq latest.phase "Pending")
        then inl (
            errorf "pod %s/%s in unexpected phase %s"
              (latest.namespace ∷ latest.name ∷ latest.phase ∷ []))
        else inr (keep_if (λ p. not (str_eq p.phase "Succeeded")) (pod ∷ pods)))

pub pending_job_pods : List JobPods → Error ⊎ List Pod
pending_job_pods [] = inr []
pending_job_pods (g ∷ gs) =
    let rest = pending_job_pods gs in
    elim (pending_of (sort_by created_before g.pods)) [
      | inl e ↦ inl e
      | inr pending ↦ elim rest [ inl e ↦ inl e | inr more ↦ inr (pending ++ more) ]
    ]

-- The loop over the filtered pods: the pending ones and those of jobs, each in the order of the
-- list, or the error of a pod in a phase that is not expected.
abbrev pub sort_pod : List Pod → List Pod → Pod → Error ⊎ (List Pod × List Pod)
sort_pod pending jobs pod =
    if is_not_controlled_by_job pod
    then (if str_eq pod.phase "Succeeded"
        then inr (pending, jobs)
        else (if not (str_eq pod.phase "Pending")
            then inl (unexpected_phase pod)
            else inr (pending ++ (pod ∷ []), jobs)))
    else inr (pending, jobs ++ (pod ∷ []))

pub sort_out : List Pod → List Pod → List Pod → Error ⊎ (List Pod × List Pod)
sort_out pending jobs [] = inr (pending, jobs)
sort_out pending jobs (pod ∷ pods) = elim (sort_pod pending jobs pod) [
  | inl e ↦ inl e
  | inr (pending', jobs') ↦ sort_out pending' jobs' pods
]

abbrev pub pod_filters : (Pod → ℕ) → String → List String → List PodPredicate
pod_filters now ns pod_prefixes =
    is_older_than now minute
    ∷ matches_namespace ns
    ∷ matches_names pod_prefixes
    ∷ is_not_readiness_pod
    ∷ is_not_running
    ∷ is_not_completed
    ∷ is_not_controlled_by_job
    ∷ []

abbrev pub no_pods : List Pod → Bool
no_pods [] = true
no_pods (pod ∷ pods) = false

module _ (arrange : List JobPods → List JobPods) where
  pub check_job_pods : List Pod → Error ⊎ List Pod
  check_job_pods pods = elim (group_job_pods pods []) [
    | inl e ↦ inl e
    | inr groups ↦ pending_job_pods (arrange groups)
  ]

  pub check_sorted : List Pod × List Pod → Error ⊎ List Pod
  check_sorted (pending, jobs) = elim (check_job_pods jobs) [
    | inl e ↦ inl e
    | inr pending_jobs ↦ inr (pending ++ pending_jobs)
  ]

  unfoldable pub check_pods : Reply (List Pod) → List PodPredicate → Error ⊎ List Pod
  check_pods (refused e) filters = inl (wrapf "error getting pod list: %v" [] e)
  check_pods (replied []) filters = inl (errorf "pod list is empty. this should NOT happen" [])
  check_pods (replied (pod ∷ pods)) filters =
      elim (sort_out [] [] (filter_pods (pod ∷ pods) filters)) [
        | inl e ↦ inl e
        | inr sorted ↦ check_sorted sorted
      ]

  unfoldable pub check_pod_health : (Pod → ℕ) → Reply (List Pod) → String → List String → Verdict
  check_pod_health now r ns pod_prefixes = elim (check_pods r (pod_filters now ns pod_prefixes)) [
    | inl e ↦ (false, some e)
    | inr pods ↦ (no_pods pods, none)
  ]

-- `PodErrorTracker` and its methods.
pub record PodErrorTracker : Type 0 where
  pub counts : List (String × ℕ)
  pub max_pending_pods_threshold : ℤ

abbrev pub new_pod_error_tracker : ℤ → PodErrorTracker → PodErrorTracker
new_pod_error_tracker threshold p = record { counts = []; max_pending_pods_threshold = threshold }

-- A key that a map does not have counts 0.
abbrev pub count_of : Option ℕ → ℕ
count_of none = 0
count_of (some n) = n

abbrev pub beyond_threshold : Pod → Error
beyond_threshold pod =
    errorf "pod %s/%s is pending beyond normal threshold: %s - %s"
      (pod.namespace ∷ pod.name ∷ pod.reason ∷ pod.message ∷ [])

pub count_pending : ℤ → List Pod → List (String × ℕ) → Error ⊎ List (String × ℕ)
count_pending threshold [] temp = inr temp
count_pending threshold (pod ∷ pods) temp =
    let count = suc (count_of (lookup pod.uid temp)) in
    let rest = count_pending threshold pods (assign pod.uid count temp) in
    if not (ltb_ℤ (pos count) threshold) then inl (beyond_threshold pod) else rest

unfoldable pub check_pending_pods : List Pod → PodErrorTracker → Option Error × PodErrorTracker
unfolding count_pending
check_pending_pods pods p = elim (count_pending p.max_pending_pods_threshold pods []) [
  | inl e ↦ (some e, p)
  | inr temp ↦ (none, record p { counts = temp })
]
