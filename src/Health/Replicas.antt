-- ===== src/Health/Replicas.antt =====
-- pkg/common/cluster/healthchecks/replicas.go. A `*multierror.Error` is the list of its errors, the
-- empty one for `ErrorOrNil() == nil`.
use osde2e.Prelude.{
  ◌≡◌, refl, ap, sym, ◌∙◌, ◌↔◌, ◌≢◌, String, Bool, true, false, not, ◌&&◌, List, [], ◌∷◌, ◌++◌, map,
  arith, if◌then◌else◌, has_prefix, itoa_ℤ, fold, All, keep_if, append_nil, append_assoc,
  Bool-cases, inl, inr,
}
use osde2e.Prelude.Int.{ℤ, eqb_ℤ}
use osde2e.Go.{Error, errorf}
use osde2e.Health.{Reply, replied, refused, ListsOnly}

-- A daemon set with NumberReady and DesiredNumberScheduled, or a replica set with ReadyReplicas and
-- Replicas.
pub record Scaled : Type 0 where
  pub name : String
  pub namespace : String
  pub ready : ℤ
  pub desired : ℤ

abbrev pub MultiVerdict : Type 0
MultiVerdict = Bool × List Error

abbrev pub not_ready_error : String → Scaled → Error
not_ready_error format s = errorf format (s.name ∷ itoa_ℤ s.ready ∷ itoa_ℤ s.desired ∷ [])

-- The body of the two loops, which differ in the format of the error.
abbrev pub replica_step : String → List Error → Scaled → List Error
replica_step format all_errors s =
    if has_prefix s.namespace "osde2e-"
    then all_errors
    else (if not (has_prefix s.namespace "openshift-")
        then all_errors
        else (if not (eqb_ℤ s.ready s.desired)
            then all_errors ++ (not_ready_error format s ∷ [])
            else all_errors))

abbrev pub no_errors : List Error → Bool
no_errors [] = true
no_errors (e ∷ es) = false

abbrev pub verdict_of : List Error → MultiVerdict
verdict_of all_errors = (no_errors all_errors, all_errors)

unfoldable pub check_replica_count_for_daemon_sets : Reply (List Scaled) → MultiVerdict
check_replica_count_for_daemon_sets (refused e) = (false, e ∷ [])
check_replica_count_for_daemon_sets (replied []) = (
  false,
  errorf "there are no daemonsets running on the cluster, the cluster is not running well" [] ∷ [],
)
check_replica_count_for_daemon_sets (replied (ds ∷ dss)) =
    verdict_of (fold (replica_step "daemonset %s has %d out of %d replicas ready") [] (ds ∷ dss))

unfoldable pub check_replica_count_for_replica_sets : Reply (List Scaled) → MultiVerdict
check_replica_count_for_replica_sets (refused e) = (false, e ∷ [])
check_replica_count_for_replica_sets (replied []) = (
  false,
  errorf "there are no replicasets running on the cluster, the cluster is not running well" [] ∷ [],
)
check_replica_count_for_replica_sets (replied (rs ∷ rss)) =
    verdict_of (fold (replica_step "replicaset %s has %d out of %d replicas ready") [] (rs ∷ rss))

-- A set of the managed namespaces that has not all its replicas.
abbrev pub falls_short : Scaled → Bool
falls_short s =
    not (has_prefix s.namespace "osde2e-")
    && has_prefix s.namespace "openshift-"
    && not (eqb_ℤ s.ready s.desired)

abbrev pub HasReplicas : Scaled → Type 0
HasReplicas s =
    has_prefix s.namespace "osde2e-" ≡ false
    → has_prefix s.namespace "openshift-" ≡ true
    → eqb_ℤ s.ready s.desired ≡ true

module _ (format : String) where
  replica_step_eq :
      (errors : List Error) (s : Scaled)
      → replica_step format errors s
        ≡ (if falls_short s then errors ++ (not_ready_error format s ∷ []) else errors)
  replica_step_eq errors s = ground arith

  replica_errors :
      (ss : List Scaled) (errors : List Error)
      → fold (replica_step format) errors ss
        ≡ errors ++ map (not_ready_error format) (keep_if falls_short ss)
  replica_errors [] errors = sym (append_nil errors)
  replica_errors (s ∷ ss) errors = elim (Bool-cases (falls_short s)) [
    | inl t ↦
        rw (replica_errors ss (replica_step format errors s), replica_step_eq errors s, t)
          (append_assoc errors (not_ready_error format s ∷ []) _)
    | inr f ↦
        rw (replica_errors ss (replica_step format errors s), replica_step_eq errors s, f) refl
  ]

no_errors_nil : (es : List Error) → no_errors es ≡ true → es ≡ []
no_errors_nil [] h = refl
no_errors_nil (e ∷ es) h = absurd (ground arith)

pair_eq : {A B : Type 0} {a c : A} {b d : B} → a ≡ c → b ≡ d → ◌≡◌ {A = A × B} (a, b) (c, d)
pair_eq p q = cc

-- What each of the two checks reports of a list that came and is not empty: one error for every
-- set that falls short, in their order.
abbrev pub Reports : String → Reply (List Scaled) → MultiVerdict → Type 0
Reports format (refused e) v = v ≡ (false, e ∷ [])
Reports format (replied []) v = (v.0 ≡ false) × (v.1 ≢ [])
Reports format (replied (s ∷ ss)) v =
    (v.1 ≡ map (not_ready_error format) (keep_if falls_short (s ∷ ss)))
    × ((v.0 ≡ true) ↔ All HasReplicas (s ∷ ss))

none_short :
    (format : String) (ss : List Scaled)
    → (no_errors (map (not_ready_error format) (keep_if falls_short ss)) ≡ true)
      ↔ All HasReplicas ss
none_short format [] = (λ h. tt, λ k. refl)
none_short format (s ∷ ss) =
    let (to, back) = none_short format ss in
    elim (Bool-cases (falls_short s)) [
      | inl t ↦ rw t (λ h. absurd (ground arith), λ k. absurd (let h = k.0 in ground arith))
      | inr f ↦ rw f (λ h. (ground arith, to h), λ k. back k.1)
    ]

-- The daemon sets pass exactly when the list came, is not empty and every daemon set outside the
-- osde2e- namespaces and inside the openshift- ones has the replicas it is to have; the errors of a
-- list that came name the daemon sets that have not, in the order of the list.
pub check_replica_count_for_daemon_sets_lem :
    (r : Reply (List Scaled))
    → Reports "daemonset %s has %d out of %d replicas ready" r
        (check_replica_count_for_daemon_sets r)
unfolding check_replica_count_for_daemon_sets
check_replica_count_for_daemon_sets_lem (refused e) = refl
check_replica_count_for_daemon_sets_lem (replied []) = (refl, λ h. absurd (cc))
check_replica_count_for_daemon_sets_lem (replied (s ∷ ss)) =
    rw (replica_errors "daemonset %s has %d out of %d replicas ready" (s ∷ ss) [])
      (refl, none_short _ (s ∷ ss))

-- The same of the replica sets.
pub check_replica_count_for_replica_sets_lem :
    (r : Reply (List Scaled))
    → Reports "replicaset %s has %d out of %d replicas ready" r
        (check_replica_count_for_replica_sets r)
unfolding check_replica_count_for_replica_sets
check_replica_count_for_replica_sets_lem (refused e) = refl
check_replica_count_for_replica_sets_lem (replied []) = (refl, λ h. absurd (cc))
check_replica_count_for_replica_sets_lem (replied (s ∷ ss)) =
    rw (replica_errors "replicaset %s has %d out of %d replicas ready" (s ∷ ss) [])
      (refl, none_short _ (s ∷ ss))

-- A check of the replicas passes, without an error, exactly when the list came, is not empty and
-- every managed set in it has its replicas.
pub replicas_pass :
    (format : String) (r : Reply (List Scaled)) (v : MultiVerdict)
    → Reports format r v
    → (v ≡ (true, [])) ↔ ListsOnly HasReplicas r
replicas_pass format (refused e) v h = (λ k. absurd (cc), λ k. absurd k)
replicas_pass format (replied []) v h = (λ k. absurd (cc), λ k. absurd (k.0 refl))
replicas_pass format (replied (s ∷ ss)) v (errors, passes) = (
  λ k. (λ n. absurd (cc), passes.0 (ap (λ x. x.0) k)),
  λ k. pair_eq (passes.1 k.1) (errors ∙ no_errors_nil _ ((none_short format (s ∷ ss)).1 k.1)),
)
