-- ===== src/Cluster/Provisioning/Laws.antt =====
-- What ends `WaitForOCMProvisioning` of pkg/common/cluster/clusterutil.go.
use osde2e.Prelude.{
  ◌≡◌, refl, sym, ◌∙◌, ◌↔◌, inl, inr, String, Bool, true, List, [], ◌∷◌, arith, str_eq, Any,
  Bool-cases,
}
use osde2e.Health.{replied, reply_cases}
use osde2e.Cluster.Provisioning.{
  ClusterView, ProvisioningRound, taken, provisioning_round, wait_for_ocm_provisioning,
}

-- The provider's cluster is ready, the new status is taken, and so is the one before it if the
-- cluster was still provisioning.
abbrev pub FindsReady : ProvisioningRound → Type 0
FindsReady r =
    (c : ClusterView) × (r.cluster ≡ replied c)
    × (str_eq c.state "ready" ≡ true)
    × (taken r.healthcheck_added ≡ true)
    × (str_eq c.current_status "provisioning" ≡ true → taken r.waiting_added ≡ true)

replied_eq : {A : Type 0} {a b : A} → replied a ≡ replied b → a ≡ b
replied_eq e = cc

module _ (is_upgrade : Bool) where
  round_iff :
      (r : ProvisioningRound) (statuses : List String)
      → ((provisioning_round is_upgrade r statuses).0 ≡ true) ↔ FindsReady r
  unfolding provisioning_round
  round_iff r statuses = elim (reply_cases r.cluster) [
    | inl (e, p) ↦
        rw (p, provisioning_round)
          (λ k. absurd (ground arith), λ k. absurd (let (c, q, s, t, w) = k in cc))
    | inr (c, p) ↦ (
      λ k.
          let h = rw (p, provisioning_round) at k in
          (c, p, ground arith, ground arith, ground arith),
      λ k.
          let (d, q, s, t, w) = k in
          let same : c ≡ d = replied_eq (sym p ∙ q) in
          rw (p, provisioning_round) (rw same (ground arith)),
    )
  ]

  -- The wait for the provisioning ends before the timeout exactly when in some round the provider's
  -- cluster is ready and the status of the health check is taken, and, in a round that finds the
  -- status of the provisioning, the status of the wait as well.
  pub wait_for_ocm_provisioning_lem :
      (rounds : List ProvisioningRound) (statuses : List String)
      → ((wait_for_ocm_provisioning is_upgrade rounds statuses).0 ≡ true) ↔ Any FindsReady rounds
  unfolding wait_for_ocm_provisioning
  wait_for_ocm_provisioning_lem [] statuses = (λ k. absurd (ground arith), λ k. absurd k)
  wait_for_ocm_provisioning_lem (r ∷ rs) statuses =
      let (to, back) = round_iff r statuses in
      let (there, here) =
        wait_for_ocm_provisioning_lem rs (provisioning_round is_upgrade r statuses).1 in
      elim (Bool-cases (provisioning_round is_upgrade r statuses).0) [
        | inl t ↦ rw (t, wait_for_ocm_provisioning) (λ k. inl (to t), λ k. refl)
        | inr f ↦
            rw (f, wait_for_ocm_provisioning)
              (
                λ k. inr (there k),
                λ k. elim k [ inl h ↦ absurd (let b = back h in ground arith) | inr h ↦ here h ],
              )
      ]
