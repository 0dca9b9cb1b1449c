-- ===== src/Cluster/Wait/Ready.antt =====
-- The whole wait for a cluster in pkg/common/cluster/clusterutil.go, with the calls around the rounds.
use osde2e.Prelude.{
  ℕ, suc, ◌^◌, ◌<◌, ◌≡◌, refl, ap, sym, ◌∙◌, ◌↔◌, inl, inr, String, Bool, true, false, not, ◌&&◌,
  none,
}
use osde2e.Prelude.Int.{pos}
use osde2e.Health.{Reply, replied, refused, reply_cases}
use osde2e.Cluster.Wait.{
  Inputs, Waiting, wait_rounds, new_wait, finish, healthy_status, unhealthy_status_of,
  wait_for_cluster_ready,
}
use osde2e.Cluster.Wait.Runs.{HasCleanRun, wait_rounds_lem, wait_rounds_not_ready}

abbrev pub Replied : {A : Type 0} → Reply A → Type 0
Replied {A} r = (a : A) × (r ≡ replied a)

-- The calls before the rounds reply, the cluster is ready, the clean runs come, and the last status
-- is taken.
abbrev pub BecomesReady : ℕ → Inputs → Type 0
BecomesReady n i =
    Replied i.provider
    × Replied i.provisioning
    × (i.cluster_ready ≡ replied true)
    × HasCleanRun n i.rounds
    × Replied i.healthy_added

replied_same : {A : Type 0} {a b : A} → replied a ≡ replied b → a ≡ b
replied_same e = cc

finish_iff :
    (added : Reply Unit) (status : String) (r : Bool × Waiting)
    → ((finish added status r).0 ≡ none) ↔ ((r.0 ≡ true) × Replied added)
finish_iff added status (false, w) = (λ k. absurd (cc), λ k. absurd (let t = k.0 in cc))
finish_iff (refused e) status (true, w) = (λ k. absurd (cc), λ k. absurd (let (u, p) = k.1 in cc))
finish_iff (replied u) status (true, w) = (λ k. (refl, (u, refl)), λ k. refl)

module _ (n : ℕ) (bounded : suc n < 2 ^ 63) (is_upgrade override_skip_check : Bool) where
  -- After the calls before the rounds.
  rounds_iff :
      (i : Inputs) (ready : Bool)
      → i.clean_check_runs ≡ pos (suc n)
      → ((finish i.healthy_added (healthy_status is_upgrade) (
            wait_rounds i.clean_check_runs
              (unhealthy_status_of is_upgrade)
              ready
              i.rounds
              new_wait)).0
          ≡ none)
        ↔ ((ready ≡ true) × HasCleanRun (suc n) i.rounds × Replied i.healthy_added)
  rounds_iff i true needed =
      let (to, back) = wait_rounds_lem n (unhealthy_status_of is_upgrade) bounded i.rounds in
      let (there, here) =
        finish_iff i.healthy_added (healthy_status is_upgrade)
          (wait_rounds (pos (suc n)) (unhealthy_status_of is_upgrade) true i.rounds new_wait) in
      rw needed (
        λ k. let (over, added) = there k in (refl, to over, added),
        λ k. let (t, run, added) = k in here (back run, added),
      )
  rounds_iff i false needed =
      let (there, here) =
        finish_iff i.healthy_added (healthy_status is_upgrade) (false, new_wait) in
      rw
        (wait_rounds_not_ready i.clean_check_runs (unhealthy_status_of is_upgrade) i.rounds
          new_wait)
        (λ k. absurd (let (over, added) = there k in cc), λ k. absurd (let t = k.0 in cc))

  -- For a number of needed clean runs from 1 to 2^63 - 1, and unless the checks are skipped, the
  -- wait for a cluster has no error exactly when the provider and the provisioning come through, the
  -- cluster is ready when it is fetched, so many polls in a row are clean before the timeout, and the
  -- status for a healthy cluster is taken.
  pub wait_for_cluster_ready_lem :
      (i : Inputs)
      → i.clean_check_runs ≡ pos (suc n)
      → (i.skip_cluster_health_checks && not override_skip_check) ≡ false
      → ((wait_for_cluster_ready i is_upgrade override_skip_check).0 ≡ none)
        ↔ BecomesReady (suc n) i
  unfolding wait_for_cluster_ready
  wait_for_cluster_ready_lem i needed runs = elim (reply_cases i.provider) [
    | inl (e, p) ↦
        rw (runs, p, wait_for_cluster_ready)
          (λ k. absurd (cc), λ k. absurd (let ((u, q), b, c, d, f) = k in cc))
    | inr (u, p) ↦ elim (reply_cases i.provisioning) [
      | inl (e, q) ↦
          rw (runs, p, q, wait_for_cluster_ready)
            (λ k. absurd (cc), λ k. absurd (let (a, (t, q'), c, d, f) = k in cc))
      | inr (t, q) ↦ elim (reply_cases i.cluster_ready) [
        | inl (e, r) ↦
            rw (runs, p, q, r, wait_for_cluster_ready)
              (λ k. absurd (cc), λ k. absurd (let (a, b, h, d, f) = k in cc))
        | inr (ready, r) ↦
            let (to, back) = rounds_iff i ready needed in
            (
              λ k.
                  let (h, run, added) = to (rw (runs, p, q, r, wait_for_cluster_ready) at k) in
                  ((u, p), (t, q), r ∙ ap replied h, run, added),
              λ k.
                  let (a, b, h, run, added) = k in
                  rw (runs, p, q, r, wait_for_cluster_ready)
                    (back (replied_same (sym r ∙ h), run, added)),
            )
      ]
    ]
  ]
