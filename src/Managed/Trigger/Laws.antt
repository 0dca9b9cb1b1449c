-- ===== src/Managed/Trigger/Laws.antt =====
-- managed.go: what `TriggerManagedUpgrade` returns.
use osde2e.Prelude.{◌≡◌, inl, inr, str_eq, Bool-cases, Option-cases}
use osde2e.Go.Calls.{ends, bind_ends}
use osde2e.Semver.{Semver}
use osde2e.Versions.Selector.{openshift_version_to_semver}
use osde2e.Managed.{UpgradeSettings}
use osde2e.Managed.Trigger.{
  TriggerReplies, Update, desired_update, start_upgrade, trigger_managed_upgrade,
}

ended_same : {A : Type 0} {a b : A} → ends a ≡ ends b → a ≡ b
ended_same e = cc

module _ (V : Type 0) ⦃sv : Semver V⦄ where
  desired_blank :
      (s : UpgradeSettings) (u : Update) → (desired_update V s).end ≡ ends u → u.version ≡ ""
  desired_blank s u h = elim (Bool-cases (str_eq s.release_name "")) [
    | inl t ↦ let e = ended_same (rw t at h) in cc
    | inr f ↦ elim (Option-cases (openshift_version_to_semver {V = V} s.release_name)) [
      | inl n ↦ absurd (let k = rw (f, n) at h in cc)
      | inr (v, p) ↦ let e = ended_same (rw (f, p) at h) in cc
    ]
  ]

  -- Whatever the settings say, a triggered upgrade that is returned has no version.
  pub trigger_managed_upgrade_lem :
      (s : UpgradeSettings) (r : TriggerReplies) (u : Update)
      → (trigger_managed_upgrade V s r).end ≡ ends u
      → u.version ≡ ""
  unfolding trigger_managed_upgrade
  trigger_managed_upgrade_lem s r u h =
      let (a, e, k) = bind_ends (start_upgrade V s r) (λ _. desired_update V s) h in
      desired_blank s u k
