-- ===== src/Managed/Schedule/Gates.antt =====
-- managed.go: the version gate before an upgrade that the provider schedules.
use osde2e.Prelude.{
  ◌≡◌, refl, inl, inr, String, Bool, true, false, not, ◌&&◌, List, [], ◌∷◌, ◌++◌, some, subst,
  if◌then◌else◌, str_eq, ltb, Bool-cases, Option-cases,
}
use osde2e.Go.{Error}
use osde2e.Versions.Common.{major_minor}
use osde2e.Go.Calls.{
  given, Reply, replied, refused, reply_cases, End, End-cases, ends, fails, dies, call, try_call,
  after_end, bind_no_calls, given_no_calls, ◌>>=◌,
}
use osde2e.Semver.{Semver}
use osde2e.Versions.Selector.{openshift_version_to_semver}
use osde2e.Managed.{UpgradeSettings, Call, get_version_gate_id, add_gate_agreement, upgrade}
use osde2e.Managed.Schedule.{
  ScheduleReplies, UpgradeManager, init_upgrade_manager, apply_version_gate_agreement,
  schedule_ocm_upgrade, parsed, manager_of,
}

abbrev pub has_replied : {A : Type 0} → Reply A → Bool
has_replied (replied a) = true
has_replied (refused e) = false

abbrev pub if_so : Bool → Call → List Call
if_so true c = c ∷ []
if_so false c = []

-- The agreement to the gate that was found.
abbrev pub agreement : String → Reply String → List Call
agreement id (replied gate) = add_gate_agreement id gate ∷ []
agreement id (refused e) = []

module _ {V : Type 0} ⦃sv : Semver V⦄ where
  -- The manager has the cluster of the settings, its version, and the version of the release name.
  abbrev pub IsManager : UpgradeSettings → UpgradeManager V → Type 0
  IsManager s m =
      (m.cluster_id ≡ s.cluster_id)
      × (openshift_version_to_semver s.cluster_version ≡ some m.cluster_version)
      × (openshift_version_to_semver s.release_name ≡ some m.upgrade_version)

  -- The upgrade goes to a later minor version.
  abbrev pub is_later : UpgradeManager V → Bool
  is_later m = ltb (sv.minor m.cluster_version) (sv.minor m.upgrade_version)

  -- A needed agreement that is refused.
  abbrev pub is_blocked : UpgradeManager V → ScheduleReplies → Bool
  is_blocked m r = is_later m && has_replied r.version_gate && not (has_replied r.gate_agreement)

  abbrev pub agreements : UpgradeManager V → ScheduleReplies → List Call
  agreements m r = if is_later m then agreement m.cluster_id r.version_gate else []

  -- What is called with a manager, in this order: the gate of the release is asked for if the upgrade
  -- goes to a later minor version, the gate that is found is agreed to, and the cluster is upgraded
  -- unless the agreement is refused. Without a manager nothing is called.
  abbrev pub CallsOf :
      UpgradeSettings → End (UpgradeManager V) → ScheduleReplies → List Call → Type 0
  CallsOf s (ends m) r calls =
      IsManager s m
      × (calls
          ≡ if_so (is_later m) (get_version_gate_id (major_minor m.upgrade_version))
            ++ (agreements m r
                ++ if_so (not (is_blocked m r))
                    (upgrade m.cluster_id (sv.string m.upgrade_version))))
  CallsOf s (fails e) r calls = calls ≡ []
  CallsOf s dies r calls = calls ≡ []

module _ (V : Type 0) ⦃sv : Semver V⦄ where
  parsed_no_calls : (text : String) (e : Error) → (parsed {V = V} text e).calls ≡ []
  parsed_no_calls text e = elim (Option-cases (openshift_version_to_semver {V = V} text)) [
    | inl n ↦ rw (n, parsed) refl
    | inr (v, p) ↦ rw (p, parsed) refl
  ]

  manager_no_calls :
      (s : UpgradeSettings) (r : ScheduleReplies) → (manager_of {V = V} s r).calls ≡ []
  manager_no_calls s r = bind_no_calls _ _ (parsed_no_calls s.cluster_version _) (λ c.
      bind_no_calls _ _ (parsed_no_calls s.release_name _)
        (λ t. bind_no_calls _ _ (given_no_calls r.provider _) (λ u. refl)))

  init_no_calls :
      (s : UpgradeSettings) (r : ScheduleReplies) → (init_upgrade_manager {V = V} s r).calls ≡ []
  unfolding init_upgrade_manager
  init_no_calls s r = elim (Bool-cases (str_eq s.release_name "")) [
    | inl t ↦ rw t refl
    | inr f ↦ rw f (manager_no_calls s r)
  ]

  IsManager-made :
      (s : UpgradeSettings) (r : ScheduleReplies) (m : UpgradeManager V)
      → (manager_of {V = V} s r).end ≡ ends m
      → IsManager s m
  IsManager-made s r m h =
      elim (Option-cases (openshift_version_to_semver {V = V} s.cluster_version)) [
        | inl n ↦ absurd (let k = rw (n, parsed, after_end) at h in cc)
        | inr (c, p) ↦ elim (Option-cases (openshift_version_to_semver {V = V} s.release_name)) [
          | inl n ↦ absurd (let k = rw (p, n, parsed, after_end) at h in cc)
          | inr (t, q) ↦ elim (reply_cases r.provider) [
            | inl (e, g) ↦ absurd (let k = rw (p, q, g, parsed, given, after_end) at h in cc)
            | inr (u, g) ↦
                let k = rw (p, q, g, parsed, given, after_end) at h in
                subst (IsManager s) (cc) (refl, p, q)
          ]
        ]
      ]

  init-IsManager :
      (s : UpgradeSettings) (r : ScheduleReplies) (m : UpgradeManager V)
      → (init_upgrade_manager {V = V} s r).end ≡ ends m
      → IsManager s m
  unfolding init_upgrade_manager
  init-IsManager s r m h = elim (Bool-cases (str_eq s.release_name "")) [
    | inl t ↦ absurd (let k = rw t at h in cc)
    | inr f ↦ IsManager-made s r m (rw f at h)
  ]

  -- What the provider's upgrade calls once it has its manager.
  with_manager :
      (m : UpgradeManager V) (r : ScheduleReplies) (wrap : Error → Error) (c : Call)
      → (apply_version_gate_agreement m r >>= λ u. call c r.upgrade_started wrap).calls
        ≡ if_so (is_later m) (get_version_gate_id (major_minor m.upgrade_version))
          ++ (agreements m r ++ if_so (not (is_blocked m r)) c)
  unfolding apply_version_gate_agreement
  with_manager m r wrap c =
      elim (Bool-cases (ltb (sv.minor m.cluster_version) (sv.minor m.upgrade_version))) [
        | inr f ↦ elim (reply_cases r.upgrade_started) [
          | inl (e, x) ↦ rw (f, x, call) refl
          | inr (u, x) ↦ rw (f, x, call) refl
        ]
        | inl t ↦ elim (reply_cases r.version_gate) [
          | inl (e, g) ↦ elim (reply_cases r.upgrade_started) [
            | inl (e, x) ↦ rw (t, g, x, try_call, call) refl
            | inr (u, x) ↦ rw (t, g, x, try_call, call) refl
          ]
          | inr (id, g) ↦ elim (reply_cases r.gate_agreement) [
            | inl (e, a) ↦ rw (t, g, a, try_call, call) refl
            | inr (u, a) ↦ elim (reply_cases r.upgrade_started) [
              | inl (e, x) ↦ rw (t, g, a, x, try_call, call) refl
              | inr (u, x) ↦ rw (t, g, a, x, try_call, call) refl
            ]
          ]
        ]
      ]

  -- The upgrade that the provider schedules: without a manager nothing is called. The manager has the
  -- cluster of the settings and the version that the release name says. With it, the calls are these
  -- and in this order: if the upgrade goes to a later minor version, the gate of that major and minor
  -- version is asked for, and the gate that is found is agreed to for the cluster; and the cluster
  -- is upgraded to the version, unless that agreement is refused.
  pub schedule_ocm_upgrade_lem :
      (s : UpgradeSettings) (r : ScheduleReplies)
      → CallsOf s (init_upgrade_manager {V = V} s r).end r (schedule_ocm_upgrade V s r).calls
  unfolding schedule_ocm_upgrade
  schedule_ocm_upgrade_lem s r = elim (End-cases (init_upgrade_manager {V = V} s r).end) [
    | inl (m, e) ↦
        let is_manager = init-IsManager s r m e in
        rw (e, init_no_calls s r, after_end) (is_manager, with_manager m r _ _)
    | inr (inl (x, e)) ↦ rw (e, init_no_calls s r, after_end) refl
    | inr (inr e) ↦ rw (e, init_no_calls s r, after_end) refl
  ]
