-- ===== src/Krkn/Runs/Ends.antt =====
-- How `Execute` ends, and the expiry of the cluster afterwards.
use osde2e.Prelude.{
  ◌≡◌, refl, subst, ap, sym, ◌⊎◌, inl, inr, arith, Bool, true, false, not, ◌&&◌, ◌||◌, List, [],
  ◌∷◌, ◌++◌, ◌∙◌, append_nil, append_assoc, str_eq, if◌then◌else◌, Bool-cases,
}
use osde2e.Prelude.Int.{ℤ, ltb_ℤ}
use osde2e.Go.{Error, wrapf}
use osde2e.Go.Calls.{Reply, replied, refused, reply_cases, End, ends, fails}
use osde2e.Go.Steps.{Step, pure, from_reply, ◌>>=◌}
use osde2e.Krkn.Runs.{
  RunSettings, Call, expire, run_container, Krkn, Mode, discover, run, detect_container_runtime,
  ContainerReplies, ExecuteReplies, as_it_is, container_args, run_krkn_container, run_duration,
  ensure_cluster_expiry_for_krkn_run, restore_cluster_expiry_after_krkn_run, failed_state, handled,
  started, restoring, run_steps, execute, krkn_post_run_cluster_grace,
}

abbrev with_calls : List Call → Krkn → Krkn
with_calls cs k = record k { calls = cs }

-- Calls are only added.
abbrev Extends : List Call → List Call → Type 0
Extends before after = (cs : List Call) × (after ≡ before ++ cs)

Extends-refl : (cs : List Call) → Extends cs cs
Extends-refl cs = ([], sym (append_nil cs))

Extends-trans : (a b c : List Call) → Extends a b → Extends b c → Extends a c
Extends-trans a b c (xs, p) (ys, q) = (xs ++ ys, q ∙ rw p (append_assoc a xs ys))

-- The step ends with or without an error, and only adds calls.
abbrev Tries : Step Krkn Unit → Krkn → Type 0
Tries m k =
    (cs : List Call) × Extends k.calls cs
    × ((m k ≡ (ends tt, with_calls cs k)) ⊎ ((e : Error) × (m k ≡ (fails e, with_calls cs k))))

-- The same, where an error sets the exit code.
abbrev Settles : Step Krkn Unit → Krkn → Type 0
Settles m k =
    (cs : List Call) × Extends k.calls cs
    × ((m k ≡ (ends tt, with_calls cs k))
        ⊎ ((e : Error) × (m k ≡ (fails e, failed_state (with_calls cs k)))))

run_krkn_container-Tries :
    (s : RunSettings) (mode : Mode) (r : ContainerReplies) (k : Krkn)
    → Tries (run_krkn_container s mode r) k
unfolding run_krkn_container
run_krkn_container-Tries s mode r k =
    elim (reply_cases (detect_container_runtime r.podman r.docker)) [
      | inl (e, d) ↦ (k.calls, Extends-refl k.calls, inr (e, rw d refl))
      | inr (path, d) ↦
          let calls = k.calls ++ (run_container path (container_args s mode r.token) ∷ []) in
          let added : Extends k.calls calls =
            (run_container path (container_args s mode r.token) ∷ [], refl) in
          elim (reply_cases r.finished) [
            | inl (e, f) ↦
                (calls, added, inr (wrapf "container execution failed: %w" [] e, rw (d, f) refl))
            | inr (u, f) ↦ (calls, added, inl (rw (d, f) refl))
          ]
    ]

from_reply-Tries : (r : Reply Unit) (k : Krkn) → Tries (from_reply as_it_is r) k
from_reply-Tries (refused e) k = (k.calls, Extends-refl k.calls, inr (e, refl))
from_reply-Tries (replied u) k = (k.calls, Extends-refl k.calls, inl refl)

handled-Settles :
    (wrap : Error → Error) (m : Step Krkn Unit) (k : Krkn) → Tries m k → Settles (handled wrap m) k
handled-Settles wrap m k (cs, h, inl e) = (cs, h, inl (rw e refl))
handled-Settles wrap m k (cs, h, inr (x, e)) = (cs, h, inr (wrap x, rw e refl))

bind-Settles :
    (m : Step Krkn Unit) (f : Unit → Step Krkn Unit) (k : Krkn)
    → Settles m k
    → ((cs : List Call) → Settles (f tt) (with_calls cs k))
    → Settles (m >>= f) k
bind-Settles m f k (cs, a, inl e) h =
    let (ds, b, x) = h cs in (ds, Extends-trans k.calls cs ds a b, rw e x)
bind-Settles m f k (cs, a, inr (x, e)) h = (cs, a, inr (x, rw e refl))

-- Whether the expiry of the cluster is extended before the run: the cluster has an id, it expires
-- before the run would be over, and the provider accepts the extension.
abbrev pub expires_within : ℤ → Reply ℤ → Bool
expires_within duration (replied time) = ltb_ℤ time duration
expires_within duration (refused e) = false

abbrev pub is_accepted : Reply Unit → Bool
is_accepted (replied u) = true
is_accepted (refused e) = false

abbrev pub is_extended : RunSettings → ExecuteReplies → Krkn → Bool
is_extended s r k =
    not (str_eq k.cluster_id "")
    && expires_within (run_duration s) r.until_expiration
    && is_accepted r.extended

-- The state before the container runs: the calls, and whether the expiry was extended.
abbrev begun : List Call → Bool → Krkn → Krkn
begun cs extended k = record k { calls = cs; krkn_extended_cluster_expiry = extended }

abbrev Begins : RunSettings → ExecuteReplies → Krkn → Krkn → Type 0
Begins s r k after =
    (cs : List Call) × (after ≡ begun cs (is_extended s r k) k)
    × ((is_extended s r k ≡ false) ⊎ (cs ≡ k.calls ++ (expire k.cluster_id (run_duration s) ∷ [])))

ensure-Begins :
    (s : RunSettings) (r : ExecuteReplies) (k : Krkn)
    → k.krkn_extended_cluster_expiry ≡ false
    → Begins s r k (ensure_cluster_expiry_for_krkn_run s r k).1
unfolding ensure_cluster_expiry_for_krkn_run
ensure-Begins s r k fresh =
    let unchanged : k ≡ begun k.calls false k =
      ap (λ b. record k { krkn_extended_cluster_expiry = b }) fresh in
    let asked = k.calls ++ (expire k.cluster_id (run_duration s) ∷ []) in
    elim (Bool-cases (str_eq k.cluster_id "")) [
      | inl t ↦ (k.calls, rw t unchanged, inl (rw t refl))
      | inr f ↦ elim (reply_cases r.until_expiration) [
        | inl (e, d) ↦ (k.calls, rw (f, d) unchanged, inl (rw (f, d) refl))
        | inr (time, d) ↦ elim (Bool-cases (ltb_ℤ time (run_duration s))) [
          | inr far ↦ (k.calls, rw (f, d, far) unchanged, inl (rw (f, d, far) refl))
          | inl near ↦ elim (reply_cases r.extended) [
            | inl (e, x) ↦ (
              asked,
              rw (f, d, near, x) (ap (λ b. begun asked b k) fresh),
              inl (rw (f, d, near, x) refl),
            )
            | inr (u, x) ↦ (asked, rw (f, d, near, x) refl, inr refl)
          ]
        ]
      ]
    ]

-- After the check of the expiry.
abbrev container_steps : RunSettings → ExecuteReplies → Step Krkn Unit
container_steps s r = do
  _ ← handled (wrapf "discover mode failed: %w" []) (run_krkn_container s discover r.discovered)
  _ ← handled (wrapf "failed to update config: %w" []) (from_reply as_it_is r.config_updated)
  handled (wrapf "run mode failed: %w" []) (run_krkn_container s run r.ran)

container_steps-Settles :
    (s : RunSettings) (r : ExecuteReplies) (k : Krkn) → Settles (container_steps s r) k
container_steps-Settles s r k =
    bind-Settles
      (handled (wrapf "discover mode failed: %w" []) (run_krkn_container s discover r.discovered))
      (λ u.
        handled (wrapf "failed to update config: %w" []) (from_reply as_it_is r.config_updated)
        >>= λ v. handled (wrapf "run mode failed: %w" []) (run_krkn_container s run r.ran))
      k
      (handled-Settles (wrapf "discover mode failed: %w" [])
        (run_krkn_container s discover r.discovered) k
        (run_krkn_container-Tries s discover r.discovered k))
      (λ cs.
        bind-Settles
          (handled (wrapf "failed to update config: %w" []) (from_reply as_it_is r.config_updated))
          (λ v. handled (wrapf "run mode failed: %w" []) (run_krkn_container s run r.ran))
          (with_calls cs k)
          (handled-Settles (wrapf "failed to update config: %w" [])
            (from_reply as_it_is r.config_updated) (with_calls cs k)
            (from_reply-Tries r.config_updated (with_calls cs k)))
          (λ ds.
            handled-Settles (wrapf "run mode failed: %w" []) (run_krkn_container s run r.ran)
              (with_calls ds k) (run_krkn_container-Tries s run r.ran (with_calls ds k))))

-- The run asks for the extension first, and the last call sets the expiry again.
abbrev pub IsRestored : RunSettings → Krkn → List Call → Type 0
IsRestored s k calls =
    (ran : List Call) × (calls
      ≡ ((k.calls ++ (expire k.cluster_id (run_duration s) ∷ [])) ++ ran)
        ++ (expire k.cluster_id krkn_post_run_cluster_grace ∷ []))

-- What becomes of the expiry: one that was extended is set again, and the state says whether it was
-- extended.
abbrev pub ExpiryEnds : Bool → RunSettings → Krkn → Krkn → Type 0
ExpiryEnds extended s k after =
    (after.krkn_extended_cluster_expiry ≡ extended)
    × ((extended ≡ false) ⊎ IsRestored s k after.calls)

restores :
    (k : Krkn)
    → (k.krkn_extended_cluster_expiry ≡ false) ⊎ (str_eq k.cluster_id "" ≡ false)
    → (cs : List Call) × (restore_cluster_expiry_after_krkn_run k ≡ with_calls cs k)
      × ((k.krkn_extended_cluster_expiry ≡ false)
          ⊎ (cs ≡ k.calls ++ (expire k.cluster_id krkn_post_run_cluster_grace ∷ [])))
unfolding restore_cluster_expiry_after_krkn_run
restores k h = elim (Bool-cases (not k.krkn_extended_cluster_expiry || str_eq k.cluster_id "")) [
  | inl t ↦ (k.calls, rw t refl, inl (elim h [ inl e ↦ e | inr f ↦ ground arith ]))
  | inr f ↦ (k.calls ++ (expire k.cluster_id krkn_post_run_cluster_grace ∷ []), rw f refl, inr refl)
]

-- The calls of a run whose expiry was extended, put together.
put_together :
    (s : RunSettings) (k : Krkn) (extended : Bool) (cs ds fs : List Call)
    → (extended ≡ false) ⊎ (cs ≡ k.calls ++ (expire k.cluster_id (run_duration s) ∷ []))
    → Extends cs ds
    → (extended ≡ false) ⊎ (fs ≡ ds ++ (expire k.cluster_id krkn_post_run_cluster_grace ∷ []))
    → (extended ≡ false) ⊎ IsRestored s k fs
put_together s k extended cs ds fs (inl never) h last = inl never
put_together s k extended cs ds fs (inr first) h (inl never) = inl never
put_together s k extended cs ds fs (inr first) (ran, p) (inr last) = inr (
  ran,
  last
      ∙ ap (λ xs. xs ++ (expire k.cluster_id krkn_post_run_cluster_grace ∷ []))
          (p ∙ ap (λ xs. xs ++ ran) first),
)

-- Only of a cluster with an id.
is_extended_named :
    (s : RunSettings) (r : ExecuteReplies) (k : Krkn)
    → (is_extended s r k ≡ false) ⊎ (str_eq k.cluster_id "" ≡ false)
is_extended_named s r k = elim (Bool-cases (str_eq k.cluster_id "")) [
  | inl t ↦ inl (rw t refl)
  | inr f ↦ inr f
]

abbrev pub HasEnded : Bool → RunSettings → Krkn → End Unit × Krkn → Type 0
HasEnded extended s k (end, after) =
    (after.tests_passed ≡ true)
    × (((end ≡ ends tt) × (after.exit_code ≡ k.exit_code) × (after.passing ≡ true))
        ⊎ ((e : Error) × (end ≡ fails e) × (after.exit_code ≡ 1) × (after.passing ≡ false)))
    × ExpiryEnds extended s k after

restoring-HasEnded :
    (s : RunSettings) (r : ExecuteReplies) (k : Krkn)
    → k.krkn_extended_cluster_expiry ≡ false
    → HasEnded (is_extended s r k) s k (restoring (run_steps s r) (started k))
restoring-HasEnded s r k fresh =
    let extended = is_extended s r k in
    let named = is_extended_named s r k in
    let (cs, e, first) = ensure-Begins s r (started k) fresh in
    let (ds, more, settled) = container_steps-Settles s r (begun cs extended (started k)) in
    elim settled [
      | inl y ↦
          let (fs, z, last) = restores (begun ds extended (started k)) named in
          rw (e, y, z)
            (
              refl,
              inl (refl, refl, refl),
              (refl, put_together s k extended cs ds fs first more last),
            )
      | inr (x, y) ↦
          let (fs, z, last) = restores (failed_state (begun ds extended (started k))) named in
          rw (e, y, z)
            (
              refl,
              inr (x, refl, refl, refl),
              (refl, put_together s k extended cs ds fs first more last),
            )
    ]

-- A run that is not dry, of a cluster whose expiry was not extended yet, ends without an error, with
-- the exit code as it was and the cluster passing, or with an error, the exit code 1 and the cluster
-- not passing; in both cases `TestsPassed` is true. If the cluster has an id and expires before the
-- run would be over, and the provider accepts the extension that the run asks for, then the run
-- first asks for it and its last call sets the expiry to an hour from then, whichever way it ends. The state says afterwards whether
-- the expiry was extended.
pub execute_lem :
    (s : RunSettings) (r : ExecuteReplies) (k : Krkn)
    → s.dry_run ≡ false
    → k.krkn_extended_cluster_expiry ≡ false
    → HasEnded (is_extended s r k) s k (execute s r k)
unfolding execute
execute_lem s r k live fresh =
    subst
      (λ b.
        HasEnded (is_extended s r k) s k
          ((if b then pure tt else restoring (run_steps s r)) (started k)))
      (sym live) (restoring-HasEnded s r k fresh)
