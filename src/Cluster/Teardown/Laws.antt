-- ===== src/Cluster/Teardown/Laws.antt =====
-- The end of a cluster: its deletion, its expiry and its properties.
use osde2e.Prelude.{
  ℕ, ◌*◌, count_if, count_if-append, ◌≡◌, refl, ◌⊎◌, inl, inr, ◌≤◌, ◌+◌, arith, Bool, true, false,
  not, ◌&&◌, ◌||◌, List, [], ◌∷◌, ◌++◌, str_eq, All, All-append, Bool-cases,
}
use osde2e.Go.Calls.{Reply, replied, refused, reply_cases, ends}
use osde2e.Cluster.Config.{
  Cluster, ClusterConfig, World, Call, made, get_cluster, expire, extend_expiry, call, same,
}
use osde2e.Cluster.Teardown.{
  ExpiryReplies, delete_if_configured, handle_expiration_extension, is_nightly, is_short_lived,
  extend_passing, extend_if_short_lived,
}
use osde2e.Go.Steps.{◌>>=◌}

-- With the same settings, either `DeleteCluster` makes no call, or `HandleExpirationExtension` makes
-- none and ends without an error: a cluster is never both deleted and given more time.
pub delete_if_configured_or_extended :
    (has_provider : Bool) (deleted : Reply Unit) (r : ExpiryReplies) (w : World)
    → ((delete_if_configured has_provider deleted w).1.calls ≡ w.calls)
      ⊎ (handle_expiration_extension r w ≡ (ends tt, w))
unfolding delete_if_configured handle_expiration_extension
delete_if_configured_or_extended has_provider deleted r w =
    elim (Bool-cases (str_eq w.config.id "")) [
      | inl t ↦ inr (rw t refl)
      | inr f ↦ elim (Bool-cases w.config.skip_destroy_cluster) [
        | inl skip ↦ inl (rw (f, skip) refl)
        | inr no_skip ↦ inr (rw (f, no_skip) refl)
      ]
    ]

abbrev pub is_extension : Call → Bool
is_extension (extend_expiry id h m s) = true
is_extension c = false

-- What an extension needs: the cluster is kept, was not claimed from the reserve, has no addons, and
-- with six hours more it still expires within a day of its creation.
abbrev pub MayExtend : ClusterConfig → Reply Cluster → ℕ → Type 0
MayExtend c cluster hours =
    (str_eq c.id "" ≡ false)
    × (c.skip_destroy_cluster ≡ true)
    × (c.claimed_from_reserve ≡ false)
    × (str_eq c.addon_ids "" ≡ true)
    × ((cl : Cluster) × (cluster ≡ replied cl)
        × (cl.expiration_timestamp + 60 * hours ≤ cl.creation_timestamp + 1440))

-- An extension is by six hours, of the cluster itself, and needs that.
abbrev pub IsAllowed : ClusterConfig → Reply Cluster → Call → Type 0
IsAllowed c cluster (extend_expiry id hours minutes seconds) =
    (id ≡ c.id) × (hours ≡ 6) × (minutes ≡ 0) × (seconds ≡ 0) × MayExtend c cluster hours
IsAllowed c cluster _ = Unit

-- Every extension is allowed, and there are at most some number of them.
abbrev pub AllowedTimes : ClusterConfig → Reply Cluster → ℕ → List Call → Type 0
AllowedTimes c cluster n cs = All (IsAllowed c cluster) cs × (count_if is_extension cs ≤ n)

AllowedTimes-append :
    (c : ClusterConfig) (cluster : Reply Cluster) (n : ℕ) (cs : List Call) (last : Call)
    → AllowedTimes c cluster n cs
    → IsAllowed c cluster last
    → AllowedTimes c cluster (n + count_if is_extension (last ∷ [])) (cs ++ (last ∷ []))
AllowedTimes-append c cluster n cs last (h, k) l = (
  All-append (IsAllowed c cluster) cs (last ∷ []) h (l, tt),
  omega (arith, count_if-append is_extension cs (last ∷ [])),
)

more_times :
    (c : ClusterConfig) (cluster : Reply Cluster) (cs : List Call)
    → AllowedTimes c cluster 0 cs
    → AllowedTimes c cluster 1 cs
more_times c cluster cs (h, k) = (h, omega arith)

-- The extension after the cluster was asked for.
fetched-AllowedTimes :
    (c : ClusterConfig) (v : World) (cluster : Reply Cluster) (extended : Reply Unit)
    → str_eq c.id "" ≡ false
    → c.skip_destroy_cluster ≡ true
    → c.claimed_from_reserve ≡ false
    → str_eq c.addon_ids "" ≡ true
    → AllowedTimes c cluster 0 (v.calls ++ (get_cluster c.id ∷ []))
    → AllowedTimes c cluster 1
        ((call (get_cluster c.id) same cluster >>= extend_if_short_lived extended c.id) v).1.calls
fetched-AllowedTimes c v (refused x) extended named kept unclaimed bare h =
    more_times c (refused x) (v.calls ++ (get_cluster c.id ∷ [])) h
fetched-AllowedTimes c v (replied cl) extended named kept unclaimed bare h =
    let fetched = v.calls ++ (get_cluster c.id ∷ []) in
    elim (Bool-cases (is_short_lived cl)) [
      | inr long ↦ rw long (more_times c (replied cl) fetched h)
      | inl short ↦
          let once =
            AllowedTimes-append c (replied cl) 0 fetched (extend_expiry c.id 6 0 0) h
              (refl, refl, refl, refl, (named, kept, unclaimed, bare, (cl, refl, ground arith))) in
          elim (reply_cases extended) [
            | inl (x, e) ↦ rw (short, e) once
            | inr (u, e) ↦ rw (short, e) once
          ]
    ]

extend_passing-AllowedTimes :
    (r : ExpiryReplies) (c : ClusterConfig) (v : World)
    → str_eq c.id "" ≡ false
    → c.skip_destroy_cluster ≡ true
    → AllowedTimes c r.cluster 0 v.calls
    → AllowedTimes c r.cluster 1 (extend_passing r c v).1.calls
extend_passing-AllowedTimes r c v named kept h =
    elim (Bool-cases (not c.claimed_from_reserve && str_eq c.addon_ids "")) [
      | inr f ↦ rw f (more_times c r.cluster v.calls h)
      | inl t ↦ rw t (
          fetched-AllowedTimes c v r.cluster r.extended named kept (ground arith) (ground arith)
            (AllowedTimes-append c r.cluster 0 v.calls (get_cluster c.id) h tt))
    ]

-- From no calls, `HandleExpirationExtension` extends the expiry at most once. It does so by six hours,
-- and only if the cluster is kept, was not claimed from the reserve and has no addons, and if it
-- still expires within a day of its creation with the hours that the call adds.
pub handle_expiration_extension_bound :
    (r : ExpiryReplies) (w : World)
    → w.calls ≡ []
    → AllowedTimes w.config r.cluster 1 (handle_expiration_extension r w).1.calls
unfolding handle_expiration_extension
handle_expiration_extension_bound r w start =
    let c = w.config in
    elim (Bool-cases (str_eq c.id "" || not c.skip_destroy_cluster)) [
      | inl t ↦ rw (t, start) (tt, omega arith)
      | inr f ↦
          let named : str_eq c.id "" ≡ false = ground arith in
          let kept : c.skip_destroy_cluster ≡ true = ground arith in
          elim (Bool-cases (is_nightly c)) [
            | inr usual ↦
                rw (f, usual)
                  (extend_passing-AllowedTimes r c w named kept (rw start (tt, omega arith)))
            | inl nightly ↦
                let v = made (expire c.id 30) w in
                let quiet : AllowedTimes c r.cluster 0 v.calls = rw start ((tt, tt), omega arith) in
                elim (reply_cases r.expired) [
                  | inl (x, e) ↦ rw (f, nightly, e) (more_times c r.cluster v.calls quiet)
                  | inr (u, e) ↦
                      rw (f, nightly, e) (extend_passing-AllowedTimes r c v named kept quiet)
                ]
          ]
    ]
