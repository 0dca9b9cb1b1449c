-- ===== src/Ocm/Deletion/Requests.antt =====
-- When `DeleteCluster` requests a deletion.
use osde2e.Prelude.{
  ℕ, zero, suc, ◌≡◌, refl, ◌∙◌, ap, subst, ◌⊎◌, inl, inr, String, true, false, Option, none, some,
  List, [], ◌∷◌, ◌++◌, Bool-cases, count_if, count_if-append, arith,
}
use osde2e.Go.{Error}
use osde2e.Go.Calls.{ends, fails, dies, End-cases}
use osde2e.Go.Steps.{Step, ◌>>=◌, bind_end}
use osde2e.Spi.Cluster.{Cluster, ClusterState}
use osde2e.Spi.Cluster
use osde2e.Ocm.Provider.{State, Call}
use osde2e.Ocm.Clusters.{ClusterService, get_spi_cluster}
use osde2e.Ocm.Deletion.Calls.{is_deletion, get-Keeps, poll_ready-Keeps}
use osde2e.Ocm.Deletion.{
  is_ready, is_errored, is_uninstalling, go_on, poll_round, poll_ready, request_deletion, delete,
}

-- How many deletions were requested.
abbrev pub deletions : State → ℕ
deletions s = count_if is_deletion s.calls

-- The number of deletions stays the same with every other call.
abbrev HasDeletions : ℕ → List Call → Type 0
HasDeletions n cs = count_if is_deletion cs ≡ n

HasDeletions-append :
    (n : ℕ) (c : Call) (cs : List Call)
    → is_deletion c ≡ false
    → HasDeletions n cs
    → HasDeletions n (cs ++ (c ∷ []))
HasDeletions-append n c cs e h = rw (count_if-append, e) (omega (arith, h))

module _ (sv : ClusterService) (timeout : Error) (id : String) where
  -- The cluster was just fetched, and it is ready.
  abbrev pub FetchedReady : Cluster → State → Type 0
  FetchedReady cl after =
      (before : State) × (get_spi_cluster sv id before ≡ (ends cl, after))
      × (is_ready cl.state ≡ true)

  round_ready :
      (cl : Cluster) (s : State) (rest : Option Cluster → Step State Cluster) {c : Cluster}
      → is_ready cl.state ≡ true
      → ((h : Option Cluster) (s' : State) → (rest h s').0 ≡ ends c → FetchedReady c (rest h s').1)
      → ((poll_round sv id (some cl) >>= go_on rest) s).0 ≡ ends c
      → FetchedReady c ((poll_round sv id (some cl) >>= go_on rest) s).1
  round_ready cl s rest {c} t ih k = elim (End-cases (get_spi_cluster sv id s).0) [
    | inl (c', e) ↦ elim (Bool-cases (is_errored c'.state)) [
      | inl x ↦ absurd (let k' = rw (t, e, x) at k in cc)
      | inr x ↦ elim (Bool-cases (is_ready c'.state)) [
        | inl y ↦
            let it : c' ≡ c = let k' = rw (t, e, x, y) at k in cc in
            rw (t, e, x, y)
              (
                s,
                ap (λ r. (r, (get_spi_cluster sv id s).1)) (e ∙ ap ends it),
                subst (λ d. is_ready d.state ≡ true) it y,
              )
        | inr y ↦ rw (t, e, x, y) (ih (some c') (get_spi_cluster sv id s).1 (rw (t, e, x, y) at k))
      ]
    ]
    | inr (inl (x, e)) ↦ rw (t, e) (ih none (get_spi_cluster sv id s).1 (rw (t, e) at k))
    | inr (inr e) ↦ absurd (let k' = rw (t, e) at k in cc)
  ]

  poll_ready-FetchedReady :
      (rounds : ℕ) (h : Option Cluster) (s : State) {c : Cluster}
      → (poll_ready sv timeout id rounds h s).0 ≡ ends c
      → FetchedReady c (poll_ready sv timeout id rounds h s).1
  unfolding poll_ready
  poll_ready-FetchedReady zero h s k = absurd cc
  poll_ready-FetchedReady (suc rounds) none s k = absurd cc
  poll_ready-FetchedReady (suc rounds) (some cl) s k = elim (Bool-cases (is_ready cl.state)) [
    | inl t ↦
        round_ready cl s (poll_ready sv timeout id rounds) t
          (λ h s' k'. poll_ready-FetchedReady rounds h s' k') k
    | inr t ↦ elim (Bool-cases (is_errored cl.state)) [
      | inl x ↦ absurd (let k' = rw (t, x) at k in cc)
      | inr x ↦ rw (t, x) (poll_ready-FetchedReady rounds (some cl) s (rw (t, x) at k))
    ]
  ]

  poll_not_ready :
      (rounds : ℕ) (cl : Cluster) (s : State)
      → is_ready cl.state ≡ false
      → is_errored cl.state ≡ false
      → poll_ready sv timeout id rounds (some cl) s ≡ (fails timeout, s)
  unfolding poll_ready
  poll_not_ready zero cl s r x = refl
  poll_not_ready (suc rounds) cl s r x = rw (r, x) (poll_not_ready rounds cl s r x)

  -- A deletion is requested only right after a fetch that found the cluster ready: otherwise the
  -- number of requested deletions stays as it was.
  pub delete_requests :
      (rounds : ℕ) (s : State)
      → (deletions (delete sv timeout rounds id s).1 ≡ deletions s)
        ⊎ ((cl : Cluster) × (after : State) × FetchedReady cl after
            × (delete sv timeout rounds id s ≡ request_deletion sv id cl after))
  unfolding delete
  delete_requests rounds s =
      let got =
        get-Keeps sv (HasDeletions (deletions s)) (HasDeletions-append (deletions s)) id s refl in
      elim (End-cases (get_spi_cluster sv id s).0) [
        | inr (inl (x, e)) ↦ rw e (inl got)
        | inr (inr e) ↦ rw e (inl got)
        | inl (cl, e) ↦ elim (Bool-cases (is_uninstalling cl.state)) [
          | inl t ↦ rw (e, t) (inl got)
          | inr t ↦
              let s1 = (get_spi_cluster sv id s).1 in
              let polled =
                poll_ready-Keeps sv (HasDeletions (deletions s)) (HasDeletions-append (deletions s))
                  timeout id rounds (some cl) s1 got in
              elim (End-cases (poll_ready sv timeout id rounds (some cl) s1).0) [
                | inr (inl (x, e')) ↦ rw (e, t, e') (inl polled)
                | inr (inr e') ↦ rw (e, t, e') (inl polled)
                | inl (c, e') ↦
                    rw (e, t, e')
                      (inr (
                        c,
                        (poll_ready sv timeout id rounds (some cl) s1).1,
                        poll_ready-FetchedReady rounds (some cl) s1 e',
                        refl,
                      ))
              ]
        ]
      ]

  -- A cluster whose first state is neither ready nor errored nor uninstalling is never fetched again:
  -- the deletion ends with the timeout, however often the poll runs, and the only calls are those of
  -- the first fetch.
  pub delete_not_ready :
      (rounds : ℕ) (s : State) (cl : Cluster)
      → (get_spi_cluster sv id s).0 ≡ ends cl
      → is_ready cl.state ≡ false
      → is_errored cl.state ≡ false
      → is_uninstalling cl.state ≡ false
      → delete sv timeout rounds id s ≡ (fails timeout, (get_spi_cluster sv id s).1)
  unfolding delete
  delete_not_ready rounds s cl e r x u =
      rw (e, u)
        (ap (λ o. bind_end o.0 o.1 (request_deletion sv id))
          (poll_not_ready rounds cl (get_spi_cluster sv id s).1 r x))

  -- A request of the poll that fails, with another round to come, ends in a panic: the first state is
  -- ready, the request of the first round fails, and the poll runs at least twice.
  pub delete_failed_fetch :
      (rounds : ℕ) (s s' : State) (cl : Cluster) (e : Error)
      → get_spi_cluster sv id s ≡ (ends cl, s')
      → is_ready cl.state ≡ true
      → (get_spi_cluster sv id s').0 ≡ fails e
      → (delete sv timeout (suc (suc rounds)) id s).0 ≡ dies
  unfolding delete poll_ready
  delete_failed_fetch rounds s s' cl e h r k = elim (Bool-cases (is_uninstalling cl.state)) [
    | inl t ↦ absurd (ready_not_uninstalling cl.state r t)
    | inr t ↦ rw (h, t, r, k) refl
  ]
    where
      ready_not_uninstalling :
          (st : ClusterState) → is_ready st ≡ true → is_uninstalling st ≡ true → ⊥
      ready_not_uninstalling Cluster.ready a b = cc
      ready_not_uninstalling Cluster.error a b = cc
      ready_not_uninstalling _ a b = cc
