-- ===== src/Cleanup/Safety.antt =====
-- What a cleanup deletes, and when it takes every cluster for a leftover.
use osde2e.Prelude.{
  ℕ, ◌≡◌, ◌≢◌, refl, ap, sym, subst, String, Bool, true, false, not, ◌&&◌, some, List, [], ◌∷◌,
  ◌++◌, arith, if◌then◌else◌, All, All-map, All-append, any_if, fold, str_eq,
}
use text.Mathlib.TextPositions.{eq_refl}
use osde2e.Go.{Error}
use osde2e.Go.Calls.{Reply, replied, refused, ends}
use osde2e.Go.Steps.{Step, Keeps, bind-Keeps, pure}
use osde2e.Spi.Cluster.{Cluster}
use osde2e.Ocm.Provider
use osde2e.Ocm.Provider.{State, Call, delete_cluster}
use osde2e.Ocm.Clusters.{ClusterService}
use osde2e.Ocm.Choices.{try_step}
use osde2e.Ocm.Deletion.{delete}
use osde2e.Ocm.Deletion.Calls.{is_deletion, delete-Keeps}
use osde2e.Ocm.Listing.{ListService, list_owned_clusters}
use osde2e.Ocm.Listing.Calls.{list_owned_clusters-Keeps}
use osde2e.Cleanup.{
  delete_listed, Args, Environment, connected, add_listing, active_in, collect_active_clusters,
  cleanup_query, is_old, delete_if_old, delete_old, cleanup_clusters,
}

fold-refused :
    (rs : List (Reply (List Cluster)))
    → All (λ r. (e : Error) × (r ≡ refused e)) rs
    → fold add_listing [] rs ≡ []
fold-refused [] h = refl
fold-refused (r ∷ rs) h = rw h.0.1 (fold-refused rs h.1)

-- A provider could be created in some environment, and every listing of such an environment fails:
-- the collection of the active clusters ends without an error, and with no cluster at all.
pub collect_active_clusters-unsafe :
    (envs : List Environment)
    → connected envs ≢ []
    → All (λ r. (e : Error) × (r ≡ refused e)) (connected envs)
    → collect_active_clusters envs ≡ replied []
unfolding collect_active_clusters
collect_active_clusters-unsafe envs some_connected failed =
    from (connected envs) some_connected failed
  where
    from :
        (rs : List (Reply (List Cluster)))
        → rs ≢ []
        → All (λ r. (e : Error) × (r ≡ refused e)) rs
        → active_in rs ≡ replied []
    from [] n h = absurd (n refl)
    from (r ∷ rs) n h = ap replied (fold-refused (r ∷ rs) h)

when-Keeps :
    {A : Type 0} (P : State → Type 0) (old dry : Bool) (m n : Step State A)
    → ((old && not dry) ≡ true → Keeps P m)
    → Keeps P n
    → Keeps P (if old then (if dry then n else m) else n)
when-Keeps P true true m n h k = k
when-Keeps P true false m n h k = h refl
when-Keeps P false dry m n h k = k

module _ (ls : ListService) (sv : ClusterService) (timeout : Error) (rounds now : ℕ)
    (args : Args) where
  -- A cluster of the list that is old enough and has the id, outside of a dry run.
  abbrev pub may_delete : List Cluster → String → Bool
  may_delete cls id = not args.dry_run && any_if (λ cl. is_old now args cl && str_eq cl.id id) cls

  abbrev pub is_allowed : List Cluster → Call → Bool
  is_allowed cls (Provider.delete_cluster id) = may_delete cls id
  is_allowed cls c = true

  abbrev pub OnlyAllowed : List Cluster → List Call → Type 0
  OnlyAllowed cls cs = All (λ c. is_allowed cls c ≡ true) cs

  quiet_allowed : (cls : List Cluster) (c : Call) → is_deletion c ≡ false → is_allowed cls c ≡ true
  quiet_allowed cls (Provider.delete_cluster id) h = absurd cc
  quiet_allowed cls (Provider.get_cluster id) h = refl
  quiet_allowed cls _ h = refl

  OnlyAllowed-append :
      (cls : List Cluster) (c : Call) (cs : List Call)
      → is_deletion c ≡ false
      → OnlyAllowed cls cs
      → OnlyAllowed cls (cs ++ (c ∷ []))
  OnlyAllowed-append cls c cs h k =
      All-append (λ d. is_allowed cls d ≡ true) cs (c ∷ []) k (quiet_allowed cls c h, tt)

  delete_if_old-Keeps :
      (cls : List Cluster) (cl : Cluster)
      → (is_old now args cl ≡ true
          → any_if (λ d. is_old now args d && str_eq d.id cl.id) cls ≡ true)
      → Keeps (λ s. OnlyAllowed cls s.calls) (delete_if_old ls sv timeout rounds now args cl)
  delete_if_old-Keeps cls cl among =
      when-Keeps (λ s. OnlyAllowed cls s.calls) (is_old now args cl) args.dry_run
        (try_step (delete sv timeout rounds cl.id)) (pure (some tt))
        (λ e.
          let old : is_old now args cl ≡ true = ground arith in
          let wet : not args.dry_run ≡ true = ground arith in
          let listed = among old in
          let allowed : may_delete cls cl.id ≡ true = rw (wet, listed) refl in
          λ s h.
            delete-Keeps sv (OnlyAllowed cls) (OnlyAllowed-append cls) timeout rounds cl.id
              (λ cs k.
                All-append (λ d. is_allowed cls d ≡ true) cs (delete_cluster cl.id ∷ []) k
                  (allowed, tt))
              s h)
        (λ s h. h)

  delete_old-Keeps :
      (cls rest : List Cluster)
      → ((cl : Cluster)
          → any_if (λ d. is_old now args d && str_eq d.id cl.id) rest ≡ true
          → any_if (λ d. is_old now args d && str_eq d.id cl.id) cls ≡ true)
      → Keeps (λ s. OnlyAllowed cls s.calls) (delete_old ls sv timeout rounds now args rest)
  unfolding delete_old
  delete_old-Keeps cls [] sub = λ s h. h
  delete_old-Keeps cls (cl ∷ rest) sub =
      bind-Keeps (λ s. OnlyAllowed cls s.calls) (delete_if_old ls sv timeout rounds now args cl)
        (λ o. delete_old ls sv timeout rounds now args rest)
        (delete_if_old-Keeps cls cl (λ old. sub cl (rw (old, eq_refl cl.id) refl)))
        (λ o. delete_old-Keeps cls rest (λ d h. sub d (ground arith)))

  delete_listed-OnlyAllowed :
      (fuel : ℕ) (s : State) (cls : List Cluster)
      → All (λ c. is_deletion c ≡ false) s.calls
      → (list_owned_clusters ls sv fuel cleanup_query s).0 ≡ ends (some cls)
      → OnlyAllowed cls (delete_listed ls sv timeout rounds now args fuel s).1.calls
  delete_listed-OnlyAllowed fuel s cls quiet listed =
      let start : OnlyAllowed cls s.calls =
        All-map (λ c. is_deletion c ≡ false) (λ c. is_allowed cls c ≡ true) (quiet_allowed cls)
          s.calls quiet in
      let after =
        list_owned_clusters-Keeps ls sv (OnlyAllowed cls) (OnlyAllowed-append cls) fuel
          cleanup_query s start in
      rw listed (
        delete_old-Keeps cls cls (λ d h. h) (list_owned_clusters ls sv fuel cleanup_query s).1
          after)

  -- The clean up of clusters is asked for, its provider is made, and the owned clusters are listed
  -- from a state in which no deletion was requested. Whatever the clean up then requests to delete is
  -- a listed cluster that is old enough, and in a dry run it requests no deletion.
  pub cleanup_clusters-OnlyAllowed :
      (fuel : ℕ) (s : State) (cls : List Cluster)
      → args.clusters ≡ true
      → All (λ c. is_deletion c ≡ false) s.calls
      → (list_owned_clusters ls sv fuel cleanup_query s).0 ≡ ends (some cls)
      → OnlyAllowed cls (cleanup_clusters ls sv timeout rounds now args (replied tt) fuel s).1.calls
  unfolding cleanup_clusters
  cleanup_clusters-OnlyAllowed fuel s cls on quiet listed =
      subst
        (λ b.
          OnlyAllowed cls
            ((if b then delete_listed ls sv timeout rounds now args fuel else pure (some tt))
              s).1.calls)
        (sym on) (delete_listed-OnlyAllowed fuel s cls quiet listed)
