-- ===== src/Cleanup.antt =====
-- cmd/osde2e/cleanup/cmd.go: which clusters a cleanup counts as active, and which ones it deletes.
-- The collections of AWS resources that `run` starts between are calls of the AWS services.
pub mod Safety
use osde2e.Prelude.{
  ℕ, ◌-◌, String, Bool, true, false, not, Option, none, some, List, [], ◌∷◌, fold, str_eq,
  if◌then◌else◌, ltb,
}
use osde2e.Prelude.Maps.{assign}
use osde2e.Go.{Error, errorf, wrapf}
use osde2e.Go.Calls.{Reply, replied, refused, End, ends, fails, dies, wrapped_end}
use osde2e.Go.Steps.{Step, pure, fail, bind_end, or_fail, ◌>>=◌, ◌>>◌}
use osde2e.Spi.Cluster.{Cluster}
use osde2e.Ocm.Provider.{State}
use osde2e.Ocm.Clusters.{ClusterService, get_spi_cluster}
use osde2e.Ocm.Deletion.{delete}
use osde2e.Ocm.Listing.{ListService, list_owned_clusters, and_then}
use osde2e.Ocm.Choices.{try_step}

-- The provider of an environment, and what `ListOwnedClusters` gives there.
abbrev pub Environment : Type 0
Environment = Reply (Reply (List Cluster))

-- The listings of the environments whose provider could be created.
unfoldable pub connected : List Environment → List (Reply (List Cluster))
connected [] = []
connected (refused e ∷ envs) = connected envs
connected (replied listing ∷ envs) = listing ∷ connected envs

abbrev pub Names : Type 0
Names = List (String × Bool)

abbrev pub add_active : Names → Cluster → Names
add_active names cl = assign cl.name true names

-- A listing that fails is skipped.
abbrev pub add_listing : Names → Reply (List Cluster) → Names
add_listing names (refused e) = names
add_listing names (replied cls) = fold add_active names cls

abbrev pub active_in : List (Reply (List Cluster)) → Reply Names
active_in [] = refused (errorf "failed to connect to any OCM environment (int, stage, prod)" [])
active_in (l ∷ ls) = replied (fold add_listing [] (l ∷ ls))

unfoldable pub collect_active_clusters : List Environment → Reply Names
collect_active_clusters envs = active_in (connected envs)

pub record Args : Type 0 where
  pub dry_run : Bool
  pub clusters : Bool
  pub cluster_id : String
  -- In seconds, and not negative.
  pub older_than : ℕ

abbrev pub cleanup_query : String
cleanup_query = "properties.MadeByOSDe2e='true'"

-- Times before the zero time are the zero time: nothing was created then.
abbrev pub is_old : ℕ → Args → Cluster → Bool
is_old now args cl = ltb cl.creation_timestamp (now - args.older_than)

module _ (ls : ListService) (sv : ClusterService) (timeout : Error) (rounds now : ℕ)
    (args : Args) where
  -- The error of a deletion is a message.
  abbrev pub delete_if_old : Cluster → Step State (Option (Unit {0}))
  delete_if_old cl =
      if is_old now args cl
      then (if args.dry_run then pure (some tt) else try_step (delete sv timeout rounds cl.id))
      else pure (some tt)

  unfoldable pub delete_old : List Cluster → Step State (Option (Unit {0}))
  delete_old [] = pure (some tt)
  delete_old (cl ∷ cls) = delete_if_old cl >>= λ o. delete_old cls

  -- Each part makes its own provider first.
  abbrev pub with_provider : {A : Type 0} → Reply (Unit {0}) → Step State A → Step State A
  with_provider (refused e) m = fail (wrapf "could not setup cluster provider: %v" [] e)
  with_provider (replied u) m = m

  -- The loop of the listing may use up its fuel.
  abbrev pub delete_listed : ℕ → Step State (Option (Unit {0}))
  delete_listed fuel = list_owned_clusters ls sv fuel cleanup_query >>= λ o. and_then o delete_old

  unfoldable pub cleanup_clusters : Reply (Unit {0}) → ℕ → Step State (Option (Unit {0}))
  cleanup_clusters provider fuel =
      if args.clusters then with_provider provider (delete_listed fuel) else pure (some tt)

  abbrev pub cluster_not_found : Error → Error
  cluster_not_found e =
      errorf "cluster id: %s not found, unable to delete it" (args.cluster_id ∷ [])

  abbrev pub delete_unless_dry : Cluster → Step State Unit
  delete_unless_dry cl =
      if args.dry_run
      then pure tt
      else or_fail (wrapf "failed to delete cluster: %v" []) (delete sv timeout rounds cl.id)

  abbrev pub delete_named : Step State Unit
  delete_named =
      or_fail cluster_not_found (get_spi_cluster sv args.cluster_id) >>= delete_unless_dry

  unfoldable pub cleanup_cluster_id : Reply (Unit {0}) → Step State Unit
  cleanup_cluster_id provider =
      if str_eq args.cluster_id "" then pure tt else with_provider provider delete_named
