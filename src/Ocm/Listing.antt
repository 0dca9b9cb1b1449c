-- ===== src/Ocm/Listing.antt =====
-- pkg/common/providers/ocmprovider/cluster.go: the listings by pages. How many pages are asked for is
-- bounded by fuel, and a loop that used it up ends with `none`. The size of a page is the number of
-- its items.
pub mod Calls
pub mod Totals
use osde2e.Prelude.{
  ℕ, zero, suc, ◌+◌, String, Bool, true, false, not, ◌||◌, Option, none, some, List, [], ◌∷◌, ◌++◌,
  concat, str_eq, if◌then◌else◌, ltb, leb, ◌==◌, length, fold, keep_if,
}
use osde2e.Prelude.Maps.{lookup, assign}
use osde2e.Go.{Error, wrapf}
use osde2e.Go.Calls.{Reply, End, ends, fails, dies}
use osde2e.Go.Steps.{Step, pure, fail, from_reply, bind_end, ◌>>=◌, ◌>>◌}
use osde2e.Spi.Cluster.{Cluster}
use osde2e.Ocm.Provider.{
  OcmCluster, State, Call, list_clusters, list_names, get_account, list_subscriptions, ask, same,
}
use osde2e.Ocm.Clusters.{ClusterService, ocm_to_spi_cluster}

-- A page: its items, and how many items there are in all.
pub record Page (A : Type 0) : Type 0 where
  pub items : List A
  pub total : ℕ

-- What the listings reply. Of a subscription the code reads the id of its cluster.
pub record ListService : Type 0 where
  pub clusters : List Call → Reply (Page OcmCluster)
  pub names : List Call → Reply (Page OcmCluster)
  pub account : List Call → Reply String
  pub subscriptions : List Call → Reply (Page String)

-- What a loop with fuel gives.
abbrev pub and_then :
    {A B : Type 0} → Option A → (A → Step State (Option B)) → Step State (Option B)
and_then none f = pure none
and_then (some a) f = f a

abbrev pub page_size : ℕ
page_size = 50

abbrev pub judge_names : Page OcmCluster → Step State (Option Bool) → Step State (Option Bool)
judge_names p rest =
    if not (p.total == 0)
    then pure (some false)
    else if ltb (length p.items) page_size
    then pure (some true)
    else rest

-- The ids of clusters that the subscriptions of a page name.
abbrev pub add_owned : List (String × Bool) → String → List (String × Bool)
add_owned owned id = if not (str_eq id "") then assign id true owned else owned

abbrev pub subscription_search : String → String
subscription_search account =
    concat ("creator.id='" ∷ account ∷ "' and status in ('Active','Reserved')" ∷ [])

module _ (ls : ListService) where
  unfoldable pub name_pages : ℕ → String → ℕ → Step State (Option Bool)
  name_pages zero name page = pure none
  name_pages (suc fuel) name page =
      let rest = name_pages fuel name (suc page) in
      ask (list_names (concat ("name = '" ∷ name ∷ "'" ∷ [])) page) ls.names
        (wrapf "can't retrieve page %d: %w" [])
      >>= λ p. judge_names p rest

  abbrev pub is_valid_cluster_name : ℕ → String → Step State (Option Bool)
  is_valid_cluster_name fuel name = name_pages fuel name 1

  unfoldable pub owned_pages :
      ℕ → String → ℕ → ℕ → List (String × Bool) → Step State (Option (List (String × Bool)))
  owned_pages zero account page collected owned = pure none
  owned_pages (suc fuel) account page collected owned =
      ask (list_subscriptions (subscription_search account) page) ls.subscriptions
        (wrapf "couldn't list subscriptions for account %s: %v" (account ∷ []))
      >>= λ p.
          let seen = collected + length p.items in
          let owned' = fold add_owned owned p.items in
          let rest = owned_pages fuel account (suc page) seen owned' in
          if leb p.total seen || length p.items == 0 then pure (some owned') else rest

-- `totalItems`, which is the largest number until a page is read.
abbrev pub is_below : ℕ → Option ℕ → Bool
is_below n none = true
is_below n (some total) = ltb n total

abbrev pub total_of : Option ℕ → ℕ → Option ℕ
total_of none total = some total
total_of (some first) total = some first

abbrev pub is_set : Option Bool → Bool
is_set none = false
is_set (some b) = b

abbrev pub is_owned : List (String × Bool) → Cluster → Bool
is_owned owned cl = is_set (lookup cl.id owned)

module _ (sv : ClusterService) where
  unfoldable pub convert_all : List OcmCluster → Step State (List Cluster)
  convert_all [] = pure []
  convert_all (c ∷ cs) = do cl ← ocm_to_spi_cluster sv c; cls ← convert_all cs; pure (cl ∷ cls)

module _ (ls : ListService) (sv : ClusterService) where
  -- The total is the one of the first page, and the loop goes on while there are fewer clusters than
  -- that or no page was empty.
  unfoldable pub cluster_pages :
      ℕ → String → ℕ → Option ℕ → Bool → List Cluster → Step State (Option (List Cluster))
  cluster_pages zero query page total empty found = pure none
  cluster_pages (suc fuel) query page total empty found =
      let more = ask (list_clusters query page) ls.clusters same >>= λ p.
      convert_all sv p.items >>= λ cls.
      cluster_pages fuel query (suc page) (total_of total p.total) (empty || (length p.items == 0))
        (found ++ cls) in
      if is_below (length found) total || not empty then more else pure (some found)

  abbrev pub list_clusters_for : ℕ → String → Step State (Option (List Cluster))
  list_clusters_for fuel query = cluster_pages fuel query 1 none false []

  unfoldable pub list_owned_clusters : ℕ → String → Step State (Option (List Cluster))
  list_owned_clusters fuel query = do
    account ← ask get_account ls.account (wrapf "couldn't get current account: %v" [])
    owned ← owned_pages ls fuel account 1 0 []
    and_then owned (λ ids. list_clusters_for fuel query >>= λ all.
        and_then all (λ cls. pure (some (keep_if (is_owned ids) cls))))
