-- ===== src/Health.antt =====
-- pkg/common/cluster/healthchecks: what a check is given and what it says. The cluster's API is
-- outside; a check takes the reply to its `List` or `Get` call. Messages to the logger are left out.
pub mod Operators
pub mod Nodes
pub mod ClusterVersion
pub mod Machines
pub mod Replicas
pub mod Certs
pub mod Pods
pub use osde2e.Go.Calls.{Reply, replied, refused, reply_cases}
use osde2e.Prelude.{◌≢◌, String, Bool, Option, List, [], All}
use osde2e.Go.{Error}

-- The `(bool, error)` of a check.
abbrev pub Verdict : Type 0
Verdict = Bool × Option Error

-- A status condition of an operator, a node or the cluster version; `kind` is `Type`.
pub record Condition : Type 0 where
  pub kind : String
  pub status : String

-- The reply lists something, and everything that it lists has the property.
abbrev pub ListsOnly : {A : Type 0} → (A → Type 0) → Reply (List A) → Type 0
ListsOnly P (replied items) = (items ≢ []) × All P items
ListsOnly P (refused e) = ⊥
