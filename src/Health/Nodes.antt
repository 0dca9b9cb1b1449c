-- ===== src/Health/Nodes.antt =====
-- pkg/common/cluster/healthchecks/nodes.go. Which errors the client library takes for ones that a
-- retry may cure (`IsRetryableAPIError`) is a parameter.
use osde2e.Prelude.{
  ◌≡◌, refl, ap, ◌↔◌, String, Bool, true, false, not, ◌&&◌, none, some, List, [], ◌∷◌, arith,
  if◌then◌else◌, str_eq, fold, fold_flag, All,
}
use osde2e.Go.{Error, errorf, wrapf}
use osde2e.Health.{Reply, replied, refused, Verdict, Condition, ListsOnly}

pub record Taint : Type 0 where
  pub key : String
  pub effect : String

pub record Node : Type 0 where
  pub conditions : List Condition
  pub taints : List Taint

abbrev pub node_condition_step : Bool → Condition → Bool
node_condition_step success ns =
    if not (str_eq ns.kind "Ready") && str_eq ns.status "True"
    then false
    else (if str_eq ns.kind "Ready" && not (str_eq ns.status "True") then false else success)

abbrev pub taint_step : Bool → Taint → Bool
taint_step success nt =
    if str_eq nt.effect "NoSchedule" && str_eq nt.key "node.kubernetes.io/unschedulable"
    then false
    else success

abbrev pub node_step : Bool → Node → Bool
node_step success node =
    fold taint_step (fold node_condition_step success node.conditions) node.taints

module _ (is_retryable : Error → Bool) where
  unfoldable pub check_node_health : Reply (List Node) → Verdict
  check_node_health (refused e) =
      if is_retryable e
      then (false, none)
      else (false, some (wrapf "error getting node list: %v" [] e))
  check_node_health (replied []) = (false, some (errorf "no nodes found" []))
  check_node_health (replied (node ∷ nodes)) = (fold node_step true (node ∷ nodes), none)

-- The node is ready, has no other condition that is true, and is open to new pods.
abbrev pub IsReady : Node → Type 0
IsReady node =
    All (λ c. str_eq c.kind "Ready" ≡ str_eq c.status "True") node.conditions
    × All
        (λ t.
          str_eq t.effect "NoSchedule" ≡ true
          → str_eq t.key "node.kubernetes.io/unschedulable" ≡ false)
        node.taints

node_condition_step_iff :
    (b : Bool) (c : Condition)
    → (node_condition_step b c ≡ true)
      ↔ ((b ≡ true) × (str_eq c.kind "Ready" ≡ str_eq c.status "True"))
node_condition_step_iff b c = ground arith

taint_step_iff :
    (b : Bool) (t : Taint)
    → (taint_step b t ≡ true) ↔ (
        (b ≡ true)
        × (str_eq t.effect "NoSchedule" ≡ true
            → str_eq t.key "node.kubernetes.io/unschedulable" ≡ false))
taint_step_iff b t = ground arith

node_step_iff : (b : Bool) (n : Node) → (node_step b n ≡ true) ↔ ((b ≡ true) × IsReady n)
node_step_iff b n =
    let conds =
      fold_flag node_condition_step (λ c. str_eq c.kind "Ready" ≡ str_eq c.status "True")
        node_condition_step_iff n.conditions b in
    let taints =
      fold_flag taint_step
        (λ t.
          str_eq t.effect "NoSchedule" ≡ true
          → str_eq t.key "node.kubernetes.io/unschedulable" ≡ false)
        taint_step_iff n.taints (fold node_condition_step b n.conditions) in
    (
      λ e. let (k, ts) = taints.0 e in let (l, cs) = conds.0 k in (l, (cs, ts)),
      λ k. taints.1 (conds.1 (k.0, k.1.0), k.1.1),
    )

-- The nodes are healthy, without an error, exactly when the list came, is not empty, and of every
-- node the Ready condition and only that one is true, and no taint keeps pods away.
pub check_node_health_lem :
    (is_retryable : Error → Bool) (r : Reply (List Node))
    → (check_node_health is_retryable r ≡ (true, none)) ↔ ListsOnly IsReady r
unfolding check_node_health
check_node_health_lem is_retryable (refused e) = (λ h. absurd (ground arith), λ k. absurd k)
check_node_health_lem is_retryable (replied []) = (λ h. absurd (cc), λ k. absurd (k.0 refl))
check_node_health_lem is_retryable (replied (n ∷ ns)) =
    let (to, back) = fold_flag node_step IsReady node_step_iff (n ∷ ns) true in
    (λ h. (λ n. absurd (cc), (to (ap (λ v. v.0) h)).1), λ k. rw (back (refl, k.1)) refl)
