-- ===== src/Health/Operators.antt =====
-- pkg/common/cluster/healthchecks/operators.go.
use osde2e.Prelude.{
  ◌≡◌, refl, ap, ◌↔◌, String, Bool, true, false, ◌&&◌, none, some, List, [], ◌∷◌, arith,
  if◌then◌else◌, str_eq, split_commas, fold, fold_flag, All, Bool-cases, inl, inr,
}
use osde2e.Go.{errorf, wrapf}
use osde2e.Health.{Reply, replied, refused, Verdict, Condition, ListsOnly}

pub record ClusterOperator : Type 0 where
  pub name : String
  pub conditions : List Condition

-- `operatorSkipList[name]` of the map that the comma-separated setting fills.
abbrev pub listed : List String → String → Bool
listed [] name = false
listed (val ∷ vals) name = if str_eq val name then true else listed vals name

abbrev pub skipped : String → String → Bool
skipped operator_skip name =
    if str_eq operator_skip "" then false else listed (split_commas operator_skip) name

abbrev pub condition_step : Bool → Condition → Bool
condition_step success cos =
    let available =
      if str_eq cos.kind "Available" && str_eq cos.status "False" then false else success in
    let progressing =
      if str_eq cos.kind "Progressing" && str_eq cos.status "True" then false else available in
    if str_eq cos.kind "Degraded" && str_eq cos.status "True" then false else progressing

abbrev pub operator_step : String → Bool → ClusterOperator → Bool
operator_step operator_skip success co =
    if skipped operator_skip co.name then success else fold condition_step success co.conditions

unfoldable pub check_operator_readiness : String → Reply (List ClusterOperator) → Verdict
check_operator_readiness operator_skip (refused e) =
    (false, some (wrapf "error getting cluster operator list: %v" [] e))
check_operator_readiness operator_skip (replied []) =
    (false, some (errorf "no operators were found" []))
check_operator_readiness operator_skip (replied (co ∷ cos)) =
    (fold (operator_step operator_skip) true (co ∷ cos), none)

-- Not unavailable, not progressing and not degraded.
abbrev pub IsSettled : Condition → Type 0
IsSettled c =
    (str_eq c.kind "Available" ≡ true → str_eq c.status "False" ≡ false)
    × (str_eq c.kind "Progressing" ≡ true → str_eq c.status "True" ≡ false)
    × (str_eq c.kind "Degraded" ≡ true → str_eq c.status "True" ≡ false)

abbrev pub IsReady : String → ClusterOperator → Type 0
IsReady operator_skip co = (skipped operator_skip co.name ≡ false) → All IsSettled co.conditions

condition_step_iff :
    (b : Bool) (c : Condition) → (condition_step b c ≡ true) ↔ ((b ≡ true) × IsSettled c)
condition_step_iff b c = ground arith

operator_step_iff :
    (skip : String) (b : Bool) (co : ClusterOperator)
    → (operator_step skip b co ≡ true) ↔ ((b ≡ true) × IsReady skip co)
operator_step_iff skip b co = elim (Bool-cases (skipped skip co.name)) [
  | inl t ↦ rw t (λ e. (e, λ n. absurd (ground arith)), λ k. k.0)
  | inr t ↦
      let (to, back) = fold_flag condition_step IsSettled condition_step_iff co.conditions b in
      rw t (λ e. let (k, l) = to e in (k, λ n. l), λ k. back (k.0, k.1 refl))
]

-- The operators are ready, without an error, exactly when the list came, is not empty, and no
-- condition of an operator that the setting does not skip says unavailable, progressing or degraded.
pub check_operator_readiness_lem :
    (skip : String) (r : Reply (List ClusterOperator))
    → (check_operator_readiness skip r ≡ (true, none)) ↔ ListsOnly (IsReady skip) r
unfolding check_operator_readiness
check_operator_readiness_lem skip (refused e) = (λ h. absurd (cc), λ k. absurd k)
check_operator_readiness_lem skip (replied []) = (λ h. absurd (cc), λ k. absurd (k.0 refl))
check_operator_readiness_lem skip (replied (co ∷ cos)) =
    let (to, back) =
      fold_flag (operator_step skip) (IsReady skip) (operator_step_iff skip) (co ∷ cos) true in
    (λ h. (λ n. absurd (cc), (to (ap (λ v. v.0) h)).1), λ k. rw (back (refl, k.1)) refl)
