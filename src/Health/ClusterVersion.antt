-- ===== src/Health/ClusterVersion.antt =====
-- pkg/common/cluster/healthchecks/clusterversionoperator.go.
use osde2e.Prelude.{
  ◌≡◌, refl, ap, sym, subst, ◌↔◌, String, Bool, true, false, not, ◌||◌, none, some, List, arith,
  if◌then◌else◌, str_eq, fold, fold_flag, All,
}
use text.Mathlib.TextEquality.{eq_iff}
use osde2e.Health.{Reply, replied, refused, Verdict, Condition}

-- The `switch` of the loop: an Available that is true goes on with the next condition, an Available
-- that is not falls out of the switch, and so does any other condition of note that is true.
abbrev pub version_condition_step : Bool → Condition → Bool
version_condition_step success v =
    if str_eq v.kind "Available"
    then (if str_eq v.status "True" then success else false)
    else (if str_eq v.kind "Upgradeable"
          || str_eq v.kind "RetrievedUpdates"
          || str_eq v.kind "ReleaseAccepted"
        then success
        else (if not (str_eq v.status "True") then success else false))

-- `GetClusterVersionObject` is the call whose reply is passed.
unfoldable pub check_cvo_readiness : Reply (List Condition) → Verdict
check_cvo_readiness (refused e) = (false, some e)
check_cvo_readiness (replied conditions) = (fold version_condition_step true conditions, none)

-- Three conditions do not matter; of the others only Available is to be true.
abbrev pub IsFine : Condition → Type 0
IsFine v =
    str_eq v.kind "Upgradeable" ≡ false
    → str_eq v.kind "RetrievedUpdates" ≡ false
    → str_eq v.kind "ReleaseAccepted" ≡ false
    → str_eq v.kind "Available" ≡ str_eq v.status "True"

abbrev pub AllFine : Reply (List Condition) → Type 0
AllFine (refused e) = ⊥
AllFine (replied conditions) = All IsFine conditions

clash : (a b k : String) → str_eq a b ≡ false → str_eq k a ≡ true → str_eq k b ≡ false
clash a b k n e = subst (λ x. str_eq x b ≡ false) (sym ((eq_iff k a).0 e)) n

version_condition_step_iff :
    (b : Bool) (v : Condition) → (version_condition_step b v ≡ true) ↔ ((b ≡ true) × IsFine v)
version_condition_step_iff b v =
    let u = clash "Available" "Upgradeable" v.kind refl in
    let r = clash "Available" "RetrievedUpdates" v.kind refl in
    let a = clash "Available" "ReleaseAccepted" v.kind refl in ground arith

-- The cluster version operator is ready, without an error, exactly when its conditions came and of
-- them, apart from three that do not matter, Available is true and every other one is not.
pub check_cvo_readiness_lem :
    (r : Reply (List Condition)) → (check_cvo_readiness r ≡ (true, none)) ↔ AllFine r
unfolding check_cvo_readiness
check_cvo_readiness_lem (refused e) = (λ h. absurd (cc), λ k. absurd k)
check_cvo_readiness_lem (replied conditions) =
    let (to, back) =
      fold_flag version_condition_step IsFine version_condition_step_iff conditions true in
    (λ h. (to (ap (λ v. v.0) h)).1, λ k. rw (back (refl, k)) refl)
