-- ===== src/Ocm/Quota.antt =====
-- pkg/common/providers/ocmprovider/quota.go: whether there is enough quota.
use osde2e.Prelude.{
  ℕ, String, Bool, true, false, Option, none, some, List, [], ◌∷◌, str_eq, if◌then◌else◌, ltb, ◌&&◌,
}
use osde2e.Go.{errorf, wrapf}
use osde2e.Go.Calls.{Reply}
use osde2e.Go.Steps.{Step, pure, fail, or_fail, ◌>>=◌}
use osde2e.Ocm.Provider.{State, Call, get_sku, get_account, get_quota, ask, same}

pub record QuotaCost : Type 0 where
  pub quota_id : String
  pub consumed : ℕ
  pub allowed : ℕ

-- The rule of a SKU may be empty, and may have no quota; an account may have no organization.
pub record SkuRule : Type 0 where
  pub is_empty : Bool
  pub quota_id : Option String

pub record Account : Type 0 where
  pub id : String
  pub organization : Option String

pub record QuotaService : Type 0 where
  pub sku_rule : List Call → Reply SkuRule
  pub account : List Call → Reply Account
  pub quota : List Call → Reply (List QuotaCost)

abbrev pub has_quota_for_sku : QuotaCost → String → Bool
has_quota_for_sku q sku_quota = str_eq q.quota_id sku_quota && ltb q.consumed q.allowed

unfoldable pub quota_found : String → List QuotaCost → Bool
quota_found sku_quota [] = false
quota_found sku_quota (q ∷ qs) =
    if has_quota_for_sku q sku_quota then true else quota_found sku_quota qs

abbrev pub organization_of : Account → Option String → Step State String
organization_of a none =
    fail (errorf "organization for account '%s' must be set to get quota" (a.id ∷ []))
organization_of a (some id) =
    if str_eq id ""
    then fail (errorf "organization for account '%s' must be set to get quota" (a.id ∷ []))
    else pure id

abbrev pub judge_quota : Option String → List QuotaCost → Step State Bool
judge_quota none qs = fail (errorf "returned SKU has no associated quota" [])
judge_quota (some id) qs = pure (quota_found id qs)

module _ (qv : QuotaService) where
  unfoldable pub current_account_quota : Step State (List QuotaCost)
  current_account_quota = do
    a ← ask get_account qv.account (wrapf "couldn't get current account: %v" [])
    org ← organization_of a a.organization
    ask (get_quota org) qv.quota (wrapf "error getting quota list: %v" [])

  abbrev pub sku_rule_of : String → Step State SkuRule
  sku_rule_of sku = or_fail (wrapf "error trying to get SKUs: %v" []) (
      if str_eq sku ""
      then fail (errorf "no valid SKU selected" [])
      else ask (get_sku sku) qv.sku_rule same)

  abbrev pub check_rule : SkuRule → Step State Bool
  check_rule rule =
      if rule.is_empty
      then fail (errorf "returned SKU can't be empty" [])
      else or_fail (wrapf "could not get quota: %v" []) current_account_quota
        >>= judge_quota rule.quota_id

  unfoldable pub check_quota : String → Step State Bool
  check_quota sku = sku_rule_of sku >>= check_rule
