-- ===== src/Ocm/Environments/Endpoints.antt =====
-- The endpoint of an environment.
use text.Mathlib.TextEquality.{eq_iff}
use osde2e.Prelude.{
  ℕ, suc, ◌≡◌, refl, subst, inl, inr, arith, String, Bool, true, false, none, some, All,
  All-Any_meet,
}
use osde2e.Prelude.Maps.{lookup, lookup_cases}
use osde2e.Ocm.Environments.{environments, fed_ramp_name, choose}

-- Three calls give an endpoint: a text that is the name of no environment.
abbrev pub HasEndpoint : ℕ → Bool → String → Type 0
HasEndpoint fuel fed_ramp desired =
    (r : String) × (choose (suc (suc (suc fuel))) fed_ramp desired ≡ some r)
    × (lookup r environments ≡ none)

fed_ramp_own :
    (fed_ramp : Bool) (desired : String)
    → lookup desired environments ≡ none
    → fed_ramp_name fed_ramp desired ≡ desired
unfolding lookup
fed_ramp_own false desired e = refl
fed_ramp_own true desired e = ground (
  arith,
  eq_iff desired "int",
  eq_iff desired "stage",
  eq_iff desired "prod",
  eq_iff "int" desired,
  eq_iff "stage" desired,
  eq_iff "prod" desired,
)

module _ (fuel : ℕ) where
  default_endpoint : (fed_ramp : Bool) → HasEndpoint fuel fed_ramp ""
  unfolding choose lookup
  default_endpoint true = ("https://api.int.openshiftusgov.com", refl, refl)
  default_endpoint false = ("https://api.integration.openshift.com", refl, refl)

  int_endpoint : (fed_ramp : Bool) → HasEndpoint fuel fed_ramp "int"
  unfolding choose lookup
  int_endpoint true = ("https://api.int.openshiftusgov.com", refl, refl)
  int_endpoint false = ("https://api.integration.openshift.com", refl, refl)

  stage_endpoint : (fed_ramp : Bool) → HasEndpoint fuel fed_ramp "stage"
  unfolding choose lookup
  stage_endpoint true = ("https://api.stage.openshiftusgov.com", refl, refl)
  stage_endpoint false = ("https://api.stage.openshift.com", refl, refl)

  prod_endpoint : (fed_ramp : Bool) → HasEndpoint fuel fed_ramp "prod"
  unfolding choose lookup
  prod_endpoint true = ("https://api.openshiftusgov.com", refl, refl)
  prod_endpoint false = ("https://api.openshift.com", refl, refl)

  fr_endpoints :
      (fed_ramp : Bool)
      → HasEndpoint fuel fed_ramp "frInt"
        × HasEndpoint fuel fed_ramp "frStage"
        × HasEndpoint fuel fed_ramp "frProd"
  unfolding choose lookup
  fr_endpoints true = (
    ("https://api.int.openshiftusgov.com", refl, refl),
    ("https://api.stage.openshiftusgov.com", refl, refl),
    ("https://api.openshiftusgov.com", refl, refl),
  )
  fr_endpoints false = (
    ("https://api.int.openshiftusgov.com", refl, refl),
    ("https://api.stage.openshiftusgov.com", refl, refl),
    ("https://api.openshiftusgov.com", refl, refl),
  )

  known_endpoints : (fed_ramp : Bool) → All (λ e. HasEndpoint fuel fed_ramp e.0) environments
  known_endpoints fed_ramp =
      let (fr_int, fr_stage, fr_prod) = fr_endpoints fed_ramp in
      (
        default_endpoint fed_ramp,
        (
          int_endpoint fed_ramp,
          (stage_endpoint fed_ramp, (prod_endpoint fed_ramp, (fr_int, (fr_stage, (fr_prod, tt))))),
        ),
      )

  -- A text that no environment has as its name stands for itself.
  own_endpoint :
      (fed_ramp : Bool) (desired : String)
      → lookup desired environments ≡ none
      → HasEndpoint fuel fed_ramp desired
  unfolding choose
  own_endpoint fed_ramp desired e = (desired, rw (fed_ramp_own fed_ramp desired e, e) refl, e)

  -- Whatever environment or address is asked for, with FedRamp or without, three calls are enough,
  -- and the result is an endpoint: a text that is the name of no environment.
  pub choose_lem : (fed_ramp : Bool) (desired : String) → HasEndpoint fuel fed_ramp desired
  choose_lem fed_ramp desired = elim (lookup_cases desired environments) [
    | inl e ↦ own_endpoint fed_ramp desired e
    | inr at_key ↦
        let (entry, h, e) =
          All-Any_meet (λ e. HasEndpoint fuel fed_ramp e.0) (λ e. e.0 ≡ desired) environments
            (known_endpoints fed_ramp) at_key in
        subst (HasEndpoint fuel fed_ramp) e h
  ]
