-- ===== src/Ocm/Gates/Agreements.antt =====
-- The agreements to version gates, and the schedules of the provider.
use osde2e.Prelude.{
  ◌≡◌, refl, sym, inl, inr, String, Bool, List, [], ◌∷◌, ◌++◌, arith, Bool-cases, if◌then◌else◌,
  str_eq, find_first, any_if, append_nil, ℕ,
}
use osde2e.Go.{Error}
use osde2e.Go.Calls.{replied, reply_cases, ends}
use osde2e.Ocm.Gates.{
  VersionGate, get_gate, list_agreements, add_agreement, update_policy, GateService, rejected,
  Calls, is_some, add_gate_agreement, gate_agreement_exist, update_schedule,
}

find_first-any_if :
    {A : Type 0} (p : A → Bool) (xs : List A) → is_some (find_first p xs) ≡ any_if p xs
find_first-any_if p [] = refl
find_first-any_if p (x ∷ xs) = ground (arith, find_first-any_if p xs)

module _ (gv : GateService) (cluster gate : String) where
  -- The calls up to the list of agreements.
  abbrev pub asked : Calls → Calls
  asked cs = (cs ++ (get_gate gate ∷ [])) ++ (list_agreements cluster ∷ [])

  -- When the agreement to a gate is added without an error, the agreements of the cluster were
  -- listed, and the gate was agreed to by a call exactly when it was not among them.
  pub add_gate_agreement_lem :
      (cs : Calls)
      → (add_gate_agreement gv cluster gate cs).0 ≡ ends tt
      → (g : VersionGate) × (ids : List String) × (gv.gate (cs ++ (get_gate gate ∷ [])) ≡ replied g)
        × (gv.agreements (asked cs) ≡ replied ids)
        × ((add_gate_agreement gv cluster gate cs).1
            ≡ asked cs
              ++ (if any_if (λ id. str_eq id gate) ids then [] else add_agreement cluster g ∷ []))
  unfolding add_gate_agreement gate_agreement_exist
  add_gate_agreement_lem cs h = elim (reply_cases (gv.gate (cs ++ (get_gate gate ∷ [])))) [
    | inl (x, e) ↦ absurd (let k = rw e at h in cc)
    | inr (g, e) ↦ elim (reply_cases (gv.agreements (asked cs))) [
      | inl (x, e') ↦ absurd (let k = rw (e, e') at h in cc)
      | inr (ids, e') ↦ elim (Bool-cases (any_if (λ id. str_eq id gate) ids)) [
        | inl t ↦ (
          g,
          ids,
          e,
          e',
          rw (e, e', find_first-any_if (λ id. str_eq id gate) ids, t) (sym (append_nil (asked cs))),
        )
        | inr f ↦ elim (reply_cases (gv.agreed (asked cs ++ (add_agreement cluster g ∷ [])))) [
          | inl (x, r) ↦
              absurd
                (let k = rw (e, e', find_first-any_if (λ id. str_eq id gate) ids, f, r) at h in cc)
          | inr (u, r) ↦
              (g, ids, e, e', rw (e, e', find_first-any_if (λ id. str_eq id gate) ids, f, r) refl)
        ]
      ]
    ]
  ]

-- An update of the schedule of an upgrade that the service rejects ends without an error.
pub update_schedule-rejected :
    (gv : GateService) (cluster policy : String) (time : ℕ) (cs : Calls) (e : Error)
    → gv.updated (cs ++ (update_policy cluster policy time ∷ [])) ≡ replied (rejected e)
    → (update_schedule gv cluster policy time cs).0 ≡ ends tt
unfolding update_schedule
update_schedule-rejected gv cluster policy time cs e h = rw h refl
