-- ===== src/Health/Machines.antt =====
-- pkg/common/cluster/healthchecks/machines.go. The conversion of an unstructured object is the
-- client library's: what it says of an object is a parameter.
use osde2e.Prelude.{
  ◌≡◌, refl, ◌↔◌, String, true, false, Option, none, some, List, [], ◌∷◌, All, inl, inr,
}
use osde2e.Go.{errorf, wrapf}
use osde2e.Health.{Reply, replied, refused, Verdict, ListsOnly, reply_cases}

pub record Machine : Type 0 where
  pub name : String
  pub phase : Option String

abbrev pub machines_namespace : String
machines_namespace = "openshift-machine-api"

module _ {Item : Type 0} (from_unstructured : Item → Reply Machine) where
  -- The loop: a phase that is not the running one makes a message to the logger and nothing else.
  unfoldable pub check_machines : List Item → Verdict
  check_machines [] = (true, none)
  check_machines (item ∷ items) = elim (from_unstructured item) [
    | refused e ↦ (false, some (wrapf "error casting object: %s" [] e))
    | replied machine ↦ check_machines items
  ]

  unfoldable pub check_machines_object_state : Reply (List Item) → Verdict
  unfolding check_machines
  check_machines_object_state (refused e) = (false, some e)
  check_machines_object_state (replied []) =
      (false, some (errorf "no machines found in the %s namespace" (machines_namespace ∷ [])))
  check_machines_object_state (replied (item ∷ items)) = check_machines (item ∷ items)

  abbrev pub Converts : Item → Type 0
  Converts item = (m : Machine) × (from_unstructured item ≡ replied m)

  check_machines_lem :
      (items : List Item) → (check_machines items ≡ (true, none)) ↔ All Converts items
  unfolding check_machines
  check_machines_lem [] = (λ h. tt, λ k. refl)
  check_machines_lem (item ∷ items) =
      let (to, back) = check_machines_lem items in
      elim (reply_cases (from_unstructured item)) [
        | inl (e, p) ↦
            (λ h. absurd (cc (rw (p, check_machines) at h)), λ k. absurd (let (m, q) = k.0 in cc))
        | inr (m, p) ↦ (
          λ h. ((m, p), to (rw (p, check_machines) at h)),
          λ k. rw (p, check_machines) (back k.1),
        )
      ]

  -- The machines check passes, without an error, exactly when the list came, is not empty and every
  -- object in it converts to a machine, whatever the phases of these machines are.
  pub check_machines_object_state_lem :
      (r : Reply (List Item))
      → (check_machines_object_state r ≡ (true, none)) ↔ ListsOnly Converts r
  unfolding check_machines_object_state
  check_machines_object_state_lem (refused e) = (λ h. absurd (cc), λ k. absurd k)
  check_machines_object_state_lem (replied []) = (λ h. absurd (cc), λ k. absurd (k.0 refl))
  check_machines_object_state_lem (replied (item ∷ items)) =
      let (to, back) = check_machines_lem (item ∷ items) in
      (λ h. (λ n. absurd (cc), to h), λ k. back k.1)
