-- ===== src/Ocm/Gates.antt =====
-- pkg/common/providers/ocmprovider/upgrades.go: version gates and the agreements to them; and of
-- cluster.go the upgrade policies. Times are seconds.
pub mod Agreements
use osde2e.Prelude.{
  ℕ, String, Bool, true, false, not, ◌&&◌, Option, none, some, List, [], ◌∷◌, ◌++◌, str_eq,
  if◌then◌else◌, find_first,
}
use osde2e.Go.{Error, errorf, wrapf}
use osde2e.Go.Calls.{Reply, ends, fails, dies, End}
use osde2e.Go.Steps.{Step, pure, fail, from_reply, change, bind_end, ◌>>=◌, ◌>>◌}
use osde2e.Ocm.Provider.{same}

pub record VersionGate : Type 0 where
  pub id : String
  pub version_raw_id_prefix : String
  pub label : String

pub data GateCall : Type 0 where
  list_gates : GateCall
  get_gate : String → GateCall
  list_agreements : String → GateCall
  add_agreement : String → VersionGate → GateCall
  add_policy : String → String → ℕ → GateCall
  list_policies : String → GateCall
  update_policy : String → String → ℕ → GateCall

-- What the service replies to the last of the calls so far: an agreement is the id of its gate, and
-- an answer has a status and, for an unexpected one, the error that the code makes of it. (A nil
-- pointer that Go returns as an error is an error, too.)
pub data Answer (A : Type 0) : Type 0 where
  accepted : A → Answer A
  rejected : Error → Answer A

pub record GateService : Type 0 where
  pub gates : List GateCall → Reply (List VersionGate)
  pub gate : List GateCall → Reply VersionGate
  pub agreements : List GateCall → Reply (List String)
  pub agreed : List GateCall → Reply Unit
  pub added : List GateCall → Reply (Answer Unit)
  pub policies : List GateCall → Reply (Answer (List String))
  pub updated : List GateCall → Reply (Answer Unit)

-- The state is the calls that were made.
abbrev pub Calls : Type 0
Calls = List GateCall

abbrev pub ask : {A : Type 0} → GateCall → (Calls → Reply A) → (Error → Error) → Step Calls A
ask c f wrap cs = from_reply wrap (f (cs ++ (c ∷ []))) (cs ++ (c ∷ []))

abbrev pub is_gate_for : String → String → VersionGate → Bool
is_gate_for version label g = str_eq g.version_raw_id_prefix version && str_eq g.label label

abbrev pub gate_id_or : String → Option VersionGate → Step Calls String
gate_id_or version none = fail (errorf "%s version gate does not exist" (version ∷ []))
gate_id_or version (some g) = pure g.id

abbrev pub is_some : {A : Type 0} → Option A → Bool
is_some none = false
is_some (some a) = true

abbrev pub policy_id : List String → Step Calls String
policy_id [] = pure ""
policy_id (id ∷ ids) =
    if str_eq id "" then fail (errorf "failed to get the policy ID" []) else pure id

abbrev pub upgrade_end : Answer Unit → Step Calls Unit
upgrade_end (accepted u) = pure tt
upgrade_end (rejected e) = fail e

abbrev pub policies_end : Answer (List String) → Step Calls String
policies_end (accepted ids) = policy_id ids
policies_end (rejected e) = fail e

-- For a status that is not OK the error of the call is returned, which is nil here.
abbrev pub schedule_end : Answer Unit → Step Calls Unit
schedule_end (accepted u) = pure tt
schedule_end (rejected e) = pure tt

module _ (gv : GateService) where
  abbrev pub version_gates : Step Calls (List VersionGate)
  version_gates = ask list_gates gv.gates (wrapf "error retrieving version gates: %v" [])

  unfoldable pub get_version_gate_id : String → String → Step Calls String
  get_version_gate_id version label =
      version_gates >>= λ gs. gate_id_or version (find_first (is_gate_for version label) gs)

  abbrev pub get_version_gate : String → Step Calls VersionGate
  get_version_gate id =
      ask (get_gate id) gv.gate
        (wrapf "unable to find version gate using id: %s, error: %v" (id ∷ []))

  unfoldable pub gate_agreement_exist : String → String → Step Calls Bool
  gate_agreement_exist cluster gate =
      ask (list_agreements cluster) gv.agreements
        (wrapf "error retrieving gate agreements for cluster: %v" [])
      >>= λ ids. pure (is_some (find_first (λ id. str_eq id gate) ids))

  abbrev pub add_missing : String → VersionGate → Bool → Step Calls Unit
  add_missing cluster g exists =
      if not exists
      then ask (add_agreement cluster g) gv.agreed
          (wrapf "error adding version gate agreement: %v" [])
      else pure tt

  unfoldable pub add_gate_agreement : String → String → Step Calls Unit
  add_gate_agreement cluster gate = do
    g ← get_version_gate gate
    exists ← gate_agreement_exist cluster gate
    add_missing cluster g exists

  unfoldable pub upgrade : String → String → ℕ → Step Calls Unit
  upgrade cluster version time = ask (add_policy cluster version time) gv.added same >>= upgrade_end

  unfoldable pub get_upgrade_policy_id : String → Step Calls String
  get_upgrade_policy_id cluster = ask (list_policies cluster) gv.policies same >>= policies_end

  unfoldable pub update_schedule : String → String → ℕ → Step Calls Unit
  update_schedule cluster policy time =
      ask (update_policy cluster policy time) gv.updated same >>= schedule_end
