-- ===== src/Managed/Runs/Rescheduled.antt =====
-- upgrade.go: `RunUpgrade` for an upgrade that is put off.
use osde2e.Prelude.{◌≡◌, refl, String, Bool, true, false, ◌||◌, Option, none, some, str_eq}
use osde2e.Go.{Error}
use osde2e.Go.Calls.{Reply, replied, refused, ends, after_end, given, wrapped_end}
use osde2e.Semver.{Semver}
use osde2e.Managed.{UpgradeSettings}
use osde2e.Managed.Trigger.{
  Update, UpgradeConfig, History, trigger_managed_upgrade, is_upgrade_triggered,
}
use osde2e.Managed.Trigger.Laws.{trigger_managed_upgrade_lem}
use osde2e.Managed.Runs.{RunReplies, check_rescheduled, run_upgrade}

-- The history of the version without a text.
abbrev pub blank_history : Reply UpgradeConfig → Option History
blank_history (refused e) = none
blank_history (replied uc) = uc.get_history ""

not_triggered :
    (read : Reply Unit) (c : Reply UpgradeConfig) (u : Update)
    → u.version ≡ ""
    → blank_history c ≡ none
    → (is_upgrade_triggered read c u).0 ≡ false
unfolding is_upgrade_triggered
not_triggered (refused e) c u blank h = refl
not_triggered (replied x) (refused e) u blank h = refl
not_triggered (replied x) (replied uc) u blank h =
    let no_history : uc.get_history u.version ≡ none = rw blank h in
    rw (no_history, is_upgrade_triggered) refl

goes_on : (p : Bool × Option Error) → p.0 ≡ false → (check_rescheduled p).end ≡ ends tt
goes_on (true, none) h = absurd (cc)
goes_on (true, some e) h = absurd (cc)
goes_on (false, e) h = refl

-- For a provider of type "ocm" or "rosa", once an upgrade that is put off has been triggered, the run
-- ends without an error, whatever the phases of the UpgradeConfig's history are, as long as it has
-- none of the version without a text: the upgrade is looked up by that version, so that it may have
-- started does not show.
pub run_upgrade_rescheduled :
    (V : Type 0) ⦃sv : Semver V⦄ (s : UpgradeSettings) (r : RunReplies) (provider_type : String)
    (u : Update)
    → r.provider ≡ replied provider_type
    → (str_eq provider_type "rosa" || str_eq provider_type "ocm") ≡ true
    → s.managed_upgrade_rescheduled ≡ true
    → (trigger_managed_upgrade V s r.trigger).end ≡ ends u
    → blank_history r.config_converted ≡ none
    → (run_upgrade V s r).end ≡ ends tt
unfolding run_upgrade
run_upgrade_rescheduled V s r provider_type u p known put_off triggered blank =
    let ready = goes_on (is_upgrade_triggered r.config_read r.config_converted u) (
      not_triggered r.config_read r.config_converted u
        (trigger_managed_upgrade_lem V s r.trigger u triggered) blank) in
    rw (p, given, known, triggered, put_off, after_end, wrapped_end) ready
