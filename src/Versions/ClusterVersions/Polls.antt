-- ===== src/Versions/ClusterVersions/Polls.antt =====
-- What the poll loop of `SelectClusterVersions` ends with.
use osde2e.Prelude.{
  ◌≡◌, refl, ◌≢◌, ◌∙◌, Bool, true, false, Option, none, some, List, [], ◌∷◌, arith, str_eq,
  if◌then◌else◌, subst,
}
use osde2e.Go.{Outcome, returns, panics, Error, ◌>>=◌}
use osde2e.Semver.{Semver}
use osde2e.Spi.Version.{VersionList}
use osde2e.Versions.Settings.{World, Selection}
use osde2e.Versions.Selector.{
  VersionSelector, Poll, listed, unavailable, set_install_version, openshift_version_to_semver,
}
use osde2e.Versions.Selector.Install.{set_install_version_supplied}
use osde2e.Versions.ClusterVersions.{
  Ended, ended, Round, done, stopped, again, is_waiting, judge, poll,
}

module _ {V : Type 0} ⦃sv : Semver V⦄ where
  -- Without an error a list of versions is there.
  abbrev Settled : Outcome (Ended V) → Type 0
  Settled panics = Unit
  Settled (returns e) = e.error ≡ none → e.selector.version_list ≢ none

  abbrev Listed : Round V → Type 0
  Listed (done v) = v.version_list ≢ none
  Listed _ = Unit

  judge-Listed : (v : VersionSelector V) (r : Selection V × World V) → Listed (judge v r)
  unfolding judge
  judge-Listed v (r, w) = go r.error r.version
    where
      v' : VersionSelector V
      v' = record {
        settings = w.settings;
        version_list = some w.version_list;
        cluster_version = r.version;
      }

      waits : (b : Bool) → Listed (if b then again v' else done v')
      waits true = tt
      waits false = λ e. cc

      go :
          (e : Option Error) (o : Option V)
          → Listed (elim e [
            | some x ↦ stopped v' x
            | none ↦ elim o [
              | some found ↦ done v'
              | none ↦ if is_waiting r.selector then again v' else done v'
            ]
          ])
      go (some x) o = tt
      go none (some found) = λ e. cc
      go none none = waits (is_waiting r.selector)

  next_round : (v : VersionSelector V) (r : Round V) (ps : List (Poll V)) → Outcome (Ended V)
  next_round v (done v') ps = ended v' none
  next_round v (stopped v' e) ps = ended v' (some e)
  next_round v (again v') ps = poll v' ps

  round_of :
      (m : Outcome (Selection V × World V)) (v : VersionSelector V) (ps : List (Poll V))
      → ((v' : VersionSelector V) → Settled (poll v' ps))
      → Settled (
          m >>= (λ r. returns (judge v r)) >>= λ r. elim r [
            | done v' ↦ ended v' none
            | stopped v' e ↦ ended v' (some e)
            | again v' ↦ poll v' ps
          ])
  round_of panics v ps rest = tt
  round_of (returns r) v ps rest = go (judge v r) (judge-Listed v r)
    where
      go :
          (q : Round V)
          → Listed q
          → Settled (elim q [
            | done v' ↦ ended v' none
            | stopped v' e ↦ ended v' (some e)
            | again v' ↦ poll v' ps
          ])
      go (done v') h = λ e. h
      go (stopped v' x) h = λ e. absurd (cc)
      go (again v') h = rest v'

  poll-Settled : (v : VersionSelector V) (ps : List (Poll V)) → Settled (poll v ps)
  unfolding poll
  poll-Settled v [] = λ e. absurd (cc)
  poll-Settled v (unavailable x ∷ ps) = λ e. absurd (cc)
  poll-Settled v (listed vl ∷ ps) =
      round_of (set_install_version (record { settings = v.settings; version_list = vl })) v ps
        (λ v'. poll-Settled v' ps)

  -- When the loop ends without an error the selector holds the version list of its last poll, so
  -- the choice of the upgrade never reads a nil list.
  pub poll_lists :
      (v : VersionSelector V) (ps : List (Poll V)) {e : Ended V}
      → poll v ps ≡ returns e
      → e.error ≡ none
      → e.selector.version_list ≢ none
  poll_lists v ps p h = subst Settled p (poll-Settled v ps) h

  judge_done :
      (v : VersionSelector V) (r : Selection V) (w : World V) (cluster : V)
      → r.version ≡ some cluster
      → r.error ≡ none
      → judge v (r, w)
        ≡ done (record {
          settings = w.settings;
          version_list = some w.version_list;
          cluster_version = some cluster;
        })
  unfolding judge
  judge_done v r w cluster e ok = ground arith

  -- With a valid version from the user the loop ends at the first list that the provider returns,
  -- whatever it holds and whatever would come later, and the settings stay as they are.
  pub poll_supplied :
      (v : VersionSelector V) (vl : VersionList V) (ps : List (Poll V)) (cluster : V)
      → str_eq v.settings.cluster_version "" ≡ false
      → openshift_version_to_semver v.settings.cluster_version ≡ some cluster
      → poll v (listed vl ∷ ps)
        ≡ ended
            (record {
              settings = v.settings;
              version_list = some vl;
              cluster_version = some cluster;
            })
            none
  unfolding poll
  poll_supplied v vl ps cluster h parsed =
      let (r, e, same, ok) =
        set_install_version_supplied (record { settings = v.settings; version_list = vl }) h in
      rw e (rw (judge_done v r _ cluster (same ∙ parsed) (ok.1 (λ n. absurd (cc)))) refl)
