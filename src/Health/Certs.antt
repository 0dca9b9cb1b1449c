-- ===== src/Health/Certs.antt =====
-- pkg/common/cluster/healthchecks/certs.go. The variable of the package is passed along.
use osde2e.Prelude.{ℕ, Bool, true, false, none, some, List, [], ◌∷◌, if◌then◌else◌}
use osde2e.Go.{wrapf}
use osde2e.Health.{Reply, replied, refused, Verdict}

pub record CertCheckData : Type 0 where
  pub check_started : Bool
  pub start_time : ℕ
  pub cert_found : Bool

abbrev pub started_at : ℕ → CertCheckData → CertCheckData
started_at now c =
    if c.check_started then c else record c { check_started = true; start_time = now }

abbrev pub certs_found : CertCheckData → CertCheckData
certs_found c = if c.cert_found then c else record c { cert_found = true }

-- `now` is the time when the check starts; only the number of the secrets matters.
module _ {Secret : Type 0} where
  unfoldable pub check_certs : ℕ → Reply (List Secret) → CertCheckData → Verdict × CertCheckData
  check_certs now (refused e) c = (
    (false, some (wrapf "error trying to find issued certificate(s): %v" [] e)),
    started_at now c,
  )
  check_certs now (replied []) c = ((false, none), started_at now c)
  check_certs now (replied (s ∷ ss)) c = ((true, none), certs_found (started_at now c))
