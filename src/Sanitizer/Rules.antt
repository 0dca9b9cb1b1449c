-- ===== src/Sanitizer/Rules.antt =====
-- internal/sanitizer/rules.go: the rules that the sanitizer comes with.
use osde2e.Prelude.{String, Bool, true, false, List, [], ◌∷◌}

pub record Rule : Type 0 where
  pub id : String
  pub pattern : String
  pub replacement : String
  pub category : String
  pub enabled : Bool

abbrev rule : String → String → String → String → Bool → Rule
rule id pattern replacement category enabled = record {
  id = id;
  pattern = pattern;
  replacement = replacement;
  category = category;
  enabled = enabled;
}

abbrev pub get_default_rules : List Rule
get_default_rules =
    rule "aws-access-key" "AKIA[0-9A-Z]{16}" "[AWS-ACCESS-KEY-REDACTED]" "token" true
    ∷ rule "aws-secret-key"
        "(?i)(aws_secret_access_key|secret_key)[\"\\s]*[:=][\"\\s]*[A-Za-z0-9/+=]{40}"
        "$1=[AWS-SECRET-REDACTED]" "token" true
    ∷ rule "github-token" "ghp_[A-Za-z0-9]{34,40}" "[GITHUB-TOKEN-REDACTED]" "token" true
    ∷ rule "jwt-token" "eyJ[A-Za-z0-9_-]*\\.eyJ[A-Za-z0-9_-]*\\.[A-Za-z0-9_-]*"
        "[JWT-TOKEN-REDACTED]" "token" true
    ∷ rule "bearer-token" "(?i)authorization:\\s*bearer\\s+[A-Za-z0-9_\\-\\.]{10,}"
        "Authorization: Bearer [TOKEN-REDACTED]" "token" true
    ∷ rule "api-key" "(?i)(api[_-]?key|apikey)[\"\\s]*[:=][\"\\s]*[A-Za-z0-9_\\-]{20,}"
        "$1=[API-KEY-REDACTED]" "token" true
    ∷ rule "db-password" "(?i)(password|pwd)[\"\\s]*[:=][\"\\s]*[^\\s\"';]{8,}"
        "$1=[PASSWORD-REDACTED]" "password" true
    ∷ rule "connection-string" "(?i)(mongodb|mysql|postgresql|postgres)://[^:]+:[^@]+@"
        "$1://[USER]:[PASSWORD-REDACTED]@" "password" true
    ∷ rule "openshift-token" "sha256~[A-Za-z0-9_\\-]{43}" "[OPENSHIFT-TOKEN-REDACTED]" "token" true
    ∷ rule "k8s-secret" "(?i)(secret|token):\\s*[A-Za-z0-9+/=]{20,}" "$1: [SECRET-REDACTED]" "token"
        true
    ∷ rule "private-key"
        "-----BEGIN[A-Z\\s]*PRIVATE KEY-----[\\s\\S]*?-----END[A-Z\\s]*PRIVATE KEY-----"
        "[PRIVATE-KEY-REDACTED]" "key" true
    ∷ rule "docker-auth" "(?i)(docker[_-]?auth|dockercfg)[\"\\s]*[:=][\"\\s]*[A-Za-z0-9+/=]{20,}"
        "$1=[DOCKER-AUTH-REDACTED]" "token" true
    ∷ rule "generic-token" "(?i)(token|access[_-]?token)[\"\\s]*[:=][\"\\s]*[A-Za-z0-9_\\-\\.]{32,}"
        "$1=[TOKEN-REDACTED]" "token" true
    ∷ rule "slack-token" "xox[baprs]-[0-9]+-[0-9]+-[A-Za-z0-9]+" "[SLACK-TOKEN-REDACTED]" "token"
        true
    ∷ rule "azure-key"
        "(?i)(azure[_-]?key|subscription[_-]?key)[\"\\s]*[:=][\"\\s]*[A-Za-z0-9+/=]{40,}"
        "$1=[AZURE-KEY-REDACTED]" "token" true
    ∷ rule "gcp-key" "(?i)(gcp[_-]?key|google[_-]?key)[\"\\s]*[:=][\"\\s]*[A-Za-z0-9+/=]{40,}"
        "$1=[GCP-KEY-REDACTED]" "token" true
    ∷ rule "email-address" "[a-zA-Z0-9._%+-]+@[a-zA-Z0-9.-]+\\.[a-zA-Z]{2,}" "[EMAIL-REDACTED]"
        "pii" false
    ∷ []
