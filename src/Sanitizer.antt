-- ===== src/Sanitizer.antt =====
-- internal/sanitizer: the sanitizer and the audit of what it finds. Regular expressions are outside:
-- compiling a pattern gives a `Regex` or an error.
pub mod Rules
use osde2e.Prelude.{
  ℕ, suc, ◌+◌, String, Bool, true, false, not, ◌&&◌, ◌||◌, Option, none, some, List, [], ◌∷◌, ◌++◌,
  length, fold, itoa, itoa_ℤ, byte_length, if◌then◌else◌, ltb, ◌==◌,
}
use osde2e.Prelude.Int.{ℤ, pos, ltb_ℤ}
use osde2e.Go.{Error, errorf, wrapf}
use osde2e.Go.Calls.{Reply, replied, refused}
use osde2e.Sanitizer.Rules.{Rule, get_default_rules}

pub record Result : Type 0 where
  pub content : String
  pub matches_found : ℕ
  pub rules_applied : List String
  pub source : String
  pub timestamp : ℕ

pub record Config : Type 0 where
  pub enable_audit : Bool
  pub audit_log_dir : String
  pub audit_retention_days : ℤ
  pub max_content_size : ℤ
  pub strict_mode : Bool
  pub skip_audit_on_no_match : Bool

-- How many matches a text has, and the text with each of them replaced.
pub record Regex : Type 0 where
  pub matches : String → ℕ
  pub replace : String → String → String

pub record CompiledRule : Type 0 where
  pub rule : Rule
  pub regex : Regex

-- The audit logger is its file.
pub record Sanitizer : Type 0 where
  pub audit_log : Option String
  pub config : Config
  pub compiled_rules : List CompiledRule

abbrev pub default_config : Config
default_config = record {
  enable_audit = true;
  audit_log_dir = "./logs";
  audit_retention_days = pos 30;
  max_content_size = pos 10485760;
  strict_mode = false;
  skip_audit_on_no_match = true;
}

module _ (compile : String → Reply Regex) where
  abbrev pub add_compiled :
      Bool → Rule → Reply Regex → Reply (List CompiledRule) → Reply (List CompiledRule)
  add_compiled strict r (replied regex) (replied rest) =
      replied (record { rule = r; regex = regex } ∷ rest)
  add_compiled strict r (replied regex) (refused e) = refused e
  add_compiled true r (refused e) rest =
      refused (wrapf "invalid regex pattern for rule %s: %w" (r.id ∷ []) e)
  add_compiled false r (refused e) rest = rest

  -- A pattern that does not compile is an error in strict mode, and its rule is left out otherwise.
  unfoldable pub compile_rules : Bool → List Rule → Reply (List CompiledRule)
  compile_rules strict [] = replied []
  compile_rules strict (r ∷ rs) =
      let rest = compile_rules strict rs in
      if r.enabled then add_compiled strict r (compile r.pattern) rest else rest

  abbrev pub config_or_default : Option Config → Config
  config_or_default none = default_config
  config_or_default (some c) = c

  -- The audit logger is what creating its directory gives.
  abbrev pub with_audit : Config → List CompiledRule → Reply String → Reply Sanitizer
  with_audit c rules (replied file) =
      replied (record { audit_log = some file; config = c; compiled_rules = rules })
  with_audit c rules (refused e) =
      if c.strict_mode
      then refused (wrapf "failed to initialize audit logger: %w" [] e)
      else replied (record { audit_log = none; config = c; compiled_rules = rules })

  abbrev pub with_rules :
      Config → (String → Reply String) → Reply (List CompiledRule) → Reply Sanitizer
  with_rules c audit (refused e) = refused (wrapf "failed to compile rules: %w" [] e)
  with_rules c audit (replied rules) =
      if c.enable_audit
      then with_audit c rules (audit c.audit_log_dir)
      else replied (record { audit_log = none; config = c; compiled_rules = rules })

  abbrev pub new_with : (String → Reply String) → Config → Reply Sanitizer
  new_with audit c = with_rules c audit (compile_rules c.strict_mode get_default_rules)

  unfoldable pub new : (String → Reply String) → Option Config → Reply Sanitizer
  new audit config = new_with audit (config_or_default config)

pub record Found : Type 0 where
  pub content : String
  pub matches : ℕ
  pub rules_applied : List String

abbrev pub apply_rule : Found → CompiledRule → Found
apply_rule f c =
    let n = c.regex.matches f.content in
    if n == 0 then f else record {
      content = c.regex.replace f.content c.rule.replacement;
      matches = f.matches + n;
      rules_applied = f.rules_applied ++ (c.rule.id ∷ []);
    }

abbrev pub apply_rules : Sanitizer → String → Found
apply_rules s content =
    fold apply_rule (record { content = content; matches = 0; rules_applied = [] }) s.compiled_rules

abbrev pub result_of : Found → String → ℕ → Result
result_of f source timestamp = record {
  content = f.content;
  matches_found = f.matches;
  rules_applied = f.rules_applied;
  source = source;
  timestamp = timestamp;
}

abbrev pub has_log : Option String → Bool
has_log none = false
has_log (some file) = true

-- Whether an entry for the result goes to the audit log.
abbrev pub is_audited : Sanitizer → Result → Bool
is_audited s r =
    has_log s.audit_log && (ltb 0 r.matches_found || not s.config.skip_audit_on_no_match)

abbrev pub exceeds : ℤ → String → Bool
exceeds limit content = ltb_ℤ (pos 0) limit && ltb_ℤ limit (pos (byte_length content))

abbrev pub too_large : ℤ → String → Error
too_large limit content =
    errorf "content size exceeds limit: %d > %d" (itoa (byte_length content) ∷ itoa_ℤ limit ∷ [])

unfoldable pub sanitize_content : Sanitizer → String → String → ℕ → Reply Result
sanitize_content s content source timestamp =
    if exceeds s.config.max_content_size content
    then refused (too_large s.config.max_content_size content)
    else replied (result_of (apply_rules s content) source timestamp)

abbrev pub sanitize_text : Sanitizer → ℕ → String → String → Reply Result
sanitize_text s now content source = sanitize_content s content source now

abbrev pub add_result : ℕ → Reply Result → Reply (List Result) → Reply (List Result)
add_result i (refused e) rest = refused (wrapf "failed to sanitize content %d: %w" (itoa i ∷ []) e)
add_result i (replied r) (refused e) = refused e
add_result i (replied r) (replied rs) = replied (r ∷ rs)

unfoldable pub sanitize_from : Sanitizer → ℕ → ℕ → List String → List String → Reply (List Result)
sanitize_from s now i [] sources = replied []
sanitize_from s now i (c ∷ cs) [] = replied []
sanitize_from s now i (c ∷ cs) (source ∷ sources) =
    add_result i (sanitize_content s c source now) (sanitize_from s now (suc i) cs sources)

-- One timestamp for the whole batch.
abbrev pub sanitize_batch : Sanitizer → ℕ → List String → List String → Reply (List Result)
sanitize_batch s now contents sources =
    if length contents == length sources
    then sanitize_from s now 0 contents sources
    else refused (
        errorf "contents and sources length mismatch: %d vs %d"
          (itoa (length contents) ∷ itoa (length sources) ∷ []))
