-- ===== src/Krkn/Inputs.antt =====
-- params_validation.go: the health check endpoints; and `PreProcess` of krknai.go. The parser of
-- URLs and the requests to them are outside.
pub mod Checks
use Prim.Native.Char.{Char, code}
use Prim.Native.String.{String}
use osde2e.Prelude.{
  ℕ, Bool, true, false, not, ◌&&◌, ◌||◌, Option, none, some, List, [], ◌∷◌, ◌++◌, ltb, leb, ◌==◌,
  str_eq, if◌then◌else◌, split_commas, concat, itoa,
}
use osde2e.Prelude.Spaces.{trim_space}
use osde2e.Go.{Error, errorf, wrapf}
use osde2e.Go.Calls.{Reply, replied, refused}
use osde2e.Krkn.Query.{validate_promql}
use osde2e.Krkn.Runs.{detect_container_runtime}

-- The parts of a `url.URL` that the code reads.
pub record Url : Type 0 where
  pub scheme : String
  pub host : String
  pub path : String

-- `url.Parse`, and `String` of a URL without its user, query and fragment.
pub record UrlLibrary : Type 0 where
  pub parse : String → Option Url
  pub redacted : Url → String

-- An entry of the krkn-ai configuration; its other three values are the same in all entries.
pub record App : Type 0 where
  pub name : String
  pub url : String

-- `strings.SplitN(s, "=", 2)` when it gives two parts.
unfoldable pub split_equals : String → Option (String × String)
split_equals String.[] = none
split_equals (String.◌∷◌ c s) = elim (split_equals s) [
  | none ↦ if code c == b'=' then some ("", s) else none
  | some (key, value) ↦ if code c == b'=' then some ("", s) else some (String.◌∷◌ c key, value)
]

-- `strings.TrimRight(s, "/")`.
unfoldable pub trim_slashes : String → String
trim_slashes String.[] = ""
trim_slashes (String.◌∷◌ c s) =
    let rest = trim_slashes s in if code c == b'/' && str_eq rest "" then "" else String.◌∷◌ c rest

-- `strings.HasSuffix`.
unfoldable pub has_suffix : String → String → Bool
has_suffix String.[] end = str_eq "" end
has_suffix (String.◌∷◌ c s) end =
    let rest = has_suffix s end in if str_eq (String.◌∷◌ c s) end then true else rest

abbrev pub runtime_errors : Bool → Reply String → List Error
runtime_errors true runtime = []
runtime_errors false (replied path) = []
runtime_errors false (refused e) = e ∷ []

abbrev pub id_errors : String → List Error
id_errors id =
    if str_eq id ""
    then errorf "CLUSTER_ID is required: provide an existing cluster ID to run chaos tests against"
        []
      ∷ []
    else []

-- The query and what `validatePromQL` says about it.
abbrev pub query_errors : Option Error → String → List Error
query_errors none query = []
query_errors (some e) query =
    if str_eq query "" then [] else wrapf "KRKN_FITNESS_QUERY: %v" [] e ∷ []

module _ (urls : UrlLibrary) where
  abbrev pub redacted_or : Option Url → String
  redacted_or none = "<redacted>"
  redacted_or (some u) =
      if str_eq u.scheme "" || str_eq u.host "" then "<redacted>" else urls.redacted u

  unfoldable pub redact_url : String → String
  redact_url raw = redacted_or (urls.parse raw)

  abbrev pub ends_in_health : Option Url → Bool
  ends_in_health none = false
  ends_in_health (some u) = has_suffix (trim_slashes u.path) "/health"

  unfoldable pub is_cluster_health_endpoint : String → Bool
  is_cluster_health_endpoint raw = ends_in_health (urls.parse raw)

  abbrev pub invalid_url : String → String → Error
  invalid_url name raw =
      errorf "invalid URL for %q (must include scheme and host, e.g. https://host/path): %q"
        (name ∷ redact_url raw ∷ [])

  abbrev pub with_scheme : String → String → Option Url → Reply App
  with_scheme name raw none = refused (invalid_url name raw)
  with_scheme name raw (some u) =
      if str_eq u.scheme "" || str_eq u.host ""
      then refused (invalid_url name raw)
      else (if not (str_eq u.scheme "http") && not (str_eq u.scheme "https")
          then refused
              (errorf "unsupported scheme %q for %q (must be http or https)" (u.scheme ∷ name ∷ []))
          else replied (record { name = name; url = raw }))

  abbrev pub parse_pair : String → String → String → Reply App
  parse_pair entry name raw =
      if str_eq name "" || str_eq raw ""
      then refused (errorf "invalid health-check entry (name and url required): %q" (entry ∷ []))
      else with_scheme name raw (urls.parse raw)

  abbrev pub parse_parts : String → Option (String × String) → Reply App
  parse_parts entry none =
      refused (errorf "invalid health-check entry (expected name=url): %q" (entry ∷ []))
  parse_parts entry (some (name, raw)) = parse_pair entry (trim_space name) (trim_space raw)

  unfoldable pub parse_entry : String → Reply App
  parse_entry entry = parse_parts entry (split_equals entry)

  abbrev pub put_first : Reply App → Reply (List App) → Reply (List App)
  put_first (refused e) rest = refused e
  put_first (replied a) (refused e) = refused e
  put_first (replied a) (replied as_) = replied (a ∷ as_)

  -- The first entry that is invalid is the error.
  unfoldable pub parse_entries : List String → Reply (List App)
  parse_entries [] = replied []
  parse_entries (e ∷ es) =
      let rest = parse_entries es in
      let entry = trim_space e in
      if str_eq entry "" then rest else put_first (parse_entry entry) rest

  unfoldable pub parse_health_check_endpoints : String → Reply (List App)
  parse_health_check_endpoints input = parse_entries (split_commas input)

  unfoldable pub endpoint_errors : List App → List Error
  endpoint_errors [] = []
  endpoint_errors (a ∷ rest) =
      let errors = endpoint_errors rest in
      if is_cluster_health_endpoint a.url
      then errors
      else errorf "KRKN_HEALTH_CHECK: URL for %q must be a cluster API /health endpoint, got %s"
          (a.name ∷ redact_url a.url ∷ [])
        ∷ errors

-- `get` is the status of the response to a request for a URL, or the error of one of the two
-- calls, and `error_text` the text of an error.
module _ (urls : UrlLibrary) (get : String → Reply ℕ) (error_text : Error → String) where
  abbrev pub response_errors : App → Reply ℕ → List String
  response_errors a (refused e) =
      concat (a.name ∷ " (" ∷ redact_url urls a.url ∷ "): " ∷ error_text e ∷ []) ∷ []
  response_errors a (replied status) =
      if ltb status 200 || leb 300 status
      then concat (a.name ∷ " (" ∷ redact_url urls a.url ∷ "): HTTP " ∷ itoa status ∷ []) ∷ []
      else []

  unfoldable pub url_errors : List App → List String
  url_errors [] = []
  url_errors (a ∷ rest) =
      let errors = url_errors rest in
      if str_eq a.url "" then errors else response_errors a (get a.url) ++ errors

  -- `strings.Join(errs, "; ")`.
  abbrev pub join_errors : List String → String
  join_errors [] = ""
  join_errors (e ∷ []) = e
  join_errors (e ∷ f ∷ rest) = concat (e ∷ "; " ∷ join_errors (f ∷ rest) ∷ [])

  -- `validateHealthCheckURLsReachable`.
  abbrev pub unreachable : List String → List Error
  unreachable [] = []
  unreachable (e ∷ rest) =
      errorf "health check URL validation failed: %s" (join_errors (e ∷ rest) ∷ []) ∷ []

  abbrev pub app_errors : Reply (List App) → List Error
  app_errors (refused e) = wrapf "KRKN_HEALTH_CHECK: %v" [] e ∷ []
  app_errors (replied apps) = endpoint_errors urls apps ++ unreachable (url_errors apps)

  abbrev pub health_check_errors : String → List Error
  health_check_errors input =
      if str_eq input "" then [] else app_errors (parse_health_check_endpoints urls input)

  -- The messages of the error that `PreProcess` returns; with no message it returns nil.
  unfoldable pub pre_process :
      String → String → String → Bool → Reply String → Reply String → List Error
  pre_process id query input dry_run podman docker =
      id_errors id
      ++ (query_errors (validate_promql query) query
          ++ (health_check_errors input
              ++ runtime_errors dry_run (detect_container_runtime podman docker)))
