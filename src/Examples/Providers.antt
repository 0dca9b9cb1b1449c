-- ===== src/Examples/Providers.antt =====
-- The listing of versions, the check of queries and a krkn-ai run on concrete inputs.
use mathlib.Core.List.{Perm}
use osde2e.Prelude.{
  ℕ, if◌then◌else◌, split_commas, ◌↔◌, str_eq, ◌≡◌, refl, arith, Bool, true, false, String, none,
  some, List, [], ◌∷◌, map, trim_prefix,
}
use osde2e.Prelude.Sorting.{SortLaws, IsSorted, sort_by, sort_by-perm, sort_by-IsSorted}
use osde2e.Go.Calls.{Reply, replied, refused}
use osde2e.Prelude.Int.{pos}
use osde2e.Krkn.Inputs.{
  UrlLibrary, parse_health_check_endpoints, parse_entries, parse_entry, split_equals, pre_process,
}
use osde2e.Krkn.Inputs.Checks.{QueryPasses, EndpointsPass, HasRuntime, pre_process_lem}
use osde2e.Krkn.Runs.{
  RunSettings, ContainerReplies, ExecuteReplies, Krkn, krkn_prometheus_token_duration, execute,
}
use osde2e.Krkn.Runs.Ends.{is_extended, HasEnded, execute_lem}
use osde2e.Semver.Sample.{Sample, sample_semver, sample_laws, v4_3_12, v4_4_6}
use osde2e.Spi.Version.{Version, VersionList}
use osde2e.Prelude.Spaces.{trim_space}
use osde2e.Krkn.Query.{mark, marks, scan, validate_promql}
use osde2e.Krkn.Query.Grammar.{Balanced, validate_promql_lem}
use osde2e.Go.{Error, errorf}
use osde2e.Ocm.Versions.{Item, newer_first, versions}
use osde2e.Ocm.Versions.Pages.{served, offered_versions, version_of, versions_lem}

abbrev item : String → Bool → String → List String → Item
item id enabled channel upgrades = record {
  id = id;
  enabled = enabled;
  channel_group = channel;
  is_default = false;
  available_upgrades = upgrades;
}

-- Only the first and the last are offered in the channel "candidate".
abbrev items : List Item
items =
    item "openshift-v4.3.12" true "stable" ("4.4.0" ∷ "latest" ∷ [])
    ∷ item "openshift-v4.4.0" false "stable" []
    ∷ item "openshift-v4.5.0" true "nightly" []
    ∷ item "unknown" true "stable" []
    ∷ item "openshift-v4.4.6" true "candidate" []
    ∷ []

abbrev sort_samples :
    (Version Sample → Version Sample → Bool) → List (Version Sample) → List (Version Sample)
sort_samples less xs = sort_by less xs

sort_samples-laws : SortLaws sort_samples
sort_samples-laws = record {
  permutes = λ less xs. sort_by-perm less xs;
  sorts = λ less xs weak. sort_by-IsSorted weak xs;
}

items_offered : offered_versions "candidate" items ≡ v4_3_12 ∷ v4_4_6 ∷ []
unfolding trim_prefix
items_offered = refl

versions_lem_example :
    (vl : VersionList Sample) × (versions "candidate" sort_samples 1 (served items)
      ≡ some (replied vl))
    × Perm (map (version_of "candidate") vl.available_versions) (offered_versions "candidate" items)
    × IsSorted (newer_first "candidate") vl.available_versions
versions_lem_example =
    versions_lem "candidate" sort_samples sort_samples-laws sample_laws 0 items (omega arith)

abbrev query : String
query = " sum(rate(errors{job=\"api\"}[5m])) "

balanced_query : validate_promql query ≡ none
unfolding validate_promql marks mark scan trim_space
balanced_query = refl

crossed_query :
    validate_promql "sum(rate[5m)]"
    ≡ some (errorf "unbalanced parenthesis in query: %s" ("sum(rate[5m)]" ∷ []))
unfolding validate_promql marks mark scan trim_space
crossed_query = refl

validate_promql_lem_example :
    (validate_promql query ≡ none)
    ↔ ((str_eq (trim_space query) "" ≡ false) × Balanced (marks (trim_space query)))
validate_promql_lem_example = validate_promql_lem query

abbrev run_settings : RunSettings
run_settings = record {
  dry_run = false;
  generations = pos 3;
  population = pos 4;
  default_token_duration = pos 3600000000000;
  shared_dir = "/shared";
  report_dir = "/report";
  namespace = "robot-shop";
  pod_label = "service";
  node_label = "";
  skip_pod_name = "";
}

-- Three generations of four are an hour.
token_for_twelve : krkn_prometheus_token_duration run_settings ≡ pos 3600000000000
unfolding krkn_prometheus_token_duration
token_for_twelve = refl

abbrev container : Reply Unit → ContainerReplies
container finished = record {
  podman = refused (errorf "not found" []);
  docker = replied "/usr/bin/docker";
  token = replied "token";
  finished = finished;
}

-- The cluster expires too early, and the second container fails.
abbrev execute_replies : ExecuteReplies
execute_replies = record {
  until_expiration = replied (pos 60000000000);
  extended = replied tt;
  discovered = container (replied tt);
  config_updated = replied tt;
  ran = container (refused (errorf "exit status 1" []));
}

abbrev krkn : Krkn
krkn = record {
  cluster_id = "1a2b";
  passing = false;
  exit_code = 0;
  tests_passed = false;
  krkn_extended_cluster_expiry = false;
  calls = [];
}

execute_lem_example :
    HasEnded
      (is_extended run_settings execute_replies krkn)
      run_settings
      krkn
      (execute run_settings execute_replies krkn)
execute_lem_example = execute_lem run_settings execute_replies krkn refl refl

-- A parser that knows one URL.
abbrev health_url : String
health_url = "https://api.cluster:6443/health"

abbrev urls : UrlLibrary
urls = record {
  parse = λ raw.
      if str_eq raw health_url
      then some (record { scheme = "https"; host = "api.cluster:6443"; path = "/health" })
      else none;
  redacted = λ u. u.host;
}

endpoints_read :
    parse_health_check_endpoints urls "api = https://api.cluster:6443/health ,,"
    ≡ replied (record { name = "api"; url = health_url } ∷ [])
unfolding parse_health_check_endpoints parse_entries parse_entry split_equals split_commas
    trim_space
endpoints_read = refl

abbrev answers : String → Reply ℕ
answers url = replied 200

abbrev text_of : Error → String
text_of e = ""

pre_process_lem_example :
    (pre_process urls answers text_of "1a2b" query "api = https://api.cluster:6443/health ,," false
        (replied "/usr/bin/podman")
        (refused (errorf "not found" []))
      ≡ [])
    ↔ ((str_eq "1a2b" "" ≡ false)
        × QueryPasses query
        × EndpointsPass urls answers text_of "api = https://api.cluster:6443/health ,,"
        × HasRuntime false (replied "/usr/bin/podman") (refused (errorf "not found" [])))
pre_process_lem_example =
    pre_process_lem urls answers text_of "1a2b" query "api = https://api.cluster:6443/health ,,"
      false (replied "/usr/bin/podman") (refused (errorf "not found" []))
