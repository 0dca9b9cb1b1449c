-- ===== src/TestResults.antt =====
-- internal/aggregator/aggregator.go: the results of the tests, from the files of the artifacts that
-- are JUnit reports. The reader of the reports is outside; the results of the files come in the order
-- in which they are ready. The status is the one of the reader, and sorting is a parameter.
pub mod Counts
use osde2e.Prelude.{
  ℕ, suc, String, Bool, ◌&&◌, contains, List, [], ◌∷◌, ◌++◌, map, length, fold, keep_if,
}
use osde2e.Prelude.Int.{ℤ, pos, add_int}
use osde2e.Go.Calls.{Reply, replied, refused}
use osde2e.Krkn.Results.{LogEntry}

pub data Status : Type 0 where
  passed : Status
  failed : Status
  skipped : Status
  errored : Status
  other_status : Status

pub record Test : Type 0 where
  pub name : String
  pub classname : String
  pub status : Status
  pub duration : ℤ

pub record Suite : Type 0 where
  pub name : String
  pub tests : List Test

pub record FailedTest : Type 0 where
  pub name : String
  pub class_name : String
  pub suite_name : String

pub record TestResultSummary : Type 0 where
  pub total_tests : ℕ
  pub passed_tests : ℕ
  pub failed_tests : ℕ
  pub skipped_tests : ℕ
  pub error_tests : ℕ
  pub duration : ℤ
  pub suite_count : ℕ

pub record Tally : Type 0 where
  pub summary : TestResultSummary
  pub failures : List FailedTest

abbrev pub convert_junit_test : Test → String → FailedTest
convert_junit_test t suite_name = record {
  name = t.name;
  class_name = t.classname;
  suite_name = suite_name;
}

abbrev pub add_test : ℤ → TestResultSummary → TestResultSummary
add_test d s = record s { total_tests = suc s.total_tests; duration = add_int s.duration d }

abbrev pub count_status : Status → FailedTest → TestResultSummary → List FailedTest → Tally
count_status passed f s fs = record {
  summary = record s { passed_tests = suc s.passed_tests };
  failures = fs;
}
count_status failed f s fs = record {
  summary = record s { failed_tests = suc s.failed_tests };
  failures = fs ++ (f ∷ []);
}
count_status skipped f s fs = record {
  summary = record s { skipped_tests = suc s.skipped_tests };
  failures = fs;
}
count_status errored f s fs = record {
  summary = record s { error_tests = suc s.error_tests };
  failures = fs ++ (f ∷ []);
}
count_status other_status f s fs = record { summary = s; failures = fs }

abbrev pub count_test : String → Tally → Test → Tally
count_test suite_name t test =
    count_status test.status (convert_junit_test test suite_name) (add_test test.duration t.summary)
      t.failures

abbrev pub count_suite : Tally → Suite → Tally
count_suite t suite = fold (count_test suite.name) t suite.tests

-- A report that cannot be read is left out.
abbrev pub all_suites : List (Reply (List Suite)) → List Suite
all_suites [] = []
all_suites (refused e ∷ rs) = all_suites rs
all_suites (replied suites ∷ rs) = suites ++ all_suites rs

abbrev pub no_tests : ℕ → Tally
no_tests suites = record {
  summary = record {
    total_tests = 0;
    passed_tests = 0;
    failed_tests = 0;
    skipped_tests = 0;
    error_tests = 0;
    duration = pos 0;
    suite_count = suites;
  };
  failures = [];
}

-- `to_lower`, `base` and `has_suffix` are the ones of the Go library.
module _ (to_lower base : String → String) (has_suffix : String → String → Bool) where
  abbrev pub is_junit : LogEntry → Bool
  is_junit log =
      let file_name = to_lower (base log.source) in
      has_suffix file_name ".xml" && contains file_name "junit"

  abbrev pub find_junit_files : List LogEntry → List String
  find_junit_files logs = map (λ log. log.source) (keep_if is_junit logs)

abbrev pub sorted_tally : (List FailedTest → List FailedTest) → Tally → Tally
sorted_tally sort t = record t { failures = sort t.failures }

abbrev pub tally_suites : List Suite → Tally
tally_suites suites = fold count_suite (no_tests (length suites)) suites

-- Without a report the results are left as they are, which is as they begin.
unfoldable pub collect_test_results :
    (List FailedTest → List FailedTest) → List (Reply (List Suite)) → Tally
collect_test_results sort [] = no_tests 0
collect_test_results sort (r ∷ rs) = sorted_tally sort (tally_suites (all_suites (r ∷ rs)))
