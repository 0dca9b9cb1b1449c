-- ===== src/Examples/Results.antt =====
-- The results of a krkn-ai run, with whole numbers for the scores.

use osde2e.Prelude.{
  ◌+◌, ◌≡◌, arith, true, false, String, List, [], ◌∷◌, length, keep_if, if◌then◌else◌, str_eq, not,
}
use Prim.Native.String.{count}
use osde2e.Prelude.Int.{ℤ, pos, negsuc, ltb_ℤ, add_int}
use osde2e.Prelude.Sorting.{SortLaws, IsWeakOrder, sort_by, sort_by-perm, sort_by-IsSorted}
use mathlib.Core.List.{Perm}
use mathlib.Core.List.Perm
use osde2e.Go.{errorf}
use osde2e.Go.Calls.{Reply, replied, refused}
use osde2e.TestResults.{
  Status, passed, errored, other_status, Test, Suite, collect_test_results, all_suites,
}
use osde2e.TestResults.Counts.{Counts, all_tests, failures_of, collect_test_results-Counts}
use osde2e.Krkn.Results.{
  Floats, ScenarioResult, Sorts, has_failed, fitter, new_data, process_scenarios,
}
use osde2e.Krkn.Results.Ranking.{IsBest, process_scenarios_lem}

-- "-1" and the other texts.
abbrev read_score : String → ℤ
read_score text = if str_eq text "-1" then negsuc 0 else pos (count text)

instance score_floats : Floats ℤ
score_floats = record {
  zero_float = pos 0;
  add = add_int;
  divide_by = λ x n. x;
  less = ltb_ℤ;
  at_least = λ a b. not (ltb_ℤ a b);
  parse_float = read_score;
  atoi = read_score;
  is_number = λ text. not (str_eq text "");
}

abbrev scenario : String → ℤ → ℤ → ScenarioResult ℤ
scenario name krkn fitness = record {
  generation_id = pos 0;
  scenario_id = pos 1;
  scenario = name;
  parameters = "";
  health_check_failure_score = pos 0;
  health_check_response_time_score = pos 0;
  krkn_failure_score = krkn;
  fitness_score = fitness;
}

abbrev good_scenario : ScenarioResult ℤ
good_scenario = scenario "node-cpu-hog" (pos 0) (pos 7)

abbrev other_scenarios : List (ScenarioResult ℤ)
other_scenarios =
    scenario "pod-scenarios" (negsuc 0) (pos 9) ∷ scenario "dns-outage" (pos 1) (pos 8) ∷ []

abbrev sort_scores : Sorts ℤ
sort_scores less xs = sort_by less xs

sort_scores-laws : SortLaws sort_scores
sort_scores-laws = record {
  permutes = λ less xs. sort_by-perm less xs;
  sorts = λ less xs weak. sort_by-IsSorted weak xs;
}

less_asymmetric : (x y : ℤ) → ltb_ℤ x y ≡ true → ltb_ℤ y x ≡ false
less_asymmetric x y h = ground arith

less_incomparable : (x y z : ℤ) → ltb_ℤ x y ≡ false → ltb_ℤ y z ≡ false → ltb_ℤ x z ≡ false
less_incomparable x y z h k = ground arith

fitter-IsWeakOrder : IsWeakOrder (fitter {F = ℤ})
unfolding score_floats
fitter-IsWeakOrder = record {
  asymmetric = λ a b h. less_asymmetric b.fitness_score a.fitness_score h;
  incomparable = λ a b c h k. less_incomparable c.fitness_score b.fitness_score a.fitness_score k h;
}

process_scenarios_lem_example :
    IsBest 1
      (good_scenario ∷ other_scenarios)
      (process_scenarios sort_scores
        (λ xs. xs)
        (pos 1)
        new_data
        (good_scenario ∷ other_scenarios)).top_scenarios
    × ((process_scenarios sort_scores
          (λ xs. xs)
          (pos 1)
          new_data
          (good_scenario ∷ other_scenarios)).failed_scenarios
        ≡ keep_if has_failed (good_scenario ∷ other_scenarios))
    × ((process_scenarios sort_scores
            (λ xs. xs)
            (pos 1)
            new_data
            (good_scenario ∷ other_scenarios)).summary.successful_scenario_count
          + (process_scenarios sort_scores
              (λ xs. xs)
              (pos 1)
              new_data
              (good_scenario ∷ other_scenarios)).summary.failed_scenario_count
        ≡ length (good_scenario ∷ other_scenarios))
process_scenarios_lem_example =
    process_scenarios_lem sort_scores (λ xs. xs) 1 new_data good_scenario other_scenarios
      sort_scores-laws fitter-IsWeakOrder

abbrev test : String → Status → Test
test name status = record { name = name; classname = "osd"; status = status; duration = pos 3 }

-- A report that cannot be read, and one with three tests.
abbrev reports : List (Reply (List Suite))
reports =
    refused (errorf "EOF" [])
    ∷ replied (
        record {
          name = "suite";
          tests = test "b" passed ∷ test "c" errored ∷ test "a" other_status ∷ [];
        }
        ∷ [])
    ∷ []

collect_test_results-Counts_example :
    Counts (all_tests (all_suites reports)) (collect_test_results (λ fs. fs) reports).summary
    × Perm (collect_test_results (λ fs. fs) reports).failures (failures_of (all_suites reports))
collect_test_results-Counts_example =
    collect_test_results-Counts (λ fs. fs) reports (λ fs. Perm.refl fs)
