-- ===== src/Krkn/Results.antt =====
-- pkg/krknai/aggregator/aggregator.go: the results of a krkn-ai run. The numbers that the reports hold
-- as floats are a parameter `F` with the operations that the code uses; the reader of CSV files and
-- the files are outside, and `strconv` gives for each text what it gives.
pub mod Ranking
use osde2e.Prelude.{
  ℕ, zero, suc, ◌-◌, String, Bool, true, false, not, ◌&&◌, ◌||◌, has_prefix, Option, none, some,
  List, [], ◌∷◌, ◌++◌, map, length, fold, keep_if, str_eq, if◌then◌else◌, leb, ltb, ◌==◌,
}
use osde2e.Prelude.Int.{ℤ, pos, negsuc, ltb_ℤ, add_int}
use osde2e.Prelude.Maps.{assign}
use Prim.Native.Char.{code}
use osde2e.Go.{Error, errorf, wrapf}
use osde2e.Go.Calls.{Reply, replied, refused}

pub record Floats (F : Type 0) : Type 0 where
  pub zero_float : F
  pub add : F → F → F
  pub divide_by : F → ℕ → F
  pub less : F → F → Bool
  pub at_least : F → F → Bool
  -- `ParseFloat` and `Atoi`: what they return beside the error, and whether there is one.
  pub parse_float : String → F
  pub atoi : String → ℤ
  pub is_number : String → Bool

pub record ScenarioResult (F : Type 0) : Type 0 where
  pub generation_id : ℤ
  pub scenario_id : ℤ
  pub scenario : String
  pub parameters : String
  pub health_check_failure_score : F
  pub health_check_response_time_score : F
  pub krkn_failure_score : F
  pub fitness_score : F

pub record HealthCheckResult (F : Type 0) : Type 0 where
  pub scenario_id : ℤ
  pub component_name : String
  pub min_response_time : F
  pub max_response_time : F
  pub average_response_time : F
  pub success_count : ℤ
  pub failure_count : ℤ

pub record Summary (F : Type 0) : Type 0 where
  pub total_scenario_count : ℕ
  pub successful_scenario_count : ℕ
  pub failed_scenario_count : ℕ
  pub generations : ℤ
  pub max_fitness_score : F
  pub avg_fitness_score : F
  pub scenario_types : List String

-- A file of the log artifacts, with the number of its lines.
pub record LogEntry : Type 0 where
  pub source : String
  pub line_count : ℕ

pub record Data (F : Type 0) : Type 0 where
  pub summary : Summary F
  pub top_scenarios : List (ScenarioResult F)
  pub failed_scenarios : List (ScenarioResult F)
  pub health_check_report : List (HealthCheckResult F)
  pub log_artifacts : List LogEntry
  pub config_summary : String

-- A CSV file: opened, then read into records.
abbrev pub Csv : Type 0
Csv = Reply (Reply (List (List String)))

abbrev pub all_csv_path : String
all_csv_path = "reports/all.csv"

abbrev pub health_check_report_csv_path : String
health_check_report_csv_path = "reports/health_check_report.csv"

abbrev pub default_top_scenarios_count : ℤ
default_top_scenarios_count = pos 10

abbrev pub keep_some : {A : Type 0} → Option A → List A → List A
keep_some none xs = xs
keep_some (some a) xs = a ∷ xs

-- The records of a file, or its error.
abbrev pub read_csv : String → Csv → Reply (List (List String))
read_csv path (refused e) = refused (wrapf "failed to open %s: %w" (path ∷ []) e)
read_csv path (replied (refused e)) = refused (wrapf "failed to parse CSV: %w" [] e)
read_csv path (replied (replied rows)) = replied rows

-- `sort.Slice` on scenarios.
abbrev pub Sorts : Type 0 → Type 0
Sorts F =
    (ScenarioResult F → ScenarioResult F → Bool) → List (ScenarioResult F) → List (ScenarioResult F)

module _ {F : Type 0} ⦃fl : Floats F⦄ where
  -- A row with fewer than eight columns is left out, and so is one whose ids are no numbers.
  unfoldable pub parse_scenario_record : List String → Option (ScenarioResult F)
  parse_scenario_record
        (generation ∷ id ∷ name ∷ params ∷ failures ∷ times ∷ krkn ∷ fitness ∷ more) =
      if fl.is_number generation && fl.is_number id
      then some (record {
        generation_id = fl.atoi generation;
        scenario_id = fl.atoi id;
        scenario = name;
        parameters = params;
        health_check_failure_score = fl.parse_float failures;
        health_check_response_time_score = fl.parse_float times;
        krkn_failure_score = fl.parse_float krkn;
        fitness_score = fl.parse_float fitness;
      })
      else none
  parse_scenario_record _ = none

  unfoldable pub parse_scenarios : List (List String) → List (ScenarioResult F)
  parse_scenarios [] = []
  parse_scenarios (row ∷ rows) = keep_some (parse_scenario_record row) (parse_scenarios rows)

  -- The header row is skipped; without a row after it there is an error.
  abbrev pub scenario_rows : List (List String) → Reply (List (ScenarioResult F))
  scenario_rows (header ∷ row ∷ rows) = replied (parse_scenarios (row ∷ rows))
  scenario_rows _ = refused (errorf "CSV file is empty or has no data rows" [])

  abbrev pub scenarios_of : Reply (List (List String)) → Reply (List (ScenarioResult F))
  scenarios_of (refused e) = refused e
  scenarios_of (replied rows) = scenario_rows rows

  abbrev pub collect_scenario_results : Csv → Reply (List (ScenarioResult F))
  collect_scenario_results file = scenarios_of (read_csv all_csv_path file)

  -- A failure score below zero.
  abbrev pub has_failed : ScenarioResult F → Bool
  has_failed s = fl.less s.krkn_failure_score fl.zero_float

  -- `s.KrknFailureScore >= 0`: a score that is no number is neither failed nor passed.
  abbrev pub has_passed : ScenarioResult F → Bool
  has_passed s = fl.at_least s.krkn_failure_score fl.zero_float

  abbrev pub later_generation : ℤ → ScenarioResult F → ℤ
  later_generation g s = if ltb_ℤ g s.generation_id then s.generation_id else g

  abbrev pub add_type : List (String × Bool) → ScenarioResult F → List (String × Bool)
  add_type types s = assign s.scenario true types

  abbrev pub add_fitness : F → ScenarioResult F → F
  add_fitness total s = if has_failed s then total else fl.add total s.fitness_score

  abbrev pub fitter : ScenarioResult F → ScenarioResult F → Bool
  fitter a b = fl.less b.fitness_score a.fitness_score

  -- The loop over the sorted scenarios.
  abbrev pub add_top : ℤ → List (ScenarioResult F) → ScenarioResult F → List (ScenarioResult F)
  add_top count top s =
      if has_passed s && ltb_ℤ (pos (length top)) count then top ++ (s ∷ []) else top

  abbrev pub fitness_of : List (ScenarioResult F) → F
  fitness_of [] = fl.zero_float
  fitness_of (s ∷ ss) = s.fitness_score

  abbrev pub top_of : Sorts F → ℤ → List (ScenarioResult F) → List (ScenarioResult F)
  top_of sort_slice count ss = fold (add_top count) [] (sort_slice fitter ss)

  -- The maximum and the average are zero when no scenario succeeded.
  abbrev pub summary_of :
      (List String → List String) → List (ScenarioResult F) → List (ScenarioResult F) → Summary F
  summary_of sort_strings top ss =
      let failures = length (keep_if has_failed ss) in
      let successes = length ss - failures in
      record {
        total_scenario_count = length ss;
        successful_scenario_count = successes;
        failed_scenario_count = failures;
        generations = add_int (fold later_generation (pos 0) ss) (pos 1);
        max_fitness_score = if ltb 0 successes then fitness_of top else fl.zero_float;
        avg_fitness_score =
            if ltb 0 successes
            then fl.divide_by (fold add_fitness fl.zero_float ss) successes
            else fl.zero_float;
        scenario_types = sort_strings (map (λ e. e.0) (fold add_type [] ss));
      }

  -- Without scenarios nothing is set. How `sort.Slice` orders equal elements, and `sort.Strings`, are
  -- parameters.
  unfoldable pub process_scenarios :
      Sorts F → (List String → List String) → ℤ → Data F → List (ScenarioResult F) → Data F
  process_scenarios sort_slice sort_strings count found [] = found
  process_scenarios sort_slice sort_strings count found (s ∷ ss) =
      let top = top_of sort_slice count (s ∷ ss) in
      record found {
        summary = summary_of sort_strings top (s ∷ ss);
        top_scenarios = top;
        failed_scenarios = keep_if has_failed (s ∷ ss);
      }

  -- A row with fewer than seven columns is left out; the counts may be no numbers.
  unfoldable pub parse_health_check_record : List String → Option (HealthCheckResult F)
  parse_health_check_record (id ∷ name ∷ low ∷ high ∷ average ∷ successes ∷ failures ∷ more) =
      if fl.is_number id
      then some (record {
        scenario_id = fl.atoi id;
        component_name = name;
        min_response_time = fl.parse_float low;
        max_response_time = fl.parse_float high;
        average_response_time = fl.parse_float average;
        success_count = fl.atoi successes;
        failure_count = fl.atoi failures;
      })
      else none
  parse_health_check_record _ = none

  unfoldable pub parse_health_checks : List (List String) → List (HealthCheckResult F)
  parse_health_checks [] = []
  parse_health_checks (row ∷ rows) =
      keep_some (parse_health_check_record row) (parse_health_checks rows)

  -- A file without rows is no error.
  abbrev pub health_check_rows : List (List String) → List (HealthCheckResult F)
  health_check_rows [] = []
  health_check_rows (header ∷ rows) = parse_health_checks rows

  abbrev pub add_health_checks : Reply (List (List String)) → Data F → Data F
  add_health_checks (refused e) found = found
  add_health_checks (replied rows) found = record found {
    health_check_report = found.health_check_report ++ health_check_rows rows;
  }

  abbrev pub add_scenarios :
      Sorts F → (List String → List String) → ℤ → Reply (List (ScenarioResult F)) → Data F → Data F
  add_scenarios sort_slice sort_strings count (refused e) found = found
  add_scenarios sort_slice sort_strings count (replied ss) found =
      process_scenarios sort_slice sort_strings count found ss

  abbrev pub add_config : Reply String → Data F → Data F
  add_config (refused e) found = found
  add_config (replied text) found = record found { config_summary = text }

  abbrev pub new_data : Data F
  new_data = record {
    summary = record {
      total_scenario_count = 0;
      successful_scenario_count = 0;
      failed_scenario_count = 0;
      generations = pos 0;
      max_fitness_score = fl.zero_float;
      avg_fitness_score = fl.zero_float;
      scenario_types = [];
    };
    top_scenarios = [];
    failed_scenarios = [];
    health_check_report = [];
    log_artifacts = [];
    config_summary = "";
  }

-- A visit of the walk through the results: the file may be refused, and so may its text.
pub record Visit : Type 0 where
  pub path : String
  pub name : String
  pub is_directory : Bool
  pub is_refused : Bool
  -- `strings.ToLower(filepath.Ext(name))`.
  pub extension : String
  pub content : Reply String

-- `strings.Count(text, "\n")`, one more for a last line without its end.
unfoldable pub line_count_from : Bool → ℕ → String → ℕ
line_count_from open_line n String.[] = if open_line then suc n else n
line_count_from open_line n (String.◌∷◌ c s) =
    if code c == 10 then line_count_from false (suc n) s else line_count_from true n s

abbrev pub line_count : Reply String → ℕ
line_count (refused e) = 0
line_count (replied text) = line_count_from false 0 text

abbrev pub is_skipped : Visit → Bool
is_skipped v =
    v.is_refused
    || (v.is_directory || has_prefix v.name ".")
    || (str_eq v.extension ".png" || str_eq v.extension ".csv")

abbrev pub add_artifact : List LogEntry → Visit → List LogEntry
add_artifact logs v =
    if is_skipped v
    then logs
    else logs ++ (record { source = v.path; line_count = line_count v.content } ∷ [])

abbrev pub collect_log_artifacts : List Visit → List LogEntry
collect_log_artifacts visits = fold add_artifact [] visits

-- The files of a results directory.
pub record Files : Type 0 where
  pub exists : Bool
  pub all_csv : Csv
  pub health_check_report : Csv
  pub config : Reply String
  pub visits : List Visit

module _ {F : Type 0} ⦃fl : Floats F⦄ where
  -- The errors of the collections are messages; only a missing directory is an error.
  unfoldable pub collect :
      Sorts F → (List String → List String) → ℤ → String → Files → Reply (Data F)
  collect sort_slice sort_strings count dir files =
      if not files.exists
      then refused (errorf "results directory does not exist: %s" (dir ∷ []))
      else replied (
          let found = add_config files.config (
            add_health_checks (read_csv health_check_report_csv_path files.health_check_report) (
              add_scenarios sort_slice sort_strings count (collect_scenario_results files.all_csv)
                new_data)) in
          record found { log_artifacts = collect_log_artifacts files.visits })
