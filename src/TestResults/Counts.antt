-- ===== src/TestResults/Counts.antt =====
-- What the test results count, and which tests they name as failures.
use mathlib.Core.List.{Perm}
use mathlib.Core.List.Perm
use osde2e.Prelude.{
  String, ◌+◌, ◌≡◌, refl, sym, ◌∙◌, subst, Bool, true, false, List, [], ◌∷◌, ◌++◌, map, length,
  length-append, fold, count_if, count_if-append, keep_if, append_nil, append_assoc, arith,
  Bool-cases, inl, inr,
}
use osde2e.Prelude.Int.{ℤ}
use osde2e.Go.Calls.{Reply}
use osde2e.TestResults.{
  Status, passed, failed, skipped, errored, other_status, Test, Suite, FailedTest,
  TestResultSummary, Tally, convert_junit_test, count_test, count_suite, all_suites, no_tests,
  tally_suites, collect_test_results,
}

abbrev pub all_tests : List Suite → List Test
all_tests [] = []
all_tests (s ∷ ss) = s.tests ++ all_tests ss

abbrev pub has_passed : Test → Bool
has_passed t = elim t.status [
  | passed ↦ true
  | failed ↦ false
  | skipped ↦ false
  | errored ↦ false
  | other_status ↦ false
]

abbrev pub has_failed : Test → Bool
has_failed t = elim t.status [
  | passed ↦ false
  | failed ↦ true
  | skipped ↦ false
  | errored ↦ false
  | other_status ↦ false
]

abbrev pub is_skipped : Test → Bool
is_skipped t = elim t.status [
  | passed ↦ false
  | failed ↦ false
  | skipped ↦ true
  | errored ↦ false
  | other_status ↦ false
]

abbrev pub has_error : Test → Bool
has_error t = elim t.status [
  | passed ↦ false
  | failed ↦ false
  | skipped ↦ false
  | errored ↦ true
  | other_status ↦ false
]

abbrev pub is_failure : Test → Bool
is_failure t = elim t.status [
  | passed ↦ false
  | failed ↦ true
  | skipped ↦ false
  | errored ↦ true
  | other_status ↦ false
]

-- The tests of a suite that failed or had an error, under the name of the suite.
abbrev pub failures_in : String → List Test → List FailedTest
failures_in suite tests = map (λ t. convert_junit_test t suite) (keep_if is_failure tests)

abbrev pub failures_of : List Suite → List FailedTest
failures_of [] = []
failures_of (s ∷ ss) = failures_in s.name s.tests ++ failures_of ss

-- What the summary counts of some tests.
abbrev pub Counts : List Test → TestResultSummary → Type 0
Counts tests s =
    (s.total_tests ≡ length tests)
    × (s.passed_tests ≡ count_if has_passed tests)
    × (s.failed_tests ≡ count_if has_failed tests)
    × (s.skipped_tests ≡ count_if is_skipped tests)
    × (s.error_tests ≡ count_if has_error tests)

-- A summary that counts some more tests than another one.
abbrev Adds : List Test → TestResultSummary → TestResultSummary → Type 0
Adds tests before s =
    (s.total_tests ≡ before.total_tests + length tests)
    × (s.passed_tests ≡ before.passed_tests + count_if has_passed tests)
    × (s.failed_tests ≡ before.failed_tests + count_if has_failed tests)
    × (s.skipped_tests ≡ before.skipped_tests + count_if is_skipped tests)
    × (s.error_tests ≡ before.error_tests + count_if has_error tests)

abbrev AddsTo : List Test → List FailedTest → Tally → Tally → Type 0
AddsTo tests failures before t =
    Adds tests before.summary t.summary × (t.failures ≡ before.failures ++ failures)

nothing_added : (t : Tally) → AddsTo [] [] t t
nothing_added t =
    ((omega arith, omega arith, omega arith, omega arith, omega arith), sym (append_nil t.failures))

AddsTo-trans :
    (xs ys : List Test) (fs gs : List FailedTest) (a b c : Tally)
    → AddsTo xs fs a b
    → AddsTo ys gs b c
    → AddsTo (xs ++ ys) (fs ++ gs) a c
AddsTo-trans xs ys fs gs a b c ((n, p, f, s, e), l) ((m, q, g, t, d), k) = (
  (
    omega (arith, length-append xs ys),
    omega (arith, count_if-append has_passed xs ys),
    omega (arith, count_if-append has_failed xs ys),
    omega (arith, count_if-append is_skipped xs ys),
    omega (arith, count_if-append has_error xs ys),
  ),
  k ∙ rw l (append_assoc a.failures fs gs),
)

one_more :
    (suite name classname : String) (st : Status) (d : ℤ) (t : Tally)
    → (let test : Test = record { name = name; classname = classname; status = st; duration = d } in
        AddsTo (test ∷ []) (failures_in suite (test ∷ [])) t (count_test suite t test))
one_more suite name classname passed d t =
    ((omega arith, omega arith, omega arith, omega arith, omega arith), sym (append_nil t.failures))
one_more suite name classname failed d t =
    ((omega arith, omega arith, omega arith, omega arith, omega arith), refl)
one_more suite name classname skipped d t =
    ((omega arith, omega arith, omega arith, omega arith, omega arith), sym (append_nil t.failures))
one_more suite name classname errored d t =
    ((omega arith, omega arith, omega arith, omega arith, omega arith), refl)
one_more suite name classname other_status d t =
    ((omega arith, omega arith, omega arith, omega arith, omega arith), sym (append_nil t.failures))

failures_in-cons :
    (suite : String) (test : Test) (tests : List Test)
    → failures_in suite (test ∷ []) ++ failures_in suite tests ≡ failures_in suite (test ∷ tests)
failures_in-cons suite test tests = elim (Bool-cases (is_failure test)) [
  | inl e ↦ rw e refl
  | inr e ↦ rw e refl
]

tests-AddsTo :
    (suite : String) (tests : List Test) (t : Tally)
    → AddsTo tests (failures_in suite tests) t (fold (count_test suite) t tests)
tests-AddsTo suite [] t = nothing_added t
tests-AddsTo suite (test ∷ tests) t =
    let after = count_test suite t test in
    let both =
      AddsTo-trans (test ∷ []) tests (failures_in suite (test ∷ [])) (failures_in suite tests) t
        after (fold (count_test suite) after tests)
        (one_more suite test.name test.classname test.status test.duration t)
        (tests-AddsTo suite tests after) in
    subst (λ fs. AddsTo (test ∷ tests) fs t (fold (count_test suite) after tests))
      (failures_in-cons suite test tests) both

suites-AddsTo :
    (suites : List Suite) (t : Tally)
    → AddsTo (all_tests suites) (failures_of suites) t (fold count_suite t suites)
suites-AddsTo [] t = nothing_added t
suites-AddsTo (s ∷ ss) t =
    let after = count_suite t s in
    AddsTo-trans s.tests (all_tests ss) (failures_in s.name s.tests) (failures_of ss) t after
      (fold count_suite after ss) (tests-AddsTo s.name s.tests t) (suites-AddsTo ss after)

-- Sorting keeps the failures. Over all the suites that could be read, the total is the number of the
-- tests, the four counts are the numbers of the tests that passed, failed, were skipped and had an
-- error, and the failures are those of the tests that failed or had an error, each with the name of
-- its suite and as often as there are such tests.
pub collect_test_results-Counts :
    (sort : List FailedTest → List FailedTest) (rs : List (Reply (List Suite)))
    → ((fs : List FailedTest) → Perm (sort fs) fs)
    → Counts (all_tests (all_suites rs)) (collect_test_results sort rs).summary
      × Perm (collect_test_results sort rs).failures (failures_of (all_suites rs))
unfolding collect_test_results
collect_test_results-Counts sort [] sorts = ((refl, refl, refl, refl, refl), Perm.refl [])
collect_test_results-Counts sort (r ∷ rs) sorts =
    let suites = all_suites (r ∷ rs) in
    let ((n, p, f, s, e), l) = suites-AddsTo suites (no_tests (length suites)) in
    (
      (omega arith, omega arith, omega arith, omega arith, omega arith),
      subst (Perm (sort (tally_suites suites).failures)) l (sorts (tally_suites suites).failures),
    )
