-- ===== src/ReadFile/Safety.antt =====
-- Which files the tool gives the contents of.
use osde2e.Prelude.{
  ℕ, suc, ◌≡◌, refl, subst, inl, inr, String, true, Option, none, some, List, [], ◌∷◌, All, any_if,
  Bool-cases, Bool, str_eq,
}
use osde2e.Go.{Error}
use osde2e.Go.Calls.{Reply, replied, reply_cases}
use osde2e.Krkn.Results.{LogEntry}
use osde2e.Sanitizer.{Sanitizer}
use osde2e.ReadFile.Request.{
  Fields, Item, object, no_object, Files, array, no_array, Params, extract_string, extract_int_ptr,
  extract_bool, is_valid_log_file, or_else, check_range, check_path, check_item, validate_from,
  validate_all_files,
}
use osde2e.ReadFile.{File, Output, process_valid, execute_files, execute}

-- An object with a path of the artifacts and a range that passes.
abbrev pub IsAllowed : List LogEntry → Item → Type 0
IsAllowed logs item =
    (fields : Fields) × (item ≡ object fields)
    × (path : String) × (extract_string fields "path" ≡ replied path)
    × (any_if (λ log. str_eq log.source path) logs ≡ true)
    × (i : ℕ) × (check_range i (extract_int_ptr fields "start") (extract_int_ptr fields "stop")
        ≡ none)

or_else-none : (a b : Option Error) → or_else a b ≡ none → (a ≡ none) × (b ≡ none)
or_else-none none b h = (refl, h)
or_else-none (some e) b h = absurd cc

check_path-none :
    (logs : List LogEntry) (i : ℕ) (fields : Fields) (path : String)
    → extract_string fields "path" ≡ replied path
    → check_path logs i fields (replied path) ≡ none
    → IsAllowed logs (object fields)
check_path-none logs i fields path h k = elim (Bool-cases (is_valid_log_file path logs)) [
  | inl v ↦ (fields, refl, path, h, v, i, rw v at k)
  | inr v ↦ absurd (let j = rw v at k in cc)
]

check_item-none :
    (logs : List LogEntry) (i : ℕ) (item : Item)
    → check_item logs i item ≡ none
    → IsAllowed logs item
check_item-none logs i no_object h = absurd cc
check_item-none logs i (object fields) h = elim (reply_cases (extract_string fields "path")) [
  | inl (e, c) ↦ absurd (let k = subst (λ r. check_path logs i fields r ≡ none) c h in cc)
  | inr (path, c) ↦
      check_path-none logs i fields path c (subst (λ r. check_path logs i fields r ≡ none) c h)
]

validate_from-none :
    (logs : List LogEntry) (i : ℕ) (items : List Item)
    → validate_from logs i items ≡ none
    → All (IsAllowed logs) items
unfolding validate_from
validate_from-none logs i [] h = tt
validate_from-none logs i (item ∷ items) h =
    let both = or_else-none (check_item logs i item) (validate_from logs (suc i) items) h in
    (check_item-none logs i item both.0, validate_from-none logs (suc i) items both.1)

module _ (disk : String → Reply File) (render : Error → String) (sanitizer : Option Sanitizer)
    (now : ℕ) where
  process_valid_passed :
      (should : Bool) (items : List Item) (found : Option Error) (out : Output)
      → process_valid disk render sanitizer now should items found ≡ replied out
      → found ≡ none
  process_valid_passed should items none out h = refl
  process_valid_passed should items (some e) out h = absurd cc

  execute_files-IsAllowed :
      (logs : List LogEntry) (should : Bool) (files : Option Files) (out : Output)
      → execute_files disk render sanitizer now logs should files ≡ replied out
      → (item : Item) × (items : List Item) × (files ≡ some (array (item ∷ items)))
        × All (IsAllowed logs) (item ∷ items)
  execute_files-IsAllowed logs should none out h = absurd cc
  execute_files-IsAllowed logs should (some no_array) out h = absurd cc
  execute_files-IsAllowed logs should (some (array [])) out h = absurd cc
  execute_files-IsAllowed logs should (some (array (item ∷ items))) out h =
      let passed =
        process_valid_passed should (item ∷ items) (validate_all_files (item ∷ items) logs) out h in
      (item, items, refl, validate_from-none logs 0 (item ∷ items) passed)

  -- The tool gives contents. Then artifacts were given to it, it was asked for at least one file, and
  -- every file that it was asked for is one of the artifacts, with a range that passes the checks.
  pub execute-IsAllowed :
      (params : Params) (artifacts : Option (List LogEntry)) (out : Output)
      → execute disk render sanitizer now params artifacts ≡ replied out
      → (logs : List LogEntry) × (artifacts ≡ some logs)
        × (item : Item) × (items : List Item) × (params.files ≡ some (array (item ∷ items)))
        × All (IsAllowed logs) (item ∷ items)
  unfolding execute
  execute-IsAllowed params none out h = absurd cc
  execute-IsAllowed params (some logs) out h =
      let asked =
        execute_files-IsAllowed logs (extract_bool params.sanitize true) params.files out h in
      (logs, refl, asked.0, asked.1, asked.2, asked.3)
