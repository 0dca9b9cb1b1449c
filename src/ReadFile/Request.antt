-- ===== src/ReadFile/Request.antt =====
-- internal/llm/tools/read_file.go: the parameters of the file tool, and the validation of the files
-- that it is asked for.
use osde2e.Prelude.{
  ℕ, suc, String, Bool, Option, none, some, List, [], ◌∷◌, itoa, itoa_ℤ, str_eq, any_if,
  if◌then◌else◌,
}
use osde2e.Prelude.Int.{ℤ, pos, ltb_ℤ}
use osde2e.Prelude.Maps.{lookup}
use osde2e.Go.{Error, errorf, wrapf}
use osde2e.Go.Calls.{Reply, replied, refused}
use osde2e.Krkn.Results.{LogEntry}

-- The value of a parameter. Of a float the code uses the whole part; the last is a value of another
-- type, by the name of the type.
pub data Field : Type 0 where
  text : String → Field
  int : ℤ → Field
  int64 : ℤ → Field
  float64 : ℤ → Field
  flag : Bool → Field
  other : String → Field

abbrev pub Fields : Type 0
Fields = List (String × Field)

pub data Item : Type 0 where
  object : Fields → Item
  no_object : Item

pub data Files : Type 0 where
  array : List Item → Files
  no_array : Files

-- The two parameters that the tool reads.
pub record Params : Type 0 where
  pub files : Option Files
  pub sanitize : Option Field

abbrev pub type_name : Field → String
type_name (text s) = "string"
type_name (int n) = "int"
type_name (int64 n) = "int64"
type_name (float64 n) = "float64"
type_name (flag b) = "bool"
type_name (other name) = name

abbrev pub string_of : String → Option Field → Reply String
string_of key none = refused (errorf "parameter '%s' is required" (key ∷ []))
string_of key (some (text s)) = replied s
string_of key (some v) =
    refused (errorf "parameter '%s' must be a string, got %T" (key ∷ type_name v ∷ []))

abbrev pub extract_string : Fields → String → Reply String
extract_string fields key = string_of key (lookup key fields)

abbrev pub int_of : Option Field → Option ℤ
int_of (some (int n)) = some n
int_of (some (int64 n)) = some n
int_of (some (float64 n)) = some n
int_of _ = none

abbrev pub extract_int_ptr : Fields → String → Option ℤ
extract_int_ptr fields key = int_of (lookup key fields)

abbrev pub extract_bool : Option Field → Bool → Bool
extract_bool (some (flag b)) default = b
extract_bool _ default = default

abbrev pub is_valid_log_file : String → List LogEntry → Bool
is_valid_log_file path logs = any_if (λ log. str_eq log.source path) logs

abbrev pub below_one : ℕ → String → Option ℤ → Option Error
below_one i format none = none
below_one i format (some n) =
    if ltb_ℤ n (pos 1) then some (errorf format (itoa i ∷ itoa_ℤ n ∷ [])) else none

abbrev pub out_of_order : ℕ → Option ℤ → Option ℤ → Option Error
out_of_order i (some start) (some stop) =
    if ltb_ℤ stop start
    then some (
        errorf "files[%d]: start line (%d) cannot be greater than stop line (%d)"
          (itoa i ∷ itoa_ℤ start ∷ itoa_ℤ stop ∷ []))
    else none
out_of_order i _ _ = none

abbrev pub or_else : Option Error → Option Error → Option Error
or_else (some e) later = some e
or_else none later = later

abbrev pub check_range : ℕ → Option ℤ → Option ℤ → Option Error
check_range i start stop =
    or_else (below_one i "files[%d]: start line must be >= 1, got %d" start) (
      or_else (below_one i "files[%d]: stop line must be >= 1, got %d" stop)
        (out_of_order i start stop))

abbrev pub check_path : List LogEntry → ℕ → Fields → Reply String → Option Error
check_path logs i fields (refused e) = some (wrapf "files[%d]: %w" (itoa i ∷ []) e)
check_path logs i fields (replied path) =
    if is_valid_log_file path logs
    then check_range i (extract_int_ptr fields "start") (extract_int_ptr fields "stop")
    else some
        (errorf "files[%d]: file path %s is not in the collected artifacts" (itoa i ∷ path ∷ []))

abbrev pub check_item : List LogEntry → ℕ → Item → Option Error
check_item logs i no_object =
    some (errorf "files[%d]: each file specification must be an object" (itoa i ∷ []))
check_item logs i (object fields) = check_path logs i fields (extract_string fields "path")

unfoldable pub validate_from : List LogEntry → ℕ → List Item → Option Error
validate_from logs i [] = none
validate_from logs i (item ∷ items) =
    or_else (check_item logs i item) (validate_from logs (suc i) items)

abbrev pub validate_all_files : List Item → List LogEntry → Option Error
validate_all_files items logs = validate_from logs 0 items
