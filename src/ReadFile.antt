-- ===== src/ReadFile.antt =====
-- internal/llm/tools/read_file.go: the tool that reads files of the artifacts, with the parameters
-- that it reads. The files of the disk are a function of their paths.
pub mod Request
pub mod Lines
pub mod Safety
use osde2e.Prelude.{
  ℕ, zero, suc, String, Bool, true, false, not, ◌&&◌, ◌||◌, Option, none, some, List, [], ◌∷◌, ◌++◌,
  concat, map, length, itoa, itoa_ℤ, str_eq, any_if, if◌then◌else◌, ltb, ◌==◌,
}
use osde2e.Prelude.Int.{ℤ, pos, negsuc, ltb_ℤ}
use osde2e.Prelude.Maps.{lookup, assign}
use osde2e.Prelude.Slices.{take, drop}
use osde2e.Go.{Error, errorf, wrapf}
use osde2e.Go.Calls.{Reply, replied, refused}
use osde2e.Krkn.Results.{LogEntry}
use osde2e.ReadFile.Request.{
  Fields, type_name, string_of, extract_string, int_of, extract_int_ptr, extract_bool,
  is_valid_log_file, below_one, out_of_order, or_else, check_range, check_path, check_item,
  validate_from, validate_all_files, Field, Item, Files, Params, text, int, int64, float64, flag,
  other, object, no_object, array, no_array,
}
use osde2e.Sanitizer.{Sanitizer, Result, Regex, new, sanitize_batch, sanitize_text}

abbrev pub or_none : Reply Sanitizer → Option Sanitizer
or_none (replied s) = some s
or_none (refused e) = none

-- Without a sanitizer the tool works all the same.
abbrev pub new_read_file_tool : (String → Reply Regex) → (String → Reply String) → Option Sanitizer
new_read_file_tool compile audit = or_none (new compile audit none)

-- The lines of a file, and the error at which the scanner stopped after them.
pub record File : Type 0 where
  pub lines : List String
  pub scan_error : Option Error

-- A line with its number.
abbrev pub Line : Type 0
Line = ℕ × String

abbrev pub is_before : ℕ → ℤ → Bool
is_before n start = ltb_ℤ (pos n) start

abbrev pub is_after : ℕ → Option ℤ → Bool
is_after n none = false
is_after n (some stop) = ltb_ℤ stop (pos n)

abbrev pub at_end : Option Error → Reply (List Line)
at_end none = replied []
at_end (some e) = refused e

abbrev pub add_line : Line → Reply (List Line) → Reply (List Line)
add_line l (refused e) = refused e
add_line l (replied ls) = replied (l ∷ ls)

-- The lines from a number on.
unfoldable pub scan_lines : ℤ → Option ℤ → Option Error → ℕ → List String → Reply (List Line)
scan_lines start stop e n [] = at_end e
scan_lines start stop e n (l ∷ ls) =
    let rest = scan_lines start stop e (suc n) ls in
    if is_before n start then rest else if is_after n stop then replied [] else add_line (n, l) rest

abbrev pub start_line : Option ℤ → ℤ
start_line none = pos 1
start_line (some n) = n

abbrev pub lines_of : Option ℤ → Option ℤ → Reply File → Reply (List Line)
lines_of start stop (refused e) = refused e
lines_of start stop (replied file) = scan_lines (start_line start) stop file.scan_error 1 file.lines

abbrev pub read_lines_in_range :
    (String → Reply File) → String → Option ℤ → Option ℤ → Reply (List Line)
read_lines_in_range disk path start stop = lines_of start stop (disk path)

abbrev pub format_line : ℕ → String → String
format_line n line = concat (itoa n ∷ "\t" ∷ line ∷ [])

abbrev pub format_lines_without_sanitization : List Line → List String
format_lines_without_sanitization ls = map (λ l. format_line l.0 l.1) ls

abbrev pub batch_size : ℕ
batch_size = 1000

abbrev pub source_of : String → Line → String
source_of path l = concat (path ∷ ":line_" ∷ itoa l.0 ∷ [])

abbrev pub format_results : List Line → List Result → List String
format_results (l ∷ ls) (r ∷ rs) = format_line l.0 r.content ∷ format_results ls rs
format_results ls rs = []

-- `render` gives the text of an error.
module _ (render : Error → String) (sanitizer : Sanitizer) (now : ℕ) where
  abbrev pub single_content : String → Reply Result → String
  single_content line (refused e) = concat (line ∷ " [SANITIZATION-ERROR: " ∷ render e ∷ "]" ∷ [])
  single_content line (replied r) = r.content

  abbrev pub sanitize_single_line : String → String → String
  sanitize_single_line line source = single_content line (sanitize_text sanitizer now line source)

  abbrev pub format_single : String → Line → String
  format_single path l = format_line l.0 (sanitize_single_line l.1 (source_of path l))

  -- A batch that fails is sanitized line by line.
  abbrev pub format_batch : String → List Line → Reply (List Result) → List String
  format_batch path ls (replied rs) = format_results ls rs
  format_batch path ls (refused e) = map (format_single path) ls

  abbrev pub sanitize_lines : String → List Line → List String
  sanitize_lines path ls =
      format_batch path ls
        (sanitize_batch sanitizer now (map (λ l. l.1) ls) (map (source_of path) ls))

  -- A round for each batch.
  unfoldable pub sanitize_batches : ℕ → String → List Line → List String
  sanitize_batches zero path ls = []
  sanitize_batches (suc fuel) path [] = []
  sanitize_batches (suc fuel) path (l ∷ ls) =
      sanitize_lines path (take batch_size (l ∷ ls))
      ++ sanitize_batches fuel path (drop batch_size (l ∷ ls))

  -- As many rounds as there are lines.
  abbrev pub sanitize_and_format_lines : String → List Line → List String
  sanitize_and_format_lines path ls = sanitize_batches (length ls) path ls

abbrev pub process_lines :
    (Error → String) → Option Sanitizer → ℕ → List Line → String → Bool → List String
process_lines render none now ls path should = format_lines_without_sanitization ls
process_lines render (some sanitizer) now ls path should =
    if should
    then sanitize_and_format_lines render sanitizer now path ls
    else format_lines_without_sanitization ls

abbrev pub join_more : List String → String
join_more [] = ""
join_more (l ∷ ls) = concat ("\n" ∷ l ∷ join_more ls ∷ [])

abbrev pub join_lines : List String → String
join_lines [] = ""
join_lines (l ∷ ls) = concat (l ∷ join_more ls ∷ [])

abbrev pub format_stop_line : Option ℤ → String
format_stop_line none = "end"
format_stop_line (some stop) = itoa_ℤ stop

abbrev pub no_lines : Option ℤ → Option ℤ → String
no_lines none stop = "File is empty"
no_lines (some start) stop =
    concat ("No lines found in range " ∷ itoa_ℤ start ∷ "-" ∷ format_stop_line stop ∷ [])

pub data Output : Type 0 where
  content_of : String → Output
  by_path : List (String × String) → Output

-- The error of a path is not read again.
abbrev pub path_of : Reply String → String
path_of (replied path) = path
path_of (refused e) = ""

abbrev pub as_content : Reply String → Reply Output
as_content (replied s) = replied (content_of s)
as_content (refused e) = refused e

-- After the validation every item is an object.
abbrev pub fields_of : Item → Fields
fields_of (object fields) = fields
fields_of no_object = []

module _ (disk : String → Reply File) (render : Error → String) (sanitizer : Option Sanitizer)
    (now : ℕ) where
  abbrev pub text_of : Bool → String → Option ℤ → Option ℤ → Reply (List Line) → Reply String
  text_of should path start stop (refused e) = refused e
  text_of should path start stop (replied []) = replied (no_lines start stop)
  text_of should path start stop (replied (l ∷ ls)) =
      replied (join_lines (process_lines render sanitizer now (l ∷ ls) path should))

  unfoldable pub read_file_with_line_range : Bool → String → Option ℤ → Option ℤ → Reply String
  read_file_with_line_range should path start stop =
      text_of should path start stop (read_lines_in_range disk path start stop)

  abbrev pub or_failed : String → Reply String → Reply String
  or_failed path (replied s) = replied s
  or_failed path (refused e) = refused (wrapf "failed to read file %s: %w" (path ∷ []) e)

  abbrev pub process_single_file : Bool → Fields → Reply String
  process_single_file should fields =
      let path = path_of (extract_string fields "path") in
      or_failed path (
        read_file_with_line_range should path (extract_int_ptr fields "start")
          (extract_int_ptr fields "stop"))

  abbrev pub content_or_error : Reply String → String
  content_or_error (replied s) = s
  content_or_error (refused e) = concat ("error: " ∷ render e ∷ [])

  unfoldable pub process_each : Bool → List Fields → List (String × String) → List (String × String)
  process_each should [] results = results
  process_each should (fields ∷ rest) results = process_each should rest (
      assign (path_of (extract_string fields "path"))
        (content_or_error (process_single_file should fields)) results)

  abbrev pub process_files : Bool → List Fields → Reply Output
  process_files should (fields ∷ []) = as_content (process_single_file should fields)
  process_files should files = replied (by_path (process_each should files []))

  abbrev pub process_valid : Bool → List Item → Option Error → Reply Output
  process_valid should items (some e) = refused e
  process_valid should items none = process_files should (map fields_of items)

  abbrev pub execute_array : List LogEntry → Bool → List Item → Reply Output
  execute_array logs should [] = refused (errorf "'files' array must not be empty" [])
  execute_array logs should (item ∷ items) =
      process_valid should (item ∷ items) (validate_all_files (item ∷ items) logs)

  abbrev pub execute_files : List LogEntry → Bool → Option Files → Reply Output
  execute_files logs should none = refused (errorf "'files' parameter is required" [])
  execute_files logs should (some no_array) =
      refused (errorf "'files' parameter must be an array" [])
  execute_files logs should (some (array items)) = execute_array logs should items

  -- The artifacts may be nil.
  unfoldable pub execute : Params → Option (List LogEntry) → Reply Output
  execute params none = refused (errorf "no log artifacts provided to tool" [])
  execute params (some logs) = execute_files logs (extract_bool params.sanitize true) params.files
