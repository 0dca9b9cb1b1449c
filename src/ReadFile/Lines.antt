-- ===== src/ReadFile/Lines.antt =====
-- Which lines of a file are read, and what sanitizing them in batches gives.
use osde2e.Prelude.{
  ℕ, zero, suc, ◌≤◌, ◌≡◌, refl, sym, ap, ◌∙◌, subst, inl, inr, String, Bool, true, false, not, ◌&&◌,
  Option, none, some, List, [], ◌∷◌, ◌++◌, map, length, length-map, keep_if, any_if, arith,
  if◌then◌else◌, ◌==◌, Bool-cases,
}
use osde2e.Prelude.Int.{ℤ}
use osde2e.Prelude.Slices.{take, drop, take-drop, length-drop, map-append}
use osde2e.Go.{Error}
use osde2e.Go.Calls.{Reply, replied, refused, reply_cases}
use osde2e.Sanitizer.{Sanitizer, Result, sanitize_content, sanitize_from, add_result}
use osde2e.ReadFile.{
  File, Line, is_before, is_after, add_line, scan_lines, start_line, lines_of, read_lines_in_range,
  batch_size, source_of, format_single, format_batch, sanitize_lines, sanitize_batches,
  sanitize_and_format_lines,
}

abbrev pub numbered : ℕ → List String → List Line
numbered n [] = []
numbered n (l ∷ ls) = (n, l) ∷ numbered (suc n) ls

abbrev pub in_range : ℤ → Option ℤ → Line → Bool
in_range start stop l = not (is_before l.0 start) && not (is_after l.0 stop)

abbrev pub is_beyond : ℤ → Option ℤ → Line → Bool
is_beyond start stop l = not (is_before l.0 start) && is_after l.0 stop

-- What is read, and the error of the scanner, which is only met when no line lies beyond the range.
abbrev pub selected : ℤ → Option ℤ → Option Error → List Line → Reply (List Line)
selected start stop none ls = replied (keep_if (in_range start stop) ls)
selected start stop (some e) ls =
    if any_if (is_beyond start stop) ls
    then replied (keep_if (in_range start stop) ls)
    else refused e

after_suc : (n : ℕ) (stop : Option ℤ) → is_after n stop ≡ true → is_after (suc n) stop ≡ true
after_suc n none h = absurd cc
after_suc n (some stop) h = ground arith

all_after :
    (start : ℤ) (stop : Option ℤ) (n : ℕ) (ls : List String)
    → is_after n stop ≡ true
    → keep_if (in_range start stop) (numbered n ls) ≡ []
all_after start stop n [] h = refl
all_after start stop n (l ∷ ls) h =
    ground (arith, h, all_after start stop (suc n) ls (after_suc n stop h))

module _ (start : ℤ) (stop : Option ℤ) where
  selected_skip :
      (e : Option Error) (l : Line) (ls : List Line)
      → is_before l.0 start ≡ true
      → selected start stop e (l ∷ ls) ≡ selected start stop e ls
  selected_skip none l ls h = rw h refl
  selected_skip (some e) l ls h = rw h refl

  selected_stop :
      (e : Option Error) (l : Line) (ls : List Line)
      → is_before l.0 start ≡ false
      → is_after l.0 stop ≡ true
      → keep_if (in_range start stop) ls ≡ []
      → selected start stop e (l ∷ ls) ≡ replied []
  selected_stop none l ls h k none_left = rw (h, k, none_left) refl
  selected_stop (some e) l ls h k none_left = rw (h, k, none_left) refl

  selected_keep :
      (e : Option Error) (l : Line) (ls : List Line)
      → is_before l.0 start ≡ false
      → is_after l.0 stop ≡ false
      → selected start stop e (l ∷ ls) ≡ add_line l (selected start stop e ls)
  selected_keep none l ls h k = rw (h, k) refl
  selected_keep (some e) l ls h k = elim (Bool-cases (any_if (is_beyond start stop) ls)) [
    | inl t ↦ rw (h, k, t) refl
    | inr t ↦ rw (h, k, t) refl
  ]

  scan_lines_lem :
      (e : Option Error) (n : ℕ) (ls : List String)
      → scan_lines start stop e n ls ≡ selected start stop e (numbered n ls)
  unfolding scan_lines
  scan_lines_lem none n [] = refl
  scan_lines_lem (some e) n [] = refl
  scan_lines_lem e n (l ∷ ls) =
      let later = numbered (suc n) ls in
      elim (Bool-cases (is_before n start)) [
        | inl b ↦ rw b (scan_lines_lem e (suc n) ls) ∙ sym (selected_skip e (n, l) later b)
        | inr b ↦ elim (Bool-cases (is_after n stop)) [
          | inl a ↦
              rw (b, a)
                (sym (
                  selected_stop e (n, l) later b a
                    (all_after start stop (suc n) ls (after_suc n stop a))))
          | inr a ↦
              rw (b, a) (ap (add_line (n, l)) (scan_lines_lem e (suc n) ls))
              ∙ sym (selected_keep e (n, l) later b a)
        ]
      ]

-- A file whose scan ends without an error gives the lines of the range in their order, each with its
-- number from 1 on. When the scan ends with an error, that error is given, unless a line lies beyond
-- the range: it gives the lines of the range then.
pub read_lines_in_range_lem :
    (disk : String → Reply File) (path : String) (start stop : Option ℤ) (file : File)
    → disk path ≡ replied file
    → read_lines_in_range disk path start stop
      ≡ selected (start_line start) stop file.scan_error (numbered 1 file.lines)
read_lines_in_range_lem disk path start stop file h =
    ap (lines_of start stop) h ∙ scan_lines_lem (start_line start) stop file.scan_error 1 file.lines

module _ (render : Error → String) (sanitizer : Sanitizer) (now : ℕ) where
  format_first :
      (path : String) (l : Line) (ls : List Line) (i : ℕ) (rest : Reply (List Result))
      → format_batch render sanitizer now path ls rest
        ≡ map (format_single render sanitizer now path) ls
      → format_batch render sanitizer now path
          (l ∷ ls)
          (add_result i (sanitize_content sanitizer l.1 (source_of path l) now) rest)
        ≡ map (format_single render sanitizer now path) (l ∷ ls)
  format_first path l ls i rest h =
      elim (reply_cases (sanitize_content sanitizer l.1 (source_of path l) now)) [
        | inl (e, c) ↦
            subst
              (λ x.
                format_batch render sanitizer now path (l ∷ ls) (add_result i x rest)
                ≡ map (format_single render sanitizer now path) (l ∷ ls))
              (sym c) (failed e rest)
        | inr (r, c) ↦ sanitized r rest h c
      ]
    where
      failed :
          (e : Error) (rest : Reply (List Result))
          → format_batch render sanitizer now path (l ∷ ls) (add_result i (refused e) rest)
            ≡ map (format_single render sanitizer now path) (l ∷ ls)
      failed e rest = refl

      sanitized :
          (r : Result) (rest : Reply (List Result))
          → format_batch render sanitizer now path ls rest
            ≡ map (format_single render sanitizer now path) ls
          → sanitize_content sanitizer l.1 (source_of path l) now ≡ replied r
          → format_batch render sanitizer now path
              (l ∷ ls)
              (add_result i (sanitize_content sanitizer l.1 (source_of path l) now) rest)
            ≡ map (format_single render sanitizer now path) (l ∷ ls)
      sanitized r (refused x) k c =
          subst
            (λ y.
              format_batch render sanitizer now path (l ∷ ls) (add_result i y (refused x))
              ≡ map (format_single render sanitizer now path) (l ∷ ls))
            (sym c) refl
      sanitized r (replied rs) k c = rw (c, k) refl

  format_from :
      (path : String) (i : ℕ) (ls : List Line)
      → format_batch render sanitizer now path ls
          (sanitize_from sanitizer now i (map (λ l. l.1) ls) (map (source_of path) ls))
        ≡ map (format_single render sanitizer now path) ls
  unfolding sanitize_from
  format_from path i [] = refl
  format_from path i (l ∷ ls) =
      format_first path l ls i
        (sanitize_from sanitizer now (suc i) (map (λ l. l.1) ls) (map (source_of path) ls))
        (format_from path (suc i) ls)

  sanitize_lines_lem :
      (path : String) (ls : List Line)
      → sanitize_lines render sanitizer now path ls
        ≡ map (format_single render sanitizer now path) ls
  sanitize_lines_lem path ls =
      let same : (length ls == length ls) ≡ true = ground arith in
      rw (length-map (λ l. l.1) ls, length-map (source_of path) ls, same) (format_from path 0 ls)

  sanitize_batches_lem :
      (fuel : ℕ) (path : String) (ls : List Line)
      → length ls ≤ fuel
      → sanitize_batches render sanitizer now fuel path ls
        ≡ map (format_single render sanitizer now path) ls
  unfolding sanitize_batches
  sanitize_batches_lem zero path [] h = refl
  sanitize_batches_lem zero path (l ∷ ls) h = absurd (omega arith)
  sanitize_batches_lem (suc fuel) path [] h = refl
  sanitize_batches_lem (suc fuel) path (l ∷ ls) h =
      let f = format_single render sanitizer now path in
      let first = take batch_size (l ∷ ls) in
      let others = drop batch_size (l ∷ ls) in
      let fewer : length others ≤ fuel = omega (arith, length-drop batch_size (l ∷ ls)) in
      ap (λ ys. ys ++ sanitize_batches render sanitizer now fuel path others)
        (sanitize_lines_lem path first)
      ∙ ap (λ zs. map f first ++ zs) (sanitize_batches_lem fuel path others fewer)
      ∙ sym (map-append f first others)
      ∙ ap (map f) (take-drop batch_size (l ∷ ls))

  -- Sanitizing by batches of a thousand lines ends after as many batches as there are lines at most,
  -- and gives each line as sanitizing it alone does, with its number, in the same order: a batch
  -- that fails changes nothing for its other lines.
  pub sanitize_and_format_lines_lem :
      (path : String) (ls : List Line)
      → sanitize_and_format_lines render sanitizer now path ls
        ≡ map (format_single render sanitizer now path) ls
  sanitize_and_format_lines_lem path ls = sanitize_batches_lem (length ls) path ls (omega arith)
