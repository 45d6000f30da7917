-- ===== src/Filter/Truncation.antt =====
-- filter/core/truncation.py. The regular expressions of the critical lines and the format of the
-- marker are parameters.
use rtc_retrieval_token_cutt.Base.{
  ℕ, ◌-◌, ◌/◌, Bool, not, ◌&&◌, Option, none, List, [], ◌∷◌, ◌++◌, Text, strip, is_empty, leb, ltb,
  length, take, drop, if◌then◌else◌,
}
use rtc_retrieval_token_cutt.Outbox.Event.{get_or}
use rtc_retrieval_token_cutt.Filter.Lines.{
  ℤ, pos, ◌-ℤ◌, neg, min_ℤ, minus_ℕ, is_positive, slice_to, slice_from, splitlines, lines_from,
  join_lines,
}

pub record TruncationResult : Type 0 where
  pub text : Text
  pub original_lines : ℕ
  pub kept_lines : ℕ
  pub truncated_count : ℤ
  pub marker : Text

abbrev pub untruncated : Text → (total : ℕ) → TruncationResult
untruncated text total = record {
  text = text;
  original_lines = total;
  kept_lines = total;
  truncated_count = pos 0;
  marker = [];
}

abbrev pub truncated : (total : ℕ) → List Text → (omitted : ℤ) → Text → TruncationResult
truncated total result_lines omitted marker_line = record {
  text = join_lines result_lines;
  original_lines = total;
  kept_lines = length result_lines;
  truncated_count = omitted;
  marker = marker_line;
}

-- `marker.format(omitted, total)`
abbrev pub Format : Type 0
Format = ℤ → ℕ → Text

-- The lines that are kept, for the counts that the two `min` calls give.
abbrev pub kept_of : Format → List Text → (head_lines tail_lines : ℤ) → TruncationResult
kept_of format lines head_lines tail_lines =
    let total = length lines in
    let head = slice_to head_lines lines in
    let tail = slice_from (neg tail_lines) lines in
    let omitted = pos total -ℤ head_lines -ℤ tail_lines in
    let marker_line = format omitted total in
    truncated total (if is_positive omitted then head ++ marker_line ∷ tail else head ++ tail)
      omitted marker_line

-- The part of `smart_truncate` behind its early return.
unfoldable pub cut_lines :
    Format
    → List Text
    → (max_lines : ℕ) → (head_lines : Option ℕ) → (tail_lines : ℕ) → TruncationResult
unfolding join_lines
cut_lines format lines max_lines head_lines tail_lines =
    let head = min_ℤ (pos (get_or head_lines (max_lines / 2))) (minus_ℕ max_lines tail_lines) in
    kept_of format lines head (min_ℤ (pos tail_lines) (pos max_lines -ℤ head))

unfoldable pub smart_truncate :
    Format → Text → (max_lines : ℕ) → (head_lines : Option ℕ) → (tail_lines : ℕ) → TruncationResult
unfolding cut_lines lines_from
smart_truncate format text max_lines head_lines tail_lines =
    let lines = splitlines text in
    if leb (length lines) max_lines
    then untruncated text (length lines)
    else cut_lines format lines max_lines head_lines tail_lines

module _ (matches_pattern : Text → Bool) where
  -- `_is_critical_line`: `matches_pattern` says whether one of `_CRITICAL_PATTERNS` matches.
  unfoldable pub is_critical_line : Text → Bool
  is_critical_line line =
      let stripped = strip line in not (is_empty stripped) && matches_pattern stripped

  -- The loop over the lines between head and tail.
  unfoldable pub collect_critical :
      (critical_budget : ℕ) → (critical_lines lines : List Text) → List Text
  unfolding is_critical_line
  collect_critical critical_budget critical_lines [] = critical_lines
  collect_critical critical_budget critical_lines (l ∷ ls) =
      collect_critical critical_budget
        (if is_critical_line l && ltb (length critical_lines) critical_budget
          then critical_lines ++ l ∷ []
          else critical_lines)
        ls

  -- The part of `smart_truncate_with_priority` behind its early returns. A budget of -1 takes no line,
  -- as a budget of 0 does.
  unfoldable pub cut_with_priority : Format → List Text → (max_lines : ℕ) → TruncationResult
  unfolding collect_critical join_lines
  cut_with_priority format lines max_lines =
      let total = length lines in
      let head_count = max_lines / 3 in
      let tail_count = max_lines / 3 in
      let critical_budget = max_lines - head_count - tail_count - 1 in
      let middle = take (total - tail_count - head_count) (drop head_count lines) in
      let critical_lines = collect_critical critical_budget [] middle in
      let omitted = pos total -ℤ pos head_count -ℤ pos (length critical_lines) -ℤ pos tail_count in
      let marker_line = format omitted total in
      truncated total
        (take head_count lines
          ++ critical_lines
          ++ marker_line ∷ slice_from (neg (pos tail_count)) lines)
        omitted marker_line

  unfoldable pub smart_truncate_with_priority :
      Format → Text → (max_lines : ℕ) → (preserve_critical : Bool) → TruncationResult
  unfolding smart_truncate cut_with_priority lines_from
  smart_truncate_with_priority format text max_lines preserve_critical =
      let lines = splitlines text in
      if leb (length lines) max_lines
      then untruncated text (length lines)
      else if not preserve_critical
      then smart_truncate format text max_lines none 10
      else cut_with_priority format lines max_lines
