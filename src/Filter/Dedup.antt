-- ===== src/Filter/Dedup.antt =====
-- filter/core/dedup.py. The regular expressions of errors and warnings, and the substitutions that
-- normalise such a line, are parameters.
use rtc_retrieval_token_cutt.Base.{
  ℕ, zero, suc, ◌+◌, ◌-◌, Bool, false, not, ◌&&◌, none, some, List, [], ◌∷◌, ◌++◌, Text, codes,
  strip, text_eq, is_empty, ltb, length, take, drop, replicate, if◌then◌else◌,
}
use rtc_retrieval_token_cutt.Json.{is_some}
use rtc_retrieval_token_cutt.Outbox.Event.{get_or}
use rtc_retrieval_token_cutt.VectorIndex.Dict.{get, put}
use rtc_retrieval_token_cutt.Filter.Lines.{
  last, splitlines, lines_from, join_lines, decimal, digits,
}

-- How many of the next lines are the same, but for the white space around them.
unfoldable pub run_length : (stripped : Text) → List Text → ℕ
unfolding text_eq strip
run_length stripped [] = 0
run_length stripped (l ∷ ls) =
    let rest = run_length stripped ls in if text_eq (strip l) stripped then suc rest else 0

abbrev pub repeat_note : (count : ℕ) → Text
repeat_note count =
    codes "// ... line repeated "
    ++ decimal (count - 1)
    ++ codes " times (total: "
    ++ decimal count
    ++ codes ")"

-- `result and result[-1].strip() != ""`
abbrev pub ends_in_text : List Text → Bool
ends_in_text result = elim (last result) [ none ↦ false | some l ↦ not (is_empty (strip l)) ]

-- What a run of `count` lines becomes; the first of them stands for all.
unfoldable pub run_lines : (max_adjacent : ℕ) → (line stripped : Text) → (count : ℕ) → List Text
unfolding text_eq digits
run_lines max_adjacent line stripped count =
    if ltb max_adjacent count
    then stripped ∷ repeat_note count ∷ []
    else replicate count (if text_eq stripped line then stripped else line)

-- One round of the loop of `deduplicate`: the result behind it, and the lines that are left.
unfoldable pub dedup_step :
    (max_adjacent : ℕ) → (result : List Text) → Text → List Text → List Text × List Text
unfolding run_length run_lines strip
dedup_step max_adjacent result line rest =
    let stripped = strip line in
    let run = run_length stripped rest in
    if is_empty stripped
    then ((if ends_in_text result then result ++ [] ∷ [] else result), rest)
    else (result ++ run_lines max_adjacent line stripped (run + 1), drop run rest)

unfoldable pub dedup_lines : (fuel max_adjacent : ℕ) → (result lines : List Text) → List Text
unfolding dedup_step
dedup_lines zero max_adjacent result lines = result
dedup_lines (suc fuel) max_adjacent result [] = result
dedup_lines (suc fuel) max_adjacent result (l ∷ ls) =
    let (result', rest) = dedup_step max_adjacent result l ls in
    dedup_lines fuel max_adjacent result' rest

abbrev joined_or : Text → List Text → List Text → Text
joined_or text [] result = text
joined_or text (_ ∷ _) result = join_lines result

unfoldable pub deduplicate : Text → (max_adjacent : ℕ) → Text
unfolding dedup_lines join_lines lines_from
deduplicate text max_adjacent =
    let lines = splitlines text in
    joined_or text lines (dedup_lines (length lines) max_adjacent [] lines)

pub data Grouping : Type 0 where
  no_group error_group warning_group : Grouping

pub record DedupResult : Type 0 where
  pub text : Text
  pub original_lines : ℕ
  pub deduplicated_lines : ℕ
  pub collapsed_repeats : ℕ
  pub grouping_type : Grouping

-- The patterns, and what the two `_normalize_…` functions do.
pub record Patterns : Type 0 where
  pub is_error_line : Text → Bool
  pub is_warning_line : Text → Bool
  pub normalize_error : Text → Text
  pub normalize_warning : Text → Text

pub record Groups : Type 0 where
  pub result : List Text
  pub collapsed : ℕ
  pub error_groups : List (Text × List ℕ)
  pub warning_groups : List (Text × List ℕ)

-- Whether a line belongs to a group that is known, and the groups with the line.
abbrev pub add_to_group :
    (base : Text) → (i : ℕ) → List (Text × List ℕ) → Bool × List (Text × List ℕ)
add_to_group base i groups =
    (is_some (get base groups), put base (get_or (get base groups) [] ++ i ∷ []) groups)

module _ (patterns : Patterns) (group_errors group_warnings : Bool) (max_adjacent : ℕ) where
  -- The end of a round: the run that begins with the line.
  unfoldable pub add_run : Text → (rest : List Text) → Groups → Groups
  unfolding run_length strip digits
  add_run line rest g =
      let stripped = strip line in
      let run = run_length stripped rest in
      if ltb max_adjacent (run + 1)
      then record g {
        result = g.result ++ stripped ∷ repeat_note (run + 1) ∷ [];
        collapsed = g.collapsed + run;
      }
      else record g { result = g.result ++ line ∷ take run rest }

  -- `continue` where the group is known
  abbrev collapse_or : Bool → Groups → Groups → Groups
  collapse_or known g next = if known then record g { collapsed = g.collapsed + 1 } else next

  unfoldable pub add_warning : (i : ℕ) → Text → (rest : List Text) → Groups → Groups
  unfolding add_run strip text_eq
  add_warning i line rest g =
      let (known, groups) =
        add_to_group (patterns.normalize_warning (strip line)) i g.warning_groups in
      let g' : Groups = record g { warning_groups = groups } in
      if group_warnings && patterns.is_warning_line line
      then collapse_or known g' (add_run line rest g')
      else add_run line rest g

  unfoldable pub add_line : (i : ℕ) → Text → (rest : List Text) → Groups → Groups
  unfolding add_warning strip text_eq
  add_line i line rest g =
      let (known, groups) = add_to_group (patterns.normalize_error (strip line)) i g.error_groups in
      let g' : Groups = record g { error_groups = groups } in
      if is_empty (strip line)
      then record g { result = g.result ++ line ∷ [] }
      else if group_errors && patterns.is_error_line line
      then collapse_or known g' (add_warning i line rest g')
      else add_warning i line rest g

  unfoldable pub group_lines : (i : ℕ) → List Text → Groups → Groups
  unfolding add_line
  group_lines i [] g = g
  group_lines i (l ∷ ls) g = group_lines (i + 1) ls (add_line i l ls g)

  abbrev grouping_of : Groups → Grouping
  grouping_of g =
      if not (is_empty g.error_groups)
      then error_group
      else if not (is_empty g.warning_groups)
      then warning_group
      else no_group

  abbrev pub no_lines : Groups
  no_lines = record { result = []; collapsed = 0; error_groups = []; warning_groups = [] }

  abbrev pub grouped : Text → List Text → DedupResult
  grouped text lines =
      let g = group_lines 0 lines no_lines in
      record {
        text = join_lines g.result;
        original_lines = length lines;
        deduplicated_lines = length g.result;
        collapsed_repeats = g.collapsed;
        grouping_type = grouping_of g;
      }

  unfoldable pub deduplicate_with_grouping : Text → DedupResult
  unfolding group_lines join_lines lines_from
  deduplicate_with_grouping text =
      let lines = splitlines text in
      if is_empty lines
      then record {
        text = text;
        original_lines = 0;
        deduplicated_lines = 0;
        collapsed_repeats = 0;
        grouping_type = no_group;
      }
      else grouped text lines
