-- ===== src/Filter/Comments.antt =====
-- filter/core/filter.py: the filter of comments and the one of function bodies. `str.lower` is written
-- out for ASCII letters, which decides the same names of formats.
use rtc_retrieval_token_cutt.Base.{
  ℕ, suc, ◌+◌, ◌*◌, Bool, true, false, not, ◌&&◌, ◌||◌, ◌==◌, leb, Option, none, some, List, [],
  ◌∷◌, ◌++◌, Text, codes, map, strip, lstrip_space, text_eq, starts_with, ends_with, rstrip,
  is_empty, length, if◌then◌else◌,
}
use rtc_retrieval_token_cutt.Filter.Lines.{last, splitlines, lines_from, join_lines}

pub record FilterResult : Type 0 where
  pub text : Text
  pub original_lines : ℕ
  pub filtered_lines : ℕ
  pub removed_tokens_estimate : ℕ

abbrev safe_formats : List Text
safe_formats =
    codes "json"
    ∷ codes "yaml"
    ∷ codes "yml"
    ∷ codes "toml"
    ∷ codes "xml"
    ∷ codes "html"
    ∷ codes "csv"
    ∷ []

abbrev lower : Text → Text
lower s = map (λ c. if leb 65 c && leb c 90 then c + 32 else c) s

abbrev is_member : Text → List Text → Bool
is_member t [] = false
is_member t (s ∷ ss) = text_eq t s || is_member t ss

-- `language and language.lower() in SAFE_FORMATS`
abbrev pub is_safe_format : Option Text → Bool
is_safe_format none = false
is_safe_format (some language) = is_member (lower language) safe_formats

-- `_trailing_ws.sub("", line)`, for a line without a line end
unfoldable pub strip_trailing : Text → Text
strip_trailing [] = []
strip_trailing (c ∷ s) =
    let rest = strip_trailing s in if is_empty rest && (c == 32 || c == 9) then [] else c ∷ rest

-- `stripped.startswith(("//", "#", "--"))`
abbrev pub starts_comment : Text → Bool
starts_comment s =
    starts_with s (codes "//") || starts_with s (codes "#") || starts_with s (codes "--")

-- What the loop of MinimalFilter keeps from line to line.
pub record Filtering : Type 0 where
  pub out : List Text
  pub removed : ℕ
  pub in_block : Bool

abbrev pub nothing_filtered : Filtering
nothing_filtered = record { out = []; removed = 0; in_block = false }

abbrev ends_blank : List Text → Bool
ends_blank out = elim (last out) [ none ↦ false | some l ↦ is_empty (strip l) ]

-- A line that is no comment: several blank lines become one.
abbrev pub keep_line : Text → Filtering → Filtering
keep_line normalized f =
    if is_empty (strip normalized)
    then (if ends_blank f.out then f else record f { out = f.out ++ [] ∷ [] })
    else record f { out = f.out ++ normalized ∷ [] }

unfoldable pub filter_line : Text → Filtering → Filtering
unfolding lstrip_space starts_with strip_trailing strip
filter_line raw_line f =
    let stripped = lstrip_space raw_line in
    if starts_with stripped (codes "/*")
    then record f { in_block = true }
    else if starts_with stripped (codes "*/")
    then record f { in_block = false }
    else if f.in_block
    then f
    else if starts_comment stripped
    then record f { removed = f.removed + 1 }
    else keep_line (strip_trailing raw_line) f

unfoldable pub filter_lines : List Text → Filtering → Filtering
unfolding filter_line
filter_lines [] f = f
filter_lines (l ∷ ls) f = filter_lines ls (filter_line l f)

abbrev count_char : ℕ → Text → ℕ
count_char c [] = 0
count_char c (d ∷ s) = let rest = count_char c s in if d == c then suc rest else rest

-- s.lstrip(c), for one character
abbrev lstrip_char : ℕ → Text → Text
lstrip_char c [] = []
lstrip_char c (d ∷ s) = let rest = lstrip_char c s in if d == c then rest else d ∷ s

abbrev unfiltered : Text → FilterResult
unfiltered text = record {
  text = text;
  original_lines = length (splitlines text);
  filtered_lines = length (splitlines text);
  removed_tokens_estimate = 0;
}

abbrev lines_of_text : Text → ℕ
lines_of_text text =
    count_char 10 text + (if not (is_empty text) && not (ends_with text (codes "\n")) then 1 else 0)

-- `MinimalFilter.filter`
unfoldable pub minimal_filter : Text → (language : Option Text) → FilterResult
unfolding filter_lines join_lines lines_from text_eq ends_with rstrip
minimal_filter text language =
    let f = filter_lines (splitlines text) nothing_filtered in
    if is_safe_format language then unfiltered text else record {
      text = lstrip_char 10 (rstrip 10 (join_lines f.out));
      original_lines = lines_of_text text;
      filtered_lines = length f.out;
      removed_tokens_estimate = f.removed * 2;
    }

abbrev declarations : List Text
declarations =
    map (λ s. codes s ++ codes " ")
      ("def" ∷ "fn" ∷ "func" ∷ "function" ∷ "class" ∷ "struct" ∷ "enum" ∷ "impl" ∷ "pub" ∷ "import"
        ∷ "use" ∷ "from" ∷ "const" ∷ "static" ∷ "async" ∷ "async fn" ∷ "interface" ∷ "module" ∷ [])
    ++ codes "->" ∷ []

abbrev starts_with_any : Text → List Text → Bool
starts_with_any s [] = false
starts_with_any s (p ∷ ps) = starts_with s p || starts_with_any s ps

-- `_func_sig.match`
abbrev pub is_declaration : Text → Bool
is_declaration s = starts_with_any s declarations

-- The test that skips a line; `and` binds tighter than `or`.
abbrev pub is_body : Text → Bool
is_body line =
    (not (is_empty (lstrip_space line))
      && not (starts_with (lstrip_space line) (codes "#"))
      && starts_with line (codes " "))
    || starts_with line (codes "\t")

-- The loop of AggressiveFilter: the lines that are kept, and how many are skipped.
unfoldable pub keep_declarations : List Text → List Text × ℕ
unfolding lstrip_space starts_with
keep_declarations [] = ([], 0)
keep_declarations (l ∷ ls) =
    let (kept, skipped) = keep_declarations ls in
    if is_declaration (lstrip_space l)
    then (l ∷ kept, skipped)
    else if is_body l
    then (kept, suc skipped)
    else (l ∷ kept, skipped)

-- `AggressiveFilter.filter`
unfoldable pub aggressive_filter : Text → (language : Option Text) → FilterResult
unfolding minimal_filter keep_declarations join_lines lines_from
aggressive_filter text language =
    let base = minimal_filter text language in
    let (kept, skipped) = keep_declarations (splitlines base.text) in
    record {
      text = join_lines kept;
      original_lines = base.original_lines;
      filtered_lines = length kept;
      removed_tokens_estimate = base.removed_tokens_estimate + skipped;
    }
