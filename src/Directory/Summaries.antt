-- ===== src/Directory/Summaries.antt =====
-- index/directory_summarizer.py, and what index/directory_event_handler.py makes of the summaries of
-- children. The detection of a language, the template of the prompt, and the order in which a set is
-- gone through are parameters; the overview that the model answers is a text, as its schema says.
use rtc_retrieval_token_cutt.Base.{
  ℕ, Bool, true, false, Option, none, some, List, [], ◌∷◌, ◌++◌, Text, codes, text_eq, take, length,
  keep_if, split_on, ends_with, if◌then◌else◌, Result, ok, raised, type_error, ◌>>=◌,
}
use rtc_retrieval_token_cutt.Filter.Lines.{decimal}
use rtc_retrieval_token_cutt.VectorIndex.Dict.{get, put}

-- `is_directory_uri`
unfoldable pub is_directory_uri : Text → Bool
unfolding ends_with
is_directory_uri uri = ends_with uri (codes "/")

pub record DirectorySummary : Type 0 where
  pub abstract : Text
  pub overview : Text
  pub child_count : ℕ
  pub categories : List Text

pub record ChildSummary : Type 0 where
  pub uri : Text
  pub name : Text
  pub abstract : Text
  pub category : Text
  pub is_directory : Bool
  pub has_abstract : Bool

-- `sep.join(texts)`
abbrev pub join : (sep : Text) → List Text → Text
join sep [] = []
join sep (t ∷ []) = t
join sep (t ∷ u ∷ us) = t ++ sep ++ join sep (u ∷ us)

-- `uri.split("/")[-1]`
abbrev pub last_part : List Text → Text
last_part [] = []
last_part (p ∷ []) = p
last_part (p ∷ q ∷ ps) = last_part (q ∷ ps)

unfoldable pub name_of : Text → Text
unfolding split_on
name_of uri = last_part (split_on b'/' uri)

-- The texts of a list, each once.
unfoldable pub distinct : List Text → List Text
unfolding text_eq
distinct [] = []
distinct (t ∷ ts) =
    t ∷ keep_if (λ u. elim (text_eq u t) [ true ↦ false | false ↦ true ]) (distinct ts)

abbrev pub abstracts : List ChildSummary → List Text
abstracts [] = []
abstracts (s ∷ ss) = s.abstract ∷ abstracts ss

abbrev pub categories_of : List ChildSummary → List Text
categories_of [] = []
categories_of (s ∷ ss) = s.category ∷ categories_of ss

abbrev items_or_none : Option (List ChildSummary) → List ChildSummary
items_or_none none = []
items_or_none (some ss) = ss

-- `by_category[cat].append(s)` for each of the children
unfoldable pub by_category :
    List ChildSummary → List (Text × List ChildSummary) → List (Text × List ChildSummary)
unfolding text_eq
by_category [] d = d
by_category (s ∷ ss) d =
    by_category ss (put s.category (items_or_none (get s.category d) ++ s ∷ []) d)

-- The abstract of an answer: missing, a text, or a value that cannot be sliced as a text is.
pub data Abstract : Type 0 where
  missing : Abstract
  text : Text → Abstract
  unsliced : Abstract

-- What the model answers. An overview that is missing is none.
pub record Answer : Type 0 where
  pub abstract : Abstract
  pub overview : Option Text

abbrev text_or_empty : Option Text → Text
text_or_empty none = []
text_or_empty (some t) = t

-- `abstract[:100]`
abbrev cut_abstract : Abstract → Result Text
cut_abstract missing = ok []
cut_abstract (text t) = ok (take 100 t)
cut_abstract unsliced = raised type_error

module _ (detect_language : Text → Text) (set_order : List Text → List Text) where
  abbrev pub language_of : List ChildSummary → Text
  language_of ss = detect_language (join (codes " ") (abstracts ss))

  abbrev pub is_chinese : List ChildSummary → Bool
  is_chinese ss = text_eq (language_of ss) (codes "zh-CN")

  -- `list(set(s["category"] for s in child_summaries))`
  abbrev pub category_set : List ChildSummary → List Text
  category_set ss = set_order (distinct (categories_of ss))

  unfoldable pub fallback_abstract : List ChildSummary → Text
  unfolding distinct text_eq
  fallback_abstract ss =
      if is_chinese ss
      then codes "包含 "
        ++ decimal (length ss)
        ++ codes " 条"
        ++ join (codes "、") (category_set ss)
        ++ codes "相关记忆"
      else codes "Contains "
        ++ decimal (length ss)
        ++ codes " "
        ++ join (codes ", ") (category_set ss)
        ++ codes " memories"

  abbrev item_lines : List ChildSummary → List Text
  item_lines [] = []
  item_lines (s ∷ ss) = (codes "- " ++ take 50 s.abstract ++ codes "...") ∷ item_lines ss

  abbrev count_label : (chinese : Bool) → ℕ → Text
  count_label true n = codes "(" ++ decimal n ++ codes "条)"
  count_label false n = codes "(" ++ decimal n ++ codes " items)"

  abbrev category_lines : (chinese : Bool) → List (Text × List ChildSummary) → List Text
  category_lines chinese [] = []
  category_lines chinese ((category, items) ∷ d) =
      (codes "## " ++ category ++ codes " " ++ count_label chinese (length items))
        ∷ item_lines items
      ++ [] ∷ category_lines chinese d

  unfoldable pub fallback_overview : List ChildSummary → Text
  unfolding by_category text_eq
  fallback_overview ss =
      let title = if is_chinese ss then codes "# 目录内容概览" else codes "# Directory Overview" in
      join (b'\n' ∷ []) ((title ++ b'\n' ∷ []) ∷ category_lines (is_chinese ss) (by_category ss []))

  -- The lines of the children in the prompt.
  abbrev child_lines : List ChildSummary → List Text
  child_lines [] = []
  child_lines (s ∷ ss) =
      (codes "- ["
        ++ s.category
        ++ codes "] "
        ++ s.uri
        ++ codes ":"
        ++ (b'\n' ∷ codes "  ")
        ++ s.abstract)
      ∷ child_lines ss

  abbrev pub prompt_of :
      (template : (directory_uri children_summaries language : Text) → Text)
      → Text
      → List ChildSummary
      → Text
  prompt_of template uri ss =
      template uri (join (b'\n' ∷ b'\n' ∷ []) (child_lines ss)) (language_of ss)

  abbrev pub summary_of : List ChildSummary → (abstract overview : Text) → DirectorySummary
  summary_of ss abstract overview = record {
    abstract = abstract;
    overview = overview;
    child_count = length ss;
    categories = category_set ss;
  }

  -- What follows the call of the model in `_generate_summary`, which catches what the call raises.
  unfoldable pub generate_summary : List ChildSummary → Result Answer → Result DirectorySummary
  unfolding fallback_abstract fallback_overview distinct
  generate_summary ss (raised x) =
      ok (summary_of ss (take 100 (fallback_abstract ss)) (fallback_overview ss))
  generate_summary ss (ok a) =
      cut_abstract a.abstract >>= λ abstract. ok (summary_of ss abstract (text_or_empty a.overview))

  -- `except Exception` of `_generate_summary_with_fallback`
  unfoldable pub or_fallback : List ChildSummary → Result DirectorySummary → DirectorySummary
  unfolding fallback_abstract fallback_overview distinct
  or_fallback ss (raised x) = summary_of ss (take 200 (fallback_abstract ss)) (fallback_overview ss)
  or_fallback ss (ok r) = r
