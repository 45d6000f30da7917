-- ===== src/Filter/Samples.antt =====
-- Small texts, and the theorems about the filters there.
use rtc_retrieval_token_cutt.Base.{
  ◌+◌, ◌-◌, ◌/◌, ◌≤◌, ◌≡◌, refl, min, false, none, List, [], ◌∷◌, Text, codes, strip, arith,
}
use rtc_retrieval_token_cutt.Outbox.Event.{get_or}
use rtc_retrieval_token_cutt.Filter.Lines.{splitlines, lines_from}
use rtc_retrieval_token_cutt.Filter.Truncation.{Format, smart_truncate}
use rtc_retrieval_token_cutt.Filter.Bounds.{KeepsEnds, smart_truncate-KeepsEnds}
use rtc_retrieval_token_cutt.Filter.Dedup.{
  Patterns, repeat_note, dedup_lines, deduplicate_with_grouping,
}
use rtc_retrieval_token_cutt.Filter.Runs.{triangle, deduplicate_with_grouping-triangle}

abbrev format : Format
format omitted total = codes "..."

abbrev five : Text
five = codes "a\nb\nc\nd\ne"

five_lines : splitlines five ≡ codes "a" ∷ codes "b" ∷ codes "c" ∷ codes "d" ∷ codes "e" ∷ []
unfolding lines_from
five_lines = refl

smart_truncate-KeepsEnds_example :
    KeepsEnds format
      (splitlines five)
      (min (get_or none (4 / 2)) (4 - 1))
      1
      (smart_truncate format five 4 none 1)
    × (min (get_or none (4 / 2)) (4 - 1) + 1 + 1 ≤ 4 + 1)
unfolding lines_from
smart_truncate-KeepsEnds_example =
    smart_truncate-KeepsEnds format five 4 none 1 (omega arith) (omega arith) (omega arith)

abbrev noisy : List Text
noisy = codes "x" ∷ codes " x" ∷ codes "x" ∷ [] ∷ [] ∷ codes "y" ∷ []

noisy_lem : dedup_lines 6 2 [] noisy ≡ codes "x" ∷ repeat_note 3 ∷ [] ∷ codes "y" ∷ []
unfolding dedup_lines
noisy_lem = refl

abbrev patterns : Patterns
patterns = record {
  is_error_line = λ l. false;
  is_warning_line = λ l. false;
  normalize_error = λ l. l;
  normalize_warning = λ l. l;
}

deduplicate_with_grouping-triangle_example :
    (deduplicate_with_grouping patterns false false 3 (codes "x\nx\nx")).deduplicated_lines
    ≡ triangle 3
unfolding lines_from strip
deduplicate_with_grouping-triangle_example =
    deduplicate_with_grouping-triangle patterns 3 (codes "x\nx\nx") (codes "x") 2 refl refl
      (omega arith)

abbrev program : List Text
program = codes "/* one line */" ∷ codes "x = 1" ∷ codes "# note" ∷ []
