-- ===== src/Filter/Overflow.antt =====
-- filter/core/truncation.py where the tail does not fit, and with priority for critical lines.
use rtc_retrieval_token_cutt.Base.{
  ℕ, ◌+◌, ◌-◌, ◌/◌, ◌≤◌, ◌<◌, ◌≡◌, min, Bool, true, false, Option, List, [], ◌∷◌, ◌++◌, Text, leb,
  lt→ltb, length, take, drop, length-append, length-take, length-drop, arith, subst, keep_if,
}
use rtc_retrieval_token_cutt.Filter.Lines.{join_lines, pos, negsuc, ◌-ℤ◌, splitlines}
use rtc_retrieval_token_cutt.Filter.Truncation.{
  TruncationResult, Format, kept_of, cut_lines, smart_truncate, is_critical_line, collect_critical,
  cut_with_priority, smart_truncate_with_priority,
}
use rtc_retrieval_token_cutt.Filter.Bounds.{
  minus-eq-pos, minus-eq-negsuc, min-eq-pos, slice_from-tail,
}

lt→leb : (a b : ℕ) → b < a → leb a b ≡ false
lt→leb a b l = ground arith

-- The lines for a head count of `-k` and a tail of `t` lines.
length-kept_of :
    (format : Format) (lines : List Text) (k t : ℕ)
    → 1 ≤ k
    → k < t
    → t ≤ length lines
    → (kept_of format lines (negsuc (k - 1)) (pos t)).kept_lines ≡ length lines - k + 1 + t
length-kept_of format lines k t one l m =
    let n = length lines in
    rw
      (
        minus-eq-pos (n + (k - 1) + 1) t (omega arith),
        slice_from-tail t lines (omega arith),
        lt→ltb 0 (n + (k - 1) + 1 - t) (omega arith),
      )
      (omega (
        arith,
        length-append (take (n - (k - 1 + 1)) lines)
            (format (pos (n + (k - 1) + 1 - t)) n ∷ drop (n - t) lines),
        length-take (n - (k - 1 + 1)) lines,
        length-drop (n - t) lines,
      ))

-- Where more tail lines are asked for than `max_lines`, which is not 0, and the text has that many
-- lines, the head count is negative and cuts from the end: the result has `max_lines + 1` lines more
-- than the text.
pub smart_truncate_grows :
    (format : Format) (text : Text) (max_lines : ℕ) (head_lines : Option ℕ) (tail_lines : ℕ)
    → 1 ≤ max_lines
    → max_lines < tail_lines
    → tail_lines ≤ length (splitlines text)
    → (smart_truncate format text max_lines head_lines tail_lines).kept_lines
      ≡ length (splitlines text) + max_lines + 1
unfolding smart_truncate cut_lines
smart_truncate_grows format text max_lines head_lines tail_lines one l m =
    let k = tail_lines - max_lines in
    let e : tail_lines ≡ min tail_lines (max_lines + (k - 1) + 1) = omega arith in
    rw
      (
        lt→leb (length (splitlines text)) max_lines (omega arith),
        minus-eq-negsuc max_lines tail_lines l,
        min-eq-pos tail_lines (max_lines + (k - 1) + 1),
      )
      (subst
        (λ t.
          (kept_of format (splitlines text) (negsuc (k - 1)) (pos t)).kept_lines
          ≡ length (splitlines text) + max_lines + 1)
        e
        (omega (
          arith,
          length-kept_of format (splitlines text) k tail_lines (omega arith) (omega arith) m,
        )))

module _ (matches_pattern : Text → Bool) where
  -- What is kept with priority for critical lines: a third of `max_lines` at each end, and the first
  -- critical lines between, as many as are left behind the marker.
  pub record KeepsCritical (format : Format) (lines : List Text) (max_lines : ℕ)
      (r : TruncationResult) : Type 0 where
    pub critical : List Text
    pub first :
        critical
        ≡ take (max_lines - max_lines / 3 - max_lines / 3 - 1) (
            keep_if
              (is_critical_line matches_pattern)
              (take (length lines - max_lines / 3 - max_lines / 3) (drop (max_lines / 3) lines)))
    pub text :
        r.text
        ≡ join_lines (
            take (max_lines / 3) lines
            ++ critical
            ++ format r.truncated_count (length lines) ∷ drop (length lines - max_lines / 3) lines)
    pub kept : r.kept_lines ≤ max_lines
    pub bounded :
        length (take (max_lines / 3) lines)
          + length critical
          + 1
          + length (drop (length lines - max_lines / 3) lines)
        ≤ max_lines

  -- With `max_lines` below 3 no tail is asked for, and `lines[-0:]` is the whole text: the result has
  -- more lines than the text.
  pub smart_truncate_with_priority_grows :
      (format : Format) (text : Text) (max_lines : ℕ)
      → max_lines < 3
      → max_lines < length (splitlines text)
      → length (splitlines text) + 1
        ≤ (smart_truncate_with_priority matches_pattern format text max_lines true).kept_lines
  unfolding smart_truncate_with_priority cut_with_priority
  smart_truncate_with_priority_grows format text max_lines three long =
      let lines = splitlines text in
      let budget = max_lines - 0 - 0 - 1 in
      let middle = take (length lines - 0 - 0) lines in
      let critical = collect_critical matches_pattern budget [] middle in
      let marker =
        format (pos (length lines) -ℤ pos 0 -ℤ pos (length critical) -ℤ pos 0) (length lines) in
      rw (lt→leb (length lines) max_lines long, no_third)
        (omega (arith, length-append critical (marker ∷ lines)))
    where
      no_third : max_lines / 3 ≡ 0
      no_third = omega arith
