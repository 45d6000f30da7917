-- ===== src/Filter/Bounds.antt =====
-- How many lines filter/core/truncation.py keeps, and which.
use rtc_retrieval_token_cutt.Base.{
  ℕ, ◌+◌, ◌-◌, ◌/◌, ◌≤◌, ◌<◌, ◌≡◌, refl, min, false, Option, List, ◌∷◌, ◌++◌, Text, leb, length,
  take, drop, length-append, length-take, length-drop, arith, ap, subst, lt→ltb,
}
use rtc_retrieval_token_cutt.Outbox.Event.{get_or}
use rtc_retrieval_token_cutt.Filter.Lines.{
  pos, negsuc, ◌-ℤ◌, neg, min_ℤ, minus_ℕ, slice_from, splitlines, join_lines,
}
use rtc_retrieval_token_cutt.Filter.Truncation.{
  TruncationResult, Format, kept_of, cut_lines, smart_truncate,
}

pub minus-eq-pos : (a b : ℕ) → b ≤ a → minus_ℕ a b ≡ pos (a - b)
minus-eq-pos a b l = ground arith

pub minus-eq-negsuc : (a b : ℕ) → a < b → minus_ℕ a b ≡ negsuc (b - a - 1)
minus-eq-negsuc a b l = ground arith

neg-eq-negsuc : (t : ℕ) → 1 ≤ t → neg (pos t) ≡ negsuc (t - 1)
neg-eq-negsuc t l = rw (minus-eq-negsuc 0 t l) (ap negsuc (omega arith))

pub min-eq-pos : (a b : ℕ) → min_ℤ (pos a) (pos b) ≡ pos (min a b)
min-eq-pos a b = ground arith

pub slice_from-tail {ℓ} :
    {A : Type ℓ} (t : ℕ) (xs : List A)
    → 1 ≤ t
    → slice_from (neg (pos t)) xs ≡ drop (length xs - t) xs
slice_from-tail t xs l = rw (neg-eq-negsuc t l) (ap (λ n. drop n xs) (omega arith))

-- What `smart_truncate` keeps where the tail fits: a head, the marker and the last `tail_lines`
-- lines.
pub record KeepsEnds (format : Format) (lines : List Text) (head_lines tail_lines : ℕ)
    (r : TruncationResult) : Type 0 where
  pub text :
      r.text
      ≡ join_lines (
          take head_lines lines
          ++ format (pos (length lines - head_lines - tail_lines)) (length lines)
            ∷ drop (length lines - tail_lines) lines)
  pub kept : r.kept_lines ≡ head_lines + 1 + tail_lines
  pub omitted : r.truncated_count ≡ pos (length lines - head_lines - tail_lines)

omitted_lem : (n h t : ℕ) → h + t ≤ n → pos n -ℤ pos h -ℤ pos t ≡ pos (n - h - t)
omitted_lem n h t l = rw (minus-eq-pos n h (omega arith), minus-eq-pos (n - h) t (omega arith)) refl

kept_of-KeepsEnds :
    (format : Format) (lines : List Text) (h t : ℕ)
    → 1 ≤ t
    → h + t < length lines
    → KeepsEnds format lines h t (kept_of format lines (pos h) (pos t))
kept_of-KeepsEnds format lines h t l m =
    let n = length lines in
    rw
      (
        omitted_lem n h t (omega arith),
        slice_from-tail t lines l,
        lt→ltb 0 (n - h - t) (omega arith),
      )
      (record {
        text = refl;
        kept = omega (
          arith,
          length-append (take h lines) (format (pos (n - h - t)) n ∷ drop (n - t) lines),
          length-take h lines,
          length-drop (n - t) lines,
        );
        omitted = refl;
      })

-- A text of more than `max_lines` lines is cut to its first lines, the marker and its last
-- `tail_lines` lines, where there is a tail and it fits: the head is half of `max_lines` or what is
-- asked for, less where the tail needs the room. All lines between are dropped, with critical
-- information or not. What is joined is at most `max_lines + 1` pieces, the marker one of them; a marker
-- that has line feeds of its own adds that many lines.
pub smart_truncate-KeepsEnds :
    (format : Format) (text : Text) (max_lines : ℕ) (head_lines : Option ℕ) (tail_lines : ℕ)
    → 1 ≤ tail_lines
    → tail_lines ≤ max_lines
    → max_lines < length (splitlines text)
    → let h = min (get_or head_lines (max_lines / 2)) (max_lines - tail_lines) in
      KeepsEnds format
        (splitlines text)
        h
        tail_lines
        (smart_truncate format text max_lines head_lines tail_lines)
      × (h + 1 + tail_lines ≤ max_lines + 1)
unfolding smart_truncate cut_lines
smart_truncate-KeepsEnds format text max_lines head_lines tail_lines l m long =
    let asked = get_or head_lines (max_lines / 2) in
    let h = min asked (max_lines - tail_lines) in
    rw
      (
        lt→leb (length (splitlines text)) max_lines long,
        minus-eq-pos max_lines tail_lines m,
        min-eq-pos asked (max_lines - tail_lines),
        minus-eq-pos max_lines h (omega arith),
        min-eq-pos tail_lines (max_lines - h),
      )
      (
        subst
            (λ t.
              KeepsEnds format (splitlines text) h tail_lines
                (kept_of format (splitlines text) (pos h) (pos t)))
            (omega arith) (kept_of-KeepsEnds format (splitlines text) h tail_lines l (omega arith)),
        omega arith,
      )
  where
    lt→leb : (a b : ℕ) → b < a → leb a b ≡ false
    lt→leb a b l = ground arith
