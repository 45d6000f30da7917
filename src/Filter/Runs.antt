-- ===== src/Filter/Runs.antt =====
-- The loops of filter/core/dedup.py: how many lines they leave.
use rtc_retrieval_token_cutt.Base.{
  ℕ, zero, suc, ◌+◌, ◌≤◌, ◌<◌, ◌≡◌, refl, ap, false, List, [], ◌∷◌, Text, strip, text_eq,
  text_eq_refl, is_empty, ltb, length, take, replicate, length-append, length-drop,
  length-replicate, length-take, arith, if◌then◌else◌, Bool-cases, inl, inr,
}
use rtc_retrieval_token_cutt.Filter.Lines.{splitlines}
use rtc_retrieval_token_cutt.Filter.Dedup.{
  run_length, run_lines, dedup_step, dedup_lines, Patterns, Groups, add_run, add_warning, add_line,
  group_lines, no_lines, deduplicate_with_grouping,
}

run_length-le : (s : Text) (ls : List Text) → run_length s ls ≤ length ls
unfolding run_length
run_length-le s [] = omega arith
run_length-le s (l ∷ ls) = ground (arith, run_length-le s ls)

module _ (max_adjacent : ℕ) where
  length-run_lines :
      (line stripped : Text) (count : ℕ)
      → 1 ≤ max_adjacent
      → 1 ≤ count
      → length (run_lines max_adjacent line stripped count) ≤ count
  unfolding run_lines
  length-run_lines line stripped count m c = elim (Bool-cases (ltb max_adjacent count)) [
    | inl long ↦ ground (arith, long)
    | inr short ↦
        rw short
          (omega (arith, length-replicate count (if text_eq stripped line then stripped else line)))
  ]

  -- A round leaves fewer lines, and adds no more than it takes.
  dedup_step-le :
      (result : List Text) (line : Text) (rest : List Text)
      → 1 ≤ max_adjacent
      → let (result', rest') = dedup_step max_adjacent result line rest in
        (length result' + length rest' ≤ length result + length rest + 1)
        × (length rest' ≤ length rest)
  unfolding dedup_step
  dedup_step-le result line rest m = elim (Bool-cases (is_empty (strip line))) [
    | inl blank ↦ rw blank (ground (arith, length-append result ([] ∷ [])), omega arith)
    | inr text ↦
        let run = run_length (strip line) rest in
        let shown = run_lines max_adjacent line (strip line) (run + 1) in
        rw text (
          omega (
            arith,
            length-append result shown,
            length-run_lines line (strip line) (run + 1) m (omega arith),
            length-drop run rest,
            run_length-le (strip line) rest,
          ),
          omega (arith, length-drop run rest),
        )
  ]

  -- Collapsing runs never makes a text longer: the lines of the result are at most those of the input,
  -- where a single line is not yet a run.
  pub dedup_lines-le :
      (fuel : ℕ) (lines result : List Text)
      → 1 ≤ max_adjacent
      → length (dedup_lines fuel max_adjacent result lines) ≤ length result + length lines
  unfolding dedup_lines
  dedup_lines-le zero lines result m = omega arith
  dedup_lines-le (suc fuel) [] result m = omega arith
  dedup_lines-le (suc fuel) (l ∷ ls) result m =
      let s = dedup_step max_adjacent result l ls in
      omega (arith, dedup_lines-le fuel s.1 s.0 m, (dedup_step-le result l ls m).0)

rest_le :
    (max_adjacent : ℕ) (result : List Text) (line : Text) (rest : List Text)
    → length (dedup_step max_adjacent result line rest).1 ≤ length rest
unfolding dedup_step
rest_le max_adjacent result line rest = elim (Bool-cases (is_empty (strip line))) [
  | inl blank ↦ rw blank (omega arith)
  | inr text ↦ rw text (omega (arith, length-drop (run_length (strip line) rest) rest))
]

-- The number of lines is fuel enough: more of it changes nothing.
pub dedup_lines-fuel :
    (m n max_adjacent : ℕ) (lines result : List Text)
    → length lines ≤ m
    → length lines ≤ n
    → dedup_lines m max_adjacent result lines ≡ dedup_lines n max_adjacent result lines
unfolding dedup_lines
dedup_lines-fuel zero zero max_adjacent lines result h k = refl
dedup_lines-fuel zero (suc n) max_adjacent [] result h k = refl
dedup_lines-fuel zero (suc n) max_adjacent (l ∷ ls) result h k = absurd (omega arith)
dedup_lines-fuel (suc m) zero max_adjacent [] result h k = refl
dedup_lines-fuel (suc m) zero max_adjacent (l ∷ ls) result h k = absurd (omega arith)
dedup_lines-fuel (suc m) (suc n) max_adjacent [] result h k = refl
dedup_lines-fuel (suc m) (suc n) max_adjacent (l ∷ ls) result h k =
    let s = dedup_step max_adjacent result l ls in
    let r = rest_le max_adjacent result l ls in
    dedup_lines-fuel m n max_adjacent s.1 s.0 (omega arith) (omega arith)

-- 1 + 2 + … + n
abbrev pub triangle : ℕ → ℕ
triangle zero = 0
triangle (suc n) = suc n + triangle n

run_length-replicate : (line : Text) (n : ℕ) → run_length (strip line) (replicate n line) ≡ n
unfolding run_length
run_length-replicate line zero = refl
run_length-replicate line (suc n) =
    rw (text_eq_refl (strip line)) (ap suc (run_length-replicate line n))

module _ (patterns : Patterns) (max_adjacent : ℕ) where
  plain_round :
      (line : Text) (n i : ℕ) (g : Groups)
      → is_empty (strip line) ≡ false
      → n < max_adjacent
      → length (add_line patterns false false max_adjacent i line (replicate n line) g).result
        ≡ length g.result + suc n
  unfolding add_line add_warning add_run
  plain_round line n i g text few =
      rw (text, run_length-replicate line n, short)
        (omega (
          arith,
          length-append g.result (line ∷ take n (replicate n line)),
          length-take n (replicate n line),
          length-replicate n line,
        ))
    where
      short : ltb max_adjacent (n + 1) ≡ false
      short = ground arith

  plain_rounds :
      (line : Text) (n i : ℕ) (g : Groups)
      → is_empty (strip line) ≡ false
      → n ≤ max_adjacent
      → length (group_lines patterns false false max_adjacent i (replicate n line) g).result
        ≡ length g.result + triangle n
  unfolding group_lines
  plain_rounds line zero i g text few = omega arith
  plain_rounds line (suc n) i g text few =
      let g' = add_line patterns false false max_adjacent i line (replicate n line) g in
      omega (
        arith,
        plain_round line n i g text (omega arith),
        plain_rounds line n (i + 1) g' text (omega arith),
      )

  -- Without grouping, a text of `n` equal lines that are too few to be collapsed becomes one of
  -- `1 + 2 + … + n` lines: the loop counts the run again from each of its lines.
  pub deduplicate_with_grouping-triangle :
      (text line : Text) (n : ℕ)
      → splitlines text ≡ replicate (suc n) line
      → is_empty (strip line) ≡ false
      → suc n ≤ max_adjacent
      → (deduplicate_with_grouping patterns false false max_adjacent text).deduplicated_lines
        ≡ triangle (suc n)
  unfolding deduplicate_with_grouping
  deduplicate_with_grouping-triangle text line n lines full few = rw lines (
      omega
        (arith, plain_rounds line (suc n) 0 (no_lines patterns false false max_adjacent) full few))
