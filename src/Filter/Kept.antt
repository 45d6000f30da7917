-- ===== src/Filter/Kept.antt =====
-- What the filter of comments in filter/core/filter.py keeps.
use rtc_retrieval_token_cutt.Base.{
  ℕ, ◌+◌, ◌≡◌, refl, ap, ◌∙◌, Bool, true, false, List, [], ◌∷◌, Text, codes, lstrip_space,
  starts_with, All, All-append, arith, if◌then◌else◌,
}
use rtc_retrieval_token_cutt.Filter.Comments.{
  Filtering, starts_comment, strip_trailing, keep_line, filter_line, filter_lines,
}

-- The line does not begin with the sign of a line comment, behind its white space.
abbrev pub IsCode : Text → Type 0
IsCode l = starts_comment (lstrip_space l) ≡ false

starts_with-strip_trailing :
    (s p : Text) → starts_with s p ≡ false → starts_with (strip_trailing s) p ≡ false
unfolding starts_with strip_trailing
starts_with-strip_trailing s [] h = absurd (cc)
starts_with-strip_trailing [] (y ∷ p) h = refl
starts_with-strip_trailing (x ∷ s) (y ∷ p) h = ground (arith, h, starts_with-strip_trailing s p)

starts_with-lstrip_space :
    (s : Text) (y : ℕ) (p : Text)
    → starts_with (lstrip_space s) (y ∷ p) ≡ false
    → starts_with (lstrip_space (strip_trailing s)) (y ∷ p) ≡ false
unfolding strip_trailing lstrip_space starts_with
starts_with-lstrip_space [] y p h = refl
starts_with-lstrip_space (x ∷ s) y p h =
    ground (arith, h, starts_with-lstrip_space s y p, starts_with-strip_trailing s p)

strip_trailing-IsCode : (s : Text) → IsCode s → IsCode (strip_trailing s)
strip_trailing-IsCode s h = ground (
  arith,
  h,
  starts_with-lstrip_space s 47 (codes "/"),
  starts_with-lstrip_space s 35 [],
  starts_with-lstrip_space s 45 (codes "-"),
)

keep_line-IsCode :
    (l : Text) (f : Filtering) → IsCode l → All IsCode f.out → All IsCode (keep_line l f).out
unfolding lstrip_space starts_with
keep_line-IsCode l f c h = ground (
  arith,
  h,
  All-append IsCode f.out (l ∷ []) h (c, tt),
  All-append IsCode f.out ([] ∷ []) h (refl, tt),
)

-- The tests of a round, one after another.
abbrev round : (opens closes inside comment : Bool) → Text → Filtering → Filtering
round true _ _ _ l f = record f { in_block = true }
round false true _ _ l f = record f { in_block = false }
round false false true _ l f = f
round false false false true l f = record f { removed = f.removed + 1 }
round false false false false l f = keep_line (strip_trailing l) f

filter_line-eq-round :
    (l : Text) (f : Filtering)
    → filter_line l f
      ≡ round
          (starts_with (lstrip_space l) (codes "/*"))
          (starts_with (lstrip_space l) (codes "*/"))
          f.in_block
          (starts_comment (lstrip_space l))
          l
          f
unfolding filter_line
filter_line-eq-round l f =
    tests (starts_with (lstrip_space l) (codes "/*")) (starts_with (lstrip_space l) (codes "*/"))
      f.in_block (starts_comment (lstrip_space l))
  where
    tests :
        (a b c d : Bool)
        → (if a
            then record f { in_block = true }
            else if b
            then record f { in_block = false }
            else if c
            then f
            else if d
            then record f { removed = f.removed + 1 }
            else keep_line (strip_trailing l) f)
          ≡ round a b c d l f
    tests true b c d = refl
    tests false true c d = refl
    tests false false true d = refl
    tests false false false true = refl
    tests false false false false = refl

round-IsCode :
    (opens closes inside comment : Bool) (l : Text) (f : Filtering)
    → starts_comment (lstrip_space l) ≡ comment
    → All IsCode f.out
    → All IsCode (round opens closes inside comment l f).out
round-IsCode true _ _ _ l f e h = h
round-IsCode false true _ _ l f e h = h
round-IsCode false false true _ l f e h = h
round-IsCode false false false true l f e h = h
round-IsCode false false false false l f e h =
    keep_line-IsCode (strip_trailing l) f (strip_trailing-IsCode l e) h

filter_line-IsCode :
    (l : Text) (f : Filtering) → All IsCode f.out → All IsCode (filter_line l f).out
filter_line-IsCode l f h = rw (filter_line-eq-round l f) (
    round-IsCode (starts_with (lstrip_space l) (codes "/*"))
      (starts_with (lstrip_space l) (codes "*/")) f.in_block (starts_comment (lstrip_space l)) l f
      refl h)

-- No line that the comment filter keeps begins with the sign of a line comment.
pub filter_lines-IsCode :
    (ls : List Text) (f : Filtering) → All IsCode f.out → All IsCode (filter_lines ls f).out
unfolding filter_lines
filter_lines-IsCode [] f h = h
filter_lines-IsCode (l ∷ ls) f h =
    filter_lines-IsCode ls (filter_line l f) (filter_line-IsCode l f h)

-- The line does not begin with the end of a block comment.
abbrev pub NeverCloses : Text → Type 0
NeverCloses l = starts_with (lstrip_space l) (codes "*/") ≡ false

round-in_block :
    (opens inside comment : Bool) (l : Text) (f : Filtering)
    → inside ≡ true
    → f.in_block ≡ true
    → ((round opens false inside comment l f).out ≡ f.out)
      × ((round opens false inside comment l f).in_block ≡ true)
round-in_block true inside comment l f e h = (refl, refl)
round-in_block false true comment l f e h = (refl, h)
round-in_block false false comment l f e h = absurd (cc)

-- Inside a block comment nothing is kept until a line begins with its end. The line that opens the
-- block does not close it, even if the block ends on it.
pub filter_lines-NeverCloses :
    (ls : List Text) (f : Filtering)
    → f.in_block ≡ true
    → All NeverCloses ls
    → ((filter_lines ls f).out ≡ f.out) × ((filter_lines ls f).in_block ≡ true)
unfolding filter_lines
filter_lines-NeverCloses [] f h a = (refl, h)
filter_lines-NeverCloses (l ∷ ls) f h a =
    let (same, still) =
      round-in_block (starts_with (lstrip_space l) (codes "/*")) f.in_block
        (starts_comment (lstrip_space l)) l f h h in
    let step = filter_line-eq-round l f in
    let (rest, end) = filter_lines-NeverCloses ls (filter_line l f) (rw (step, a.0) still) a.1 in
    (rest ∙ rw (step, a.0) same, end)

-- From a line that begins with the start of a block comment on, even if the comment ends on that
-- line, nothing is kept as long as no later line begins with the end of one.
pub one_line_block :
    (l : Text) (ls : List Text) (f : Filtering)
    → starts_with (lstrip_space l) (codes "/*") ≡ true
    → All NeverCloses ls
    → (filter_lines (l ∷ ls) f).out ≡ f.out
unfolding filter_lines
one_line_block l ls f opens a =
    let step : filter_line l f ≡ record f { in_block = true } =
      filter_line-eq-round l f ∙ rw opens refl in
    (filter_lines-NeverCloses ls (filter_line l f) (ap (λ z. z.in_block) step) a).0
    ∙ ap (λ z. z.out) step
