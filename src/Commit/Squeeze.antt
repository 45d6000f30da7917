-- ===== src/Commit/Squeeze.antt =====
-- The loop of commit/routing_key.py that replaces two underscores by one until there are none, and
-- one pass that has the same result.
use rtc_retrieval_token_cutt.Base.{
  ℕ, zero, suc, ◌≤◌, ◌<◌, ◌==◌, ◌≡◌, refl, sym, ◌∙◌, true, false, ◌&&◌, [], ◌∷◌, Text, codes,
  starts_with, contains, length, arith, Bool-cases, inl, inr, if◌then◌else◌,
}
use rtc_retrieval_token_cutt.Commit.Keys.{replace_found, replace, collapse}

abbrev two : Text
two = codes "__"

abbrev one : Text
one = codes "_"

-- Of neighbouring underscores the last is kept.
unfoldable pub squeeze : Text → Text
unfolding starts_with
squeeze [] = []
squeeze (x ∷ s) =
    let rest = squeeze s in if x == b'_' && starts_with rest (codes "_") then rest else x ∷ rest

pub squeeze-id : (s : Text) → contains s (codes "__") ≡ false → squeeze s ≡ s
unfolding squeeze contains
squeeze-id [] h = refl
squeeze-id (x ∷ []) h = ground arith
squeeze-id (x ∷ y ∷ s) h = ground (arith, squeeze-id (y ∷ s) (ground (arith, h)))

-- An underscore stays an underscore.
squeeze-underscore : (s : Text) → starts_with (squeeze (b'_' ∷ s)) (codes "_") ≡ true
unfolding squeeze starts_with
squeeze-underscore s = elim (Bool-cases (starts_with (squeeze s) (codes "_"))) [
  | inl h ↦ rw h h
  | inr h ↦ rw h refl
]

squeeze-cons : (x : ℕ) (s t : Text) → squeeze s ≡ squeeze t → squeeze (x ∷ s) ≡ squeeze (x ∷ t)
unfolding squeeze
squeeze-cons x s t e = rw e refl

squeeze-two : (s : Text) → squeeze (b'_' ∷ b'_' ∷ s) ≡ squeeze (b'_' ∷ s)
unfolding squeeze starts_with
squeeze-two s = let h = squeeze-underscore s in rw h refl

starts_two_short : (x : ℕ) → starts_with (x ∷ []) (codes "__") ≡ false
unfolding starts_with
starts_two_short x = ground arith

starts_two :
    (x y : ℕ) (s : Text) → starts_with (x ∷ y ∷ s) (codes "__") ≡ true → (x ≡ b'_') × (y ≡ b'_')
unfolding starts_with
starts_two x y s h = ground arith

squeeze-replace_found :
    (s : Text) → squeeze (replace_found (codes "__") (codes "_") 0 s) ≡ squeeze s
unfolding replace_found starts_with
squeeze-replace_found [] = refl
squeeze-replace_found (x ∷ []) = rw (starts_two_short x) refl
squeeze-replace_found (x ∷ y ∷ s) = elim (Bool-cases (starts_with (x ∷ y ∷ s) (codes "__"))) [
  | inl h ↦
      let (e, d) = starts_two x y s h in
      rw (e, d)
        (squeeze-cons b'_' (replace_found (codes "__") (codes "_") 0 s) s (squeeze-replace_found s)
          ∙ sym (squeeze-two s))
  | inr h ↦ rw h (squeeze-cons x _ (y ∷ s) (squeeze-replace_found (y ∷ s)))
]

length-replace_found : (s : Text) → length (replace_found (codes "__") (codes "_") 0 s) ≤ length s
unfolding replace_found starts_with
length-replace_found [] = omega arith
length-replace_found (x ∷ []) = rw (starts_two_short x) (omega arith)
length-replace_found (x ∷ y ∷ s) = elim (Bool-cases (starts_with (x ∷ y ∷ s) (codes "__"))) [
  | inl h ↦ rw h (omega (arith, length-replace_found s))
  | inr h ↦ rw h (omega (arith, length-replace_found (y ∷ s)))
]

-- A round with a match makes the text shorter.
length-replace_found_lt :
    (s : Text)
    → contains s (codes "__") ≡ true
    → length (replace_found (codes "__") (codes "_") 0 s) < length s
unfolding replace_found starts_with contains
length-replace_found_lt [] h = absurd (cc)
length-replace_found_lt (x ∷ []) h = absurd (ground arith)
length-replace_found_lt (x ∷ y ∷ s) h = elim (Bool-cases (starts_with (x ∷ y ∷ s) (codes "__"))) [
  | inl e ↦ rw e (omega (arith, length-replace_found s))
  | inr e ↦ rw e (omega (arith, length-replace_found_lt (y ∷ s) (ground (arith, e, h))))
]

pub collapse-squeeze : (n : ℕ) (s : Text) → length s ≤ n → collapse n s ≡ squeeze s
unfolding collapse replace squeeze
collapse-squeeze zero [] h = refl
collapse-squeeze zero (x ∷ s) h = absurd (omega arith)
collapse-squeeze (suc n) s h = elim (Bool-cases (contains s (codes "__"))) [
  | inl c ↦ rw c (
      collapse-squeeze n (replace_found (codes "__") (codes "_") 0 s)
        (omega (arith, length-replace_found_lt s c))
      ∙ squeeze-replace_found s)
  | inr c ↦ rw c (sym (squeeze-id s c))
]

pub squeeze-single : (s : Text) → contains (squeeze s) (codes "__") ≡ false
unfolding squeeze contains starts_with
squeeze-single [] = refl
squeeze-single (x ∷ s) = elim (Bool-cases (x == b'_' && starts_with (squeeze s) (codes "_"))) [
  | inl h ↦ rw h (squeeze-single s)
  | inr h ↦ rw h (first x (squeeze s) h (squeeze-single s))
]
  where
    first :
        (x : ℕ) (t : Text)
        → (x == b'_' && starts_with t (codes "_")) ≡ false
        → contains t (codes "__") ≡ false
        → contains (x ∷ t) (codes "__") ≡ false
    first x [] h k = ground (arith, h)
    first x (y ∷ t) h k = ground (arith, h, k)

-- As many rounds as the text has characters are enough for the loop over consecutive underscores:
-- they leave no two together, and what they leave is the text with one pass over it, which keeps the
-- last of neighbouring underscores.
pub collapse-eq-squeeze :
    (n : ℕ) (s : Text)
    → length s ≤ n
    → (contains (collapse n s) (codes "__") ≡ false) × (collapse n s ≡ squeeze s)
collapse-eq-squeeze n s h = let e = collapse-squeeze n s h in (rw e (squeeze-single s), e)
