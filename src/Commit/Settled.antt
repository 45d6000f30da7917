-- ===== src/Commit/Settled.antt =====
-- Texts under the steps of `normalize_routing_key` (commit/routing_key.py): their white space, and what
-- is true of each of their characters.
use rtc_retrieval_token_cutt.Base.{
  ℕ, ◌==◌, ◌≡◌, refl, ap, ◌∙◌, Bool, true, false, ◌&&◌, [], ◌∷◌, Text, codes, All, is_empty,
  is_space, starts_with, strip, lstrip_space, rstrip_space, arith, Bool-cases, inl, inr,
  if◌then◌else◌,
}
use rtc_retrieval_token_cutt.Commit.Keys.{replace_char}
use rtc_retrieval_token_cutt.Commit.Squeeze.{squeeze}

-- No white space at the ends.
abbrev pub head_space : Text → Bool
head_space [] = false
head_space (x ∷ s) = is_space x

abbrev pub last_space : Text → Bool
last_space [] = false
last_space (x ∷ s) = let rest = last_space s in if is_empty s then is_space x else rest

pub head_space-lstrip : (s : Text) → head_space (lstrip_space s) ≡ false
unfolding lstrip_space
head_space-lstrip [] = refl
head_space-lstrip (x ∷ s) = elim (Bool-cases (is_space x)) [
  | inl h ↦ rw h (head_space-lstrip s)
  | inr h ↦ rw h h
]

pub last_space-rstrip : (s : Text) → last_space (rstrip_space s) ≡ false
unfolding rstrip_space
last_space-rstrip [] = refl
last_space-rstrip (x ∷ s) = cases (rstrip_space s) (last_space-rstrip s)
  where
    cases :
        (t : Text)
        → last_space t ≡ false
        → last_space (if is_empty t && is_space x then [] else x ∷ t) ≡ false
    cases [] h = elim (Bool-cases (is_space x)) [ inl e ↦ rw e refl | inr e ↦ rw e e ]
    cases (y ∷ t) h = h

pub last_space-lstrip : (s : Text) → last_space s ≡ false → last_space (lstrip_space s) ≡ false
unfolding lstrip_space
last_space-lstrip [] h = refl
last_space-lstrip (x ∷ s) h = elim (Bool-cases (is_space x)) [
  | inl e ↦ rw e (last_space-lstrip s (tail s h))
  | inr e ↦ rw e h
]
  where
    tail : (s : Text) → last_space (x ∷ s) ≡ false → last_space s ≡ false
    tail [] h = refl
    tail (y ∷ s) h = h

lstrip-id : (s : Text) → head_space s ≡ false → lstrip_space s ≡ s
unfolding lstrip_space
lstrip-id [] h = refl
lstrip-id (x ∷ s) h = rw h refl

rstrip-id : (s : Text) → last_space s ≡ false → rstrip_space s ≡ s
unfolding rstrip_space
rstrip-id [] h = refl
rstrip-id (x ∷ []) h = rw h refl
rstrip-id (x ∷ y ∷ s) h = rw (rstrip-id (y ∷ s) h) refl

pub strip-id : (s : Text) → head_space s ≡ false → last_space s ≡ false → strip s ≡ s
unfolding strip
strip-id s h l = ap lstrip_space (rstrip-id s l) ∙ lstrip-id s h

module _ {ℓ} (P : ℕ → Type ℓ) where
  pub All-lstrip : (s : Text) → All P s → All P (lstrip_space s)
  unfolding lstrip_space
  All-lstrip [] h = tt
  All-lstrip (x ∷ s) h = elim (Bool-cases (is_space x)) [
    | inl e ↦ rw e (All-lstrip s h.1)
    | inr e ↦ rw e h
  ]

  pub All-rstrip : (s : Text) → All P s → All P (rstrip_space s)
  unfolding rstrip_space
  All-rstrip [] h = tt
  All-rstrip (x ∷ s) h = elim (Bool-cases (is_empty (rstrip_space s) && is_space x)) [
    | inl e ↦ rw e tt
    | inr e ↦ rw e (h.0, All-rstrip s h.1)
  ]

  pub All-strip : (s : Text) → All P s → All P (strip s)
  unfolding strip
  All-strip s h = All-lstrip (rstrip_space s) (All-rstrip s h)

  pub All-squeeze : (s : Text) → All P s → All P (squeeze s)
  unfolding squeeze
  All-squeeze [] h = tt
  All-squeeze (x ∷ s) h = elim (Bool-cases (x == b'_' && starts_with (squeeze s) (codes "_"))) [
    | inl e ↦ rw e (All-squeeze s h.1)
    | inr e ↦ rw e (h.0, All-squeeze s h.1)
  ]

  pub All-replace_char : (c d : ℕ) (s : Text) → P d → All P s → All P (replace_char c d s)
  All-replace_char c d [] p h = tt
  All-replace_char c d (x ∷ s) p h = elim (Bool-cases (x == c)) [
    | inl e ↦ rw e (p, All-replace_char c d s p h.1)
    | inr e ↦ rw e (h.0, All-replace_char c d s p h.1)
  ]

abbrev pub IsNot : ℕ → ℕ → Type 0
IsNot c x = (x == c) ≡ false

pub replace_char-IsNot : (c d : ℕ) (s : Text) → IsNot c d → All (IsNot c) (replace_char c d s)
replace_char-IsNot c d [] h = tt
replace_char-IsNot c d (x ∷ s) h = elim (Bool-cases (x == c)) [
  | inl e ↦ rw e (h, replace_char-IsNot c d s h)
  | inr e ↦ rw e (e, replace_char-IsNot c d s h)
]

pub replace_char-id : (c d : ℕ) (s : Text) → All (IsNot c) s → replace_char c d s ≡ s
replace_char-id c d [] h = refl
replace_char-id c d (x ∷ s) h = rw (h.0, replace_char-id c d s h.1) refl

-- An underscore is no white space, in whatever place it comes.
pub head_space-replace_char :
    (c : ℕ) (s : Text) → head_space s ≡ false → head_space (replace_char c b'_' s) ≡ false
unfolding is_space
head_space-replace_char c [] h = refl
head_space-replace_char c (x ∷ s) h = elim (Bool-cases (x == c)) [
  | inl e ↦ rw e refl
  | inr e ↦ rw e h
]

pub last_space-replace_char :
    (c : ℕ) (s : Text) → last_space s ≡ false → last_space (replace_char c b'_' s) ≡ false
unfolding is_space
last_space-replace_char c [] h = refl
last_space-replace_char c (x ∷ []) h = elim (Bool-cases (x == c)) [
  | inl e ↦ rw e refl
  | inr e ↦ rw e h
]
last_space-replace_char c (x ∷ y ∷ s) h = last_space-replace_char c (y ∷ s) h

pub head_space-squeeze : (s : Text) → head_space s ≡ false → head_space (squeeze s) ≡ false
unfolding squeeze starts_with is_space
head_space-squeeze [] h = refl
head_space-squeeze (x ∷ s) h =
    elim (Bool-cases (x == b'_' && starts_with (squeeze s) (codes "_"))) [
      | inl e ↦ rw e (underscore (squeeze s) (ground (arith, e)))
      | inr e ↦ rw e h
    ]
  where
    underscore : (t : Text) → starts_with t (codes "_") ≡ true → head_space t ≡ false
    underscore [] k = absurd (cc)
    underscore (y ∷ t) k = let e : y ≡ b'_' = ground arith in rw e refl

squeeze-some : (x : ℕ) (s : Text) → is_empty (squeeze (x ∷ s)) ≡ false
unfolding squeeze starts_with
squeeze-some x s = elim (Bool-cases (x == b'_' && starts_with (squeeze s) (codes "_"))) [
  | inl e ↦ rw e (some (squeeze s) (ground (arith, e)))
  | inr e ↦ rw e refl
]
  where
    some : (t : Text) → starts_with t (codes "_") ≡ true → is_empty t ≡ false
    some [] k = absurd (cc)
    some (y ∷ t) k = refl

last_space-cons : (x : ℕ) (t : Text) → is_empty t ≡ false → last_space (x ∷ t) ≡ last_space t
last_space-cons x [] h = absurd (cc)
last_space-cons x (y ∷ t) h = refl

and_false : (b : Bool) → (b && false) ≡ false
and_false true = refl
and_false false = refl

pub last_space-squeeze : (s : Text) → last_space (squeeze s) ≡ last_space s
unfolding squeeze starts_with
last_space-squeeze [] = refl
last_space-squeeze (x ∷ []) = rw (and_false (x == b'_')) refl
last_space-squeeze (x ∷ y ∷ s) =
    elim (Bool-cases (x == b'_' && starts_with (squeeze (y ∷ s)) (codes "_"))) [
      | inl e ↦ rw e (last_space-squeeze (y ∷ s))
      | inr e ↦
          rw e (last_space-cons x (squeeze (y ∷ s)) (squeeze-some y s) ∙ last_space-squeeze (y ∷ s))
    ]
