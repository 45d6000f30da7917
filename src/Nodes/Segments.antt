-- ===== src/Nodes/Segments.antt =====
-- Texts between slashes, of which the URIs and the paths are made, under `str.split` and `str.rstrip`.
use rtc_retrieval_token_cutt.Base.{
  ℕ, ◌≡◌, refl, Bool, true, false, ◌==◌, List, [], ◌∷◌, ◌++◌, Text, is_empty, rstrip, split_on,
  push_front, arith, ==_iff, Bool-cases, inl, inr, if◌then◌else◌,
}

-- What a pattern's `[^/]+` fits.
pub record IsSegment (s : Text) : Type 0 where
  pub full : is_empty s ≡ false
  pub single : split_on b'/' s ≡ s ∷ []

split_on-some : (c : ℕ) (s : Text) → (h : Text) × (t : List Text) × (split_on c s ≡ h ∷ t)
unfolding split_on
split_on-some c [] = ([], [], refl)
split_on-some c (x ∷ s) = parts (x == c) (split_on c s)
  where
    parts :
        (b : Bool) (ss : List Text)
        → (h : Text) × (t : List Text) × (let r : List Text =
                if b then [] ∷ ss else push_front x ss in
              r)
            ≡ h ∷ t
    parts true ss = ([], ss, refl)
    parts false [] = (x ∷ [], [], refl)
    parts false (h ∷ t) = (x ∷ h, t, refl)

-- A segment has no slash at its head, and what follows the head is one too, or is empty.
split_on-tail :
    (c x : ℕ) (s : Text)
    → split_on c (x ∷ s) ≡ (x ∷ s) ∷ []
    → ((x == c) ≡ false) × (split_on c s ≡ s ∷ [])
unfolding split_on
split_on-tail c x s h = elim (Bool-cases (x == c)) [
  | inl e ↦ absurd (cc (rw e at h))
  | inr ne ↦ (ne, rest (split_on-some c s) (rw ne at h))
]
  where
    rest :
        (h : Text) × (t : List Text) × (split_on c s ≡ h ∷ t)
        → push_front x (split_on c s) ≡ (x ∷ s) ∷ []
        → split_on c s ≡ s ∷ []
    rest (a, t, e) k = cc (e, rw e at k)

pub split_on-append :
    (c : ℕ) (s r : Text) → split_on c s ≡ s ∷ [] → split_on c (s ++ c ∷ r) ≡ s ∷ split_on c r
unfolding split_on
split_on-append c [] r h = ground (arith, ==_iff c c)
split_on-append c (x ∷ s) r h =
    let (ne, e) = split_on-tail c x s h in rw (ne, split_on-append c s r e) refl

-- The text has no slash at its end.
pub rstrip-segment : (c : ℕ) (s : Text) → split_on c s ≡ s ∷ [] → rstrip c s ≡ s
unfolding rstrip
rstrip-segment c [] h = refl
rstrip-segment c (x ∷ s) h =
    let (ne, e) = split_on-tail c x s h in ground (arith, ne, rstrip-segment c s e)

is_empty-append : (p s : Text) → is_empty s ≡ false → is_empty (p ++ s) ≡ false
is_empty-append [] s f = f
is_empty-append (x ∷ p) s f = refl

pub rstrip-append :
    (c : ℕ) (p s : Text) → is_empty s ≡ false → rstrip c s ≡ s → rstrip c (p ++ s) ≡ p ++ s
unfolding rstrip
rstrip-append c [] s f h = h
rstrip-append c (x ∷ p) s f h = rw (rstrip-append c p s f h, is_empty-append p s f) refl
