-- ===== src/Commit/Valid.antt =====
-- code-version/core/validation.py: how long the texts of a validated candidate are, and what its
-- routing key is.
use rtc_retrieval_token_cutt.Base.{
  ℕ, ◌-◌, ◌*◌, ◌≤◌, ◌==◌, leb, ltb, ◌≡◌, refl, sym, subst, Bool, true, false, not, ◌&&◌, ◌||◌, ◌⊎◌,
  inl, inr, Option, none, some, [], ◌∷◌, ◌++◌, Text, codes, All, All-append, All-take, is_empty,
  is_space, text_eq, strip, rstrip, take, length, length-append, length-take, keep_if, arith,
  Bool-cases, both_true, Result, ok, IfOk, >>=-eq-ok,
}
use rtc_retrieval_token_cutt.Commit.Chunks.{lstrip}
use rtc_retrieval_token_cutt.Commit.Plan.{CandidateMemory}
use rtc_retrieval_token_cutt.Commit.Validation.{
  is_surrogate, validate_text_length, validate_utf8, escape_char, sanitize_html, slug_char,
  fits_slug, validate_slug, dash_runs, normalize_slug, key_or_auto, valid_categories, is_one_of,
  when_given, check_html, check_plain, validated_key, is_allowed, validated, validate_candidate,
}

length-escape_char : (c : ℕ) → length (escape_char c) ≤ 6
length-escape_char c = ground arith

length-sanitize_html : (t : Text) → length (sanitize_html t) ≤ 6 * length t
unfolding sanitize_html
length-sanitize_html [] = omega arith
length-sanitize_html (c ∷ t) = omega (
  arith,
  length-append (escape_char c) (sanitize_html t),
  length-escape_char c,
  length-sanitize_html t,
)

length-validate_text_length :
    (m : ℕ) (t r : Text) → 3 ≤ m → validate_text_length m t ≡ ok r → length r ≤ m
unfolding validate_text_length
length-validate_text_length m t r h e = elim (Bool-cases (leb (length t) m)) [
  | inl a ↦ subst (IfOk (λ s. length s ≤ m)) (rw a at e) (ground (arith, a))
  | inr a ↦ elim (Bool-cases (ltb (11 * m) (10 * length t))) [
    | inl b ↦ absurd (cc (rw (a, b) at e))
    | inr b ↦ subst (IfOk (λ s. length s ≤ m)) (rw (a, b) at e) cut
  ]
]
  where
    cut : length (take (m - 3) t ++ codes "...") ≤ m
    cut = omega (arith, h, length-append (take (m - 3) t) (codes "..."), length-take (m - 3) t)

-- A text that is None, or not longer.
abbrev pub Within : ℕ → Option Text → Type 0
Within m none = Unit
Within m (some t) = length t ≤ m

when_given-Within :
    (m : ℕ) (check : Text → Result Text) (o q : Option Text)
    → ((t r : Text) → check t ≡ ok r → length r ≤ m)
    → when_given check o ≡ ok q
    → Within m q
when_given-Within m check none q b h = subst (IfOk (Within m)) h tt
when_given-Within m check (some t) q b h = elim (Bool-cases (is_empty t)) [
  | inl a ↦ subst (IfOk (Within m)) (rw a at h) tt
  | inr a ↦ let (r, e, k) = >>=-eq-ok (check t) _ (rw a at h) in subst (IfOk (Within m)) k (b t r e)
]

module _ (m : ℕ) (h : 3 ≤ m) where
  short : (encoded r : Text) → validate_text_length m encoded ≡ ok r → length r ≤ m
  short encoded r e = length-validate_text_length m encoded r h e

  check_plain-length : (t r : Text) → check_plain m t ≡ ok r → length r ≤ m
  check_plain-length t r e =
      let (encoded, _, k) = >>=-eq-ok (validate_utf8 t) _ e in short encoded r k

  check_html-length : (t r : Text) → check_html m t ≡ ok r → length r ≤ 6 * m
  check_html-length t r e =
      let (encoded, _, k) = >>=-eq-ok (validate_utf8 t) _ e in
      let (cut, c, q) = >>=-eq-ok (validate_text_length m encoded) _ k in
      subst (IfOk (λ s. length s ≤ 6 * m)) q
        (omega (arith, length-sanitize_html cut, short encoded cut c))

module _ (P : ℕ → Type 0) where
  All-rstrip : (c : ℕ) (s : Text) → All P s → All P (rstrip c s)
  unfolding rstrip
  All-rstrip c [] h = tt
  All-rstrip c (x ∷ s) h = elim (Bool-cases (is_empty (rstrip c s) && x == c)) [
    | inl e ↦ rw e tt
    | inr e ↦ rw e (h.0, All-rstrip c s h.1)
  ]

  All-lstrip : (c : ℕ) (s : Text) → All P s → All P (lstrip c s)
  unfolding lstrip
  All-lstrip c [] h = tt
  All-lstrip c (x ∷ s) h = elim (Bool-cases (x == c)) [
    | inl e ↦ rw e (All-lstrip c s h.1)
    | inr e ↦ rw e h
  ]

  All-dash_runs :
      (p : ℕ → Bool) (in_run : Bool) (s : Text) → P b'-' → All P s → All P (dash_runs p in_run s)
  unfolding dash_runs
  All-dash_runs p in_run [] d h = tt
  All-dash_runs p in_run (c ∷ s) d h = elim (Bool-cases (p c)) [
    | inl e ↦ elim (Bool-cases in_run) [
      | inl r ↦ rw (e, r) (All-dash_runs p true s d h.1)
      | inr r ↦ rw (e, r) (d, All-dash_runs p true s d h.1)
    ]
    | inr e ↦ rw e (h.0, All-dash_runs p false s d h.1)
  ]

abbrev IsSlugChar : ℕ → Type 0
IsSlugChar c = slug_char c ≡ true

All-keep_if : (s : Text) → All IsSlugChar (keep_if slug_char s)
All-keep_if [] = tt
All-keep_if (c ∷ s) = elim (Bool-cases (slug_char c)) [
  | inl e ↦ rw e (e, All-keep_if s)
  | inr e ↦ rw e (All-keep_if s)
]

normalize_slug-All : (lower : Text → Text) (s : Text) → All IsSlugChar (normalize_slug lower s)
unfolding normalize_slug
normalize_slug-All lower s =
    let kept = keep_if slug_char (dash_runs is_space false (strip (lower s))) in
    All-lstrip IsSlugChar b'-' _ (
      All-rstrip IsSlugChar b'-' _ (
        All-dash_runs IsSlugChar (λ c. c == b'-') false kept refl
          (All-keep_if (dash_runs is_space false (strip (lower s))))))

-- A key that can stand in a URI: not empty, no longer than a hundred characters, each of those that a
-- slug has.
pub record IsSlug (s : Text) : Type 0 where
  pub full : is_empty s ≡ false
  pub chars : All (λ c. slug_char c ≡ true) s
  pub length : length s ≤ 100

-- An empty key stays empty.
abbrev pub IsKey : (given key : Text) → Type 0
IsKey [] key = key ≡ []
IsKey (x ∷ given) key = IsSlug key

abbrev pub is_hex : ℕ → Bool
is_hex c = (leb 48 c && leb c 57) || (leb 97 c && leb c 102)

-- `hexdigest`
pub record IsDigest (sha256 : Text → Text) : Type 0 where
  pub hex : (t : Text) → All (λ c. is_hex c ≡ true) (sha256 t)

hex-slug : (t : Text) → All (λ c. is_hex c ≡ true) t → All IsSlugChar t
hex-slug [] h = tt
hex-slug (c ∷ t) h = (ground (arith, h.0), hex-slug t h.1)

-- What validation ensures of a candidate that had the given key.
pub record IsValid (given : Text) (c : CandidateMemory) : Type 0 where
  pub abstract : Within 1200 c.abstract
  pub overview : Within 30000 c.overview
  pub content : Within 100000 c.content
  pub key : IsKey given c.routing_key
  pub category : is_one_of c.category valid_categories ≡ true
  pub scope : is_one_of c.owner_scope (codes "user" ∷ codes "agent" ∷ []) ≡ true

module _ (lower sha256 : Text → Text) (float_le float_lt : ℕ → ℕ → Bool) where
  auto-IsSlug : (t : Text) → IsDigest sha256 → IsSlug (codes "auto-" ++ take 16 (sha256 t))
  auto-IsSlug t d = record {
    full = refl;
    chars =
        All-append IsSlugChar (codes "auto-") _ (refl, (refl, (refl, (refl, (refl, tt)))))
          (All-take IsSlugChar 16 (sha256 t) (hex-slug (sha256 t) (d.hex t)));
    length = omega (arith, length-take 16 (sha256 t));
  }

  key_or_auto-IsSlug :
      (t key slug : Text)
      → IsDigest sha256
      → All IsSlugChar slug
      → key_or_auto t (sha256 t) (validate_slug slug) ≡ ok key
      → IsSlug key
  unfolding validate_slug
  key_or_auto-IsSlug t key slug d chars h = checked (Bool-cases refused)
    where
      refused : Bool
      refused = is_empty slug || ltb 100 (length slug) || not (fits_slug slug)

      checked : (refused ≡ true) ⊎ (refused ≡ false) → IsSlug key
      checked (inl e) = elim (Bool-cases (is_empty (keep_if is_surrogate t))) [
        | inl k ↦ subst (IfOk IsSlug) (rw (e, k) at h) (auto-IsSlug t d)
        | inr k ↦ absurd (cc (rw (e, k) at h))
      ]
      checked (inr e) =
          subst (IfOk IsSlug) (rw e at h)
            (record { full = ground (arith, e); chars = chars; length = ground (arith, e) })

  validated_key-IsKey :
      (t key : Text)
      → IsDigest sha256
      → validated_key lower sha256 float_le float_lt t ≡ ok key
      → IsKey t key
  validated_key-IsKey [] key d h = let same : [] ≡ key = cc in sym same
  validated_key-IsKey (x ∷ t) key d h =
      key_or_auto-IsSlug (x ∷ t) key (normalize_slug lower (x ∷ t)) d
        (normalize_slug-All lower (x ∷ t)) h

  -- A candidate that passes validation has texts of bounded length, the abstract and the overview six
  -- times as long as the limits since each character may be escaped, a slug as its key unless the key
  -- was empty and is so still, and a known category and scope.
  pub validate_candidate-IsValid :
      (c v : CandidateMemory)
      → IsDigest sha256
      → validate_candidate lower sha256 float_le float_lt c ≡ ok v
      → IsValid c.routing_key v
  unfolding validate_candidate is_allowed
  validate_candidate-IsValid c v d h =
      let (abstract, a, h₁) = >>=-eq-ok (when_given (check_html 200) c.abstract) _ h in
      let (overview, o, h₂) = >>=-eq-ok (when_given (check_html 5000) c.overview) _ h₁ in
      let (content, t, h₃) = >>=-eq-ok (when_given (check_plain 100000) c.content) _ h₂ in
      let (key, k, h₄) =
        >>=-eq-ok (validated_key lower sha256 float_le float_lt c.routing_key) _ h₃ in
      let a' =
        when_given-Within 1200 (check_html 200) c.abstract abstract
          (check_html-length 200 (omega arith)) a in
      let o' =
        when_given-Within 30000 (check_html 5000) c.overview overview
          (check_html-length 5000 (omega arith)) o in
      let t' =
        when_given-Within 100000 (check_plain 100000) c.content content
          (check_plain-length 100000 (omega arith)) t in
      finish abstract overview content key a' o' t' (validated_key-IsKey c.routing_key key d k)
        (is_allowed c) refl h₄
    where
      finish :
          (abstract overview content : Option Text) (key : Text)
          → Within 1200 abstract
          → Within 30000 overview
          → Within 100000 content
          → IsKey c.routing_key key
          → (b : Bool) → is_allowed c ≡ b
          → validated lower sha256 float_le float_lt c abstract overview content key b ≡ ok v
          → IsValid c.routing_key v
      finish abstract overview content key a o t k false e h = absurd (cc)
      finish abstract overview content key a o t k true e h =
          let (category, rest) = both_true (is_one_of c.category valid_categories) _ e in
          let (_, scope) = both_true (not (text_eq c.routing_key c.category)) _ rest in
          subst (IfOk (IsValid c.routing_key)) h (record {
            abstract = a;
            overview = o;
            content = t;
            key = k;
            category = category;
            scope = scope;
          })
