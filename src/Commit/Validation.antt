-- ===== src/Commit/Validation.antt =====
-- code-version/core/validation.py: the checks and the changes of a candidate before it is committed.
-- The digest and the order of floats are parameters.
use rtc_retrieval_token_cutt.Base.{
  ℕ, ◌-◌, ◌*◌, ◌==◌, leb, ltb, Bool, true, false, not, ◌&&◌, ◌||◌, Option, none, some, List, [],
  ◌∷◌, ◌++◌, Text, codes, is_empty, is_space, text_eq, strip, rstrip, take, length, keep_if,
  if◌then◌else◌, Result, ok, raised, validation_error, value_error, ◌>>=◌,
}
use rtc_retrieval_token_cutt.Commit.Chunks.{lstrip}
use rtc_retrieval_token_cutt.Commit.Plan.{CandidateMemory}

-- `len(text) > max_len * 1.1`: the product of the floats is never below the exact one, and less than a
-- tenth above it.
unfoldable pub validate_text_length : (max_len : ℕ) → Text → Result Text
validate_text_length max_len text =
    if leb (length text) max_len
    then ok text
    else if ltb (11 * max_len) (10 * length text)
    then raised validation_error
    else ok (take (max_len - 3) text ++ codes "...")

-- A surrogate has no encoding.
abbrev pub is_surrogate : ℕ → Bool
is_surrogate c = leb 55296 c && leb c 57343

unfoldable pub validate_utf8 : Text → Result Text
validate_utf8 text =
    if is_empty (keep_if is_surrogate text) then ok text else raised validation_error

-- html.escape(text)
abbrev pub escape_char : ℕ → Text
escape_char c =
    if c == b'&'
    then codes "&amp;"
    else if c == b'<'
    then codes "&lt;"
    else if c == b'>'
    then codes "&gt;"
    else if c == b'"'
    then codes "&quot;"
    else if c == b'\''
    then codes "&#x27;"
    else c ∷ []

unfoldable pub sanitize_html : Text → Text
sanitize_html [] = []
sanitize_html (c ∷ text) = escape_char c ++ sanitize_html text

abbrev pub slug_char : ℕ → Bool
slug_char c = (leb 97 c && leb c 122) || (leb 48 c && leb c 57) || c == b'_' || c == b'-'

unfoldable pub all_slug : Text → Bool
all_slug [] = true
all_slug (c ∷ s) = let rest = all_slug s in slug_char c && rest

-- The `$` of the pattern also stands before a line feed that ends the text.
unfoldable pub fits_slug : Text → Bool
fits_slug [] = false
fits_slug (c ∷ []) = slug_char c
fits_slug (c ∷ d ∷ s) =
    let rest = fits_slug (d ∷ s) in slug_char c && (rest || (d == 10 && is_empty s))

unfoldable pub validate_slug : Text → Result Text
unfolding fits_slug
validate_slug slug =
    if is_empty slug || ltb 100 (length slug) || not (fits_slug slug)
    then raised validation_error
    else ok slug

-- re.sub of a run of such characters by one dash
unfoldable pub dash_runs : (ℕ → Bool) → (in_run : Bool) → Text → Text
dash_runs p in_run [] = []
dash_runs p in_run (c ∷ s) =
    let run = dash_runs p true s in
    let kept = c ∷ dash_runs p false s in if p c then (if in_run then run else b'-' ∷ run) else kept

-- A key that is no slug is replaced by one of its digest, for which it is encoded; the UnicodeEncodeError
-- of a surrogate is a ValueError.
abbrev pub key_or_auto : (routing_key hash : Text) → Result Text → Result Text
key_or_auto routing_key hash (ok key) = ok key
key_or_auto routing_key hash (raised _) =
    if is_empty (keep_if is_surrogate routing_key)
    then ok (codes "auto-" ++ take 16 hash)
    else raised value_error

abbrev pub valid_categories : List Text
valid_categories =
    codes "profile"
    ∷ codes "preference"
    ∷ codes "entity"
    ∷ codes "event"
    ∷ codes "case"
    ∷ codes "pattern"
    ∷ codes "skill"
    ∷ codes "tool"
    ∷ codes "code"
    ∷ codes "natural_language"
    ∷ codes "tool_outputs"
    ∷ []

unfoldable pub is_one_of : Text → List Text → Bool
unfolding text_eq
is_one_of t [] = false
is_one_of t (s ∷ ss) = let rest = is_one_of t ss in text_eq t s || rest

-- `if text:`, and the checks of a text that is there
abbrev pub when_given : (Text → Result Text) → Option Text → Result (Option Text)
when_given check none = ok none
when_given check (some t) =
    if is_empty t then ok none else (check t >>= λ validated. ok (some validated))

abbrev pub check_html : (max_len : ℕ) → Text → Result Text
check_html max_len t = do
  encoded ← validate_utf8 t
  short ← validate_text_length max_len encoded
  ok (sanitize_html short)

abbrev pub check_plain : (max_len : ℕ) → Text → Result Text
check_plain max_len t = validate_utf8 t >>= validate_text_length max_len

-- The three checks behind the texts and the key.
unfoldable pub is_allowed : CandidateMemory → Bool
unfolding is_one_of text_eq
is_allowed candidate =
    is_one_of candidate.category valid_categories
    && (not (text_eq candidate.routing_key candidate.category)
        && is_one_of candidate.owner_scope (codes "user" ∷ codes "agent" ∷ []))

module _ (lower : Text → Text) where
  unfoldable pub normalize_slug : Text → Text
  unfolding dash_runs lstrip rstrip strip is_space
  normalize_slug slug =
      let low = strip (lower slug) in
      let kept = keep_if slug_char (dash_runs is_space false low) in
      lstrip b'-' (rstrip b'-' (dash_runs (λ c. c == b'-') false kept))

  module _ (sha256 : Text → Text) (float_le float_lt : ℕ → ℕ → Bool) where
    -- 1.0 in its 64 bits; those of 0.0 are 0.
    abbrev one : ℕ
    one = 4607182418800017408

    abbrev pub clamp : ℕ → ℕ
    clamp confidence =
        let low = if float_lt confidence one then confidence else one in
        if float_le 0 confidence && float_le confidence one
        then confidence
        else if float_lt 0 low
        then low
        else 0

    abbrev pub validated_key : Text → Result Text
    validated_key routing_key =
        if is_empty routing_key
        then ok routing_key
        else key_or_auto routing_key (sha256 routing_key)
            (validate_slug (normalize_slug routing_key))

    abbrev pub validated :
        CandidateMemory
        → (abstract overview content : Option Text) (routing_key : Text) → Bool
        → Result CandidateMemory
    validated candidate abstract overview content routing_key false = raised validation_error
    validated candidate abstract overview content routing_key true = ok (record candidate {
      abstract = abstract;
      overview = overview;
      content = content;
      routing_key = routing_key;
      confidence = clamp candidate.confidence;
    })

    unfoldable pub validate_candidate : CandidateMemory → Result CandidateMemory
    unfolding validate_text_length validate_utf8 sanitize_html validate_slug normalize_slug
        is_allowed
    validate_candidate candidate = do
      abstract ← when_given (check_html 200) candidate.abstract
      overview ← when_given (check_html 5000) candidate.overview
      content ← when_given (check_plain 100000) candidate.content
      routing_key ← validated_key candidate.routing_key
      validated candidate abstract overview content routing_key (is_allowed candidate)
