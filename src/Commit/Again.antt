-- ===== src/Commit/Again.antt =====
-- commit/routing_key.py: a key that `normalize_routing_key` has made, normalized again.
use rtc_retrieval_token_cutt.Base.{
  ℕ, ◌==◌, leb, ◌≡◌, refl, sym, ap, ◌∙◌, Bool, true, false, not, ◌&&◌, Option, none, some, List, [],
  ◌∷◌, Text, All, is_empty, is_space, text_eq, text_eq_sound, subst, starts_with, strip,
  rstrip_space, length, arith, Bool-cases, both_true, false_of_not, inl, inr,
}
use rtc_retrieval_token_cutt.VectorIndex.Dict.{get}
use rtc_retrieval_token_cutt.Commit.Keys.{
  replace_char, synonym_map, canonical, canonical_or, basic_key, normalize_routing_key,
}
use rtc_retrieval_token_cutt.Commit.Squeeze.{squeeze, squeeze-id, squeeze-single, collapse-squeeze}
use rtc_retrieval_token_cutt.Commit.Settled.{
  head_space, last_space, strip-id, head_space-lstrip, last_space-rstrip, last_space-lstrip,
  replace_char-IsNot, replace_char-id, head_space-replace_char, last_space-replace_char,
  head_space-squeeze, last_space-squeeze, IsNot, All-strip, All-squeeze, All-replace_char,
}

-- What the documentation of `str.lower` says: a letter that a lower-cased text has is left alone, a
-- text of such letters too, and of the ASCII characters only the capitals change.
abbrev pub IsSmall : (Text → Text) → ℕ → Type 0
IsSmall lower c = lower (c ∷ []) ≡ c ∷ []

pub record LowerLaws (lower : Text → Text) : Type 0 where
  pub small : (s : Text) → All (IsSmall lower) (lower s)
  pub lower_small : (s : Text) → All (IsSmall lower) s → lower s ≡ s
  pub ascii : (c : ℕ) → (leb c 127 && not (leb 65 c && leb c 90)) ≡ true → IsSmall lower c

-- A name at the head of a group, as a test.
abbrev small_char : ℕ → Bool
small_char c = (leb c 127 && not (leb 65 c && leb c 90)) && (not (c == b' ') && not (c == b'-'))

abbrev all_chars : Text → Bool
all_chars [] = true
all_chars (c ∷ s) = let rest = all_chars s in small_char c && rest

unfoldable is_head : Text → Bool
unfolding is_space squeeze text_eq canonical
is_head c =
    all_chars c
    && (not (head_space c) && not (last_space c))
    && (text_eq (squeeze c) c && text_eq (canonical c) c)

abbrev heads : List (Text × Text) → Bool
heads [] = true
heads ((_, c) ∷ d) = let rest = heads d in is_head c && rest

synonym_map-heads : heads synonym_map ≡ true
unfolding is_head synonym_map starts_with
synonym_map-heads = refl

get-head :
    (k c : Text) (d : List (Text × Text)) → heads d ≡ true → get k d ≡ some c → is_head c ≡ true
get-head k c [] h e = absurd (cc)
get-head k c ((j, v) ∷ d) h e = elim (Bool-cases (text_eq j k)) [
  | inl y ↦ ground (arith, rw y at e)
  | inr y ↦ get-head k c d (ground (arith, h)) (rw y at e)
]

module _ (lower : Text → Text) (laws : LowerLaws lower) where
  -- A key on which every step is spent.
  record IsSettled (k : Text) : Type 0 where
    small : All (IsSmall lower) k
    head : head_space k ≡ false
    last : last_space k ≡ false
    no_space : All (IsNot b' ') k
    no_dash : All (IsNot b'-') k
    single : squeeze k ≡ k

  basic_key-IsSettled : (raw : Text) → IsSettled (squeeze (basic_key lower raw))
  unfolding basic_key strip
  basic_key-IsSettled raw =
      let low = lower raw in
      let trim = strip low in
      let k₁ = replace_char b' ' b'_' trim in
      let k₂ = replace_char b'-' b'_' k₁ in
      let underscore = laws.ascii b'_' refl in
      let small = All-strip (IsSmall lower) low (laws.small raw) in
      let small₁ = All-replace_char (IsSmall lower) b' ' b'_' trim underscore small in
      let small₂ = All-replace_char (IsSmall lower) b'-' b'_' k₁ underscore small₁ in
      let spaces₁ = replace_char-IsNot b' ' b'_' trim refl in
      let spaces₂ = All-replace_char (IsNot b' ') b'-' b'_' k₁ refl spaces₁ in
      let head₁ = head_space-replace_char b' ' trim (head_space-lstrip (rstrip_space low)) in
      let last₁ =
        last_space-replace_char b' ' trim
          (last_space-lstrip (rstrip_space low) (last_space-rstrip low)) in
      record {
        small = All-squeeze (IsSmall lower) k₂ small₂;
        head = head_space-squeeze k₂ (head_space-replace_char b'-' k₁ head₁);
        last = last_space-squeeze k₂ ∙ last_space-replace_char b'-' k₁ last₁;
        no_space = All-squeeze (IsNot b' ') k₂ spaces₂;
        no_dash = All-squeeze (IsNot b'-') k₂ (replace_char-IsNot b'-' b'_' k₁ refl);
        single = squeeze-id (squeeze k₂) (squeeze-single k₂);
      }

  basic_key-id : (k : Text) → IsSettled k → basic_key lower k ≡ k
  unfolding basic_key
  basic_key-id k h =
      ap (λ s. replace_char b'-' b'_' (replace_char b' ' b'_' (strip s)))
        (laws.lower_small k h.small)
      ∙ ap (λ s. replace_char b'-' b'_' (replace_char b' ' b'_' s)) (strip-id k h.head h.last)
      ∙ ap (replace_char b'-' b'_') (replace_char-id b' ' b'_' k h.no_space)
      ∙ replace_char-id b'-' b'_' k h.no_dash

  normalize-squeeze :
      (raw category : Text)
      → is_empty raw ≡ false
      → normalize_routing_key lower raw category ≡ canonical (squeeze (basic_key lower raw))
  unfolding normalize_routing_key
  normalize-squeeze raw category h = rw h (
      ap canonical
        (collapse-squeeze (length (basic_key lower raw)) (basic_key lower raw) (omega arith)))

  IsSmall-all_chars : (c : Text) → all_chars c ≡ true → All (IsSmall lower) c
  IsSmall-all_chars [] h = tt
  IsSmall-all_chars (x ∷ c) h = (laws.ascii x (ground arith), IsSmall-all_chars c (ground arith))

  no_space_head : (c : Text) → all_chars c ≡ true → All (IsNot b' ') c
  no_space_head [] h = tt
  no_space_head (x ∷ c) h = (ground arith, no_space_head c (ground arith))

  no_dash_head : (c : Text) → all_chars c ≡ true → All (IsNot b'-') c
  no_dash_head [] h = tt
  no_dash_head (x ∷ c) h = (ground arith, no_dash_head c (ground arith))

  is_head-IsSettled : (c : Text) → is_head c ≡ true → IsSettled c × (canonical c ≡ c)
  unfolding is_head
  is_head-IsSettled c h =
      let (rest, same) =
        both_true (all_chars c && (not (head_space c) && not (last_space c))) _ h in
      let (all, ends) = both_true (all_chars c) _ rest in
      let (head, last) = both_true (not (head_space c)) _ ends in
      let (single, fixed) = both_true (text_eq (squeeze c) c) _ same in
      (
        record {
          small = IsSmall-all_chars c all;
          head = false_of_not (head_space c) head;
          last = false_of_not (last_space c) last;
          no_space = no_space_head c all;
          no_dash = no_dash_head c all;
          single = text_eq_sound (squeeze c) c single;
        },
        text_eq_sound (canonical c) c fixed,
      )

  canonical-IsSettled :
      (k : Text) → IsSettled k → IsSettled (canonical k) × (canonical (canonical k) ≡ canonical k)
  unfolding canonical
  canonical-IsSettled k h = through (get k synonym_map) refl
    where
      through :
          (o : Option Text)
          → get k synonym_map ≡ o
          → IsSettled (canonical_or k o) × (canonical (canonical_or k o) ≡ canonical_or k o)
      through none e = (h, ap (canonical_or k) e)
      through (some c) e = is_head-IsSettled c (get-head k c synonym_map synonym_map-heads e)

  -- A key that is normalized once more stays as it is, whatever the category, unless there was nothing
  -- but white space in it.
  pub normalize_routing_key-again :
      (raw category other : Text)
      → is_empty raw ≡ false
      → is_empty (normalize_routing_key lower raw category) ≡ false
      → normalize_routing_key lower (normalize_routing_key lower raw category) other
        ≡ normalize_routing_key lower raw category
  normalize_routing_key-again raw category other h k =
      let e = normalize-squeeze raw category h in
      let key = normalize_routing_key lower raw category in
      let (settled, fixed) = canonical-IsSettled _ (basic_key-IsSettled raw) in
      let s : IsSettled key = subst IsSettled (sym e) settled in
      normalize-squeeze key other k
      ∙ ap (λ t. canonical (squeeze t)) (basic_key-id key s)
      ∙ ap canonical s.single
      ∙ subst (λ t. canonical t ≡ t) (sym e) fixed
