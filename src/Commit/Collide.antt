-- ===== src/Commit/Collide.antt =====
-- code-version/core/validation.py: the comparison of the routing key with the category, which reads the
-- key before it is normalized.
use rtc_retrieval_token_cutt.Base.{
  ℕ, ◌≡◌, refl, sym, ap, ◌∙◌, subst, Bool, true, false, Option, List, [], ◌∷◌, Text, codes, All,
  is_empty, text_eq, text_eq_sound, Bool-cases, inl, inr, ok,
}
use rtc_retrieval_token_cutt.Commit.Plan.{CandidateMemory}
use rtc_retrieval_token_cutt.Commit.Validation.{
  clamp, validate_slug, fits_slug, normalize_slug, key_or_auto, valid_categories, is_one_of,
  when_given, check_html, check_plain, validated_key, is_allowed, validate_candidate,
}

is_one_of-All :
    (P : Text → Type 0) (t : Text) (ss : List Text) → All P ss → is_one_of t ss ≡ true → P t
unfolding is_one_of
is_one_of-All P t [] h e = absurd (cc)
is_one_of-All P t (s ∷ ss) h e = elim (Bool-cases (text_eq t s)) [
  | inl y ↦ subst P (sym (text_eq_sound t s y)) h.0
  | inr y ↦ is_one_of-All P t ss h.1 (rw y at e)
]

abbrev Passes : Text → Type 0
Passes t = validate_slug t ≡ ok t

categories-Passes : All Passes valid_categories
unfolding validate_slug fits_slug
categories-Passes =
    (refl, (refl, (refl, (refl, (refl, (refl, (refl, (refl, (refl, (refl, (refl, tt)))))))))))

module _ (lower sha256 : Text → Text) (float_le float_lt : ℕ → ℕ → Bool) where
  -- A candidate whose texts pass their checks, and whose category and scope are known, is accepted with
  -- its category as its routing key, if the key is normalized to the category's name and is not that
  -- name before.
  pub validate_candidate-collides :
      (c : CandidateMemory) (abstract overview content : Option Text)
      → when_given (check_html 200) c.abstract ≡ ok abstract
      → when_given (check_html 5000) c.overview ≡ ok overview
      → when_given (check_plain 100000) c.content ≡ ok content
      → is_one_of c.category valid_categories ≡ true
      → is_one_of c.owner_scope (codes "user" ∷ codes "agent" ∷ []) ≡ true
      → is_empty c.routing_key ≡ false
      → normalize_slug lower c.routing_key ≡ c.category
      → text_eq c.routing_key c.category ≡ false
      → (v : CandidateMemory) × (validate_candidate lower sha256 float_le float_lt c ≡ ok v)
        × (v.routing_key ≡ c.category)
  unfolding validate_candidate is_allowed
  validate_candidate-collides c abstract overview content a o t known scope full k other =
      let key : validated_key lower sha256 float_le float_lt c.routing_key ≡ ok c.category =
        rw full (
          ap (λ s. key_or_auto c.routing_key (sha256 c.routing_key) (validate_slug s)) k
          ∙ ap (key_or_auto c.routing_key (sha256 c.routing_key))
              (is_one_of-All Passes c.category valid_categories categories-Passes known)) in
      (
        record c {
          abstract = abstract;
          overview = overview;
          content = content;
          routing_key = c.category;
          confidence = clamp lower sha256 float_le float_lt c.confidence;
        },
        rw (a, o, t, key, known, other, scope) refl,
        refl,
      )
