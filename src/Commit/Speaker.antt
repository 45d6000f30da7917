-- ===== src/Commit/Speaker.antt =====
-- code-version/core/validation.py: `validate_attribution`, which makes an entity of a profile that is
-- another speaker's.
use rtc_retrieval_token_cutt.Base.{
  ◌≡◌, refl, Bool, true, false, not, ◌&&◌, inl, inr, Option, none, some, List, [], ◌∷◌, ◌++◌, Text,
  codes, is_empty, text_eq, text_eq_iff, strip, Bool-cases, if◌then◌else◌,
}
use rtc_retrieval_token_cutt.Commit.Keys.{replace_char}
use rtc_retrieval_token_cutt.Commit.Plan.{CandidateMemory}
use rtc_retrieval_token_cutt.Commit.Validation.{is_one_of}

abbrev pub valid_profile_bases : List Text
valid_profile_bases = codes "self_first_person" ∷ codes "self_named" ∷ []

module _ (lower : Text → Text) where
  unfoldable pub normalize_speaker : Text → Text
  unfolding strip
  normalize_speaker s = replace_char b'-' b'_' (replace_char b' ' b'_' (lower (strip s)))

  abbrev pub speaker_or_unknown : Option Text → Text
  speaker_or_unknown none = codes "unknown"
  speaker_or_unknown (some s) = if is_empty s then codes "unknown" else s

  unfoldable pub downgrade_to_entity : CandidateMemory → Option Text → CandidateMemory
  downgrade_to_entity candidate speaker = record candidate {
    category = codes "entity";
    owner_scope = codes "user";
    routing_key =
        replace_char b' ' b'_' (lower (speaker_or_unknown speaker))
        ++ codes "_"
        ++ candidate.routing_key;
  }

  -- The tokens that stand for the user, with the id of the user if there is one.
  abbrev pub user_tokens : (user_id : Text) → List Text
  user_tokens user_id =
      if is_empty user_id
      then codes "user" ∷ codes "<user>" ∷ []
      else normalize_speaker user_id ∷ codes "user" ∷ codes "<user>" ∷ []

  abbrev pub is_foreign : (user_id : Text) → (speaker : Text) → Bool
  is_foreign user_id speaker =
      not (is_empty speaker) && not (is_one_of (normalize_speaker speaker) (user_tokens user_id))

  -- What becomes of a profile, by its basis and its speaker.
  unfoldable pub check_speaker :
      (user_id : Text) → CandidateMemory → (basis speaker : Option Text) → CandidateMemory
  unfolding normalize_speaker downgrade_to_entity is_one_of
  check_speaker user_id candidate none none = candidate
  check_speaker user_id candidate none (some speaker) =
      if is_foreign user_id speaker then downgrade_to_entity candidate (some speaker) else candidate
  check_speaker user_id candidate (some basis) speaker =
      if is_one_of basis valid_profile_bases
      then candidate
      else downgrade_to_entity candidate speaker

  unfoldable pub validate_attribution : (user_id : Text) → CandidateMemory → CandidateMemory
  unfolding check_speaker text_eq
  validate_attribution user_id candidate =
      if text_eq candidate.category (codes "profile")
      then check_speaker user_id candidate candidate.attribution_basis candidate.attributed_speaker
      else candidate

  -- A profile whose basis is strong, or that has none and whose speaker is not named or is the user.
  abbrev pub IsOwn : (user_id : Text) → (basis speaker : Option Text) → Type 0
  IsOwn user_id none none = Unit
  IsOwn user_id none (some speaker) = is_foreign user_id speaker ≡ false
  IsOwn user_id (some basis) speaker = is_one_of basis valid_profile_bases ≡ true

  check_speaker-IsOwn :
      (user_id : Text) (c : CandidateMemory) (basis speaker : Option Text)
      → (check_speaker user_id c basis speaker).category ≡ codes "profile"
      → IsOwn user_id basis speaker × (check_speaker user_id c basis speaker ≡ c)
  unfolding check_speaker downgrade_to_entity
  check_speaker-IsOwn user_id c none none h = (tt, refl)
  check_speaker-IsOwn user_id c none (some speaker) h =
      elim (Bool-cases (is_foreign user_id speaker)) [
        | inl e ↦ absurd (cc (rw e at h))
        | inr e ↦ (e, rw e refl)
      ]
  check_speaker-IsOwn user_id c (some basis) speaker h =
      elim (Bool-cases (is_one_of basis valid_profile_bases)) [
        | inl e ↦ (e, rw e refl)
        | inr e ↦ absurd (cc (rw e at h))
      ]

  -- What is a profile after the check of its attribution was one before and is unchanged, and it is the
  -- user's own: its basis is that the user speaks, or there is no basis and no other speaker is named.
  pub validate_attribution-IsOwn :
      (user_id : Text) (c : CandidateMemory)
      → (validate_attribution user_id c).category ≡ codes "profile"
      → IsOwn user_id c.attribution_basis c.attributed_speaker
        × (validate_attribution user_id c ≡ c)
  unfolding validate_attribution
  validate_attribution-IsOwn user_id c h =
      elim (Bool-cases (text_eq c.category (codes "profile"))) [
        | inl e ↦
            rw e
              (check_speaker-IsOwn user_id c c.attribution_basis c.attributed_speaker (rw e at h))
        | inr e ↦ absurd (cc ((text_eq_iff c.category (codes "profile")).1 (rw e at h), e))
      ]
