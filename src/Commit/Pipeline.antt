-- ===== src/Commit/Pipeline.antt =====
-- commit/candidate_pipeline.py: the candidates of all extractors. An extractor is what its call comes to
-- on the messages: its candidates, or an exception.
use rtc_retrieval_token_cutt.Base.{
  ℕ, Bool, true, false, List, [], ◌∷◌, ◌++◌, keep_if, if◌then◌else◌, Error, Result, ok, raised,
  value_error, validation_error, ◌>>=◌,
}
use rtc_retrieval_token_cutt.Commit.Plan.{CandidateMemory}

module _ (validate : CandidateMemory → Result CandidateMemory) where
  abbrev pub or_nothing : Result (List CandidateMemory) → List CandidateMemory
  or_nothing (raised _) = []
  or_nothing (ok candidates) = candidates

  -- An extractor that raises is logged and passed over.
  unfoldable pub all_candidates : List (Result (List CandidateMemory)) → List CandidateMemory
  all_candidates [] = []
  all_candidates (r ∷ rs) = or_nothing r ++ all_candidates rs

  -- `except ValidationError`
  abbrev pub is_rejection : Error → Bool
  is_rejection validation_error = true
  is_rejection _ = false

  abbrev pub keep_valid :
      Result CandidateMemory → Result (List CandidateMemory) → Result (List CandidateMemory)
  keep_valid (raised x) kept = if is_rejection x then kept else raised x
  keep_valid (ok candidate) kept = kept >>= λ candidates. ok (candidate ∷ candidates)

  -- `validate` stands for validate_attribution and validate_candidate; an exception of theirs that is no
  -- ValidationError ends the loop.
  unfoldable pub validate_all : List CandidateMemory → Result (List CandidateMemory)
  validate_all [] = ok []
  validate_all (c ∷ cs) = keep_valid (validate c) (validate_all cs)

  -- `_extract_serial`
  unfoldable pub extract_serial :
      List (Result (List CandidateMemory)) → Result (List CandidateMemory)
  unfolding all_candidates validate_all
  extract_serial extractors = validate_all (all_candidates extractors)

  -- `_extract_parallel`, with the results in the order in which the calls complete. A pool for no
  -- extractor raises ValueError.
  unfoldable pub extract_parallel :
      (completed : List (Result (List CandidateMemory))) → Result (List CandidateMemory)
  unfolding all_candidates validate_all
  extract_parallel [] = raised value_error
  extract_parallel (r ∷ rs) = validate_all (all_candidates (r ∷ rs))

unfoldable pub filter_by_confidence :
    (float_le : ℕ → ℕ → Bool) (threshold : ℕ) → List CandidateMemory → List CandidateMemory
filter_by_confidence float_le threshold candidates =
    keep_if (λ c. float_le threshold c.confidence) candidates

-- The deduplication is switched off.
unfoldable pub deduplicate : List CandidateMemory → List CandidateMemory
deduplicate candidates = candidates
