-- ===== src/VectorIndex/Hits.antt =====
-- providers/vector_index/in_memory_index.py: the hits of the loop over the records, one for each.
use rtc_retrieval_token_cutt.Base.{
  ℕ, ◌≡◌, refl, subst, Bool, true, false, List, [], ◌∷◌, Text, keep_if, All, Bool-cases, inl, inr,
  ok, >>=-eq-ok,
}
use rtc_retrieval_token_cutt.Worker.Tenancy.{ok-injective}
use rtc_retrieval_token_cutt.VectorIndex.Dict.{get}
use rtc_retrieval_token_cutt.VectorIndex.Index.{Vector, IndexRecord, FloatOps}
use rtc_retrieval_token_cutt.VectorIndex.Search.{
  SeedHit, record_to_vector_hit, similarity, collect_hits,
}

module _ (ops : FloatOps) (query : Vector) (vectors : List (Text × Vector)) where
  -- The hit of a record, with the similarity of the record's vector for score.
  pub record IsHit (e : Text × IndexRecord) (h : SeedHit) : Type 0 where
    pub scored : similarity ops query (get e.0 vectors) ≡ ok h.score
    pub shown : h ≡ record_to_vector_hit e.1 h.score

  -- The hits of the records, one for each and in their order.
  abbrev pub AreHits : List (Text × IndexRecord) → List SeedHit → Type 0
  AreHits [] [] = Unit
  AreHits [] (h ∷ hs) = true ≡ false
  AreHits (e ∷ d) [] = true ≡ false
  AreHits (e ∷ d) (h ∷ hs) = IsHit e h × AreHits d hs

  first-IsHit :
      (e : Text × IndexRecord) (s : ℕ)
      → similarity ops query (get e.0 vectors) ≡ ok s
      → IsHit e (record_to_vector_hit e.1 s)
  unfolding record_to_vector_hit
  first-IsHit e s score = record { scored = score; shown = refl }

  pub collect_hits-AreHits :
      (p : IndexRecord → Bool) (d : List (Text × IndexRecord)) (hits : List SeedHit)
      → collect_hits ops p query vectors d ≡ ok hits
      → AreHits (keep_if (λ e. p e.1) d) hits
  unfolding collect_hits
  collect_hits-AreHits p [] hits h = subst (AreHits []) (ok-injective h) tt
  collect_hits-AreHits p ((k, r) ∷ d) hits h = elim (Bool-cases (p r)) [
    | inl pass ↦
        let (s, score, h₁) = >>=-eq-ok (similarity ops query (get k vectors)) _ (rw pass at h) in
        let (hs, rest, h₂) = >>=-eq-ok (collect_hits ops p query vectors d) _ h₁ in
        rw pass (
          subst (AreHits ((k, r) ∷ keep_if (λ e. p e.1) d)) (ok-injective h₂)
            (first-IsHit (k, r) s score, collect_hits-AreHits p d hs rest))
    | inr fail ↦ rw fail (collect_hits-AreHits p d hits (rw fail at h))
  ]

  -- What holds of every similarity holds of the scores.
  pub AreHits-All :
      (P : ℕ → Type 0) (d : List (Text × IndexRecord)) (hs : List SeedHit)
      → ((k : Text) (s : ℕ) → similarity ops query (get k vectors) ≡ ok s → P s)
      → AreHits d hs
      → All (λ h. P h.score) hs
  AreHits-All P [] [] n a = tt
  AreHits-All P [] (h ∷ hs) n a = absurd (cc)
  AreHits-All P (e ∷ d) [] n a = absurd (cc)
  AreHits-All P (e ∷ d) (h ∷ hs) n a = (n e.0 h.score a.0.scored, AreHits-All P d hs n a.1)
