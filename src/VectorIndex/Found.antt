-- ===== src/VectorIndex/Found.antt =====
-- The hits that `search_by_vector` of providers/vector_index/in_memory_index.py finds.
use rtc_retrieval_token_cutt.Base.{
  ℕ, ◌≡◌, refl, sym, ap, ◌∙◌, Bool, true, false, Option, none, some, List, [], ◌∷◌, Text, text_eq,
  text_eq_iff, take, length, keep_if, arith, All, Bool-cases, inl, inr, subst, if◌then◌else◌,
  Result, ok, >>=-eq-ok, ◌==◌,
}
use rtc_retrieval_token_cutt.Worker.Tenancy.{ok-injective}
use rtc_retrieval_token_cutt.VectorIndex.Dict.{get, HasDistinctKeys, get-SameKeys}
use rtc_retrieval_token_cutt.VectorIndex.Index.{Vector, IndexRecord, FloatOps, VectorIndex}
use rtc_retrieval_token_cutt.VectorIndex.Search.{
  Expected, SeedHit, matches_raw_filters, record_to_vector_hit, cosine_similarity, similarity,
  collect_hits, sort_hits, search_by_vector,
}
use rtc_retrieval_token_cutt.VectorIndex.Records.{IsIndex}
use rtc_retrieval_token_cutt.VectorIndex.Hits.{AreHits, AreHits-All, collect_hits-AreHits}
use rtc_retrieval_token_cutt.VectorIndex.Ranking.{FloatOrder, Best, ranked-Best}

module _ (ops : FloatOps) where
  -- The hit of a stored record that passes a test, with the record's similarity for score.
  pub record IsHitOf (p : IndexRecord → Bool) (query : Vector) (vectors : List (Text × Vector))
      (records : List (Text × IndexRecord)) (h : SeedHit) : Type 0 where
    pub key : Text
    pub found : IndexRecord
    pub stored : get key records ≡ some found
    pub passes : p found ≡ true
    pub scored : similarity ops query (get key vectors) ≡ ok h.score
    pub shown : h ≡ record_to_vector_hit found h.score

  found_later :
      (p : IndexRecord → Bool) (query : Vector) (vectors : List (Text × Vector)) (k : Text)
      (r : IndexRecord) (d : List (Text × IndexRecord)) (h : SeedHit)
      → get k d ≡ none
      → IsHitOf p query vectors d h
      → IsHitOf p query vectors ((k, r) ∷ d) h
  found_later p query vectors k r d h fresh f = record {
    key = f.key;
    found = f.found;
    stored = ground (arith, fresh, f.stored, text_eq_iff k f.key);
    passes = f.passes;
    scored = f.scored;
    shown = f.shown;
  }

  All-later :
      (p : IndexRecord → Bool) (query : Vector) (vectors : List (Text × Vector)) (k : Text)
      (r : IndexRecord) (d : List (Text × IndexRecord)) (hs : List SeedHit)
      → get k d ≡ none
      → All (IsHitOf p query vectors d) hs
      → All (IsHitOf p query vectors ((k, r) ∷ d)) hs
  All-later p query vectors k r d [] fresh a = tt
  All-later p query vectors k r d (h ∷ hs) fresh a =
      (found_later p query vectors k r d h fresh a.0, All-later p query vectors k r d hs fresh a.1)

  first-IsHit :
      (p : IndexRecord → Bool) (query : Vector) (vectors : List (Text × Vector)) (k : Text)
      (r : IndexRecord) (d : List (Text × IndexRecord)) (s : ℕ)
      → p r ≡ true
      → similarity ops query (get k vectors) ≡ ok s
      → IsHitOf p query vectors ((k, r) ∷ d) (record_to_vector_hit r s)
  unfolding record_to_vector_hit
  first-IsHit p query vectors k r d s pass score = record {
    key = k;
    found = r;
    stored = ground (arith, text_eq_iff k k);
    passes = pass;
    scored = score;
    shown = refl;
  }

  pub collect_hits-All :
      (p : IndexRecord → Bool) (query : Vector) (vectors : List (Text × Vector))
      (d : List (Text × IndexRecord)) (hits : List SeedHit)
      → HasDistinctKeys d
      → collect_hits ops p query vectors d ≡ ok hits
      → All (IsHitOf p query vectors d) hits × (length hits ≡ length (keep_if (λ e. p e.1) d))
  unfolding collect_hits
  collect_hits-All p query vectors [] hits u h =
      subst (λ hs. All (IsHitOf p query vectors []) hs × (length hs ≡ 0)) (ok-injective h)
        (tt, refl)
  collect_hits-All p query vectors ((k, r) ∷ d) hits u h = elim (Bool-cases (p r)) [
    | inl pass ↦
        let (s, score, h₁) = >>=-eq-ok (similarity ops query (get k vectors)) _ (rw pass at h) in
        let (hs, rest, h₂) = >>=-eq-ok (collect_hits ops p query vectors d) _ h₁ in
        let (a, n) = collect_hits-All p query vectors d hs u.1 rest in
        subst
          (λ z.
            All (IsHitOf p query vectors ((k, r) ∷ d)) z
            × (length z ≡ length (keep_if (λ e. p e.1) ((k, r) ∷ d))))
          (ok-injective h₂)
          (
            (
              first-IsHit p query vectors k r d s pass score,
              All-later p query vectors k r d hs u.0 a,
            ),
            ground (arith, pass, n),
          )
    | inr fail ↦
        let (a, n) = collect_hits-All p query vectors d hits u.1 (rw fail at h) in
        (All-later p query vectors k r d hits u.0 a, ground (arith, fail, n))
  ]

  -- A search returns the best `top_k` of the hits of the stored records that pass the filters, which are
  -- one hit for each of these records, with its cosine similarity for score; the highest scores first,
  -- provided that the similarities are numbers, which are ordered as numbers are.
  pub search_by_vector-Best :
      (order : FloatOrder ops) (query : Vector) (filters : List (Text × Expected)) (top_k : ℕ)
      (x : VectorIndex) (hits : List SeedHit)
      → ((k : Text) (s : ℕ) → similarity ops query (get k x.vectors) ≡ ok s → order.IsNumber s)
      → search_by_vector ops query filters top_k x ≡ ok hits
      → (all : List SeedHit) × AreHits ops query x.vectors
          (keep_if (λ e. matches_raw_filters e.1 filters) x.records)
          all
        × Best ops order top_k all hits
  unfolding search_by_vector
  search_by_vector-Best order query filters top_k x hits numbers h =
      let p : IndexRecord → Bool = λ r. matches_raw_filters r filters in
      let (all, found, best) =
        ranked-Best ops order top_k (collect_hits ops p query x.vectors x.records) hits h
          (λ all found.
            AreHits-All ops query x.vectors order.IsNumber (keep_if (λ e. p e.1) x.records) all
              numbers (collect_hits-AreHits ops query x.vectors p x.records all found)) in
      (all, collect_hits-AreHits ops query x.vectors p x.records all found, best)

  cosine-total : (a b : Vector) → length a ≡ length b → (s : ℕ) × (cosine_similarity ops a b ≡ ok s)
  unfolding cosine_similarity
  cosine-total a b e = elim (Bool-cases (length a == length b)) [
    | inl same ↦ rw same (if_ok _ _ _)
    | inr other ↦ absurd (ground (arith, e, other))
  ]
    where
      if_ok :
          (c : Bool) (m n : ℕ)
          → (s : ℕ) × ((let r : Result ℕ = if c then ok m else ok n in r) ≡ ok s)
      if_ok true m n = (m, refl)
      if_ok false m n = (n, refl)

  abbrev pub HasLength : ℕ → Text × Vector → Type 0
  HasLength n (k, v) = length v ≡ n

  get-HasLength :
      (n : ℕ) (k : Text) (v : Vector) (d : List (Text × Vector))
      → All (HasLength n) d
      → get k d ≡ some v
      → length v ≡ n
  get-HasLength n k v [] a g = absurd (cc)
  get-HasLength n k v ((j, w) ∷ d) a g = elim (Bool-cases (text_eq j k)) [
    | inl here ↦ ap length (sym (some_injective (rw here at g))) ∙ a.0
    | inr there ↦ get-HasLength n k v d a.1 (rw there at g)
  ]
    where
      some_injective : {u z : Vector} → Option.some u ≡ some z → u ≡ z
      some_injective e = cc

  collect-total :
      (p : IndexRecord → Bool) (query : Vector) (vectors : List (Text × Vector))
      (d : List (Text × IndexRecord))
      → ((k : Text) (r : IndexRecord)
          → get k d ≡ some r
          → (s : ℕ) × (similarity ops query (get k vectors) ≡ ok s))
      → HasDistinctKeys d
      → (hits : List SeedHit) × (collect_hits ops p query vectors d ≡ ok hits)
  unfolding collect_hits
  collect-total p query vectors [] t u = ([], refl)
  collect-total p query vectors ((k, r) ∷ d) t u =
      let (s, score) = t k r (ground (arith, text_eq_iff k k)) in
      let (hs, rest) =
        collect-total p query vectors d (λ j q g. t j q (ground (arith, g, u.0, text_eq_iff k j)))
          u.1 in
      elim (Bool-cases (p r)) [
        | inl pass ↦ (record_to_vector_hit r s ∷ hs, rw (pass, score, rest) refl)
        | inr fail ↦ (hs, rw fail rest)
      ]

  -- A search of a well-formed index whose vectors all have the dimension of the query's does not
  -- raise.
  pub search_by_vector-answers :
      (query : Vector) (filters : List (Text × Expected)) (top_k : ℕ) (x : VectorIndex)
      → IsIndex x
      → All (HasLength (length query)) x.vectors
      → (hits : List SeedHit) × (search_by_vector ops query filters top_k x ≡ ok hits)
  unfolding search_by_vector
  search_by_vector-answers query filters top_k x i a =
      let (hs, e) =
        collect-total (λ r. matches_raw_filters r filters) query x.vectors x.records
          (λ k r g.
            let (v, there) = get-SameKeys k r x.records x.vectors i.same_keys g in
            let (s, score) =
              cosine-total query v (sym (get-HasLength (length query) k v x.vectors a there)) in
            (s, rw there score))
          i.distinct in
      (take top_k (sort_hits ops hs), rw e refl)
