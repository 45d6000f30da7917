-- ===== src/VectorIndex/Scope.antt =====
-- Whose records a search of providers/vector_index/in_memory_index.py returns, and where they stand.
use rtc_retrieval_token_cutt.Base.{
  ℕ, ◌≡◌, ◌≢◌, refl, ap, ◌∙◌, Bool, true, false, ◌&&◌, some, List, [], ◌∷◌, ◌++◌, Text, codes,
  starts_with, contains, drop, length, arith, All, ok, ==_iff, ◌==◌,
}
use rtc_retrieval_token_cutt.VectorIndex.Index.{
  Vector, IndexRecord, FloatOps, VectorIndex, get_record, of_account, mock_vector,
}
use rtc_retrieval_token_cutt.VectorIndex.Search.{
  Expected, text, SeedHit, TypedQuery, matches_filter, matches_raw_filters, record_to_vector_hit,
  collect_hits, is_child, with_slash, query_filters, search_by_vector, search_children, search,
}
use rtc_retrieval_token_cutt.VectorIndex.Records.{IsIndex}
use rtc_retrieval_token_cutt.VectorIndex.Ranking.{ranked-All}
use rtc_retrieval_token_cutt.VectorIndex.Found.{collect_hits-All}

-- The hit of a stored record of an account.
pub record ShowsAccount (account_id : Text) (x : VectorIndex) (h : SeedHit) : Type 0 where
  pub key : Text
  pub found : IndexRecord
  pub stored : get_record key x ≡ some found
  pub owned : of_account account_id found ≡ true
  pub shown : h ≡ record_to_vector_hit found h.score

All-map {ℓ} :
    {A : Type ℓ} {P Q : A → Type 0} → ((a : A) → P a → Q a) → (xs : List A) → All P xs → All Q xs
All-map f [] h = tt
All-map f (x ∷ xs) h = (f x h.0, All-map f xs h.1)

and-left : (a b : Bool) → (a && b) ≡ true → a ≡ true
and-left true b h = refl
and-left false b h = absurd (cc)

account_filter-of_account :
    (account_id : Text) (fs : List (Text × Expected)) (r : IndexRecord)
    → matches_raw_filters r ((codes "account_id", text account_id) ∷ fs) ≡ true
    → of_account account_id r ≡ true
unfolding matches_raw_filters
account_filter-of_account account_id fs r h =
    and-left (matches_filter r (codes "account_id", text account_id)) (matches_raw_filters r fs) h

query_filters-account :
    (q : TypedQuery)
    → q.account_id ≢ []
    → (fs : List (Text × Expected)) × (query_filters q
        ≡ (codes "account_id", text q.account_id) ∷ fs)
query_filters-account q given = named q.account_id given
  where
    named :
        (a : Text)
        → a ≢ []
        → (fs : List (Text × Expected)) × (query_filters (record q { account_id = a })
            ≡ (codes "account_id", text a) ∷ fs)
    named [] g = absurd (g refl)
    named (c ∷ a) g = (_, refl)

module _ (ops : FloatOps) where
  -- A search for a query that names an account returns hits of that account's records only, whatever
  -- else the query asks for.
  pub search-ShowsAccount :
      (digest : Text → ℕ) (q : TypedQuery) (top_k : ℕ) (x : VectorIndex) (hits : List SeedHit)
      → IsIndex x
      → q.account_id ≢ []
      → search ops digest q top_k x ≡ ok hits
      → All (ShowsAccount q.account_id x) hits
  unfolding search search_by_vector
  search-ShowsAccount digest q top_k x hits i given h =
      let (fs, e) = query_filters-account q given in
      let query = mock_vector ops digest x.dimension q.text in
      let p : IndexRecord → Bool = λ r. matches_raw_filters r (query_filters q) in
      ranked-All ops (ShowsAccount q.account_id x) _ (collect_hits ops p query x.vectors x.records)
        hits h
        (λ all found.
          All-map
            (λ hit f. record {
              key = f.key;
              found = f.found;
              stored = f.stored;
              owned = account_filter-of_account q.account_id fs f.found (rw e at f.passes);
              shown = f.shown;
            })
            all (collect_hits-All ops p query x.vectors x.records all i.distinct found).0)

starts_with-drop : (s p : Text) → starts_with s p ≡ true → s ≡ p ++ drop (length p) s
unfolding starts_with
starts_with-drop s [] h = refl
starts_with-drop [] (y ∷ p) h = absurd (cc)
starts_with-drop (x ∷ s) (y ∷ p) h =
    rw ((==_iff x y).0 (and-left (x == y) (starts_with s p) h))
      (ap (◌∷◌ y) (starts_with-drop s p (and-right (x == y) (starts_with s p) h)))
  where
    and-right : (a b : Bool) → (a && b) ≡ true → b ≡ true
    and-right true b h = h
    and-right false b h = absurd (cc)

-- The URI of a hit names something directly in a directory.
abbrev pub IsDirectChild : Text → SeedHit → Type 0
IsDirectChild parent h =
    (name : Text) × (h.uri ≡ parent ++ name) × (contains name (codes "/") ≡ false)

is_child-name :
    (parent uri : Text)
    → is_child parent uri ≡ true
    → (name : Text) × (uri ≡ parent ++ name) × (contains name (codes "/") ≡ false)
is_child-name parent uri h = (
  drop (length parent) uri,
  starts_with-drop uri parent (and-left (starts_with uri parent) _ h),
  ground (arith, h),
)

module _ (ops : FloatOps) where
  -- A search below a directory returns direct children of it only.
  pub search_children-IsDirectChild :
      (parent_uri : Text) (query : Vector) (filters : List (Text × Expected)) (top_k : ℕ)
      (x : VectorIndex) (hits : List SeedHit)
      → IsIndex x
      → search_children ops parent_uri query filters top_k x ≡ ok hits
      → All (IsDirectChild (with_slash parent_uri)) hits
  unfolding search_children record_to_vector_hit
  search_children-IsDirectChild parent_uri query filters top_k x hits i h =
      let parent = with_slash parent_uri in
      let p : IndexRecord → Bool = λ r. is_child parent r.uri && matches_raw_filters r filters in
      ranked-All ops (IsDirectChild parent) top_k (collect_hits ops p query x.vectors x.records)
        hits h
        (λ all found.
          All-map
            (λ hit f.
              let (name, uri, flat) = is_child-name parent f.found.uri (
                and-left (is_child parent f.found.uri) (matches_raw_filters f.found filters)
                  f.passes) in
              (name, ap (λ z. z.uri) f.shown ∙ uri, flat))
            all (collect_hits-All ops p query x.vectors x.records all i.distinct found).0)
