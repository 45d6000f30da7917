-- ===== src/VectorIndex/Samples.antt =====
-- A small index with whole numbers for scores, and the theorems about it there.
use rtc_retrieval_token_cutt.Base.{
  ℕ, ◌+◌, ◌*◌, ◌/◌, ◌==◌, ◌≡◌, refl, true, false, List, [], ◌∷◌, Text, codes, text_eq, length,
  keep_if, arith, leb, ltb, All, ok,
}
use rtc_retrieval_token_cutt.Json.{null, bool, num, str, Fields, end, field}
use rtc_retrieval_token_cutt.VectorIndex.Index.{
  Vector, IndexRecord, FloatOps, VectorIndex, new_index, upsert, delete_account_data, of_account,
}
use rtc_retrieval_token_cutt.VectorIndex.Search.{
  Expected, text, nothing, SeedHit, TypedQuery, matches_raw_filters, record_to_vector_hit,
  cosine_similarity, search_by_vector, search,
}
use rtc_retrieval_token_cutt.VectorIndex.Records.{IsIndex, Deletes, delete_account_data-Deletes}
use rtc_retrieval_token_cutt.VectorIndex.Hits.{AreHits}
use rtc_retrieval_token_cutt.VectorIndex.Ranking.{FloatOrder, Best}
use rtc_retrieval_token_cutt.VectorIndex.Found.{search_by_vector-Best}
use rtc_retrieval_token_cutt.VectorIndex.Scope.{ShowsAccount, search-ShowsAccount}

abbrev whole : FloatOps
whole = record {
  zero_float = 0;
  add = λ a b. a + b;
  mul = λ a b. a * b;
  div = λ a b. 100 * a / b;
  sqrt = λ a. a;
  is_zero = λ a. a == 0;
  below = λ a b. ltb a b;
  at_most = λ a b. leb a b;
  scaled = λ a. a;
}

whole-asymmetric : (a b : ℕ) → ltb a b ≡ true → ltb b a ≡ false
whole-asymmetric a b h = ground arith

whole-transitive : (a b c : ℕ) → ltb a b ≡ false → ltb b c ≡ false → ltb a c ≡ false
whole-transitive a b c h k = ground arith

abbrev whole_order : FloatOrder whole
whole_order = record {
  IsNumber = λ a. Unit;
  asymmetric = λ a b _ _ h. whole-asymmetric a b h;
  transitive = λ a b c _ _ _ h k. whole-transitive a b c h k;
}

abbrev digest : Text → ℕ
digest t = length t

abbrev filters_of : Text → Text → Fields
filters_of account owner =
    field (codes "account_id") (str account) (field (codes "owner_space") (str owner) end)

abbrev memo : Text → Text → Vector → IndexRecord
memo account uri embedding = record {
  id = uri;
  uri = uri;
  level = 2;
  text = codes "t";
  filters = filters_of account (codes "user:u1");
  metadata = end;
  embedding = embedding;
}

abbrev tea : IndexRecord
tea = memo (codes "acme") (codes "d/tea") (5 ∷ 0 ∷ [])

abbrev cup : IndexRecord
cup = memo (codes "acme") (codes "d/cup") (1 ∷ 1 ∷ [])

abbrev other : IndexRecord
other = memo (codes "other") (codes "d/x/y") (2 ∷ 1 ∷ [])

abbrev filled : VectorIndex
filled = record {
  dimension = 2;
  records = (tea.id, tea) ∷ (cup.id, cup) ∷ (other.id, other) ∷ [];
  vectors = (tea.id, tea.embedding) ∷ (cup.id, cup.embedding) ∷ (other.id, other.embedding) ∷ [];
}

filled_lem : upsert whole digest (tea ∷ cup ∷ other ∷ []) (new_index 2) ≡ filled
unfolding upsert text_eq
filled_lem = refl

filled-IsIndex : IsIndex filled
unfolding text_eq
filled-IsIndex = record {
  distinct = (refl, (refl, (refl, tt)));
  same_keys = (refl, (refl, (refl, tt)));
}

delete_account_data-Deletes_example :
    Deletes (of_account (codes "acme")) filled (delete_account_data (codes "acme") filled)
delete_account_data-Deletes_example =
    delete_account_data-Deletes (codes "acme") filled filled-IsIndex

abbrev query : Vector
query = 1 ∷ 0 ∷ []

abbrev hit_of : IndexRecord → ℕ → SeedHit
hit_of r score = record {
  uri = r.uri;
  score = score;
  level = 2;
  parent_uri = null;
  context_type = str [];
  category = str [];
  owner_space = str (codes "user:u1");
  abstract = codes "t";
  has_overview = bool false;
  has_content = bool false;
  active_count = num 0;
  updated_at = null;
}

abbrev in_acme : List (Text × Expected)
in_acme = (codes "account_id", text (codes "acme")) ∷ []

searched : search_by_vector whole query in_acme 1 filled ≡ ok (hit_of cup 50 ∷ [])
unfolding search_by_vector record_to_vector_hit cosine_similarity
searched = refl

search_by_vector-Best_example :
    (all : List SeedHit) × AreHits whole query filled.vectors
      (keep_if (λ e. matches_raw_filters e.1 in_acme) filled.records)
      all
    × Best whole whole_order 1 all (hit_of cup 50 ∷ [])
search_by_vector-Best_example =
    search_by_vector-Best whole whole_order query in_acme 1 filled (hit_of cup 50 ∷ [])
      (λ k s e. tt) searched

abbrev asked : TypedQuery
asked = record {
  text = codes "tea";
  context_type = [];
  categories = [];
  top_k = 1;
  account_id = codes "acme";
  owner_space = nothing;
}

answered : search whole digest asked 0 filled ≡ ok (hit_of tea 0 ∷ [])
unfolding search search_by_vector record_to_vector_hit cosine_similarity
answered = refl

search-ShowsAccount_example : All (ShowsAccount (codes "acme") filled) (hit_of tea 0 ∷ [])
search-ShowsAccount_example =
    search-ShowsAccount whole digest asked 0 filled (hit_of tea 0 ∷ []) filled-IsIndex (λ e. cc)
      answered
