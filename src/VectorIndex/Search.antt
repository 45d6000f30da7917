-- ===== src/VectorIndex/Search.antt =====
-- providers/vector_index/in_memory_index.py: the filters and the two searches of InMemoryVectorIndex.
use rtc_retrieval_token_cutt.Base.{
  ℕ, ◌==◌, Bool, true, false, not, ◌&&◌, ◌||◌, Option, none, some, List, [], ◌∷◌, ◌++◌, Text, codes,
  text_eq, starts_with, ends_with, contains, drop, take, length, if◌then◌else◌, Result, ok, raised,
  value_error, key_error, ◌>>=◌, is_empty,
}
use rtc_retrieval_token_cutt.Json.{Json, null, bool, num, str, Fields, lookup_field, is_text}
use rtc_retrieval_token_cutt.Outbox.Event.{get_or}
use rtc_retrieval_token_cutt.VectorIndex.Dict.{get}
use rtc_retrieval_token_cutt.VectorIndex.Index.{
  Vector, IndexRecord, FloatOps, VectorIndex, mock_vector, seeded_vector,
}

-- The values that callers put into `filters`.
pub data Expected : Type 0 where
  nothing : Expected
  text : Text → Expected
  texts : List Text → Expected
  number : ℕ → Expected
  numbers : List ℕ → Expected

abbrev any_number : ℕ → List ℕ → Bool
any_number n [] = false
any_number n (m ∷ ms) = n == m || any_number n ms

abbrev pub any_text : Json → List Text → Bool
any_text v [] = false
any_text v (t ∷ ts) = is_text t v || any_text v ts

-- `n == expected` or `n in expected`
abbrev pub level_matches : ℕ → Expected → Bool
level_matches n (number m) = n == m
level_matches n (numbers ms) = any_number n ms
level_matches n _ = false

abbrev is_num : ℕ → Json → Bool
is_num n (num m) = m == n
is_num n (bool b) = (if b then 1 else 0) == n
is_num n _ = false

abbrev any_num : Json → List ℕ → Bool
any_num v [] = false
any_num v (n ∷ ns) = is_num n v || any_num v ns

abbrev is_null : Json → Bool
is_null null = true
is_null _ = false

-- The same for a value of a dictionary; one that is a float matches nothing here.
abbrev pub value_matches : Json → Expected → Bool
value_matches v nothing = is_null v
value_matches v (text t) = is_text t v
value_matches v (texts ts) = any_text v ts
value_matches v (number n) = is_num n v
value_matches v (numbers ns) = any_num v ns

abbrev pub field_or_null : Text → Fields → Json
field_or_null k fs = get_or (lookup_field k fs) null

-- One round of the loop of `_matches_raw_filters`: a key of another name passes.
unfoldable pub matches_filter : IndexRecord → Text × Expected → Bool
unfolding text_eq lookup_field is_text
matches_filter r (key, expected) =
    if text_eq key (codes "level")
    then level_matches r.level expected
    else if text_eq key (codes "account_id") || text_eq key (codes "owner_space")
    then value_matches (field_or_null key r.filters) expected
    else if text_eq key (codes "context_type") || text_eq key (codes "category")
    then value_matches (field_or_null key r.metadata) expected
    else true

unfoldable pub matches_raw_filters : IndexRecord → List (Text × Expected) → Bool
unfolding matches_filter
matches_raw_filters r [] = true
matches_raw_filters r (f ∷ fs) = matches_filter r f && matches_raw_filters r fs

-- SeedHit of code-version/core/models.py, as `_record_to_vector_hit` fills it.
pub record SeedHit : Type 0 where
  pub uri : Text
  pub score : ℕ
  pub level : ℕ
  pub parent_uri : Json
  pub context_type : Json
  pub category : Json
  pub owner_space : Json
  pub abstract : Text
  pub has_overview : Json
  pub has_content : Json
  pub active_count : Json
  pub updated_at : Json

unfoldable pub record_to_vector_hit : IndexRecord → (score : ℕ) → SeedHit
unfolding lookup_field
record_to_vector_hit r score = record {
  uri = r.uri;
  score = score;
  level = r.level;
  parent_uri = field_or_null (codes "parent_uri") r.metadata;
  context_type = get_or (lookup_field (codes "context_type") r.metadata) (str []);
  category = get_or (lookup_field (codes "category") r.metadata) (str []);
  owner_space = get_or (lookup_field (codes "owner_space") r.filters) (str []);
  abstract = take 200 r.text;
  has_overview = get_or (lookup_field (codes "has_overview") r.metadata) (bool false);
  has_content = get_or (lookup_field (codes "has_content") r.metadata) (bool false);
  active_count = get_or (lookup_field (codes "active_count") r.metadata) (num 0);
  updated_at = field_or_null (codes "updated_at") r.metadata;
}

abbrev pub with_slash : Text → Text
with_slash uri = if ends_with uri (codes "/") then uri else uri ++ codes "/"

-- A direct child of a directory: no slash in what stands behind the directory's URI.
abbrev pub is_child : (parent : Text) → Text → Bool
is_child parent uri =
    starts_with uri parent && not (contains (drop (length parent) uri) (codes "/"))

module _ (ops : FloatOps) where
  -- `sum(x * y for x, y in zip(a, b))`
  abbrev dot_from : ℕ → Vector → Vector → ℕ
  dot_from total [] ys = total
  dot_from total (x ∷ xs) [] = total
  dot_from total (x ∷ xs) (y ∷ ys) = dot_from (ops.add total (ops.mul x y)) xs ys

  abbrev dot_product : Vector → Vector → ℕ
  dot_product a b = dot_from ops.zero_float a b

  -- `_cosine_similarity`
  unfoldable pub cosine_similarity : Vector → Vector → Result ℕ
  cosine_similarity a b =
      let magnitude_a = ops.sqrt (dot_product a a) in
      let magnitude_b = ops.sqrt (dot_product b b) in
      if length a == length b
      then (if ops.is_zero magnitude_a || ops.is_zero magnitude_b
          then ok ops.zero_float
          else ok (ops.div (dot_product a b) (ops.mul magnitude_a magnitude_b)))
      else raised value_error

  -- `self._cosine_similarity(query_vector, self._vectors[record_id])`
  abbrev pub similarity : Vector → Option Vector → Result ℕ
  similarity query none = raised key_error
  similarity query (some v) = cosine_similarity query v

  -- The loop over `self._records.items()`, for the records that pass a test.
  unfoldable pub collect_hits :
      (IndexRecord → Bool)
      → Vector
      → List (Text × Vector)
      → List (Text × IndexRecord)
      → Result (List SeedHit)
  unfolding cosine_similarity record_to_vector_hit
  collect_hits p query vectors [] = ok []
  collect_hits p query vectors ((k, r) ∷ d) =
      let rest = collect_hits p query vectors d in
      if p r
      then (similarity query (get k vectors) >>= λ score.
          rest >>= λ hits. ok (record_to_vector_hit r score ∷ hits))
      else rest

  -- `hits.sort(key=lambda h: h.score, reverse=True)`, which is stable.
  abbrev pub insert_hit : SeedHit → List SeedHit → List SeedHit
  insert_hit h [] = h ∷ []
  insert_hit h (g ∷ gs) =
      let rest = insert_hit h gs in if ops.below h.score g.score then g ∷ rest else h ∷ g ∷ gs

  abbrev pub sort_hits : List SeedHit → List SeedHit
  sort_hits [] = []
  sort_hits (h ∷ hs) = insert_hit h (sort_hits hs)

  abbrev pub ranked : (top_k : ℕ) → Result (List SeedHit) → Result (List SeedHit)
  ranked top_k hits = hits >>= λ hs. ok (take top_k (sort_hits hs))

  unfoldable pub search_by_vector :
      Vector → List (Text × Expected) → (top_k : ℕ) → VectorIndex → Result (List SeedHit)
  unfolding collect_hits matches_raw_filters
  search_by_vector query filters top_k x =
      ranked top_k (collect_hits (λ r. matches_raw_filters r filters) query x.vectors x.records)

  unfoldable pub search_children :
      (parent_uri : Text)
      → Vector
      → List (Text × Expected)
      → (top_k : ℕ) → VectorIndex
      → Result (List SeedHit)
  unfolding collect_hits matches_raw_filters starts_with ends_with contains
  search_children parent_uri query filters top_k x =
      let parent = with_slash parent_uri in
      ranked top_k (
        collect_hits (λ r. is_child parent r.uri && matches_raw_filters r filters) query x.vectors
          x.records)

-- TypedQuery of code-version/core/models.py, without the fields that this search does not read.
pub record TypedQuery : Type 0 where
  pub text : Text
  pub context_type : Text
  pub categories : List Text
  pub top_k : ℕ
  pub account_id : Text
  pub owner_space : Expected

-- `if query.owner_space`
abbrev pub is_given : Expected → Bool
is_given nothing = false
is_given (text t) = not (is_empty t)
is_given (texts ts) = not (is_empty ts)
is_given (number n) = not (n == 0)
is_given (numbers ns) = not (is_empty ns)

abbrev pub filter_if : Bool → Text → Expected → List (Text × Expected)
filter_if given key e = if given then (key, e) ∷ [] else []

-- The filters that `search` builds from a query.
abbrev pub query_filters : TypedQuery → List (Text × Expected)
query_filters q =
    filter_if (not (is_empty q.account_id)) (codes "account_id") (text q.account_id)
    ++ filter_if (is_given q.owner_space) (codes "owner_space") q.owner_space
    ++ filter_if (not (is_empty q.context_type)) (codes "context_type") (text q.context_type)
    ++ filter_if (not (is_empty q.categories)) (codes "category") (texts q.categories)

-- `top_k or query.top_k`, where a missing `top_k` is 0.
unfoldable pub search :
    FloatOps → (digest : Text → ℕ) → TypedQuery → (top_k : ℕ) → VectorIndex → Result (List SeedHit)
unfolding search_by_vector seeded_vector
search ops digest q top_k x =
    search_by_vector ops (mock_vector ops digest x.dimension q.text) (query_filters q)
      (if top_k == 0 then q.top_k else top_k) x
