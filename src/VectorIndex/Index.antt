-- ===== src/VectorIndex/Index.antt =====
-- providers/vector_index/in_memory_index.py: the state of InMemoryVectorIndex, and the operations
-- that change it. A float is the number that its 64 bits spell; what the processor computes with
-- floats, and the digest of `hashlib`, are parameters.
use rtc_retrieval_token_cutt.Base.{
  ℕ, zero, suc, ◌+◌, ◌*◌, ◌%◌, ◌^◌, Bool, ◌&&◌, Option, List, [], ◌∷◌, Text, codes, length,
  is_empty, if◌then◌else◌,
}
use rtc_retrieval_token_cutt.Json.{null, Fields, lookup_field, is_text}
use rtc_retrieval_token_cutt.Outbox.Event.{get_or}
use rtc_retrieval_token_cutt.VectorIndex.Dict.{get, put, pop}

abbrev pub Vector : Type 0
Vector = List ℕ

-- IndexRecord of code-version/core/models.py, with the values that its annotations name. `embedding`
-- is `metadata["_embedding"]`, the empty list where it is missing.
pub record IndexRecord : Type 0 where
  pub id : Text
  pub uri : Text
  pub level : ℕ
  pub text : Text
  pub filters : Fields
  pub metadata : Fields
  pub embedding : Vector

pub record FloatOps : Type 0 where
  pub zero_float : ℕ
  pub add : ℕ → ℕ → ℕ
  pub mul : ℕ → ℕ → ℕ
  pub div : ℕ → ℕ → ℕ
  pub sqrt : ℕ → ℕ
  pub is_zero : ℕ → Bool
  -- `<` and `<=`, both false beside a NaN
  pub below : ℕ → ℕ → Bool
  pub at_most : ℕ → ℕ → Bool
  -- `(seed / 0x7fffffff) * 2 - 1`
  pub scaled : (seed : ℕ) → ℕ

pub record VectorIndex : Type 0 where
  pub dimension : ℕ
  pub records : List (Text × IndexRecord)
  pub vectors : List (Text × Vector)

abbrev pub new_index : (dimension : ℕ) → VectorIndex
new_index dimension = record { dimension = dimension; records = []; vectors = [] }

-- One step of the linear congruential generator; `& 0x7fffffff` keeps 31 bits.
abbrev pub next_seed : ℕ → ℕ
next_seed seed = (1103515245 * seed + 12345) % 2 ^ 31

unfoldable pub seeded_vector : FloatOps → (n : ℕ) → (seed : ℕ) → Vector
seeded_vector ops zero seed = []
seeded_vector ops (suc n) seed =
    let seed' = next_seed seed in ops.scaled seed' ∷ seeded_vector ops n seed'

-- `record.filters.get(key)` against a text
abbrev pub filter_is : Text → Text → IndexRecord → Bool
filter_is key value r = is_text value (get_or (lookup_field key r.filters) null)

module _ (ops : FloatOps) (digest : Text → ℕ) where
  abbrev pub mock_vector : (dimension : ℕ) → Text → Vector
  mock_vector dimension text = seeded_vector ops dimension (digest text)

  abbrev pub vector_of : (dimension : ℕ) → IndexRecord → Vector
  vector_of dimension r = if is_empty r.embedding then mock_vector dimension r.text else r.embedding

  unfoldable pub upsert : List IndexRecord → VectorIndex → VectorIndex
  unfolding seeded_vector
  upsert [] x = x
  upsert (r ∷ rs) x = upsert rs (record x {
    records = put r.id r x.records;
    vectors = put r.id (vector_of x.dimension r) x.vectors;
  })

unfoldable pub delete : List Text → VectorIndex → VectorIndex
delete [] x = x
delete (i ∷ is) x = delete is (record x { records = pop i x.records; vectors = pop i x.vectors })

abbrev pub get_record : Text → VectorIndex → Option IndexRecord
get_record record_id x = get record_id x.records

abbrev pub count : VectorIndex → ℕ
count x = length x.records

abbrev pub clear : VectorIndex → VectorIndex
clear x = record x { records = []; vectors = [] }

-- The keys of the records that pass a test.
abbrev pub chosen_keys : (IndexRecord → Bool) → List (Text × IndexRecord) → List Text
chosen_keys p [] = []
chosen_keys p ((k, r) ∷ d) = let rest = chosen_keys p d in if p r then k ∷ rest else rest

-- Both take the keys first and delete then; the number of the keys is returned.
unfoldable pub delete_chosen : (IndexRecord → Bool) → VectorIndex → ℕ × VectorIndex
unfolding delete
delete_chosen p x = let ids = chosen_keys p x.records in (length ids, delete ids x)

abbrev pub of_account : Text → IndexRecord → Bool
of_account account_id r = filter_is (codes "account_id") account_id r

abbrev pub of_owner : Text → Text → IndexRecord → Bool
of_owner account_id owner_space r =
    of_account account_id r && filter_is (codes "owner_space") owner_space r

unfoldable pub delete_account_data : (account_id : Text) → VectorIndex → ℕ × VectorIndex
unfolding delete_chosen is_text lookup_field
delete_account_data account_id x = delete_chosen (of_account account_id) x

unfoldable pub delete_by_owner_space :
    (account_id owner_space : Text) → VectorIndex → ℕ × VectorIndex
unfolding delete_chosen is_text lookup_field
delete_by_owner_space account_id owner_space x = delete_chosen (of_owner account_id owner_space) x
