-- ===== src/Worker/Extract.antt =====
-- index/outbox_worker.py: `_extract_records`, which reads the index records of an event's payload
-- and refuses those of another account, and `_augment_with_embeddings`.
use rtc_retrieval_token_cutt.Base.{
  ℕ, Bool, ◌&&◌, Option, none, some, List, [], ◌∷◌, Text, codes, starts_with, drop, length, map,
  if◌then◌else◌, Result, ok, raised, value_error, type_error, key_error, attribute_error, ◌>>=◌,
  ◌>>◌, guard,
}
use rtc_retrieval_token_cutt.Json.{
  Json, null, float, str, arr, obj, nil, Fields, end, lookup_field, set_field, is_text, is_some,
  has_key, items_list, to_items,
}
use rtc_retrieval_token_cutt.Outbox.Event.{OutboxEvent, get_or}
use rtc_retrieval_token_cutt.Outbox.Register.{IndexRecord}

-- value[key], for a key that is a text
unfoldable pub get_item : Text → Json → Result Json
get_item k (obj fs) = elim (lookup_field k fs) [ none ↦ raised key_error | some v ↦ ok v ]
get_item k _ = raised type_error

-- What stands before the first occurrence of a text, and what stands behind it.
unfoldable pub before_text : Text → Text → Text
before_text p [] = []
before_text p (x ∷ s) = let rest = before_text p s in if starts_with (x ∷ s) p then [] else x ∷ rest

unfoldable pub after_text : Text → Text → Option Text
after_text p [] = none
after_text p (x ∷ s) =
    let rest = after_text p s in
    if starts_with (x ∷ s) p then some (drop (length p) (x ∷ s)) else rest

-- `event.uri.split("://")[1].split("/")[0]`
unfoldable pub expected_account : Text → Result Text
unfolding before_text after_text
expected_account uri = elim (after_text (codes "://") uri) [
  | none ↦ raised value_error
  | some rest ↦ ok (before_text (codes "/") (before_text (codes "://") rest))
]

abbrev has_field : Text → Fields → Bool
has_field k fs = is_some (lookup_field k fs)

abbrev pub value_of : Text → Fields → Json
value_of k fs = get_or (lookup_field k fs) null

-- One round of the loop over `records_data`.
unfoldable pub read_record : Json → Result IndexRecord
unfolding has_key
read_record (obj fs) = do
  guard
      (has_field (codes "id") fs
        && has_field (codes "uri") fs
        && has_field (codes "level") fs
        && has_field (codes "text") fs
        && has_field (codes "filters") fs)
      value_error
  has_account ← has_key (codes "account_id") (value_of (codes "filters") fs)
  guard has_account value_error
  has_owner ← has_key (codes "owner_space") (value_of (codes "filters") fs)
  guard has_owner value_error
  ok (record {
    id = value_of (codes "id") fs;
    uri = value_of (codes "uri") fs;
    level = value_of (codes "level") fs;
    text = value_of (codes "text") fs;
    filters = value_of (codes "filters") fs;
    metadata = get_or (lookup_field (codes "metadata") fs) (obj end);
  })
read_record _ = raised attribute_error

unfoldable pub read_records : List Json → Result (List IndexRecord)
unfolding read_record
read_records [] = ok []
read_records (v ∷ vs) = do r ← read_record v; rs ← read_records vs; ok (r ∷ rs)

-- `record.filters.get("account_id", "") != expected_account`
unfoldable pub check_account : Text → Json → Result (Unit {0})
unfolding is_text
check_account account (obj fs) =
    guard (is_text account (get_or (lookup_field (codes "account_id") fs) (str []))) value_error
check_account account _ = raised attribute_error

unfoldable pub check_accounts : Text → List IndexRecord → Result (Unit {0})
unfolding check_account
check_accounts account [] = ok tt
check_accounts account (r ∷ rs) = do check_account account r.filters; check_accounts account rs

-- A value that is to be a list
unfoldable pub as_list : Json → Result (List Json)
unfolding items_list
as_list (arr vs) = ok (items_list vs)
as_list _ = raised value_error

unfoldable pub extract_records : OutboxEvent → Result (List IndexRecord)
unfolding has_key get_item as_list read_records expected_account check_accounts
extract_records event = do
  has_records ← has_key (codes "records") event.payload
  guard has_records value_error
  records_data ← get_item (codes "records") event.payload
  dicts ← as_list records_data
  records ← read_records dicts
  account ← expected_account event.uri
  check_accounts account records
  ok records

abbrev pub Vector : Type 0
Vector = List ℕ

-- `dict(metadata)`. A list of pairs, of which `dict` would make a dictionary, counts as an error.
unfoldable pub as_dict : Json → Result Fields
as_dict (obj fs) = ok fs
as_dict (arr nil) = ok end
as_dict (str []) = ok end
as_dict _ = raised type_error

unfoldable pub with_embedding : IndexRecord → Vector → Result IndexRecord
unfolding as_dict set_field to_items
with_embedding r v = do
  fs ← as_dict r.metadata
  ok (record r {
    metadata = obj (set_field (codes "_embedding") (arr (to_items (map float v))) fs);
  })

-- `zip` stops at the shorter list.
unfoldable pub augment_with_embeddings : List IndexRecord → List Vector → Result (List IndexRecord)
unfolding with_embedding
augment_with_embeddings [] vs = ok []
augment_with_embeddings (r ∷ rs) [] = ok []
augment_with_embeddings (r ∷ rs) (v ∷ vs) = do
  a ← with_embedding r v
  as' ← augment_with_embeddings rs vs
  ok (a ∷ as')
