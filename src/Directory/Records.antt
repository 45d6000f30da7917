-- ===== src/Directory/Records.antt =====
-- index/directory_event_handler.py: the node of a directory and its records for the vector index;
-- build_single_record of code-version/index/index_record_builder.py. The digest of an identifier is a
-- parameter, and the two errors of a missing filter are one.
use rtc_retrieval_token_cutt.Base.{
  ℕ, ◌-◌, not, none, List, [], ◌∷◌, ◌++◌, Text, codes, is_empty, text_eq, take, length, contains,
  rstrip, split_on, ends_with, if◌then◌else◌, Result, ok, guard, validation_error, ◌>>=◌, ◌>>◌,
}
use rtc_retrieval_token_cutt.Json.{Json, num, str, arr, to_items, Fields, end, field, set_field}
use rtc_retrieval_token_cutt.Filter.Lines.{decimal}
use rtc_retrieval_token_cutt.Nodes.Meta.{ContextNode}
use rtc_retrieval_token_cutt.Nodes.Methods.{Caller}
use rtc_retrieval_token_cutt.VectorIndex.Index.{Vector, IndexRecord}
use rtc_retrieval_token_cutt.Directory.Summaries.{DirectorySummary, name_of}

-- `build_single_record`
unfoldable pub build_single_record :
    (generate_id : Text → ℕ → Text) (uri : Text) (level : ℕ)
    (text account_id owner_space category context_type : Text)
    → Result IndexRecord
build_single_record generate_id uri level text account_id owner_space category context_type = do
  guard (not (is_empty account_id)) validation_error
  guard (not (is_empty owner_space)) validation_error
  ok (record {
    id = generate_id uri level;
    uri = uri;
    level = level;
    text = text;
    filters = field (codes "account_id") (str account_id) (
        field (codes "owner_space") (str owner_space) (
          field (codes "category") (str category)
            (field (codes "context_type") (str context_type) end)));
    metadata = field (codes "level") (str (decimal level)) (
        field (codes "category") (str category)
          (field (codes "context_type") (str context_type) end));
    embedding = [];
  })

-- `ContextNode.parent_uri`
unfoldable pub parent_uri : Text → Text
unfolding contains rstrip name_of ends_with
parent_uri uri =
    let u = if ends_with uri (codes "/") then rstrip b'/' uri else uri in
    if contains u (codes "/") then take (length u - length (name_of u)) u else []

abbrev texts_json : List Text → List Json
texts_json [] = []
texts_json (t ∷ ts) = str t ∷ texts_json ts

-- `_extract_owner_space_from_uri`
abbrev pub owner_of_parts : (user_space : Text) → List Text → Text
owner_of_parts user_space (a ∷ b ∷ c ∷ kind ∷ name ∷ rest) =
    if text_eq kind (codes "users")
    then codes "user:" ++ name
    else if text_eq kind (codes "agents")
    then codes "agent:" ++ name
    else user_space
owner_of_parts user_space _ = user_space

unfoldable pub extract_owner_space_from_uri : Text → Caller → Text
unfolding split_on text_eq
extract_owner_space_from_uri uri ctx =
    owner_of_parts (codes "user:" ++ ctx.user_id) (split_on b'/' uri)

abbrev directory_category : Text → Text
directory_category name = if is_empty name then codes "directory" else name

-- `dir_node` of `_summary_task`
unfoldable pub dir_node_of : (dir_uri : Text) → DirectorySummary → Caller → ContextNode
unfolding extract_owner_space_from_uri name_of rstrip to_items
dir_node_of dir_uri summary ctx = record {
  uri = dir_uri;
  context_type = codes "MEMORY";
  category = directory_category (name_of (rstrip b'/' dir_uri));
  level = 0;
  owner_space = extract_owner_space_from_uri dir_uri ctx;
  abstract = summary.abstract;
  overview = summary.overview;
  content = [];
  metadata = field (codes "node_type") (str (codes "directory")) (
      field (codes "child_count") (num summary.child_count)
        (field (codes "categories") (arr (to_items (texts_json summary.categories))) end));
  relations = [];
  expected_version = none;
}

abbrev mark_directory : ContextNode → DirectorySummary → Fields → Fields
mark_directory node summary fs = set_field (codes "child_count") (num summary.child_count) (
    set_field (codes "parent_uri") (str (parent_uri node.uri))
      (set_field (codes "node_type") (str (codes "directory")) fs))

abbrev mark_categories : DirectorySummary → Fields → Fields
mark_categories summary fs =
    set_field (codes "categories") (arr (to_items (texts_json summary.categories))) fs

-- The record of the overview, where there is one.
abbrev overview_records :
    (generate_id : Text → ℕ → Text)
    → ContextNode
    → DirectorySummary
    → Caller
    → Result (List IndexRecord)
overview_records generate_id node summary ctx =
    if is_empty summary.overview
    then ok []
    else (build_single_record generate_id node.uri 1 summary.overview ctx.account_id
          node.owner_space node.category node.context_type
        >>= λ r. ok (record r { metadata = mark_directory node summary r.metadata } ∷ []))

-- The records of a directory, before they are embedded.
unfoldable pub directory_records :
    (generate_id : Text → ℕ → Text)
    → ContextNode
    → DirectorySummary
    → Caller
    → Result (List IndexRecord)
unfolding build_single_record parent_uri set_field to_items
directory_records generate_id node summary ctx =
    build_single_record generate_id node.uri 0 summary.abstract ctx.account_id node.owner_space
      node.category node.context_type
    >>= λ r. overview_records generate_id node summary ctx >>= λ more. ok (
        record r { metadata = mark_categories summary (mark_directory node summary r.metadata) }
        ∷ more)

abbrev pub texts_of : List IndexRecord → List Text
texts_of [] = []
texts_of (r ∷ rs) = r.text ∷ texts_of rs

-- `zip(records, embeddings)`
abbrev pub with_embeddings : List IndexRecord → List Vector → List IndexRecord
with_embeddings [] vs = []
with_embeddings (r ∷ rs) [] = []
with_embeddings (r ∷ rs) (v ∷ vs) = record r { embedding = v } ∷ with_embeddings rs vs
