-- ===== src/Commit/Builder.antt =====
-- code-version/commit/archive_builder.py: the node that a candidate and its plan make. The language
-- model that merges two texts is a parameter; it may raise.
use rtc_retrieval_token_cutt.Base.{
  ℕ, Bool, ◌&&◌, ◌||◌, Option, none, some, List, [], ◌++◌, Text, codes, is_empty, text_eq,
  if◌then◌else◌, Result, ok, ◌>>=◌,
}
use rtc_retrieval_token_cutt.Json.{
  Json, null, str, obj, Fields, end, field, lookup_field, set_field, is_some,
}
use rtc_retrieval_token_cutt.Outbox.Event.{get_or}
use rtc_retrieval_token_cutt.Nodes.Files.{RelationEdge}
use rtc_retrieval_token_cutt.Nodes.Methods.{Caller}
use rtc_retrieval_token_cutt.Commit.Plan.{CandidateMemory, WritePlan}
use rtc_retrieval_token_cutt.Commit.Policies.{text_or_null}
use rtc_retrieval_token_cutt.Commit.Chunks.{is_truthy}

-- ContextNode as the builder makes it: its texts may be None, and its metadata has the expected
-- version. The value under "_relations" stands apart.
pub record NodeDraft : Type 0 where
  pub uri : Text
  pub context_type : Text
  pub category : Text
  pub level : ℕ
  pub owner_space : Text
  pub abstract : Option Text
  pub overview : Option Text
  pub content : Option Text
  pub metadata : Fields
  pub relations : List RelationEdge

abbrev pub text_of : Json → Option Text
text_of (str s) = some s
text_of _ = none

-- f"{new}", for a text or None
abbrev pub format : Json → Text
format (str s) = s
format _ = codes "None"

-- f"{existing}\n\n{new}", or the new text alone
abbrev pub joined : (existing new : Json) → Option Text
joined existing new =
    if is_truthy existing then some (format existing ++ codes "\n\n" ++ format new) else text_of new

abbrev pub has : Text → Fields → Bool
has k fs = is_some (lookup_field k fs)

abbrev pub item_or : Text → Json → Fields → Json
item_or k other fs = get_or (lookup_field k fs) other

abbrev pub is_merge : WritePlan → Bool
is_merge plan = text_eq plan.action (codes "merge") && is_truthy (obj plan.merged_fields)

-- `_merge_overview`
unfoldable pub merge_overview : CandidateMemory → Fields → Option Text
unfolding lookup_field
merge_overview candidate fields =
    let existing = item_or (codes "existing_overview") (str []) fields in
    let old = text_or_null candidate.overview in
    if is_truthy (item_or (codes "skill_merge") null fields)
    then joined existing (item_or (codes "new_overview") old fields)
    else if has (codes "overview_append") fields
    then joined existing (item_or (codes "overview_append") old fields)
    else candidate.overview

-- The keys of the plan's fields that go into the metadata.
abbrev pub copy : Text → Fields → Fields → Fields
copy k fields metadata = elim (lookup_field k fields) [
  | none ↦ metadata
  | some v ↦ set_field k v metadata
]

-- `if value: metadata[key] = value`
abbrev pub put_text : Text → Option Text → Fields → Fields
put_text k none metadata = metadata
put_text k (some t) metadata = if is_empty t then metadata else set_field k (str t) metadata

abbrev pub put_stats : Fields → Fields → Fields
put_stats end metadata = metadata
put_stats stats metadata = set_field (codes "tool_stats") (obj stats) metadata

-- d.update(e)
unfoldable pub put_all : Fields → Fields → Fields
unfolding set_field
put_all end metadata = metadata
put_all (field k v fs) metadata = put_all fs (set_field k v metadata)

unfoldable pub build_metadata : (now : Text) → CandidateMemory → (fields : Fields) → Fields
unfolding lookup_field put_all text_eq
build_metadata now candidate fields =
    let start = field (codes "created_at") (str now) end in
    let counted =
      copy (codes "usage_count_increment") fields
        (copy (codes "usage_count") fields (copy (codes "expected_version") fields start)) in
    let placed =
      put_text (codes "where") candidate.place
        (put_text (codes "who") candidate.who (put_text (codes "when") candidate.when counted)) in
    let chunked = put_all candidate.code_metadata (put_stats candidate.tool_stats placed) in
    copy (codes "latest_snapshot_uri") fields
      (copy (codes "chunk_hash") fields (copy (codes "code_identity") fields chunked))

abbrev pub context_type_of : (category : Text) → Text
context_type_of category =
    if text_eq category (codes "skill")
      || text_eq category (codes "pattern")
      || text_eq category (codes "tool")
    then codes "SKILL"
    else codes "MEMORY"

abbrev pub owner_space_of : CandidateMemory → Caller → Text
owner_space_of candidate ctx =
    if text_eq candidate.owner_scope (codes "user")
    then codes "user:" ++ ctx.user_id
    else codes "agent:" ++ ctx.agent_id

module _ (llm_merge : (existing new : Text) → Result (Option Text)) where
  -- `_llm_merge_content`
  abbrev pub llm_merge_content : (existing new : Json) → Result (Option Text)
  llm_merge_content existing new = llm_merge (format existing) (format new) >>= λ content.
      elim content [
        | some t ↦
            ok (
              some (if is_empty t then format existing ++ codes "\n\n---\n\n" ++ format new else t))
        | none ↦ ok (some (format existing ++ codes "\n\n---\n\n" ++ format new))
      ]

  abbrev pub merged_with : (existing new : Json) → Result (Option Text)
  merged_with existing new =
      if is_truthy existing then llm_merge_content existing new else ok (text_of new)

  -- `_merge_content`
  unfoldable pub merge_content : CandidateMemory → Fields → Result (Option Text)
  unfolding lookup_field
  merge_content candidate fields =
      let existing = item_or (codes "existing_content") (str []) fields in
      let old = text_or_null candidate.content in
      if is_truthy (item_or (codes "skill_merge") null fields)
      then merged_with existing (item_or (codes "new_content") old fields)
      else if has (codes "content_append") fields
      then merged_with existing (item_or (codes "content_append") old fields)
      else ok candidate.content

  abbrev pub built_content : CandidateMemory → WritePlan → Result (Option Text)
  built_content candidate plan =
      if is_merge plan then merge_content candidate plan.merged_fields else ok candidate.content

  abbrev pub built_abstract : CandidateMemory → WritePlan → Option Text
  built_abstract candidate plan =
      if text_eq plan.action (codes "merge")
        && is_truthy (item_or (codes "skill_merge") null plan.merged_fields)
      then text_of
          (item_or (codes "new_abstract") (text_or_null candidate.abstract) plan.merged_fields)
      else candidate.abstract

  unfoldable pub build : (now : Text) → CandidateMemory → WritePlan → Caller → Result NodeDraft
  unfolding merge_content merge_overview build_metadata text_eq
  build now candidate plan ctx = built_content candidate plan >>= λ content. ok (record {
    uri = plan.target_uri;
    context_type = context_type_of candidate.category;
    category = candidate.category;
    level = if text_eq candidate.category (codes "profile") then 3 else 4;
    owner_space = owner_space_of candidate ctx;
    abstract = built_abstract candidate plan;
    overview =
        if is_merge plan then merge_overview candidate plan.merged_fields else candidate.overview;
    content = content;
    metadata = build_metadata now candidate plan.merged_fields;
    relations = plan.relation_edges;
  })
