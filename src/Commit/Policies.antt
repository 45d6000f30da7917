-- ===== src/Commit/Policies.antt =====
-- code-version/commit/merge_policies.py: the policies that decide between creation, merge and skip.
-- The clock and `uuid4` give the stamp and the unique id.
use rtc_retrieval_token_cutt.Base.{
  ◌+◌, Bool, true, false, Option, none, some, [], ◌∷◌, ◌++◌, Text, codes, is_empty, text_eq,
  if◌then◌else◌, Result, ok, raised, type_error, ◌>>=◌,
}
use rtc_retrieval_token_cutt.Json.{Json, null, bool, num, str, Fields, end, field, lookup_field}
use rtc_retrieval_token_cutt.Outbox.Event.{get_or}
use rtc_retrieval_token_cutt.Nodes.Methods.{Caller, ReadNode}
use rtc_retrieval_token_cutt.Commit.Keys.{normalize_routing_key}
use rtc_retrieval_token_cutt.Commit.Resolver.{Vars}
use rtc_retrieval_token_cutt.Commit.Plan.{CandidateMemory, WritePlan, metadata_of}

abbrev pub plan_of : (action target_uri : Text) → Fields → WritePlan
plan_of action target_uri merged_fields = record {
  action = action;
  target_uri = target_uri;
  merged_fields = merged_fields;
  relation_edges = [];
}

abbrev pub create : (target_uri : Text) → Fields → WritePlan
create uri fields = plan_of (codes "create") uri fields

abbrev pub merge : (target_uri : Text) → Fields → WritePlan
merge uri fields = plan_of (codes "merge") uri fields

abbrev pub text_or_null : Option Text → Json
text_or_null none = null
text_or_null (some t) = str t

-- `existing_node.metadata.get("version", 0)`
abbrev pub current_version : ReadNode → Json
current_version node = get_or (lookup_field (codes "version") (metadata_of node)) (num 0)

-- `existing_node.metadata.get("usage_count", 0) + 1`
abbrev pub count_up : Json → Result Json
count_up (num n) = ok (num (n + 1))
count_up _ = raised type_error

abbrev pub next_usage : ReadNode → Result Json
next_usage node = count_up (get_or (lookup_field (codes "usage_count") (metadata_of node)) (num 0))

-- The fields of a merge by replacement, and of one by appending.
abbrev pub replacing : CandidateMemory → ReadNode → Fields
replacing candidate node = field (codes "abstract") (text_or_null candidate.abstract) (
    field (codes "overview") (text_or_null candidate.overview) (
      field (codes "content") (text_or_null candidate.content)
        (field (codes "expected_version") (current_version node) end)))

abbrev pub replacing_at : (now : Text) → CandidateMemory → ReadNode → Fields
replacing_at now candidate node = field (codes "abstract") (text_or_null candidate.abstract) (
    field (codes "overview") (text_or_null candidate.overview) (
      field (codes "content") (text_or_null candidate.content) (
        field (codes "updated_at") (str now)
          (field (codes "expected_version") (current_version node) end))))

abbrev pub appending : CandidateMemory → ReadNode → Fields
appending candidate node = field (codes "existing_overview") (str node.overview) (
    field (codes "overview_append") (text_or_null candidate.overview) (
      field (codes "existing_content") (str node.content) (
        field (codes "content_append") (text_or_null candidate.content)
          (field (codes "expected_version") (current_version node) end))))

abbrev pub accumulating : CandidateMemory → ReadNode → (usage_count : Json) → Fields
accumulating candidate node usage_count = field (codes "skill_merge") (bool true) (
    field (codes "existing_content") (str node.content) (
      field (codes "existing_overview") (str node.overview) (
        field (codes "existing_abstract") (str node.abstract) (
          field (codes "new_content") (text_or_null candidate.content) (
            field (codes "new_overview") (text_or_null candidate.overview) (
              field (codes "new_abstract") (text_or_null candidate.abstract) (
                field (codes "usage_count") usage_count
                  (field (codes "expected_version") (current_version node) end))))))))

-- A clock and a source of unique ids, as one plan reads them.
pub record Moment : Type 0 where
  pub now : Text
  pub timestamp : Text
  pub unique_id : Text

abbrev pub stamp : Moment → Text
stamp t = t.timestamp ++ codes "_" ++ t.unique_id

module _ (lower : Text → Text) (resolve : (memory_type : Text) → Vars → Result Text)
    (exists : Text → Result Bool) (read_node : Text → Result ReadNode) where
  -- What each policy does where the node exists, and where it does not.
  abbrev pub merge_if :
      Bool → Text → (ReadNode → Result Fields) → (created : Fields) → Result WritePlan
  merge_if false target_uri merged created = ok (create target_uri created)
  merge_if true target_uri merged created =
      read_node target_uri >>= λ node. merged node >>= λ fields. ok (merge target_uri fields)

  abbrev pub merge_or_create :
      Text → (ReadNode → Result Fields) → (created : Fields) → Result WritePlan
  merge_or_create target_uri merged created =
      exists target_uri >>= λ there. merge_if there target_uri merged created

  -- ProfilePolicy.plan
  unfoldable pub plan_profile : Moment → CandidateMemory → Result WritePlan
  plan_profile t candidate =
      resolve (codes "profile") ((codes "routing_key", candidate.routing_key) ∷ [])
      >>= λ target_uri.
          merge_or_create target_uri (λ node. ok (replacing_at t.now candidate node)) end

  abbrev topic_field : Text → Text
  topic_field category =
      if text_eq category (codes "preference")
      then codes "topic"
      else if text_eq category (codes "entity")
      then codes "name"
      else if text_eq category (codes "pattern")
      then codes "topic"
      else codes "routing_key"

  -- AggregateTopicPolicy.plan
  unfoldable pub plan_topic : CandidateMemory → Result WritePlan
  unfolding normalize_routing_key text_eq
  plan_topic candidate =
      let key = normalize_routing_key lower candidate.routing_key candidate.category in
      resolve candidate.category ((topic_field candidate.category, key) ∷ []) >>= λ target_uri.
      merge_or_create target_uri
        (λ node.
          ok
            (field (codes "abstract") (text_or_null candidate.abstract) (appending candidate node)))
        end

  abbrev event_fields : Moment → CandidateMemory → Vars
  event_fields t candidate =
      if text_eq candidate.category (codes "event")
      then (codes "event_name", candidate.routing_key) ∷ (codes "timestamp", stamp t) ∷ []
      else if text_eq candidate.category (codes "case")
      then (codes "case_name", candidate.routing_key) ∷ (codes "timestamp", stamp t) ∷ []
      else (codes "routing_key", candidate.routing_key ++ codes "_" ++ stamp t) ∷ []

  -- AppendOnlyPolicy.plan
  unfoldable pub plan_event : Moment → CandidateMemory → Result WritePlan
  unfolding text_eq
  plan_event t candidate = resolve candidate.category (event_fields t candidate) >>= λ target_uri.
      ok (create target_uri end)

  abbrev skill_fields : CandidateMemory → Vars
  skill_fields candidate =
      (
        (if text_eq candidate.category (codes "tool")
            then codes "tool_identifier"
            else codes "skill_name"),
        candidate.routing_key,
      )
      ∷ []

  -- SkillToolPolicy.plan
  unfoldable pub plan_skill : CandidateMemory → Result WritePlan
  unfolding text_eq lookup_field
  plan_skill candidate = resolve candidate.category (skill_fields candidate) >>= λ target_uri.
      merge_or_create target_uri
        (λ node. next_usage node >>= λ usage_count. ok (accumulating candidate node usage_count))
        (field (codes "usage_count") (num 1) end)

  -- `candidate.routing_key or "default"`, and the key in its place
  unfoldable pub key_or_stamp : (memory_type : Text) → Moment → CandidateMemory → Text
  unfolding normalize_routing_key text_eq
  key_or_stamp memory_type t candidate =
      let routing_key =
        if is_empty candidate.routing_key then codes "default" else candidate.routing_key in
      if text_eq routing_key (codes "default")
      then stamp t
      else normalize_routing_key lower routing_key memory_type

  module _ (ctx : Caller) where
    -- NaturalLanguageMemoryPolicy.plan
    unfoldable pub plan_language : Moment → CandidateMemory → Result WritePlan
    unfolding key_or_stamp
    plan_language t candidate =
        let target_uri =
          codes "ctx://"
          ++ ctx.account_id
          ++ codes "/users/"
          ++ ctx.user_id
          ++ codes "/memories/natural_language/"
          ++ key_or_stamp (codes "natural_language") t candidate in
        merge_or_create target_uri (λ node. ok (appending candidate node)) end

    -- ToolOutputPolicy.plan
    unfoldable pub plan_output : Moment → CandidateMemory → Result WritePlan
    unfolding key_or_stamp
    plan_output t candidate =
        let target_uri =
          codes "ctx://"
          ++ ctx.account_id
          ++ codes "/agents/"
          ++ ctx.agent_id
          ++ codes "/memories/tool_outputs/"
          ++ key_or_stamp (codes "tool_outputs") t candidate in
        merge_or_create target_uri (λ node. ok (replacing candidate node)) end
