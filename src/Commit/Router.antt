-- ===== src/Commit/Router.antt =====
-- code-version/commit/policy_router.py: the policy of a candidate, by its category and its schema. The
-- cache of the policy objects is left out: a policy keeps no state.
use rtc_retrieval_token_cutt.Base.{
  Bool, ◌&&◌, ◌||◌, Option, none, some, List, Text, codes, text_eq, if◌then◌else◌, Result, raised,
  value_error,
}
use rtc_retrieval_token_cutt.VectorIndex.Dict.{get, put}
use rtc_retrieval_token_cutt.Commit.Resolver.{Schema}
use rtc_retrieval_token_cutt.Commit.Plan.{CandidateMemory, WritePlan}

pub data Policy (P : Type 0) : Type 0 where
  profile_policy topic_policy event_policy skill_policy chunk_policy language_policy output_policy :
      Policy P
  custom : P → Policy P

unfoldable pub is_skill_tool_schema : Schema → Bool
unfolding text_eq
is_skill_tool_schema schema =
    text_eq schema.owner_scope (codes "agent")
    && (text_eq schema.memory_type (codes "skill") || text_eq schema.memory_type (codes "tool"))

module _ {P : Type 0} where
  unfoldable pub select_policy_from_schema : Schema → Option (Policy P)
  unfolding is_skill_tool_schema
  select_policy_from_schema schema =
      if is_skill_tool_schema schema
      then some skill_policy
      else if text_eq schema.operation_mode (codes "add_only")
      then some event_policy
      else if text_eq schema.operation_mode (codes "upsert")
      then (if schema.is_single_file then some profile_policy else some topic_policy)
      else none

  abbrev pub route_schema : Option Schema → Option (Policy P)
  route_schema none = none
  route_schema (some schema) = select_policy_from_schema schema

  unfoldable pub route_category :
      (registry : Text → Option Schema) (category : Text) → Option (Policy P)
  unfolding select_policy_from_schema text_eq
  route_category registry category =
      if text_eq category (codes "code")
      then some chunk_policy
      else if text_eq category (codes "natural_language")
      then some language_policy
      else if text_eq category (codes "tool_outputs")
      then some output_policy
      else route_schema (registry category)

  unfoldable pub route :
      (custom_policies : List (Text × P)) (registry : Text → Option Schema) (category : Text)
      → Option (Policy P)
  unfolding route_category text_eq
  route custom_policies registry category = elim (get category custom_policies) [
    | some policy ↦ some (custom policy)
    | none ↦ route_category registry category
  ]

  unfoldable pub register_policy : (category : Text) → P → List (Text × P) → List (Text × P)
  unfolding text_eq
  register_policy category policy custom_policies = put category policy custom_policies

  -- `plan`: the plan of the policy, or ValueError.
  abbrev pub plan_by :
      (plan : Policy P → CandidateMemory → Result WritePlan)
      → CandidateMemory
      → Option (Policy P)
      → Result WritePlan
  plan_by plan candidate none = raised value_error
  plan_by plan candidate (some policy) = plan policy candidate
