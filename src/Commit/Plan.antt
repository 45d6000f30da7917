-- ===== src/Commit/Plan.antt =====
-- code-version/core/models.py: what the commit path passes from stage to stage, and the context file
-- system as its callers see it.
use rtc_retrieval_token_cutt.Base.{ℕ, Bool, Option, none, some, List, Text, codes, Result}
use rtc_retrieval_token_cutt.Json.{Json, Fields, end, field}
use rtc_retrieval_token_cutt.Nodes.Files.{RelationEdge}
use rtc_retrieval_token_cutt.Nodes.Meta.{ContextNode}
use rtc_retrieval_token_cutt.Nodes.Methods.{ReadNode}

-- CandidateMemory; the confidence is a float. Validation leaves None for an empty text.
pub record CandidateMemory : Type 0 where
  pub category : Text
  pub owner_scope : Text
  pub routing_key : Text
  pub abstract : Option Text
  pub overview : Option Text
  pub content : Option Text
  pub confidence : ℕ
  pub when : Option Text
  pub who : Option Text
  pub place : Option Text
  pub tool_stats : Fields
  pub code_metadata : Fields
  pub attributed_speaker : Option Text
  pub attribution_basis : Option Text

pub record WritePlan : Type 0 where
  pub action : Text
  pub target_uri : Text
  pub merged_fields : Fields
  pub relation_edges : List RelationEdge

-- `metadata` of a node that was read.
abbrev pub optional : Text → Option Json → Fields → Fields
optional k none fs = fs
optional k (some v) fs = field k v fs

abbrev pub metadata_of : ReadNode → Fields
metadata_of r = field (codes "created_at") r.created_at (
    field (codes "updated_at") r.updated_at (
      field (codes "version") r.version
        (optional (codes "tags") r.tags (optional (codes "status") r.status end))))

-- ContextFS of core/interfaces.py for one caller: what its methods do to the state of the files.
pub record ContextFs : Type 1 where
  pub Files : Type 0
  pub exists : Text → Files → Result Bool
  pub read_node : Text → Files → Result ReadNode
  pub write_node : ContextNode → Files → Result (Unit {0}) × Files
  pub delete_node : Text → Files → Result (Unit {0}) × Files
