-- ===== src/Directory/Dag.antt =====
-- index/directory_event_handler.py: DirectoryEventHandler. The tasks of the event loop are a list, of
-- which any may run next, up to the point where it waits: for a call that another thread makes, or for
-- the semaphore. A lock is never waited for, since nobody waits while holding one.
use rtc_retrieval_token_cutt.Base.{
  ℕ, zero, suc, ◌+◌, ◌-◌, ◌==◌, Bool, true, not, ◌&&◌, Option, none, some, List, [], ◌∷◌, ◌++◌,
  Text, text_eq, take, keep_if, length, if◌then◌else◌, Result, ok, raised,
}
use rtc_retrieval_token_cutt.Nodes.Meta.{ContextNode}
use rtc_retrieval_token_cutt.VectorIndex.Dict.{get, put}
use rtc_retrieval_token_cutt.VectorIndex.Index.{Vector, IndexRecord}
use rtc_retrieval_token_cutt.Directory.Summaries.{
  DirectorySummary, ChildSummary, Answer, is_directory_uri,
}

pub record DirNode : Type 0 where
  pub children_dirs : List Text
  pub file_children : List Text
  pub child_index : List (Text × ℕ)
  pub children_summaries : List (Option ChildSummary)
  pub pending : ℕ
  pub summary_scheduled : Bool

pub record DagStats : Type 0 where
  pub total_dirs : ℕ
  pub pending_dirs : ℕ
  pub completed_dirs : ℕ
  pub failed_dirs : ℕ

-- What a task has before it: `_dispatch_dir`, `_file_task`, and `_summary_task` at its beginning, before
-- the call of the model, before the write of the node, before the embedding and before the upsert.
pub data Task : Type 0 where
  dispatch : (dir_uri : Text) → (parent_uri : Option Text) → Task
  file : (parent_uri file_uri : Text) → Task
  summary : (dir_uri : Text) → Task
  generate : (dir_uri : Text) → List ChildSummary → Task
  store : (dir_uri : Text) → DirectorySummary → Task
  embed : (dir_uri : Text) → DirectorySummary → List IndexRecord → Task
  upsert : (dir_uri : Text) → DirectorySummary → List IndexRecord → Task

-- The calls of the other components, which are run on a world of their own.
pub record DagServices : Type 1 where
  pub World : Type 0
  pub list_children : Text → World → Result (List Text)
  -- The abstract and the category of a node.
  pub read_node : Text → World → Result (Text × Text)
  pub complete_json : (prompt : Text) → World → Result Answer × World
  pub write_node : ContextNode → World → Result (Unit {0}) × World
  pub embed_texts : List Text → World → Result (List Vector) × World
  pub upsert_records : List IndexRecord → World → Result (Unit {0}) × World

module _ (S : DagServices) where
  pub record Dag : Type 0 where
    pub nodes : List (Text × DirNode)
    pub parent_map : List (Text × Option Text)
    pub tasks : List Task
    pub stats : DagStats
    pub root_done : Bool
    pub world : S.World

  -- A new task goes last.
  abbrev pub spawn : List Task → Dag → Dag
  spawn ts s = record s { tasks = s.tasks ++ ts }

  -- What ends a child: `node.pending -= 1`, and the summary where that was the last. A count
  -- that Python would take below 0 stays there, and stays other than 1.
  abbrev pub child_ended : (dir_uri : Text) → DirNode → Dag → Dag
  child_ended dir_uri node s =
      let left = node.pending - 1 in
      if node.pending == 1 && not node.summary_scheduled
      then spawn (summary dir_uri ∷ []) (record s {
        nodes = put dir_uri (record node { pending = left; summary_scheduled = true }) s.nodes;
      })
      else record s { nodes = put dir_uri (record node { pending = left }) s.nodes }

  abbrev pub file_ended : (parent_uri : Text) → Option DirNode → Dag → Dag
  file_ended parent_uri none s = s
  file_ended parent_uri (some node) s = child_ended parent_uri node s

  unfoldable pub on_file_done : (parent_uri : Text) → Dag → Dag
  unfolding text_eq
  on_file_done parent_uri s = file_ended parent_uri (get parent_uri s.nodes) s

  abbrev set_at : ℕ → Option ChildSummary → List (Option ChildSummary) → List (Option ChildSummary)
  set_at n result [] = []
  set_at zero result (o ∷ os) = result ∷ os
  set_at (suc n) result (o ∷ os) = o ∷ set_at n result os

  -- `node.children_summaries[idx] = child_summary`, where the child has an index
  abbrev pub set_summary : Text → Option ChildSummary → DirNode → DirNode
  set_summary child_uri result node = elim (get child_uri node.child_index) [
    | none ↦ node
    | some idx ↦ record node { children_summaries = set_at idx result node.children_summaries }
  ]

  abbrev pub dir_ended :
      (parent_uri child_uri : Text) → Option ChildSummary → Option DirNode → Dag → Dag
  dir_ended parent_uri child_uri result none s = s
  dir_ended parent_uri child_uri result (some node) s =
      child_ended parent_uri (set_summary child_uri result node) s

  unfoldable pub on_child_done : (parent_uri child_uri : Text) → Option ChildSummary → Dag → Dag
  unfolding text_eq
  on_child_done parent_uri child_uri result s =
      dir_ended parent_uri child_uri result (get parent_uri s.nodes) s

  abbrev pub count_failed : Dag → Dag
  count_failed s = record s { stats = record s.stats { failed_dirs = s.stats.failed_dirs + 1 } }

  -- To the parent, or to whoever waits for the root.
  abbrev pub report :
      (parent_uri : Option Text) → (child_uri : Text) → Option ChildSummary → Dag → Dag
  report none child_uri result s = record s { root_done = true }
  report (some parent_uri) child_uri result s = on_child_done parent_uri child_uri result s

  abbrev index_from : ℕ → List Text → List (Text × ℕ) → List (Text × ℕ)
  index_from n [] d = d
  index_from n (u ∷ us) d = index_from (n + 1) us (put u n d)

  abbrev nothing_yet : List Text → List (Option ChildSummary)
  nothing_yet [] = []
  nothing_yet (u ∷ us) = none ∷ nothing_yet us

  abbrev pub file_tasks : (dir_uri : Text) → List Text → List Task
  file_tasks dir_uri [] = []
  file_tasks dir_uri (u ∷ us) = file dir_uri u ∷ file_tasks dir_uri us

  abbrev pub dir_tasks : (dir_uri : Text) → List Text → List Task
  dir_tasks dir_uri [] = []
  dir_tasks dir_uri (u ∷ us) = dispatch u (some dir_uri) ∷ dir_tasks dir_uri us

  -- The node of a directory whose children are after_listing.
  unfoldable pub new_dir : List Text → DirNode
  unfolding is_directory_uri text_eq
  new_dir children =
      let dirs = keep_if is_directory_uri children in
      let files = keep_if (λ u. not (is_directory_uri u)) children in
      record {
        children_dirs = dirs;
        file_children = files;
        child_index = index_from 0 dirs [];
        children_summaries = nothing_yet dirs;
        pending = length dirs + length files;
        summary_scheduled = length dirs + length files == 0;
      }

  abbrev pub first_tasks : (dir_uri : Text) → DirNode → List Task
  first_tasks dir_uri node =
      if node.pending == 0
      then summary dir_uri ∷ []
      else file_tasks dir_uri node.file_children ++ dir_tasks dir_uri node.children_dirs

  abbrev pub register : (dir_uri : Text) → DirNode → Dag → Dag
  register dir_uri node s = spawn (first_tasks dir_uri node) (record s {
    nodes = put dir_uri node s.nodes;
    stats = record s.stats {
      total_dirs = s.stats.total_dirs + 1;
      pending_dirs = s.stats.pending_dirs + 1;
    };
  })

  abbrev pub after_listing :
      (max_children : ℕ) (dir_uri : Text) (parent_uri : Option Text)
      → Result (List Text)
      → Dag
      → Dag
  after_listing max_children dir_uri parent_uri (raised x) s =
      report parent_uri dir_uri none (count_failed s)
  after_listing max_children dir_uri parent_uri (ok children) s =
      register dir_uri (new_dir (take max_children children)) s

  abbrev pub dispatch_new :
      (max_children : ℕ) (dir_uri : Text) (parent_uri : Option Text) → Option DirNode → Dag → Dag
  dispatch_new max_children dir_uri parent_uri (some _) s = s
  dispatch_new max_children dir_uri parent_uri none s =
      after_listing max_children dir_uri parent_uri (S.list_children dir_uri s.world)
        (record s { parent_map = put dir_uri parent_uri s.parent_map })

  -- `_dispatch_dir`
  unfoldable pub dispatch_dir :
      (max_children : ℕ) (dir_uri : Text) (parent_uri : Option Text) → Dag → Dag
  unfolding new_dir on_child_done
  dispatch_dir max_children dir_uri parent_uri s =
      dispatch_new max_children dir_uri parent_uri (get dir_uri s.nodes) s

  abbrev pub parent_of : Text → Dag → Option Text
  parent_of dir_uri s = elim (get dir_uri s.parent_map) [ none ↦ none | some p ↦ p ]
